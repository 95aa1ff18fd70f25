-- ===== src/Server/Buffer.antt =====
-- src/server/streambuf_array.h: a stream buffer over an array of fixed size. The pointers of
-- `std::streambuf` are offsets into the array; `eback()` and `pbase()` are always its start.
pub mod Contents
pub mod Full
use slitherss.Prelude.{
  ℕ, zero, suc, ◌+◌, ◌-◌, ◌≤◌, ◌≡◌, Bool, ◌&&◌, List, [], ◌∷◌, ◌++◌, Option, none, some, ltb, leb,
  ◌==◌, if◌then◌else◌, length, get_elem?, set, take, drop,
}

-- What an operation does: it returns, throws `std::length_error` with one of two texts, or writes
-- past the end of the array, after which nothing is known.
pub data Outcome (A : Type 0) : Type 0 where
  done : A → Outcome A
  too_short too_long : Outcome A
  out_of_bounds : Outcome A

pub record StreambufArray : Type 0 where
  pub gptr : ℕ
  pub egptr : ℕ
  pub pptr : ℕ
  pub epptr : ℕ
  pub max_size : ℕ
  pub buffer : List ℕ

-- The constructor, for the array that it finds
unfoldable pub new_streambuf : List ℕ → StreambufArray
new_streambuf array = record {
  gptr = 0;
  egptr = 0;
  pptr = 0;
  epptr = length array;
  max_size = length array;
  buffer = array;
}

unfoldable pub size : StreambufArray → ℕ
size b = b.pptr - b.gptr

-- `data()`: the bytes from gptr to pptr
unfoldable pub contents : StreambufArray → List ℕ
contents b = take (b.pptr - b.gptr) (drop b.gptr b.buffer)

-- `memmove(&buffer_[0], &buffer_[0] + from, n)`
unfoldable pub memmove_down : ℕ → ℕ → List ℕ → List ℕ
memmove_down from n array = take n (drop from array) ++ drop n array

-- The bytes move, the pointers do not.
unfoldable pub reserve : ℕ → StreambufArray → Outcome StreambufArray
unfolding memmove_down
reserve n b =
    let gnext = b.gptr in
    let pend = b.epptr in
    let pnext = if ltb 0 gnext then b.pptr - gnext else b.pptr in
    let moved =
      if ltb 0 gnext then record b { buffer = memmove_down gnext pnext b.buffer } else b in
    let thrown : Outcome StreambufArray =
      if leb n b.max_size && leb pnext (b.max_size - n) then too_short else too_long in
    if leb n (pend - b.pptr) then done b else if ltb (pend - pnext) n then thrown else done moved

-- Gives the offset and the length of the writable part.
unfoldable pub prepare : ℕ → StreambufArray → Outcome (StreambufArray × ℕ × ℕ)
unfolding reserve
prepare n b = elim (reserve n b) [
  | done b' ↦ done (b', b'.pptr, n)
  | too_short ↦ too_short
  | too_long ↦ too_long
  | out_of_bounds ↦ out_of_bounds
]

unfoldable pub commit : ℕ → StreambufArray → StreambufArray
commit n b =
    let k = if ltb b.epptr (b.pptr + n) then b.epptr - b.pptr else n in
    record b { pptr = b.pptr + k; egptr = b.pptr + k }

unfoldable pub consume : ℕ → StreambufArray → StreambufArray
consume n b =
    let seen = if ltb b.egptr b.pptr then record b { egptr = b.pptr } else b in
    let k = if ltb seen.pptr (seen.gptr + n) then seen.pptr - seen.gptr else n in
    record seen { gptr = seen.gptr + k }

-- The next byte, or `none` for eof
unfoldable pub underflow : StreambufArray → Option ℕ × StreambufArray
underflow b =
    if ltb b.gptr b.pptr
    then (get_elem? b.buffer b.gptr, record b { egptr = b.pptr })
    else (none, b)

-- `*pptr() = c; pbump(1)`
unfoldable pub store : ℕ → StreambufArray → Outcome StreambufArray
store c b =
    if ltb b.pptr (length b.buffer)
    then done (record b { buffer = set b.buffer b.pptr c; pptr = suc b.pptr })
    else out_of_bounds

-- `overflow(c)` for a byte c
unfoldable pub overflow : ℕ → StreambufArray → Outcome StreambufArray
unfolding store
overflow c b =
    if b.pptr == b.epptr
    then (if ltb 0 b.gptr
        then elim (reserve b.gptr b) [
          | done b' ↦ store c b'
          | too_short ↦ too_short
          | too_long ↦ too_long
          | out_of_bounds ↦ out_of_bounds
        ]
        else too_short)
    else store c b

-- `std::streambuf::sputc`, by which `std::ostream::put` writes
unfoldable pub sputc : ℕ → StreambufArray → Outcome StreambufArray
unfolding store overflow
sputc c b = if ltb b.pptr b.epptr then store c b else overflow c b

unfoldable pub put_all : List ℕ → StreambufArray → Outcome StreambufArray
unfolding sputc
put_all [] b = done b
put_all (c ∷ cs) b = elim (sputc c b) [
  | done b' ↦ put_all cs b'
  | too_short ↦ too_short
  | too_long ↦ too_long
  | out_of_bounds ↦ out_of_bounds
]
