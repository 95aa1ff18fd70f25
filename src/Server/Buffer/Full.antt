-- ===== src/Server/Buffer/Full.antt =====
-- What becomes of a buffer that was filled to the end and then read from.
use slitherss.Prelude.{
  ℕ, zero, suc, ◌-◌, ◌≤◌, ◌<◌, ◌≡◌, refl, true, false, List, [], ◌∷◌, arith, ltb, leb, length,
  length-append, take, drop,
}
use slitherss.Server.Buffer.{done, out_of_bounds, StreambufArray, memmove_down, reserve, sputc}
use slitherss.Server.Buffer.Contents.{IsValid, length-drop}

length-take : {A : Type 0} (n : ℕ) (xs : List A) → n ≤ length xs → length (take n xs) ≡ n
length-take zero xs h = refl
length-take (suc n) [] h = absurd (omega arith)
length-take (suc n) (x ∷ xs) h = omega (arith, length-take n xs (omega arith))

module _ (b : StreambufArray) (v : IsValid b) (full : b.pptr ≡ b.epptr) (read : 0 < b.gptr) where
  abbrev shifted : List ℕ
  shifted = memmove_down b.gptr (b.pptr - b.gptr) b.buffer

  length-shifted : length shifted ≡ length b.buffer
  unfolding memmove_down
  length-shifted =
      let n = b.pptr - b.gptr in
      omega (
        arith,
        length-append (take n (drop b.gptr b.buffer)) (drop n b.buffer),
        length-take n (drop b.gptr b.buffer) (omega (arith, length-drop b.gptr b.buffer)),
        length-drop n b.buffer,
      )

  reserve_full : reserve b.gptr b ≡ done (record b { buffer = shifted })
  unfolding reserve
  reserve_full =
      let none_left : leb b.gptr (b.epptr - b.pptr) ≡ false = ground arith in
      let behind : ltb 0 b.gptr ≡ true = ground arith in
      let enough : ltb (b.epptr - (b.pptr - b.gptr)) b.gptr ≡ false = ground arith in
      rw (none_left, behind) (rw enough)

-- A put into a valid buffer that is full, and of which a part was consumed, does not find the room that the shift of
-- its bytes made: `reserve` leaves the pointers, and the byte is written past the end of the array.
pub sputc_full :
    (c : ℕ) (b : StreambufArray)
    → IsValid b
    → b.pptr ≡ b.epptr
    → 0 < b.gptr
    → sputc c b ≡ out_of_bounds
unfolding sputc
sputc_full c b v full read =
    let past : ltb b.pptr (length (shifted b v full read)) ≡ false =
      ground (arith, length-shifted b v full read) in
    ground (arith, reserve_full b v full read, past)
