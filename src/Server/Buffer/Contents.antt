-- ===== src/Server/Buffer/Contents.antt =====
-- The buffer as a queue of bytes of bounded size.
use mathlib.Core.List.{append-nil, append_assoc}
use native.Mathlib.Decide.{dec_lt}
use slitherss.Prelude.{
  ℕ, zero, suc, ◌+◌, ◌-◌, ◌≤◌, ◌<◌, ◌≡◌, refl, sym, ap, ◌∙◌, List, [], ◌∷◌, ◌++◌, none, arith, ltb,
  if◌then◌else◌, length, get_elem?, set, take, drop,
}
use slitherss.Server.Buffer.{
  done, too_short, StreambufArray, new_streambuf, contents, commit, consume, underflow, sputc,
  put_all,
}

-- The pointers are in order and within the array, which the put area fills to the end.
pub record IsValid (b : StreambufArray) : Type 0 where
  pub get_le : b.gptr ≤ b.pptr
  pub seen_ge : b.gptr ≤ b.egptr
  pub seen_le : b.egptr ≤ b.pptr
  pub put_le : b.pptr ≤ b.epptr
  pub ends : b.epptr ≡ length b.buffer
  pub sized : b.max_size ≡ length b.buffer

length-set : {A : Type 0} (xs : List A) (i : ℕ) (v : A) → length (set xs i v) ≡ length xs
length-set [] i v = refl
length-set (x ∷ xs) zero v = refl
length-set (x ∷ xs) (suc i) v = ap suc (length-set xs i v)

pub length-drop : {A : Type 0} (n : ℕ) (xs : List A) → length (drop n xs) ≡ length xs - n
length-drop zero xs = omega arith
length-drop (suc n) [] = omega arith
length-drop (suc n) (x ∷ xs) = omega (arith, length-drop n xs)

take-set :
    {A : Type 0} (n : ℕ) (xs : List A) (v : A)
    → n < length xs
    → take (suc n) (set xs n v) ≡ take n xs ++ v ∷ []
take-set n [] v h = absurd (omega arith)
take-set zero (x ∷ xs) v h = refl
take-set (suc n) (x ∷ xs) v h = ap (◌∷◌ x) (take-set n xs v (omega arith))

drop-set :
    {A : Type 0} (m n k : ℕ) (xs : List A) (v : A)
    → m + n ≡ k
    → drop m (set xs k v) ≡ set (drop m xs) n v
drop-set zero n k xs v e = let same : k ≡ n = omega arith in ap (λ i. set xs i v) same
drop-set (suc m) n k [] v e = refl
drop-set (suc m) n zero (x ∷ xs) v e = absurd (omega arith)
drop-set (suc m) n (suc k) (x ∷ xs) v e = drop-set m n k xs v (omega arith)

drop-add : {A : Type 0} (m n k : ℕ) (xs : List A) → m + n ≡ k → drop k xs ≡ drop n (drop m xs)
drop-add zero n k xs e = let same : k ≡ n = omega arith in ap (λ i. drop i xs) same
drop-add (suc m) n zero xs e = absurd (omega arith)
drop-add (suc m) zero (suc k) [] e = refl
drop-add (suc m) (suc n) (suc k) [] e = refl
drop-add (suc m) n (suc k) (x ∷ xs) e = drop-add m n k xs (omega arith)

take-nil : {A : Type 0} (n : ℕ) → take {A = A} n [] ≡ []
take-nil zero = refl
take-nil (suc n) = refl

drop-take : {A : Type 0} (n m : ℕ) (xs : List A) → drop n (take m xs) ≡ take (m - n) (drop n xs)
drop-take zero m xs = let same : m ≡ m - 0 = omega arith in ap (λ i. take i xs) same
drop-take (suc n) zero xs =
    let same : 0 ≡ 0 - suc n = omega arith in ap (λ i. take i (drop (suc n) xs)) same
drop-take (suc n) (suc m) [] = sym (take-nil (suc m - suc n))
drop-take (suc n) (suc m) (x ∷ xs) =
    let same : m - n ≡ suc m - suc n = omega arith in
    drop-take n m xs ∙ ap (λ i. take i (drop n xs)) same

get_elem?-take :
    {A : Type 0} (m n : ℕ) (xs : List A)
    → get_elem? (take m (drop n xs)) 0 ≡ (if ltb 0 m then get_elem? xs n else none)
get_elem?-take zero zero xs = refl
get_elem?-take zero (suc n) xs = refl
get_elem?-take (suc m) zero [] = ground arith
get_elem?-take (suc m) zero (x ∷ xs) = ground arith
get_elem?-take (suc m) (suc n) [] = ground arith
get_elem?-take (suc m) (suc n) (x ∷ xs) = get_elem?-take (suc m) n xs

store_lem :
    (c : ℕ) (b : StreambufArray)
    → IsValid b
    → b.pptr < b.epptr
    → (b' : StreambufArray) × (sputc c b ≡ done b')
      × IsValid b'
      × (contents b' ≡ contents b ++ c ∷ [])
      × (b'.gptr ≡ b.gptr)
      × (b'.pptr ≡ b.pptr + 1)
      × (b'.epptr ≡ b.epptr)
unfolding sputc contents
store_lem c b v h = (
  record b { buffer = set b.buffer b.pptr c; pptr = suc b.pptr },
  ground arith,
  ground (arith, length-set b.buffer b.pptr c),
  written,
  refl,
  omega arith,
  refl,
)
  where
    seen : ℕ
    seen = b.pptr - b.gptr

    written :
        take (suc b.pptr - b.gptr) (drop b.gptr (set b.buffer b.pptr c)) ≡ contents b ++ c ∷ []
    written =
        let next : suc b.pptr - b.gptr ≡ suc seen = omega arith in
        ap (λ i. take i (drop b.gptr (set b.buffer b.pptr c))) next
        ∙ ap (take (suc seen)) (drop-set b.gptr seen b.pptr b.buffer c (omega arith))
        ∙ take-set seen (drop b.gptr b.buffer) c (omega (arith, length-drop b.gptr b.buffer))

pub new_streambuf-IsValid : (array : List ℕ) → IsValid (new_streambuf array)
unfolding new_streambuf
new_streambuf-IsValid array = omega arith

pub contents-new_streambuf : (array : List ℕ) → contents (new_streambuf array) ≡ []
unfolding new_streambuf contents
contents-new_streambuf array = refl

-- Bytes that fit into the room that is left in a valid buffer are all written, after those that
-- are there; nothing is read by it, and the buffer stays valid.
pub put_all_lem :
    (cs : List ℕ) (b : StreambufArray)
    → IsValid b
    → length cs ≤ b.epptr - b.pptr
    → (b' : StreambufArray) × (put_all cs b ≡ done b')
      × IsValid b'
      × (contents b' ≡ contents b ++ cs)
      × (b'.gptr ≡ b.gptr)
      × (b'.pptr ≡ b.pptr + length cs)
      × (b'.epptr ≡ b.epptr)
unfolding put_all
put_all_lem [] b v h = (b, refl, v, sym (append-nil (contents b)), refl, omega arith, refl)
put_all_lem (c ∷ cs) b v h =
    let (b1, e1, v1, c1, g1, p1, q1) = store_lem c b v (omega arith) in
    let (b2, e2, v2, c2, g2, p2, q2) = put_all_lem cs b1 v1 (omega arith) in
    (
      b2,
      rw (e1, put_all) e2,
      v2,
      c2 ∙ ap (λ xs. xs ++ cs) c1 ∙ append_assoc (contents b) (c ∷ []) cs,
      g2 ∙ g1,
      omega arith,
      q2 ∙ q1,
    )

-- More bytes than there is room for, put into a valid buffer from which nothing was read, throw
-- `too_short`.
pub put_all_overrun :
    (cs : List ℕ) (b : StreambufArray)
    → IsValid b
    → b.gptr ≡ 0
    → b.epptr - b.pptr < length cs
    → put_all cs b ≡ too_short
unfolding put_all
put_all_overrun [] b v g h = absurd (omega arith)
put_all_overrun (c ∷ cs) b v g h = elim (dec_lt b.pptr b.epptr) [
  | yes room ↦
      let (b', e, v', _, g', p, q) = store_lem c b v room in
      rw (e, put_all) (put_all_overrun cs b' v' (g' ∙ g) (omega arith))
  | no full ↦ ground arith
]

-- `consume` takes the first bytes of a valid buffer away, as many as there are at most, and keeps the
-- rest; the buffer stays valid.
pub consume_lem :
    (n : ℕ) (b : StreambufArray)
    → IsValid b
    → IsValid (consume n b) × (contents (consume n b) ≡ drop n (contents b))
unfolding consume contents
consume_lem n b v = (
  ground arith,
  ground (
    arith,
    drop-take n (b.pptr - b.gptr) (drop b.gptr b.buffer),
    drop-add b.gptr n (b.gptr + n) b.buffer refl,
  ),
)

-- `underflow` shows the first byte of a valid buffer, if there is one, and takes nothing away; the
-- buffer stays valid.
pub underflow_lem :
    (b : StreambufArray)
    → IsValid b
    → ((underflow b).0 ≡ get_elem? (contents b) 0)
      × (contents (underflow b).1 ≡ contents b)
      × IsValid (underflow b).1
unfolding underflow contents
underflow_lem b v =
    (ground (arith, get_elem?-take (b.pptr - b.gptr) b.gptr b.buffer), ground arith, ground arith)

pub commit-IsValid : (n : ℕ) (b : StreambufArray) → IsValid b → IsValid (commit n b)
unfolding commit
commit-IsValid n b v = ground arith
