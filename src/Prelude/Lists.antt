-- ===== src/Prelude/Lists.antt =====
-- `std::vector` as a list with native indices.
use Prim.Native.Nat.{ℕ, zero, suc, ◌+◌, ◌-◌, ◌≤◌, ◌<◌}
use mathlib.Core.Path.{◌≡◌, refl, ap}
use mathlib.Core.Bool.{Bool, false, ◌||◌, not}
use mathlib.Core.Option
use mathlib.Core.Option.{Option, none, some}
use mathlib.Core.List.{List, [], ◌∷◌, ◌++◌, map}
use native.Mathlib.Omega.{arith}
use slitherss.Prelude.Tests.{◌==◌, if◌then◌else◌}

module _ {ℓ} {A : Type ℓ} where
  abbrev pub length : List A → ℕ
  length [] = 0
  length (x ∷ xs) = suc (length xs)

  abbrev pub get_elem? : List A → ℕ → Option A
  get_elem? [] i = none
  get_elem? (x ∷ xs) zero = some x
  get_elem? (x ∷ xs) (suc i) = get_elem? xs i

  abbrev pub get_or : List A → ℕ → A → A
  get_or [] i d = d
  get_or (x ∷ xs) zero d = x
  get_or (x ∷ xs) (suc i) d = get_or xs i d

  -- A write out of bounds changes nothing.
  abbrev pub set : List A → ℕ → A → List A
  set [] i v = []
  set (x ∷ xs) zero v = v ∷ xs
  set (x ∷ xs) (suc i) v = x ∷ set xs i v

  -- An update in place; out of bounds it changes nothing.
  abbrev pub modify : List A → ℕ → (A → A) → List A
  modify [] i f = []
  modify (x ∷ xs) zero f = f x ∷ xs
  modify (x ∷ xs) (suc i) f = x ∷ modify xs i f

  -- `insert` before position i, and `erase` at position i.
  abbrev pub insert_at : ℕ → A → List A → List A
  insert_at zero v xs = v ∷ xs
  insert_at (suc i) v [] = v ∷ []
  insert_at (suc i) v (x ∷ xs) = x ∷ insert_at i v xs

  abbrev pub erase_at : ℕ → List A → List A
  erase_at i [] = []
  erase_at zero (x ∷ xs) = xs
  erase_at (suc i) (x ∷ xs) = x ∷ erase_at i xs

  -- `back`, with a default for the empty vector, and `pop_back`.
  abbrev pub back : A → List A → A
  back d [] = d
  back d (x ∷ xs) = back x xs

  abbrev pub pop_back : List A → List A
  pop_back [] = []
  pop_back (x ∷ []) = []
  pop_back (x ∷ y ∷ ys) = x ∷ pop_back (y ∷ ys)

  abbrev pub take : ℕ → List A → List A
  take zero xs = []
  take (suc n) [] = []
  take (suc n) (x ∷ xs) = x ∷ take n xs

  abbrev pub drop : ℕ → List A → List A
  drop zero xs = xs
  drop (suc n) [] = []
  drop (suc n) (x ∷ xs) = drop n xs

  abbrev pub replicate : ℕ → A → List A
  replicate zero a = []
  replicate (suc n) a = a ∷ replicate n a

  -- The elements that pass a test, in their order.
  abbrev pub select : (A → Bool) → List A → List A
  select p [] = []
  select p (x ∷ xs) = if p x then x ∷ select p xs else select p xs

  abbrev pub All {κ} : (A → Type κ) → List A → Type κ
  All P [] = Unit
  All P (x ∷ xs) = P x × All P xs

  pub length-append : (xs ys : List A) → length (xs ++ ys) ≡ length xs + length ys
  length-append [] ys = omega arith
  length-append (x ∷ xs) ys = omega (arith, length-append xs ys)

  pub length-replicate : (n : ℕ) (a : A) → length (replicate n a) ≡ n
  length-replicate zero a = refl
  length-replicate (suc n) a = ap suc (length-replicate n a)

  pub length-modify : (xs : List A) (i : ℕ) (f : A → A) → length (modify xs i f) ≡ length xs
  length-modify [] i f = refl
  length-modify (x ∷ xs) zero f = refl
  length-modify (x ∷ xs) (suc i) f = ap suc (length-modify xs i f)

  pub get_elem?-modify :
      (xs : List A) (i j : ℕ) (f : A → A)
      → get_elem? (modify xs i f) j
        ≡ (if i == j then Option.map f (get_elem? xs j) else get_elem? xs j)
  get_elem?-modify [] i j f = ground arith
  get_elem?-modify (x ∷ xs) zero zero f = refl
  get_elem?-modify (x ∷ xs) zero (suc j) f = ground arith
  get_elem?-modify (x ∷ xs) (suc i) zero f = ground arith
  get_elem?-modify (x ∷ xs) (suc i) (suc j) f = ground (arith, get_elem?-modify xs i j f)

  pub get_elem?-length : (xs : List A) (i : ℕ) → length xs ≤ i → get_elem? xs i ≡ none
  get_elem?-length [] i h = refl
  get_elem?-length (x ∷ xs) zero h = absurd (omega arith)
  get_elem?-length (x ∷ xs) (suc i) h = get_elem?-length xs i (omega arith)

  pub length-erase_at :
      (xs : List A) (i : ℕ) {x : A}
      → get_elem? xs i ≡ some x
      → length (erase_at i xs) + 1 ≡ length xs
  length-erase_at [] i e = cc
  length-erase_at (x ∷ xs) zero e = omega arith
  length-erase_at (x ∷ xs) (suc i) e = omega (arith, length-erase_at xs i e)

  pub get_elem?-erase_at :
      (xs : List A) (i j : ℕ) → j < i → get_elem? (erase_at i xs) j ≡ get_elem? xs j
  get_elem?-erase_at [] i j h = refl
  get_elem?-erase_at (x ∷ xs) zero j h = absurd (omega arith)
  get_elem?-erase_at (x ∷ xs) (suc i) zero h = refl
  get_elem?-erase_at (x ∷ xs) (suc i) (suc j) h = get_elem?-erase_at xs i j (omega arith)

  pub get_elem?-erased :
      (xs : List A) (i j : ℕ) → i ≤ j → get_elem? (erase_at i xs) j ≡ get_elem? xs (suc j)
  get_elem?-erased [] i j h = refl
  get_elem?-erased (x ∷ xs) zero j h = refl
  get_elem?-erased (x ∷ xs) (suc i) zero h = absurd (omega arith)
  get_elem?-erased (x ∷ xs) (suc i) (suc j) h = get_elem?-erased xs i j (omega arith)

  pub insert_at-length : (xs : List A) (v : A) → insert_at (length xs) v xs ≡ xs ++ v ∷ []
  insert_at-length [] v = refl
  insert_at-length (x ∷ xs) v = ap (◌∷◌ x) (insert_at-length xs v)

  pub length-pop_back : (xs : List A) → length (pop_back xs) ≡ length xs - 1
  length-pop_back [] = omega arith
  length-pop_back (x ∷ []) = omega arith
  length-pop_back (x ∷ y ∷ ys) = omega (arith, length-pop_back (y ∷ ys))

  pub get_or-append :
      (pre : List A) (x : A) (ys : List A) (d : A) → get_or (pre ++ x ∷ ys) (length pre) d ≡ x
  get_or-append [] x ys d = refl
  get_or-append (p ∷ pre) x ys d = get_or-append pre x ys d

  pub pop_back-append : (pre : List A) (x : A) → pop_back (pre ++ x ∷ []) ≡ pre
  pop_back-append [] x = refl
  pop_back-append (p ∷ []) x = refl
  pop_back-append (p ∷ q ∷ pre) x = ap (◌∷◌ p) (pop_back-append (q ∷ pre) x)

  pop_back-append_cons :
      (pre : List A) (x y : A) (zs : List A)
      → pop_back (pre ++ x ∷ y ∷ zs) ≡ pre ++ x ∷ pop_back (y ∷ zs)
  pop_back-append_cons [] x y zs = refl
  pop_back-append_cons (p ∷ []) x y zs = refl
  pop_back-append_cons (p ∷ q ∷ pre) x y zs = ap (◌∷◌ p) (pop_back-append_cons (q ∷ pre) x y zs)

  set-append :
      (pre : List A) (x v : A) (ys : List A) → set (pre ++ x ∷ ys) (length pre) v ≡ pre ++ v ∷ ys
  set-append [] x v ys = refl
  set-append (p ∷ pre) x v ys = ap (◌∷◌ p) (set-append pre x v ys)

  back-append : (d : A) (pre : List A) (x : A) (ys : List A) → back d (pre ++ x ∷ ys) ≡ back x ys
  back-append d [] x ys = refl
  back-append d (p ∷ pre) x ys = back-append p pre x ys

  -- The last element moves into the place of x.
  pub pop_back-set-back :
      (d : A) (pre : List A) (x y : A) (zs : List A)
      → pop_back (set (pre ++ x ∷ y ∷ zs) (length pre) (back d (pre ++ x ∷ y ∷ zs)))
        ≡ pre ++ back y zs ∷ pop_back (y ∷ zs)
  pop_back-set-back d pre x y zs = rw (
    back-append d pre x (y ∷ zs),
    set-append pre x (back y zs) (y ∷ zs),
    pop_back-append_cons pre (back y zs) y zs,
  )

  pub All-append {κ} : (P : A → Type κ) (xs ys : List A) → All P xs → All P ys → All P (xs ++ ys)
  All-append P [] ys p q = q
  All-append P (x ∷ xs) ys (p, ps) q = (p, All-append P xs ys ps q)

pub length-map {ℓ κ} :
    {A : Type ℓ} {B : Type κ} (xs : List A) (f : A → B) → length (map f xs) ≡ length xs
length-map [] f = refl
length-map (x ∷ xs) f = ap suc (length-map xs f)

-- `std::find` on numbers, and how often a number stands in a list.
abbrev pub elem : ℕ → List ℕ → Bool
elem a [] = false
elem a (x ∷ xs) = x == a || elem a xs

abbrev pub count : ℕ → List ℕ → ℕ
count k [] = 0
count k (n ∷ ns) = (if n == k then 1 else 0) + count k ns

pub elem-append : (a : ℕ) (xs ys : List ℕ) → elem a (xs ++ ys) ≡ (elem a xs || elem a ys)
elem-append a [] ys = refl
elem-append a (x ∷ xs) ys = ground (arith, elem-append a xs ys)

pub count-append : (k : ℕ) (ms ns : List ℕ) → count k (ms ++ ns) ≡ count k ms + count k ns
count-append k [] ns = omega arith
count-append k (m ∷ ms) ns = ground (arith, count-append k ms ns)

pub elem-select :
    (p : ℕ → Bool) (a : ℕ) (xs : List ℕ) → elem a (select p xs) ≡ (if p a then elem a xs else false)
elem-select p a [] = ground arith
elem-select p a (x ∷ xs) = ground (arith, elem-select p a xs)

pub count-select :
    (p : ℕ → Bool) (a : ℕ) (xs : List ℕ) → count a (select p xs) ≡ (if p a then count a xs else 0)
count-select p a [] = ground arith
count-select p a (x ∷ xs) = ground (arith, count-select p a xs)

pub count-pop_back :
    (a x : ℕ) (xs : List ℕ) → count a (back x xs ∷ pop_back (x ∷ xs)) ≡ count a (x ∷ xs)
count-pop_back a x [] = refl
count-pop_back a x (y ∷ ys) = omega (arith, count-pop_back a y ys)

pub elem-count : (a : ℕ) (xs : List ℕ) → elem a xs ≡ not (count a xs == 0)
elem-count a [] = refl
elem-count a (x ∷ xs) = ground (arith, elem-count a xs)
