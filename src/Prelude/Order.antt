-- ===== src/Prelude/Order.antt =====
-- Ascending lists of numbers: the searches, the insertion and the sort of `<algorithm>` on them.
use Prim.Native.Nat.{ℕ, zero, suc, ◌+◌, ◌≤◌, ◌<◌}
use mathlib.Core.Path.{◌≡◌, refl, ap₂}
use mathlib.Core.Bool.{Bool, false, ◌||◌}
use mathlib.Core.List.{List, [], ◌∷◌}
use native.Mathlib.Omega.{arith}
use slitherss.Prelude.Tests.{◌==◌, ltb, leb, if◌then◌else◌}
use slitherss.Prelude.Lists.{insert_at, select, elem, count}

-- `std::lower_bound` on a sorted range: the position of the first element that is not below a.
unfoldable pub lower_bound : ℕ → List ℕ → ℕ
lower_bound a [] = 0
lower_bound a (x ∷ xs) = if ltb x a then suc (lower_bound a xs) else 0

-- `std::binary_search` on a sorted range, by its documented definition through `lower_bound`.
unfoldable pub binary_search : ℕ → List ℕ → Bool
unfolding lower_bound
binary_search a [] = false
binary_search a (x ∷ xs) = if ltb x a then binary_search a xs else leb x a

-- `std::sort`: on numbers every sort gives this list.
unfoldable pub sort_insert : ℕ → List ℕ → List ℕ
sort_insert a [] = a ∷ []
sort_insert a (x ∷ xs) = if ltb x a then x ∷ sort_insert a xs else a ∷ x ∷ xs

unfoldable pub sort : List ℕ → List ℕ
unfolding sort_insert
sort [] = []
sort (x ∷ xs) = sort_insert x (sort xs)

-- Every element is at least `lo`, and each above the one before it.
abbrev pub Ascends : ℕ → List ℕ → Type 0
Ascends lo [] = Unit {0}
Ascends lo (x ∷ xs) = (lo ≤ x) × Ascends (suc x) xs

abbrev pub IsAscending : List ℕ → Type 0
IsAscending = Ascends 0

-- As `Ascends`, with equal neighbours allowed.
abbrev pub Rises : ℕ → List ℕ → Type 0
Rises lo [] = Unit {0}
Rises lo (x ∷ xs) = (lo ≤ x) × Rises x xs

Ascends-mono : (lo hi : ℕ) (xs : List ℕ) → lo ≤ hi → Ascends hi xs → Ascends lo xs
Ascends-mono lo hi [] h v = tt
Ascends-mono lo hi (x ∷ xs) h v = (omega arith, v.1)

Rises-mono : (lo hi : ℕ) (xs : List ℕ) → lo ≤ hi → Rises hi xs → Rises lo xs
Rises-mono lo hi [] h v = tt
Rises-mono lo hi (x ∷ xs) h v = (omega arith, v.1)

pub Ascends-Rises : (lo : ℕ) (xs : List ℕ) → Ascends lo xs → Rises lo xs
Ascends-Rises lo [] v = tt
Ascends-Rises lo (x ∷ xs) v =
    (v.0, Rises-mono x (suc x) xs (omega arith) (Ascends-Rises (suc x) xs v.1))

elem_below : (lo a : ℕ) (xs : List ℕ) → Ascends lo xs → a < lo → elem a xs ≡ false
elem_below lo a [] v h = refl
elem_below lo a (x ∷ xs) v h = ground (arith, elem_below (suc x) a xs v.1)

-- On an ascending list binary search decides membership.
pub binary_search-elem : (lo a : ℕ) (xs : List ℕ) → Ascends lo xs → binary_search a xs ≡ elem a xs
unfolding binary_search
binary_search-elem lo a [] v = refl
binary_search-elem lo a (x ∷ xs) v =
    ground (arith, binary_search-elem (suc x) a xs v.1, elem_below (suc x) a xs v.1)

pub elem-insert_at : (a b i : ℕ) (xs : List ℕ) → elem b (insert_at i a xs) ≡ (a == b || elem b xs)
elem-insert_at a b zero xs = refl
elem-insert_at a b (suc i) [] = refl
elem-insert_at a b (suc i) (x ∷ xs) = ground (arith, elem-insert_at a b i xs)

-- An element that is missing is inserted in its place.
pub insert_at-Ascends :
    (lo a : ℕ) (xs : List ℕ)
    → lo ≤ a
    → Ascends lo xs
    → elem a xs ≡ false
    → Ascends lo (insert_at (lower_bound a xs) a xs)
unfolding lower_bound
insert_at-Ascends lo a [] h v e = (h, tt)
insert_at-Ascends lo a (x ∷ xs) h v e = ground (arith, insert_at-Ascends (suc x) a xs)

select-Ascends : (p : ℕ → Bool) (lo : ℕ) (xs : List ℕ) → Ascends lo xs → Ascends lo (select p xs)
select-Ascends p lo [] v = tt
select-Ascends p lo (x ∷ xs) v =
    ground (arith, select-Ascends p (suc x) xs v.1, Ascends-mono lo (suc x) (select p xs))

pub select-IsAscending : (p : ℕ → Bool) (xs : List ℕ) → IsAscending xs → IsAscending (select p xs)
select-IsAscending p xs v = select-Ascends p 0 xs v

count-sort_insert :
    (a b : ℕ) (xs : List ℕ) → count b (sort_insert a xs) ≡ (if a == b then 1 else 0) + count b xs
unfolding sort_insert
count-sort_insert a b [] = ground arith
count-sort_insert a b (x ∷ xs) = ground (arith, count-sort_insert a b xs)

pub count-sort : (b : ℕ) (xs : List ℕ) → count b (sort xs) ≡ count b xs
unfolding sort
count-sort b [] = refl
count-sort b (x ∷ xs) = omega (arith, count-sort_insert x b (sort xs), count-sort b xs)

sort_insert-Rises : (lo a : ℕ) (xs : List ℕ) → lo ≤ a → Rises lo xs → Rises lo (sort_insert a xs)
unfolding sort_insert
sort_insert-Rises lo a [] h v = (h, tt)
sort_insert-Rises lo a (x ∷ xs) h v = ground (arith, sort_insert-Rises x a xs)

pub sort-Rises : (xs : List ℕ) → Rises 0 (sort xs)
unfolding sort
sort-Rises [] = tt
sort-Rises (x ∷ xs) = sort_insert-Rises 0 x (sort xs) (omega arith) (sort-Rises xs)

count_below : (lo a : ℕ) (xs : List ℕ) → Rises lo xs → a < lo → count a xs ≡ 0
count_below lo a [] v h = refl
count_below lo a (x ∷ xs) v h = ground (arith, count_below x a xs v.1)

-- A sorted list is determined by how often each number stands in it.
pub Rises-count_ext :
    (lo lo' : ℕ) (xs ys : List ℕ)
    → Rises lo xs
    → Rises lo' ys
    → ((a : ℕ) → count a xs ≡ count a ys)
    → xs ≡ ys
Rises-count_ext lo lo' [] [] v w e = refl
Rises-count_ext lo lo' [] (y ∷ ys) v w e = absurd (ground (arith, e y))
Rises-count_ext lo lo' (x ∷ xs) [] v w e = absurd (ground (arith, e x))
Rises-count_ext lo lo' (x ∷ xs) (y ∷ ys) v w e =
    let same : x ≡ y = ground (arith, e x, e y, count_below y x ys w.1, count_below x y xs v.1) in
    let rest : (a : ℕ) → count a xs ≡ count a ys = λ a. ground (arith, e a) in
    ap₂ ◌∷◌ same (Rises-count_ext x y xs ys v.1 w.1 rest)
