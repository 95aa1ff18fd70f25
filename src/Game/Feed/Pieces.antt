-- ===== src/Game/Feed/Pieces.antt =====
-- The food of a sector as the loops of UpdateEatenFood take it away.
use mathlib.Core.List.{Perm}
use mathlib.Core.List.Perm
use mathlib.Core.Option.{some-injective}
use slitherss.Prelude.{
  ℕ, zero, suc, ◌+◌, ◌≤◌, ◌<◌, ◌≡◌, false, List, [], ◌∷◌, ◌++◌, none, some, arith, length,
  get_elem?, erase_at, All, length-erase_at, get_elem?-erase_at,
}
use slitherss.Game.Sector.{Food, remove_food}
use slitherss.Game.Sector.Larder.{RisesX}
use slitherss.Game.Snake.{Snake}
use slitherss.Game.Feed.{in_reach}

abbrev pub total_size : List Food → ℕ
total_size [] = 0
total_size (f ∷ fs) = f.size + total_size fs

pub total_size-append : (xs ys : List Food) → total_size (xs ++ ys) ≡ total_size xs + total_size ys
total_size-append [] ys = omega arith
total_size-append (x ∷ xs) ys = omega (arith, total_size-append xs ys)

abbrev AreSmall : List Food → Type 0
AreSmall = All λ f. f.size ≤ 100

-- Food as a sector keeps it: pieces of a size up to 100, sorted by x.
abbrev pub IsLarder : List Food → Type 0
IsLarder food = AreSmall food × RisesX 0 food

-- A snake that has parts and is not full.
abbrev pub IsHungry : {F : Type 0} → Snake F → Type 0
IsHungry s = (s.fullness < 100) × (0 < length s.parts)

pub remove_food-perm :
    (i : ℕ) (food : List Food) {f : Food}
    → get_elem? food i ≡ some f
    → Perm food (f ∷ remove_food i food)
unfolding remove_food
remove_food-perm i [] e = cc
remove_food-perm zero (g ∷ food) e = rw (some-injective _ _ e) (Perm.refl _)
remove_food-perm (suc i) (g ∷ food) {f} e =
    Perm.trans (Perm.cons g (remove_food-perm i food e)) (Perm.swap f g (erase_at i food))

pub get_elem?-remove_food :
    (i j : ℕ) (food : List Food) → j < i → get_elem? (remove_food i food) j ≡ get_elem? food j
unfolding remove_food
get_elem?-remove_food i j food h = get_elem?-erase_at food i j h

pub length-remove_food :
    (i n : ℕ) (food : List Food) {f : Food}
    → get_elem? food i ≡ some f
    → length food ≤ suc n + i
    → length (remove_food i food) ≤ n + i
unfolding remove_food
length-remove_food i n food e l = omega (arith, length-erase_at food i e)

remove_food-AreSmall :
    (i : ℕ) (food : List Food) {f : Food}
    → get_elem? food i ≡ some f
    → AreSmall food
    → (f.size ≤ 100) × AreSmall (remove_food i food)
unfolding remove_food
remove_food-AreSmall i [] e a = cc
remove_food-AreSmall zero (g ∷ food) e a = ground arith
remove_food-AreSmall (suc i) (g ∷ food) e a =
    let rest = remove_food-AreSmall i food e a.1 in (rest.0, (a.0, rest.1))

RisesX-mono : (lo hi : ℕ) (fs : List Food) → lo ≤ hi → RisesX hi fs → RisesX lo fs
RisesX-mono lo hi [] h v = tt
RisesX-mono lo hi (f ∷ fs) h v = (omega arith, v.1)

remove_food-RisesX : (lo i : ℕ) (fs : List Food) → RisesX lo fs → RisesX lo (remove_food i fs)
unfolding remove_food
remove_food-RisesX lo i [] v = tt
remove_food-RisesX lo zero (f ∷ fs) v = RisesX-mono lo f.x fs v.0 v.1
remove_food-RisesX lo (suc i) (f ∷ fs) v = (v.0, remove_food-RisesX f.x i fs v.1)

pub remove_food-IsLarder :
    (i : ℕ) (food : List Food) {f : Food}
    → get_elem? food i ≡ some f
    → IsLarder food
    → (f.size ≤ 100) × IsLarder (remove_food i food)
remove_food-IsLarder i food e (a, v) =
    let small = remove_food-AreSmall i food e a in
    (small.0, (small.1, remove_food-RisesX 0 i food v))

module _ (hx hy r2 : ℕ) where
  -- What a loop leaves at an index, or just below it, is out of reach, if there is anything.
  abbrev pub IsFar : List Food → ℕ → Type 0
  IsFar food i = elim (get_elem? food i) [ none ↦ Unit {0} | some f ↦ in_reach hx hy r2 f ≡ false ]

  abbrev pub IsFarBelow : List Food → ℕ → Type 0
  IsFarBelow food zero = Unit {0}
  IsFarBelow food (suc j) = IsFar food j

  pub IsFar-here :
      (food : List Food) (i : ℕ) (f : Food)
      → get_elem? food i ≡ some f
      → in_reach hx hy r2 f ≡ false
      → IsFar food i
  IsFar-here food i f e far = rw (e, IsFar) far

  pub IsFar-none : (food : List Food) (i : ℕ) → get_elem? food i ≡ none → IsFar food i
  IsFar-none food i e = rw (e, IsFar) tt

  pub IsFar-eq :
      (food food' : List Food) (i : ℕ)
      → get_elem? food' i ≡ get_elem? food i
      → IsFar food i
      → IsFar food' i
  IsFar-eq food food' i e far = rw (e, IsFar) far
