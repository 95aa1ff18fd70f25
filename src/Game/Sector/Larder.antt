-- ===== src/Game/Sector/Larder.antt =====
-- The food of a sector, and its order by x.
use mathlib.Core.List.{Perm}
use mathlib.Core.List.Perm
use slitherss.Prelude.{
  ℕ, zero, suc, ◌≤◌, ◌≡◌, ap, List, [], ◌∷◌, arith, insert_at, insert_at-length,
}
use slitherss.Game.Sector.{Food, food_lower_bound, insert_food}

-- The x of the food rises along the list, from lo on.
abbrev pub RisesX : ℕ → List Food → Type 0
RisesX lo [] = Unit {0}
RisesX lo (f ∷ fs) = (lo ≤ f.x) × RisesX f.x fs

insert_food-eq :
    (f : Food) (fs : List Food) → insert_food f fs ≡ insert_at (food_lower_bound f.x fs) f fs
unfolding insert_food
insert_food-eq f fs = ground (arith, insert_at-length fs f, ap (λ (i : ℕ). insert_at i f fs))

insert_at-RisesX :
    (lo : ℕ) (f : Food) (fs : List Food)
    → lo ≤ f.x
    → RisesX lo fs
    → RisesX lo (insert_at (food_lower_bound f.x fs) f fs)
unfolding food_lower_bound
insert_at-RisesX lo f [] h v = (h, tt)
insert_at-RisesX lo f (g ∷ fs) h v = ground (arith, insert_at-RisesX g.x f fs)

insert_at-perm : {A : Type 0} (i : ℕ) (a : A) (xs : List A) → Perm (insert_at i a xs) (a ∷ xs)
insert_at-perm zero a xs = Perm.refl (a ∷ xs)
insert_at-perm (suc i) a [] = Perm.refl (a ∷ [])
insert_at-perm (suc i) a (x ∷ xs) =
    Perm.trans (Perm.cons x (insert_at-perm i a xs)) (Perm.swap a x xs)

-- Sector::Insert adds the one piece of food and loses none, and food sorted by x stays sorted.
pub insert_food-RisesX :
    (f : Food) (fs : List Food)
    → RisesX 0 fs
    → RisesX 0 (insert_food f fs) × Perm (insert_food f fs) (f ∷ fs)
insert_food-RisesX f fs v =
    rw (insert_food-eq f fs)
      (insert_at-RisesX 0 f fs (omega arith) v, insert_at-perm (food_lower_bound f.x fs) f fs)
