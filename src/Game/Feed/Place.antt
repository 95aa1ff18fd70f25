-- ===== src/Game/Feed/Place.antt =====
-- Where the loops of UpdateEatenFood start and stop, against the place of the head.
use mathlib.Core.Option.{some-injective}
use slitherss.Prelude.{
  ℕ, zero, suc, ◌+◌, ◌-◌, ◌≤◌, ◌<◌, ◌≡◌, sym, subst, ap, ◌∙◌, inl, inr, List, [], ◌∷◌, some, arith,
  ltb, Bool-cases, Option-cases, length, get_elem?, get_elem?-erased,
}
use slitherss.Float.{Float}
use slitherss.Game.Sector.{Food, food_lower_bound, find_closest_food, remove_food}
use slitherss.Game.Sector.Larder.{RisesX}
use slitherss.Game.Snake.{Snake}
use slitherss.Game.Feed.{in_reach, on_food_eaten, eat_left, eat_right, eat_around}
use slitherss.Game.Feed.Pieces.{get_elem?-remove_food}

-- The head at hx stands before the piece i: those below it are to its left, the others are not.
abbrev pub IsParted : ℕ → List Food → ℕ → Type 0
IsParted hx food i =
    (j : ℕ) (f : Food) → get_elem? food j ≡ some f → (j < i → f.x < hx) × (i ≤ j → hx ≤ f.x)

RisesX-above :
    (lo : ℕ) (fs : List Food) (j : ℕ) (f : Food) → RisesX lo fs → get_elem? fs j ≡ some f → lo ≤ f.x
RisesX-above lo [] j f v e = absurd (ground (arith, e))
RisesX-above lo (g ∷ fs) zero f v e = subst (λ h. lo ≤ h.x) (some-injective _ _ e) v.0
RisesX-above lo (g ∷ fs) (suc j) f v e = omega (arith, v.0, RisesX-above g.x fs j f v.1 e)

lower_bound-IsParted :
    (hx lo : ℕ) (fs : List Food) → RisesX lo fs → IsParted hx fs (food_lower_bound hx fs)
unfolding food_lower_bound
lower_bound-IsParted hx lo [] v j f e = absurd (ground (arith, e))
lower_bound-IsParted hx lo (g ∷ fs) v zero f e =
    let same : g ≡ f = some-injective _ _ e in ground (arith, ap (λ h. h.x) same)
lower_bound-IsParted hx lo (g ∷ fs) v (suc j) f e =
    ground (arith, lower_bound-IsParted hx g.x fs v.1 j f e, RisesX-above g.x fs j f v.1 e)

get_elem?-removed :
    (i j : ℕ) (food : List Food) → i ≤ j → get_elem? (remove_food i food) j ≡ get_elem? food (suc j)
unfolding remove_food
get_elem?-removed i j food h = get_elem?-erased food i j h

-- A piece next to the head is taken away, to its left, where n is i + 1, or to its right.
removed-IsParted :
    (hx i n : ℕ) (food : List Food)
    → i ≤ n
    → n ≤ i + 1
    → IsParted hx food n
    → IsParted hx (remove_food i food) i
removed-IsParted hx i n food l h v j f e = elim (Bool-cases (ltb j i)) [
  | inl below ↦
      let known = v j f (sym (get_elem?-remove_food i j food (ground (arith, below))) ∙ e) in
      ground (arith, known, below)
  | inr above ↦
      let known = v (suc j) f (sym (get_elem?-removed i j food (ground (arith, above))) ∙ e) in
      ground (arith, known, above)
]

module _ {F : Type 0} ⦃float : Float F⦄ (hx hy r2 : ℕ) where
  eat_left-IsParted :
      (i : ℕ) (food : List Food) (s : Snake F)
      → IsParted hx food i
      → let meal = eat_left hx hy r2 i food s in IsParted hx meal.food meal.i
  unfolding eat_left
  eat_left-IsParted zero food s v = v
  eat_left-IsParted (suc i) food s v = elim (Option-cases (get_elem? food i)) [
    | inl e ↦ rw (e, eat_left) v
    | inr (f, e) ↦ elim (Bool-cases (in_reach hx hy r2 f)) [
      | inl near ↦
          rw (e, eat_left)
            (rw (near, eat_left)
              (eat_left-IsParted i (remove_food i food) (on_food_eaten f s)
                (removed-IsParted hx i (suc i) food (omega arith) (omega arith) v)))
      | inr far ↦ rw (e, eat_left) (rw (far, eat_left) v)
    ]
  ]

  eat_right-IsParted :
      (n i : ℕ) (food : List Food) (s : Snake F)
      → IsParted hx food i
      → let meal = eat_right hx hy r2 n i food s in IsParted hx meal.food meal.i
  unfolding eat_right
  eat_right-IsParted zero i food s v = v
  eat_right-IsParted (suc n) i food s v = elim (Option-cases (get_elem? food i)) [
    | inl e ↦ rw (e, eat_right) v
    | inr (f, e) ↦ elim (Bool-cases (in_reach hx hy r2 f)) [
      | inl near ↦
          rw (e, eat_right)
            (rw (near, eat_right)
              (eat_right-IsParted n i (remove_food i food) (on_food_eaten f s)
                (removed-IsParted hx i i food (omega arith) (omega arith) v)))
      | inr far ↦ rw (e, eat_right) (rw (far, eat_right) v)
    ]
  ]

  pub eat_around-IsParted :
      (food : List Food) (s : Snake F)
      → RisesX 0 food
      → let meal = eat_around hx hy r2 food s in IsParted hx meal.food meal.i
  unfolding eat_around find_closest_food
  eat_around-IsParted food s v =
      let left = eat_left hx hy r2 (find_closest_food hx food) food s in
      eat_right-IsParted (length left.food - left.i) left.i left.food left.snake
        (eat_left-IsParted (find_closest_food hx food) food s (lower_bound-IsParted hx 0 food v))
