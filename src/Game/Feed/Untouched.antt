-- ===== src/Game/Feed/Untouched.antt =====
-- What a piece of food leaves alone in a snake, the meals of UpdateEatenFood leave alone.
use slitherss.Prelude.{
  ℕ, zero, suc, ◌-◌, ◌/◌, ◌≡◌, refl, ◌∙◌, inl, inr, Bool-cases, Option-cases, head_rule, List,
  length, get_elem?,
}
use slitherss.Float.{Float}
use slitherss.Game.Sector.{Food, Sector, remove_food, find_closest_food, get_sector}
use slitherss.Game.Snake.{Snake}
use slitherss.Game.Feed.{
  in_reach, on_food_eaten, eat_left, eat_right, eat_around, eat_at, update_eaten_food,
}
use slitherss.Game.Move.{Scene}

module _ {F : Type 0} ⦃float : Float F⦄ {V : Type 0} (view : Snake F → V)
    (keeps : (f : Food) (s : Snake F) → view (on_food_eaten f s) ≡ view s) where
  module _ (hx hy r2 : ℕ) where
    eat_left-view :
        (i : ℕ) (food : List Food) (s : Snake F) → view (eat_left hx hy r2 i food s).snake ≡ view s
    unfolding eat_left
    eat_left-view zero food s = refl
    eat_left-view (suc i) food s = elim (Option-cases (get_elem? food i)) [
      | inl e ↦ rw (e, eat_left) refl
      | inr (f, e) ↦ elim (Bool-cases (in_reach hx hy r2 f)) [
        | inl near ↦
            let rest = eat_left-view i (remove_food i food) (on_food_eaten f s) in
            rw (e, eat_left) (rw (near, eat_left) (rest ∙ keeps f s))
        | inr far ↦ rw (e, eat_left) (rw (far, eat_left) refl)
      ]
    ]

    eat_right-view :
        (n i : ℕ) (food : List Food) (s : Snake F)
        → view (eat_right hx hy r2 n i food s).snake ≡ view s
    unfolding eat_right
    eat_right-view zero i food s = refl
    eat_right-view (suc n) i food s = elim (Option-cases (get_elem? food i)) [
      | inl e ↦ rw (e, eat_right) refl
      | inr (f, e) ↦ elim (Bool-cases (in_reach hx hy r2 f)) [
        | inl near ↦
            let rest = eat_right-view n i (remove_food i food) (on_food_eaten f s) in
            rw (e, eat_right) (rw (near, eat_right) (rest ∙ keeps f s))
        | inr far ↦ rw (e, eat_right) (rw (far, eat_right) refl)
      ]
    ]

    pub eat_around-view :
        (food : List Food) (s : Snake F) → view (eat_around hx hy r2 food s).snake ≡ view s
    unfolding eat_around
    eat_around-view food s =
        let left = eat_left hx hy r2 (find_closest_food hx food) food s in
        eat_right-view (length left.food - left.i) left.i left.food left.snake
        ∙ eat_left-view (find_closest_food hx food) food s

    eat_at-view : (s : Snake F) (ss : List (Sector F)) → view (eat_at hx hy r2 s ss).0 ≡ view s
    unfolding eat_at
    eat_at-view s ss = elim (Option-cases (get_sector ss (hx / 300) (hy / 300))) [
      | inl e ↦ rw (e, eat_at) refl
      | inr (sec, e) ↦ rw (e, eat_at) (eat_around-view sec.food s)
    ]

  pub update_eaten_food-view :
      (s : Snake F) (ss : List (Sector F)) → view (update_eaten_food s ss).0 ≡ view s
  unfolding update_eaten_food
  update_eaten_food-view s ss =
      head_rule (λ (t : Scene F). view t.0 ≡ view s) s.parts refl (λ p. eat_at-view _ _ _ s ss)
