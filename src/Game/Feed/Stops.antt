-- ===== src/Game/Feed/Stops.antt =====
-- Where the loops of UpdateEatenFood stop.
use slitherss.Prelude.{
  ℕ, zero, suc, ◌+◌, ◌-◌, ◌≤◌, ◌<◌, ◌≡◌, refl, ◌∙◌, inl, inr, List, arith, Bool-cases, Option-cases,
  length, get_elem?, get_elem?-length,
}
use slitherss.Float.{Float}
use slitherss.Game.Sector.{Food, remove_food, find_closest_food}
use slitherss.Game.Snake.{Snake}
use slitherss.Game.Feed.{in_reach, on_food_eaten, eat_left, eat_right, eat_around}
use slitherss.Game.Feed.Pieces.{
  IsLarder, IsHungry, get_elem?-remove_food, length-remove_food, IsFar, IsFarBelow, IsFar-here,
  IsFar-none, IsFar-eq,
}
use slitherss.Game.Feed.Place.{IsParted, eat_around-IsParted}
use slitherss.Game.Feed.Eating.{Ate, eat_around-Ate}

IsFarBelow-eq :
    (hx hy r2 : ℕ)
    → (food food' : List Food) (i : ℕ) → ((j : ℕ) → j < i → get_elem? food' j ≡ get_elem? food j)
    → IsFarBelow hx hy r2 food i
    → IsFarBelow hx hy r2 food' i
IsFarBelow-eq hx hy r2 food food' zero e far = tt
IsFarBelow-eq hx hy r2 food food' (suc j) e far =
    IsFar-eq hx hy r2 food food' j (e j (omega arith)) far

module _ {F : Type 0} ⦃float : Float F⦄ where
  module _ (hx hy r2 : ℕ) where
    eat_right-IsFar :
        (n i : ℕ) (food : List Food) (s : Snake F)
        → length food ≤ n + i
        → let meal = eat_right hx hy r2 n i food s in
          IsFar hx hy r2 meal.food meal.i
          × (meal.i ≡ i)
          × ((j : ℕ) → j < i → get_elem? meal.food j ≡ get_elem? food j)
    unfolding eat_right
    eat_right-IsFar zero i food s l =
        (IsFar-none hx hy r2 food i (get_elem?-length food i (omega arith)), refl, λ j h. refl)
    eat_right-IsFar (suc n) i food s l = elim (Option-cases (get_elem? food i)) [
      | inl e ↦ rw (e, eat_right) (IsFar-none hx hy r2 food i e, refl, λ j h. refl)
      | inr (f, e) ↦ elim (Bool-cases (in_reach hx hy r2 f)) [
        | inl near ↦
            let rest =
              eat_right-IsFar n i (remove_food i food) (on_food_eaten f s)
                (length-remove_food i n food e l) in
            rw (e, eat_right)
              (rw (near, eat_right)
                (rest.0, rest.1, λ j h. rest.2 j h ∙ get_elem?-remove_food i j food h))
        | inr far ↦
            rw (e, eat_right)
              (rw (far, eat_right) (IsFar-here hx hy r2 food i f e far, refl, λ j h. refl))
      ]
    ]

    eat_left-IsFar :
        (i : ℕ) (food : List Food) (s : Snake F)
        → let meal = eat_left hx hy r2 i food s in IsFarBelow hx hy r2 meal.food meal.i
    unfolding eat_left
    eat_left-IsFar zero food s = tt
    eat_left-IsFar (suc i) food s = elim (Option-cases (get_elem? food i)) [
      | inl e ↦ rw (e, eat_left) (IsFar-none hx hy r2 food i e)
      | inr (f, e) ↦ elim (Bool-cases (in_reach hx hy r2 f)) [
        | inl near ↦
            rw (e, eat_left)
              (rw (near, eat_left) (eat_left-IsFar i (remove_food i food) (on_food_eaten f s)))
        | inr far ↦ rw (e, eat_left) (rw (far, eat_left) (IsFar-here hx hy r2 food i f e far))
      ]
    ]

    -- UpdateEatenFood, in the sector of the head, where the food is sorted and its pieces are of a
    -- size up to 100, and for a snake that has parts and is not full: some pieces of food, all within
    -- reach, go from the sector to the snake, which is told of them in order and grows by their
    -- sizes; no other piece is lost, and the food stays as it should be, as does the snake. The loops
    -- stop at the place of the head in the food that is left, with the pieces of a smaller x below it
    -- and the others from it on, and the piece on either side of it, if there is one, is out of reach.
    pub eat_around_lem :
        (food : List Food) (s : Snake F)
        → IsLarder food
        → IsHungry s
        → let meal = eat_around hx hy r2 food s in
          Ate hx hy r2 food s meal.food meal.snake
          × IsFar hx hy r2 meal.food meal.i
          × IsFarBelow hx hy r2 meal.food meal.i
          × IsParted hx meal.food meal.i
    unfolding eat_around
    eat_around_lem food s a h =
        let left = eat_left hx hy r2 (find_closest_food hx food) food s in
        let right =
          eat_right-IsFar (length left.food - left.i) left.i left.food left.snake (omega arith) in
        (
          eat_around-Ate hx hy r2 food s a h,
          right.0,
          rw right.1 (
              IsFarBelow-eq hx hy r2 left.food _ left.i right.2
                (eat_left-IsFar (find_closest_food hx food) food s)),
          eat_around-IsParted hx hy r2 food s a.1,
        )
