-- ===== src/Game/Feed.antt =====
-- Of src/game/snake.cc: how a snake eats the food round its head.
pub mod Pieces
pub mod Eating
pub mod Stops
pub mod Place
pub mod Untouched
use slitherss.Prelude.{
  ℕ, zero, suc, ◌+◌, ◌-◌, ◌*◌, ◌/◌, ◌%◌, ◌^◌, Bool, true, false, ◌&&◌, List, [], ◌∷◌, ◌++◌, Option,
  none, some, ltb, leb, if◌then◌else◌, pos, length, get_elem?, modify, foldl,
}
use slitherss.Float.{Float}
use slitherss.Game.Config.{sector_size, move_step_distance, sector_count_along_edge}
use slitherss.Game.Math.{distance_squared_u16}
use slitherss.Game.Sector.{
  Food, Sector, insert_food, find_closest_food, remove_food, get_index, get_sector,
}
use slitherss.Game.Snake.{Snake, Body, increase_snake}

-- `Math::distance_squared(f.x, f.y, hx, hy) <= r2`
unfoldable pub in_reach : ℕ → ℕ → ℕ → Food → Bool
unfolding distance_squared_u16
in_reach hx hy r2 f = leb (distance_squared_u16 f.x f.y hx hy) r2

-- The food of the head's sector, the index i into it, and the snake.
pub record Meal (F : Type 0) : Type 0 where
  pub food : List Food
  pub i : ℕ
  pub snake : Snake F

module _ {F : Type 0} ⦃float : Float F⦄ where
  open float use {ratio, of_int, add, sub, mul, div, to_unsigned}

  -- Snake::on_food_eaten
  unfoldable pub on_food_eaten : Food → Snake F → Snake F
  on_food_eaten f s =
      let grown = increase_snake f.size s in record grown { eaten = grown.eaten ++ f ∷ [] }

  module _ (hx hy r2 : ℕ) where
    -- The loop to the left. `left` is i - 1, and the loop ends below the first piece.
    unfoldable pub eat_left : ℕ → List Food → Snake F → Meal F
    unfolding in_reach on_food_eaten remove_food
    eat_left zero food s = record { food = food; i = 0; snake = s }
    eat_left (suc left) food s =
        let stop : Meal F = record { food = food; i = suc left; snake = s } in
        elim (get_elem? food left) [
          | none ↦ stop
          | some f ↦ elim (in_reach hx hy r2 f) [
            | true ↦ eat_left left (remove_food left food) (on_food_eaten f s)
            | false ↦ stop
          ]
        ]

    -- The loop to the right, with n pieces from i on: each round takes one away at i.
    unfoldable pub eat_right : ℕ → ℕ → List Food → Snake F → Meal F
    unfolding in_reach on_food_eaten remove_food
    eat_right zero i food s = record { food = food; i = i; snake = s }
    eat_right (suc n) i food s =
        let stop : Meal F = record { food = food; i = i; snake = s } in
        elim (get_elem? food i) [
          | none ↦ stop
          | some f ↦ elim (in_reach hx hy r2 f) [
            | true ↦ eat_right n i (remove_food i food) (on_food_eaten f s)
            | false ↦ stop
          ]
        ]

    -- Both loops, from where the head stands in the food.
    unfoldable pub eat_around : List Food → Snake F → Meal F
    unfolding eat_left eat_right find_closest_food
    eat_around food s =
        let left = eat_left (find_closest_food hx food) food s in
        eat_right (length left.food - left.i) left.i left.food left.snake

  -- The food of the head's sector is eaten. For a head so far off the map that get_sector leads past
  -- the vector, the code reads what lies there; here nothing is eaten then.
  unfoldable pub eat_at : ℕ → ℕ → ℕ → Snake F → List (Sector F) → Snake F × List (Sector F)
  unfolding eat_around get_sector
  eat_at hx hy r2 s ss =
      let sx = hx / sector_size in
      let sy = hy / sector_size in
      elim (get_sector ss sx sy) [
        | none ↦ (s, ss)
        | some sec ↦
            let meal = eat_around hx hy r2 sec.food s in
            (meal.snake, modify ss (get_index sx sy) (λ sec'. record sec' { food = meal.food }))
      ]

  -- Snake::UpdateEatenFood, for a snake with a head
  unfoldable pub update_eaten_food : Snake F → List (Sector F) → Snake F × List (Sector F)
  unfolding eat_at
  update_eaten_food s ss =
      let r =
        to_unsigned 16 (add (add (of_int (pos 14)) s.sbpr) (of_int (pos move_step_distance))) in
      elim s.parts [
        | [] ↦ (s, ss)
        | head ∷ _ ↦ eat_at (to_unsigned 16 head.x) (to_unsigned 16 head.y) (r * r) s ss
      ]
