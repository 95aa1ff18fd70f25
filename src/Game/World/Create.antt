-- ===== src/Game/World/Create.antt =====
-- Of src/game/world.cc: the snakes that come into the world, and its first food.
use slitherss.Prelude.{
  ℕ, zero, suc, ◌+◌, ◌-◌, ◌*◌, ◌/◌, ◌%◌, ◌^◌, List, [], ◌∷◌, pos, ltb, if◌then◌else◌,
}
use slitherss.Float.{Float}
use slitherss.Game.Config.{WorldConfig, sector_size, sector_count_along_edge}
use slitherss.Game.Random.{Random, next_random}
use slitherss.Game.Sector.{Food, Sector, insert_food, init_sectors}
use slitherss.Game.Snake.{Snake}
use slitherss.Game.Spawn.{create_snake, create_snake_bot}
use slitherss.Game.World.{World, add_snake}

-- `std::sort` by x, which keeps what is sorted
unfoldable pub sort_food : List Food → List Food
unfolding insert_food
sort_food [] = []
sort_food (f ∷ fs) = insert_food f (sort_food fs)

abbrev distance_to : ℕ → ℕ → ℕ
distance_to a b = if ltb a b then b - a else a - b

-- ++lastSnakeId
abbrev pub next_id : {F : Type 0} → World F → ℕ
next_id w = (w.last_snake_id + 1) % 2 ^ 16

module _ {G : Type 0} ⦃random : Random G⦄ where
  -- The food that World::InitFood makes for a sector, and the loop that inserts it
  unfoldable pub random_food : ℕ → ℕ → G → Food × G
  unfolding next_random
  random_food sx sy g =
      let dx = next_random sector_size g in
      let dy = next_random sector_size dx.1 in
      let size = next_random 10 dy.1 in
      let color = next_random 29 size.1 in
      (
        record {
          x = (sx * sector_size + dx.0) % 2 ^ 16;
          y = (sy * sector_size + dy.0) % 2 ^ 16;
          size = 1 + size.0;
          color = color.0;
        },
        color.1,
      )

  unfoldable pub fill : ℕ → ℕ → ℕ → List Food → G → List Food × G
  unfolding random_food insert_food
  fill zero sx sy food g = (food, g)
  fill (suc n) sx sy food g =
      let made = random_food sx sy g in fill n sx sy (insert_food made.0 food) made.1

module _ (F : Type 0) ⦃float : Float F⦄ where
  open float use {ratio, of_int, sub, mul, div, to_unsigned}

  -- `density`
  unfoldable pub density : ℕ → ℕ → ℕ
  density sx sy =
      let cx = sector_count_along_edge / 2 in
      let dist =
        (distance_to sx cx * distance_to sx cx + distance_to sy cx * distance_to sy cx) % 2 ^ 16 in
      let edge = of_int (pos (sector_count_along_edge * sector_count_along_edge)) in
      let dp : F = sub (ratio 1 1) (div (mul (ratio 1 1) (of_int (pos dist))) edge) in
      to_unsigned 64 (mul dp (of_int (pos 10)))

module _ {F : Type 0} ⦃float : Float F⦄ {G : Type 0} ⦃random : Random G⦄ where
  -- CreateSnake and AddSnake of its result, as in on_open: the snake that was made too
  unfoldable pub enter : World F → G → (Snake F × World F) × G
  unfolding create_snake add_snake
  enter w g =
      let id = next_id w in
      let made = create_snake w.config id w.sectors g in
      ((made.0.0, add_snake made.0.0 (record w { sectors = made.0.1; last_snake_id = id })), made.1)

  -- The body of the loop of World::SpawnNumSnakes, and the loop
  unfoldable pub enter_bot : World F → G → World F × G
  unfolding create_snake_bot add_snake
  enter_bot w g =
      let id = next_id w in
      let made = create_snake_bot w.config id w.sectors g in
      (add_snake made.0.0 (record w { sectors = made.0.1; last_snake_id = id }), made.1)

  unfoldable pub spawn_num_snakes : ℕ → World F → G → World F × G
  unfolding enter_bot
  spawn_num_snakes zero w g = (w, g)
  spawn_num_snakes (suc count) w g =
      let entered = enter_bot w g in spawn_num_snakes count entered.0 entered.1

  -- World::InitFood
  unfoldable pub init_food : List (Sector F) → G → List (Sector F) × G
  unfolding density fill sort_food
  init_food [] g = ([], g)
  init_food (s ∷ ss) g =
      let filled = fill (density F s.x s.y) s.x s.y s.food g in
      let later = init_food ss filled.1 in
      (record s { food = sort_food filled.0 } ∷ later.0, later.1)

  -- World::Init, without the seed of the generator
  unfoldable pub init_world : WorldConfig → World F → G → World F × G
  unfolding init_food init_sectors spawn_num_snakes
  init_world config w g =
      let fed = init_food init_sectors g in
      spawn_num_snakes config.bots (record w { config = config; sectors = fed.0 }) fed.1
