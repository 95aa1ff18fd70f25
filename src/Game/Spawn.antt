-- ===== src/Game/Spawn.antt =====
-- Of src/game/snake.cc the boxes of a new snake and the food of a dead one, and of src/game/world.cc
-- the first food and the snakes that are made: InitFood, CreateSnake and CreateSnakeBot.
pub mod Registry
pub mod Covered
pub mod Seen
use slitherss.Prelude.{
  ℕ, zero, suc, ◌+◌, ◌-◌, ◌*◌, ◌/◌, ◌%◌, ◌^◌, Bool, true, false, ◌&&◌, List, [], ◌∷◌, ◌++◌, none,
  some, ltb, leb, if◌then◌else◌, pos, length, get_elem?, modify,
}
use slitherss.Float.{Float}
use slitherss.Game.Config.{
  WorldConfig, game_radius, sector_size, sector_count_along_edge, move_step_distance,
}
use slitherss.Game.Random.{Random, next_random, next_randomf}
use slitherss.Game.Math.{f_pi, f_2pi, normalize_angle}
use slitherss.Game.Sector.{Food, Sector, BoundBoxPos, insert_food, get_index, get_sector}
use slitherss.Game.BoundBox.{BoundBox, ViewPort, sbb_update_new, vp_update_new}
use slitherss.Game.Snake.{
  no_changes, Body, Snake, base_move_speed, parts_skip_count, parts_start_move_count,
  update_snake_consts,
}
use slitherss.Game.Move.{Scene, head_of, tail_step, tail_step_distance, box_radius, view_radius}

module _ {F : Type 0} ⦃float : Float F⦄ where
  open float use {ratio, of_int, add, sub, mul, div, cos, sin, to_unsigned}

  -- Snake::UpdateBoxCenter
  abbrev sum_x : F → List (Body F) → F
  sum_x acc [] = acc
  sum_x acc (p ∷ ps) = sum_x (add acc p.x) ps

  abbrev sum_y : F → List (Body F) → F
  sum_y acc [] = acc
  sum_y acc (p ∷ ps) = sum_y (add acc p.y) ps

  unfoldable pub update_box_center : Snake F → Snake F
  update_box_center s =
      let n = of_int (pos (length s.parts)) in
      let head = head_of s.parts in
      record s {
        sbb = record s.sbb {
          at = record s.sbb.at {
            x = div (sum_x (ratio 0 1) s.parts) n;
            y = div (sum_y (ratio 0 1) s.parts) n;
          };
        };
        vp = record s.vp {
          bound = record s.vp.bound { at = record s.vp.at { x = head.x; y = head.y } };
        };
      }

  -- Snake::UpdateBoxRadius
  unfoldable pub update_box_radius : Snake F → Snake F
  unfolding box_radius view_radius
  update_box_radius s = record s {
    sbb = record s.sbb { at = record s.sbb.at { r = box_radius (length s.parts) } };
    vp = record s.vp { bound = record s.vp.bound { at = record s.vp.at { r = view_radius } } };
  }

  -- The loop of Snake::InitBoxNewSectors over the tail. With a step of 1 at least, the number of the
  -- parts is fuel enough.
  unfoldable pub init_tail :
      ℕ → ℕ → List (Body F) → BoundBox F → List (Sector F) → BoundBox F × List (Sector F)
  unfolding sbb_update_new tail_step
  init_tail zero i parts bb ss = (bb, ss)
  init_tail (suc fuel) i parts bb ss = elim (get_elem? parts i) [
    | none ↦ (bb, ss)
    | some pt ↦
        let found =
          sbb_update_new bb ss (of_int (pos (sector_size / 2))) pt.x pt.y (ratio 0 1) (ratio 0 1) in
        init_tail fuel (i + tail_step F) parts found.0 found.1
  ]

  -- Snake::InitBoxNewSectors
  unfoldable pub init_box_new_sectors : Scene F → Scene F
  unfolding init_tail sbb_update_new vp_update_new
  init_box_new_sectors (s, ss) =
      let head = head_of s.parts in
      let zero_f = ratio 0 1 in
      let first =
        sbb_update_new s.sbb ss (of_int (pos (sector_size / 2))) head.x head.y zero_f zero_f in
      let vp = if s.bot then s.vp else vp_update_new s.vp first.1 head.x head.y zero_f zero_f in
      let done = init_tail (length s.parts) 3 s.parts first.0 first.1 in
      (record s { sbb = done.0; vp = vp }, done.1)

  -- A coordinate of `uint16_t` to which a float is added
  abbrev moved_u16 : ℕ → F → ℕ
  moved_u16 x d = to_unsigned 16 (add (of_int (pos x)) d)

  -- The loops of World::CreateSnake: n parts from part i on, from (x, y) along the angle.
  unfoldable pub lay_parts : ℕ → ℕ → ℕ → ℕ → F → List (Body F)
  unfolding tail_step_distance
  lay_parts zero i x y angle = []
  lay_parts (suc n) i x y angle =
      let step =
        if ltb i (parts_skip_count + parts_start_move_count)
        then of_int (pos move_step_distance)
        else tail_step_distance in
      record { x = mul (ratio 1 1) (of_int (pos x)); y = mul (ratio 1 1) (of_int (pos y)) }
      ∷ lay_parts n (suc i) (moved_u16 x (mul (cos angle) step))
          (moved_u16 y (mul (sin angle) step)) angle

  -- Snake::get_new_box
  unfoldable pub get_new_box : ℕ → List (Body F) → BoundBox F
  get_new_box id parts =
      let head = head_of parts in
      record { at = record { x = head.x; y = head.y; r = ratio 0 1 }; id = id; sectors = [] }

  -- World::CreateSnake up to the boxes: the snake as `std::make_shared` and the lines after it leave
  -- it, for the number of its parts, the place of its head and the angle of its parts.
  unfoldable pub new_snake : ℕ → ℕ → ℕ → ℕ → ℕ → F → Snake F
  unfolding lay_parts get_new_box f_pi normalize_angle
  new_snake id skin len x y angle =
      let parts = lay_parts len 0 x y angle in
      let box = get_new_box id parts in
      let ahead = normalize_angle (add angle f_pi) in
      let zero_f = ratio 0 1 in
      record {
        id = id;
        skin = skin;
        update = no_changes;
        acceleration = false;
        bot = false;
        name = [];
        speed = base_move_speed;
        angle = ahead;
        wangle = ahead;
        fullness = 0;
        sbb = box;
        vp = record { bound = box; new_sectors = []; old_sectors = [] };
        parts = parts;
        eaten = [];
        spawn = [];
        client_parts_index = length parts;
        mov_ticks = 0;
        rot_ticks = 0;
        ai_ticks = 0;
        gsc = zero_f;
        sc = zero_f;
        scang = zero_f;
        ssp = zero_f;
        fsp = zero_f;
        sbpr = zero_f;
      }

  module _ {G : Type 0} ⦃random : Random G⦄ where
    -- World::CreateSnake, for the id that it takes, up to InitBoxNewSectors: the snake, and the
    -- generator.
    unfoldable pub draw_snake : WorldConfig → ℕ → G → Snake F × G
    unfolding next_random next_randomf f_pi f_2pi normalize_angle new_snake update_box_center
        update_box_radius update_snake_consts
    draw_snake config id g =
        let skin = next_random 13 g in
        let turn = next_randomf skin.1 in
        let angle = mul f_2pi turn.0 in
        let away = next_random 5000 turn.1 in
        let dist = add (ratio 1000 1) (of_int (pos away.0)) in
        let center = of_int (pos game_radius) in
        let x = to_unsigned 16 (add center (mul dist (cos angle))) in
        let y = to_unsigned 16 (add center (mul dist (sin angle))) in
        let back = normalize_angle (add angle f_pi) in
        let drawn = next_random config.snake_average_length away.1 in
        let longer =
          if ltb config.snake_min_length drawn.0 then drawn.0 else config.snake_min_length in
        let made = new_snake id ((9 + skin.0) % 2 ^ 8) (1 + 2 + longer) x y back in
        (update_snake_consts (update_box_radius (update_box_center made)), drawn.1)

    -- World::CreateSnake: the snake and the sectors, and the generator.
    unfoldable pub create_snake : WorldConfig → ℕ → List (Sector F) → G → Scene F × G
    unfolding draw_snake init_box_new_sectors
    create_snake config id ss g =
        let drawn = draw_snake config id g in (init_box_new_sectors (drawn.0, ss), drawn.1)

    -- World::CreateSnakeBot
    unfoldable pub create_snake_bot : WorldConfig → ℕ → List (Sector F) → G → Scene F × G
    unfolding create_snake
    create_snake_bot config id ss g =
        let made = create_snake config id ss g in
        ((record made.0.0 { bot = true }, made.0.1), made.1)
