-- ===== src/Game/Snake.antt =====
-- src/game/snake.h and, of src/game/snake.cc, the growth of a snake and the food that it sheds.
-- Numbers of type `long` are not negative here, as they are in the code: the steps of time are.
pub mod Growth
use slitherss.Prelude.{
  ℕ, zero, suc, ◌+◌, ◌-◌, ◌*◌, ◌/◌, ◌%◌, ◌^◌, Bool, true, false, ◌&&◌, ◌||◌, List, [], ◌∷◌, ◌++◌,
  Option, none, some, ltb, leb, ◌==◌, if◌then◌else◌, pos, length, get_elem?, back, pop_back, modify,
}
use slitherss.Float.{Float}
use slitherss.Game.Config.{sector_size, move_step_distance}
use slitherss.Game.Sector.{Food, Sector, insert_food}
use slitherss.Game.BoundBox.{BoundBox, ViewPort}

-- The bits of `snake_changes_t`, from change_pos to change_dead.
pub record Changes : Type 0 where
  pub pos : Bool
  pub angle : Bool
  pub wangle : Bool
  pub speed : Bool
  pub fullness : Bool
  pub dying : Bool
  pub dead : Bool

abbrev pub no_changes : Changes
no_changes = record {
  pos = false;
  angle = false;
  wangle = false;
  speed = false;
  fullness = false;
  dying = false;
  dead = false;
}

pub record Body (F : Type 0) : Type 0 where
  pub x : F
  pub y : F

-- The names are lists of bytes.
pub record Snake (F : Type 0) : Type 0 where
  pub id : ℕ
  pub skin : ℕ
  pub update : Changes
  pub acceleration : Bool
  pub bot : Bool
  pub name : List ℕ
  pub speed : ℕ
  pub angle : F
  pub wangle : F
  pub fullness : ℕ
  pub sbb : BoundBox F
  pub vp : ViewPort F
  pub parts : List (Body F)
  pub eaten : List Food
  pub spawn : List Food
  pub client_parts_index : ℕ
  pub mov_ticks : ℕ
  pub rot_ticks : ℕ
  pub ai_ticks : ℕ
  pub gsc : F
  pub sc : F
  pub scang : F
  pub ssp : F
  pub fsp : F
  pub sbpr : F

abbrev pub base_move_speed : ℕ
base_move_speed = 185

abbrev pub boost_speed : ℕ
boost_speed = 448

abbrev pub speed_acceleration : ℕ
speed_acceleration = 1000

abbrev pub parts_skip_count : ℕ
parts_skip_count = 3

abbrev pub parts_start_move_count : ℕ
parts_start_move_count = 4

abbrev pub ai_step_interval : ℕ
ai_step_interval = 1000

-- `std::size_t` a - b
abbrev size_sub : ℕ → ℕ → ℕ
size_sub a b = (a + 2 ^ 64 - b) % 2 ^ 64

-- `parts.push_back(parts.back())`; a snake has parts
unfoldable pub push_copy {ℓ} : {A : Type ℓ} → List A → List A
push_copy [] = []
push_copy (p ∷ ps) = p ∷ ps ++ back p ps ∷ []

-- Snake::SpawnFood, up to its search: the first sector of the box that has the coordinates
unfoldable pub spawn_sector : {F : Type 0} → List (Sector F) → ℕ → ℕ → List ℕ → Option ℕ
spawn_sector ss sx sy [] = none
spawn_sector ss sx sy (k ∷ ks) =
    let rest = spawn_sector ss sx sy ks in
    elim (get_elem? ss k) [ none ↦ rest | some s ↦ if s.x == sx && s.y == sy then some k else rest ]

unfoldable pub spawn_food :
    {F : Type 0} → Snake F → List (Sector F) → Food → Snake F × List (Sector F)
unfolding spawn_sector insert_food
spawn_food s ss f = elim (spawn_sector ss (f.x / sector_size) (f.y / sector_size) s.sbb.sectors) [
  | none ↦ (s, ss)
  | some k ↦ (
    record s { spawn = s.spawn ++ f ∷ [] },
    modify ss k (λ sec. record sec { food = insert_food f sec.food }),
  )
]

module _ {F : Type 0} ⦃float : Float F⦄ where
  open float use {ratio, of_int, add, sub, mul, div, fmin, fmax, to_unsigned}

  -- Snake::UpdateSnakeConsts
  unfoldable pub update_snake_consts : Snake F → Snake F
  update_snake_consts s = record s {
    gsc = add (ratio 5 10) (
        div (ratio 4 10)
          (fmax (ratio 1 1) (div (mul (ratio 1 1) (size (size_sub n 1 + 16))) (ratio 36 1))));
    sc = sc;
    scang = add (ratio 13 100) (mul (mul (ratio 87 100) scang_x) scang_x);
    ssp = ssp;
    fsp = add ssp (ratio 1 10);
    sbpr = mul (mul (ratio 29 1) (ratio 5 10)) sc;
  }
    where
      n : ℕ
      n = length s.parts

      size : ℕ → F
      size m = of_int (pos m)

      sc : F
      sc =
          fmin (ratio 6 1) (
            add (ratio 1 1)
              (div (mul (ratio 1 1) (size (size_sub (size_sub n 1) 2))) (ratio 106 1)))

      scang_x : F
      scang_x = div (mul (ratio 1 1) (size (size_sub (size_sub 7 n) 1))) (ratio 6 1)

      ssp : F
      ssp = add (ratio 539 100) (mul (ratio 4 10) sc)

  -- Snake::IncreaseSnake
  unfoldable pub increase_snake : ℕ → Snake F → Snake F
  unfolding push_copy
  increase_snake volume s =
      let full = (s.fullness + volume) % 2 ^ 16 in
      let grown =
        if leb 100 full
        then record s { fullness = full - 100; parts = push_copy s.parts }
        else record s { fullness = full } in
      update_snake_consts (record grown { update = record s.update { fullness = true } })

  -- The food that stands for a lost part
  abbrev pub shed : Snake F → Food
  shed s = record {
    x = elim s.parts [ [] ↦ 0 | p ∷ ps ↦ to_unsigned 16 (back p ps).x ];
    y = elim s.parts [ [] ↦ 0 | p ∷ ps ↦ to_unsigned 16 (back p ps).y ];
    size = 100;
    color = s.skin;
  }

  -- The body of the loop of Snake::DecreaseSnake
  unfoldable pub drop_part : Snake F × List (Sector F) → Snake F × List (Sector F)
  unfolding spawn_food
  drop_part (s, ss) =
      let spawned = spawn_food s ss (shed s) in
      if ltb 3 (length s.parts)
      then (record spawned.0 { parts = pop_back s.parts }, spawned.1)
      else (s, ss)

  unfoldable pub drop_parts : ℕ → Snake F × List (Sector F) → Snake F × List (Sector F)
  unfolding drop_part
  drop_parts zero st = st
  drop_parts (suc n) st = drop_parts n (drop_part st)

  -- Snake::DecreaseSnake
  unfoldable pub decrease_snake : ℕ → Snake F × List (Sector F) → Snake F × List (Sector F)
  unfolding drop_parts
  decrease_snake volume (s, ss) =
      let left = volume - s.fullness in
      let dropped = drop_parts ((1 + left / 100) % 2 ^ 16) (s, ss) in
      let reduced : Snake F × List (Sector F) =
        if ltb s.fullness volume
        then (record dropped.0 { fullness = 100 - left % 100 }, dropped.1)
        else (record s { fullness = s.fullness - volume }, ss) in
      (
        update_snake_consts
            (record reduced.0 { update = record reduced.0.update { fullness = true } }),
        reduced.1,
      )
