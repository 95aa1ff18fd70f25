-- ===== src/Game/Move.antt =====
-- Of src/game/snake.cc: Snake::Tick, a step of time of a snake, with TickAI and the updates of its
-- boxes. A snake has a head, and its speed is not 0.
use slitherss.Prelude.{
  ℕ, zero, suc, ◌+◌, ◌-◌, ◌*◌, ◌/◌, Bool, true, false, not, ◌&&◌, ◌||◌, List, [], ◌∷◌, ltb, leb,
  if◌then◌else◌, pos,
}
use slitherss.Float.{Float}
use slitherss.Game.Config.{game_radius, sector_size, sector_diag_size, move_step_distance}
use slitherss.Game.Math.{f_pi, f_2pi, normalize_angle}
use slitherss.Game.Sector.{Sector}
use slitherss.Game.BoundBox.{BoundBox, sbb_update_new}
use slitherss.Game.Snake.{
  Changes, Body, Snake, boost_speed, parts_skip_count, parts_start_move_count, ai_step_interval,
}

-- `update |= changes`, and `changes > 0` and `changes != update` on the bits
unfoldable pub join : Changes → Changes → Changes
join a b = record {
  pos = a.pos || b.pos;
  angle = a.angle || b.angle;
  wangle = a.wangle || b.wangle;
  speed = a.speed || b.speed;
  fullness = a.fullness || b.fullness;
  dying = a.dying || b.dying;
  dead = a.dead || b.dead;
}

abbrev pub same_bit : Bool → Bool → Bool
same_bit a b = if a then b else not b

unfoldable pub same_changes : Changes → Changes → Bool
same_changes a b =
    same_bit a.pos b.pos
    && same_bit a.angle b.angle
    && same_bit a.wangle b.wangle
    && same_bit a.speed b.speed
    && same_bit a.fullness b.fullness
    && same_bit a.dying b.dying
    && same_bit a.dead b.dead

-- The world's sectors are changed by what a snake does.
abbrev pub Scene : Type 0 → Type 0
Scene F = Snake F × List (Sector F)

module _ {F : Type 0} ⦃float : Float F⦄ where
  open float use {ratio, of_int, mul, div}

  -- Snake::snake_angular_speed, snake_tail_k, tail_step_distance, rot_step_angle, rot_step_interval
  unfoldable pub snake_angular_speed : F
  snake_angular_speed = ratio 4125 1000

  unfoldable pub snake_tail_k : F
  snake_tail_k = ratio 43 100

  unfoldable pub tail_step_distance : F
  tail_step_distance = ratio 24 1

  unfoldable pub rot_step_angle : F
  unfolding snake_angular_speed
  rot_step_angle =
      mul (div (mul (ratio 1 1) (of_int (pos move_step_distance))) (of_int (pos boost_speed)))
        snake_angular_speed

module _ (F : Type 0) ⦃float : Float F⦄ where
  open float use {ratio, of_int, mul, div, to_unsigned}

  unfoldable pub rot_step_interval : ℕ
  unfolding snake_angular_speed rot_step_angle
  rot_step_interval = to_unsigned 63 (div (mul (ratio 1000 1) rot_step_angle) snake_angular_speed)

  -- `static const size_t tail_step`
  unfoldable pub tail_step : ℕ
  unfolding tail_step_distance
  tail_step = to_unsigned 64 (div (of_int (pos sector_size)) tail_step_distance)

-- What the loops over the parts leave: the parts, the sums of their places, the box, the sectors.
pub record Moved (F : Type 0) : Type 0 where
  pub parts : List (Body F)
  pub bbx : F
  pub bby : F
  pub box : BoundBox F
  pub sectors : List (Sector F)

module _ {F : Type 0} ⦃float : Float F⦄ where
  open float use {ratio, of_int, neg, add, sub, mul, div, lt, eq, fabs, cos, sin, atan2}

  abbrev pub head_of : List (Body F) → Body F
  head_of [] = record { x = ratio 0 1; y = ratio 0 1 }
  head_of (p ∷ ps) = p

  -- The body of the loop of Snake::TickAI, and the loop
  unfoldable pub steer : Snake F → Snake F
  unfolding f_pi f_2pi normalize_angle
  steer s =
      let head = head_of s.parts in
      let center = of_int (pos game_radius) in
      let radial = atan2 (sub head.y center) (sub head.x center) in
      let ai_angle = normalize_angle (add radial (div f_pi (ratio 2 1))) in
      if lt (ratio 1 100) (fabs (sub s.wangle ai_angle))
      then record s { wangle = ai_angle; update = record s.update { wangle = true } }
      else s

  unfoldable pub tick_ai : ℕ → Snake F → Snake F
  unfolding steer
  tick_ai zero s = s
  tick_ai (suc frames) s = tick_ai frames (steer s)

  -- The branch of a bot
  unfoldable pub tick_bot : ℕ → Snake F → Snake F
  unfolding tick_ai
  tick_bot dt s =
      let ticks = s.ai_ticks + dt in
      let frames = ticks / ai_step_interval in
      let steered = tick_ai frames (record s { ai_ticks = ticks }) in
      if s.bot
      then (if ltb ai_step_interval ticks
          then record steered { ai_ticks = steered.ai_ticks - frames * ai_step_interval }
          else record s { ai_ticks = ticks })
      else s

  -- The rotation: whether the angle changed, and the snake
  unfoldable pub rotate : ℕ → Snake F → Bool × Snake F
  unfolding f_pi f_2pi normalize_angle snake_angular_speed rot_step_interval
  rotate dt s =
      let ticks = s.rot_ticks + dt in
      let frames_ticks = ticks / rot_step_interval F * rot_step_interval F in
      let rotation = div (mul snake_angular_speed (of_int (pos frames_ticks))) (ratio 1000 1) in
      let d = normalize_angle (sub s.wangle s.angle) in
      let d' = if lt f_pi d then sub d f_2pi else d in
      let sgn = if lt (ratio 0 1) d' then ratio 1 1 else neg (ratio 1 1) in
      let turned = if lt (fabs d') rotation then s.wangle else add s.angle (mul rotation sgn) in
      if eq s.angle s.wangle
      then (false, s)
      else if leb (rot_step_interval F) ticks
      then (true, record s { angle = normalize_angle turned; rot_ticks = ticks - frames_ticks })
      else (false, record s { rot_ticks = ticks })

  -- Where the part i goes: `prev` is the place of the part before it, before the step, and `last`
  -- that after the step.
  unfoldable pub place : ℕ → Body F → Body F → Body F
  unfolding snake_tail_k
  place i prev last =
      let begin = parts_skip_count + parts_start_move_count in
      let coeff =
        if ltb i begin
        then div (mul snake_tail_k (of_int (pos (i + 1 - parts_skip_count))))
            (of_int (pos parts_start_move_count))
        else snake_tail_k in
      if ltb i parts_skip_count then prev else record {
        x = add prev.x (mul coeff (sub last.x prev.x));
        y = add prev.y (mul coeff (sub last.y prev.y));
      }

  -- The three loops over the parts from index i on, as one.
  unfoldable pub move_parts :
      ℕ → ℕ → Body F → Body F → F → F → BoundBox F → List (Sector F) → List (Body F) → Moved F
  unfolding tail_step place sbb_update_new
  move_parts i j prev last bbx bby bb ss [] = record {
    parts = [];
    bbx = bbx;
    bby = bby;
    box = bb;
    sectors = ss;
  }
  move_parts i j prev last bbx bby bb ss (old ∷ rest) =
      let pt = place i prev last in
      let in_tail = leb (parts_skip_count + parts_start_move_count) i && leb i (j + tail_step F) in
      let found = sbb_update_new bb ss (of_int (pos (sector_size / 2))) pt.x pt.y old.x old.y in
      let next = if in_tail then found else (bb, ss) in
      let moved =
        move_parts (suc i) (if in_tail then i else j) old pt (add bbx pt.x) (add bby pt.y) next.0
          next.1 rest in
      record moved { parts = pt ∷ moved.parts }

  -- Snake::UpdateBoxRadius, by the number of the parts
  unfoldable pub box_radius : ℕ → F
  unfolding tail_step_distance
  box_radius n =
      let near =
        add
          (add
            (add (add (add (add (ratio 42 1) (ratio 42 1)) (ratio 42 1)) (ratio 377 10))
              (ratio 377 10))
            (ratio 33 1))
          (ratio 285 10) in
      let d = if ltb 8 n then add near (mul tail_step_distance (of_int (pos (n - 8)))) else near in
      div (add d (of_int (pos move_step_distance))) (ratio 2 1)

  unfoldable pub view_radius : F
  view_radius = mul (of_int (pos sector_diag_size)) (ratio 3 1)
