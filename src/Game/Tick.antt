-- ===== src/Game/Tick.antt =====
-- Of src/game/snake.cc: Snake::Tick itself, its movement in steps. A snake has a head, and its speed
-- is not 0.
pub mod Clock
pub mod Kept
pub mod Registry
pub mod Identity
pub mod Seen
pub mod Sight
pub mod Sites
use slitherss.Prelude.{
  ℕ, zero, suc, ◌+◌, ◌-◌, ◌*◌, ◌/◌, Bool, true, false, not, ◌&&◌, ◌||◌, List, [], ◌∷◌, ltb, leb,
  ◌==◌, if◌then◌else◌, pos, length,
}
use slitherss.Float.{Float}
use slitherss.Game.Config.{sector_size, move_step_distance}
use slitherss.Game.Sector.{Sector, BoundBoxPos}
use slitherss.Game.BoundBox.{
  BoundBox, ViewPort, sbb_update_new, sbb_update_old, vp_update_new, vp_update_old,
}
use slitherss.Game.Snake.{
  Changes, no_changes, Body, Snake, base_move_speed, boost_speed, speed_acceleration,
  decrease_snake,
}
use slitherss.Game.Feed.{update_eaten_food}
use slitherss.Game.Move.{
  Scene, join, same_changes, tick_bot, rotate, Moved, move_parts, box_radius, view_radius, head_of,
}

-- `1000 * WorldConfig::move_step_distance / speed`
abbrev pub mov_frame_interval : ℕ → ℕ
mov_frame_interval speed = 1000 * move_step_distance / speed

module _ {F : Type 0} ⦃float : Float F⦄ where
  open float use {ratio, of_int, neg, add, mul, div, cos, sin, to_unsigned}

  -- The head and the parts move by a distance, and the boxes look for new sectors.
  unfoldable pub advance : F → Scene F → Scene F
  unfolding move_parts sbb_update_new vp_update_new
  advance move_dist (s, ss) =
      let prev = head_of s.parts in
      let head : Body F = record {
        x = add prev.x (mul (cos s.angle) move_dist);
        y = add prev.y (mul (sin s.angle) move_dist);
      } in
      let found =
        sbb_update_new s.sbb ss (of_int (pos (sector_size / 2))) head.x head.y prev.x prev.y in
      let vp = if s.bot then s.vp else vp_update_new s.vp found.1 head.x head.y prev.x prev.y in
      let rest : List (Body F) = elim s.parts [ [] ↦ [] | _ ∷ ps ↦ ps ] in
      let moved = move_parts 1 0 prev head head.x head.y found.0 found.1 rest in
      let n = of_int (pos (length s.parts)) in
      let center : BoundBoxPos F = record {
        x = div moved.bbx n;
        y = div moved.bby n;
        r = moved.box.r;
      } in
      (
        record s {
          parts = head ∷ moved.parts;
          sbb = record moved.box { at = center };
          vp = record vp {
            bound = record vp.bound { at = record { x = head.x; y = head.y; r = vp.r } };
          };
        },
        moved.sectors,
      )

  -- UpdateBoxRadius, and both UpdateBoxOldSectors
  unfoldable pub leave_sectors : Scene F → Scene F
  unfolding box_radius view_radius sbb_update_old vp_update_old
  leave_sectors (s, ss) =
      let grown = record s.sbb { at = record s.sbb.at { r = box_radius (length s.parts) } } in
      let left = sbb_update_old grown ss in
      let vp = record s.vp {
        bound = record s.vp.bound { at = record s.vp.at { r = view_radius } };
      } in
      (record s { sbb = left.0; vp = if s.bot then vp else vp_update_old vp left.1 }, left.1)

  -- The loss of mass of a snake that accelerates
  unfoldable pub burn : Scene F → Scene F
  unfolding decrease_snake
  burn (s, ss) =
      let less = decrease_snake 33 (s, ss) in
      if s.acceleration
      then (if leb (length s.parts) 3 then (record s { acceleration = false }, ss) else less)
      else (s, ss)

  -- The update of the speed: whether it changed, and the snake
  unfoldable pub change_speed : ℕ → Snake F → Bool × Snake F
  change_speed frames_ticks s =
      let wanted = if s.acceleration then boost_speed else base_move_speed in
      let sgn = if ltb s.speed wanted then ratio 1 1 else neg (ratio 1 1) in
      let acc =
        to_unsigned 16 (div (of_int (pos (speed_acceleration * frames_ticks))) (ratio 1000 1)) in
      let far = (wanted - s.speed) + (s.speed - wanted) in
      let step = to_unsigned 16 (add (of_int (pos s.speed)) (mul sgn (of_int (pos acc)))) in
      if s.speed == wanted
      then (false, s)
      else (true, record s { speed = if leb far acc then wanted else step })

  -- The branch of a movement, of a whole number of frames: whether the speed changed, and the scene
  unfoldable pub move : ℕ → Scene F → Bool × Scene F
  unfolding advance leave_sectors burn change_speed update_eaten_food
  move frames_ticks (s, ss) =
      let move_dist = div (of_int (pos (s.speed * frames_ticks))) (ratio 1000 1) in
      let advanced = advance move_dist (s, ss) in
      let left = leave_sectors advanced in
      let fed = update_eaten_food left.0 left.1 in
      let burnt = burn fed in
      let faster = change_speed frames_ticks burnt.0 in
      (faster.0, (record faster.1 { mov_ticks = faster.1.mov_ticks - frames_ticks }, burnt.1))

  -- Snake::Tick up to the changes that it notes: what changed, and the scene
  unfoldable pub tick_changes : ℕ → Scene F → Changes × Scene F
  unfolding tick_bot rotate move
  tick_changes dt (s, ss) =
      let rotated = rotate dt (tick_bot dt s) in
      let ready = record rotated.1 { mov_ticks = rotated.1.mov_ticks + dt } in
      let interval = mov_frame_interval ready.speed in
      let moved = move (ready.mov_ticks / interval * interval) (ready, ss) in
      if leb interval ready.mov_ticks
      then (record no_changes { pos = true; angle = rotated.0; speed = moved.0 }, moved.1)
      else (record no_changes { angle = rotated.0 }, (ready, ss))

  -- Snake::Tick: whether there is anything new, and the scene
  unfoldable pub tick : ℕ → Scene F → Bool × Scene F
  unfolding tick_changes join same_changes
  tick dt (s, ss) =
      let ticked = tick_changes dt (s, ss) in
      let changes = ticked.0 in
      let s' = ticked.1.0 in
      let ss' = ticked.1.1 in
      let fresh = not (same_changes changes no_changes) && not (same_changes changes s'.update) in
      let noted = record s' { update = join s'.update changes } in
      if s.update.dying || s.update.dead
      then (false, (s, ss))
      else if fresh
      then (true, (noted, ss'))
      else (false, (s', ss'))
