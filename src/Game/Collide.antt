-- ===== src/Game/Collide.antt =====
-- Of src/game/snake.cc: both Snake::Intersect, whether a circle touches a snake.
pub mod Scan
use slitherss.Prelude.{
  ℕ, zero, suc, ◌+◌, ◌-◌, ◌*◌, ◌/◌, Bool, true, false, ◌&&◌, ◌||◌, List, [], ◌∷◌, Option, none,
  some, ltb, leb, if◌then◌else◌, pos, length, get_elem?, take, drop,
}
use slitherss.Float.{Float}
use slitherss.Game.Config.{sector_size, move_step_distance}
use slitherss.Game.Math.{intersect_circle}
use slitherss.Game.Sector.{BoundBoxPos}
use slitherss.Game.Snake.{Body, Snake}
use slitherss.Game.Move.{tail_step}

-- `static const size_t head_size`
abbrev pub head_size : ℕ
head_size = 8

-- The answer of a loop. That it is `none` does not come up where the rounds are enough.
abbrev pub or_false : Option Bool → Bool
or_false none = false
or_false (some b) = b

module _ {F : Type 0} ⦃float : Float F⦄ where
  open float use {ratio, of_int, add, sub, div}

  -- The body of the loop: a weak test of a part, then the part, the one before it, and their middle.
  unfoldable pub touches : Snake F → BoundBoxPos F → Body F → Body F → Bool
  unfolding intersect_circle
  touches s foe prev iter =
      let r = add foe.r s.sbpr in
      let mid_x = add iter.x (div (sub prev.x iter.x) (ratio 2 1)) in
      let mid_y = add iter.y (div (sub prev.y iter.y) (ratio 2 1)) in
      intersect_circle iter.x iter.y foe.x foe.y (of_int (pos (move_step_distance * 2)))
      && (intersect_circle iter.x iter.y foe.x foe.y r
          || intersect_circle prev.x prev.y foe.x foe.y r
          || intersect_circle mid_x mid_y foe.x foe.y r)

  -- Snake::Intersect of a range of parts: `prev`, and the parts from `iter` to `end`.
  unfoldable pub intersect_range : Snake F → BoundBoxPos F → Body F → List (Body F) → Bool
  unfolding touches
  intersect_range s foe prev [] = false
  intersect_range s foe prev (iter ∷ rest) =
      let later = intersect_range s foe iter rest in if touches s foe prev iter then true else later

  -- `Intersect(foe, begin + start, begin + start + 1, begin + last)`
  unfoldable pub intersect_slice : Snake F → BoundBoxPos F → ℕ → ℕ → Bool
  unfolding intersect_range
  intersect_slice s foe start last = elim (drop start s.parts) [
    | [] ↦ false
    | prev ∷ rest ↦ intersect_range s foe prev (take (last - start - 1) rest)
  ]

  -- The circle of half a sector round the part i, against the foe
  unfoldable pub near_part : Snake F → BoundBoxPos F → ℕ → Bool
  unfolding intersect_circle
  near_part s foe i = elim (get_elem? s.parts i) [
    | none ↦ false
    | some p ↦ intersect_circle p.x p.y foe.x foe.y (of_int (pos (sector_size / 2)))
  ]

  -- The loop over the tail, from the part i on; `none` if the rounds are used up before its end. With
  -- a step of 1 at least, as many rounds as there are parts are enough.
  unfoldable pub intersect_tail : ℕ → Snake F → BoundBoxPos F → ℕ → Option Bool
  unfolding near_part intersect_slice tail_step
  intersect_tail zero s foe i = if ltb i (length s.parts) then none else some false
  intersect_tail (suc fuel) s foe i =
      let len = length s.parts in
      let half = tail_step F / 2 in
      let last = if ltb len (i + half) then len else i + half in
      let later = intersect_tail fuel s foe (i + tail_step F) in
      if ltb i len
      then (if near_part s foe i && intersect_slice s foe (i - half) last then some true else later)
      else some false

  -- Snake::Intersect, for a snake with a head
  unfoldable pub intersect : Snake F → BoundBoxPos F → Bool
  unfolding intersect_tail near_part intersect_slice tail_step
  intersect s foe =
      let len = length s.parts in
      if leb len (head_size + tail_step F)
      then intersect_slice s foe 0 len
      else if near_part s foe 3 && intersect_slice s foe 0 9
      then true
      else or_false (intersect_tail len s foe (7 + tail_step F / 2))
