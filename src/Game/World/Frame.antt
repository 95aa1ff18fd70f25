-- ===== src/Game/World/Frame.antt =====
-- Of src/game/world.cc: Tick, TickSnakes and CheckSnakeBounds.
use slitherss.Prelude.{
  ℕ, ◌+◌, ◌-◌, ◌*◌, ◌/◌, ◌%◌, ◌^◌, Bool, true, false, ◌||◌, List, [], ◌∷◌, ◌++◌, none, some, ltb,
  ◌==◌, if◌then◌else◌, pos, get_elem?, elem,
}
use slitherss.Float.{Float}
use slitherss.Game.Config.{game_radius, death_radius, move_step_distance, frame_time_ms}
use slitherss.Game.Math.{distance_squared}
use slitherss.Game.Sector.{BoundBoxPos, Sector}
use slitherss.Game.BoundBox.{window, sector_meets, sector_coord}
use slitherss.Game.Snake.{Snake}
use slitherss.Game.Move.{head_of}
use slitherss.Game.Collide.{intersect}
use slitherss.Game.Tick.{tick}
use slitherss.Game.World.{World, find_snake, update_snake}

-- The snakes and sectors after the first loop of TickSnakes, and the ids that it pushes.
pub record Ticked (F : Type 0) : Type 0 where
  pub snakes : List (ℕ × Snake F)
  pub sectors : List (Sector F)
  pub changed : List ℕ

module _ {F : Type 0} ⦃float : Float F⦄ where
  open float use {le, of_int}

  -- The first loop of World::TickSnakes
  unfoldable pub tick_all : ℕ → List (ℕ × Snake F) → List (Sector F) → Ticked F
  tick_all dt [] ss = record { snakes = []; sectors = ss; changed = [] }
  tick_all dt ((k, s) ∷ rest) ss =
      let ticked = tick dt (s, ss) in
      let later = tick_all dt rest ticked.1.1 in
      record {
        snakes = (k, ticked.1.0) ∷ later.snakes;
        sectors = later.sectors;
        changed = if ticked.0 then s.id ∷ later.changed else later.changed;
      }

  -- Of CheckSnakeBounds, the loop over the snakes of a sector: whether one is hit, and the cache.
  -- A `BoundBox *` leads to its snake by the id; `snakes` are those of the world.
  unfoldable pub check_snakes :
      List (ℕ × Snake F) → ℕ → BoundBoxPos F → List ℕ → List ℕ → Bool × List ℕ
  unfolding find_snake
  check_snakes snakes me check cache [] = (false, cache)
  check_snakes snakes me check cache (b ∷ bs) =
      let next = check_snakes snakes me check cache bs in
      elim (find_snake b snakes) [
        | none ↦ next
        | some s2 ↦
            let later = check_snakes snakes me check (cache ++ s2.id ∷ []) bs in
            if b == me || elem s2.id cache
            then next
            else if intersect s2 check
            then (true, cache ++ s2.id ∷ [])
            else later
      ]

  -- The loop over the sectors round the head
  unfoldable pub check_cells :
      List (ℕ × Snake F) → List (Sector F) → ℕ → BoundBoxPos F → List ℕ → List ℕ → Bool
  unfolding check_snakes sector_meets
  check_cells snakes ss me check cache [] = false
  check_cells snakes ss me check cache (k ∷ ks) =
      let step : BoundBoxPos F = record check { r = of_int (pos move_step_distance) } in
      let next = check_cells snakes ss me check cache ks in
      elim (get_elem? ss k) [
        | none ↦ next
        | some sec ↦
            let found = check_snakes snakes me check cache sec.snakes in
            let later = check_cells snakes ss me check found.1 ks in
            if sector_meets ss step k then (if found.0 then true else later) else next
      ]

  -- The test of the bounds of the world
  unfoldable pub is_outside : Snake F → Bool
  unfolding distance_squared
  is_outside s =
      let head = head_of s.parts in
      let center = of_int (pos game_radius) in
      le (of_int (pos (death_radius * death_radius))) (distance_squared head.x head.y center center)

  abbrev pub check_of : Snake F → BoundBoxPos F
  check_of s = let head = head_of s.parts in record { x = head.x; y = head.y; r = s.sbpr }

  -- Whether World::CheckSnakeBounds finds that the snake dies
  unfoldable pub is_dying : World F → Snake F → Bool
  unfolding is_outside check_cells sector_coord window
  is_dying w s =
      let check = check_of s in
      let cells = window 1 (sector_coord check.x) (sector_coord check.y) in
      if is_outside s then true else check_cells w.snakes w.sectors s.id check [] cells

  -- World::CheckSnakeBounds
  unfoldable pub check_snake_bounds : ℕ → World F → World F
  unfolding find_snake update_snake is_dying
  check_snake_bounds id w = elim (find_snake id w.snakes) [
    | none ↦ w
    | some s ↦
        let kill : Snake F → Snake F =
          λ s'. record s' { update = record s'.update { dying = true } } in
        if is_dying w s then record w { snakes = update_snake id kill w.snakes } else w
  ]

  -- The second loop of World::TickSnakes, over the ids in `changes`
  unfoldable pub check_changes : List ℕ → World F → World F
  unfolding find_snake check_snake_bounds
  check_changes [] w = w
  check_changes (id ∷ ids) w =
      let checked = check_snake_bounds id w in
      let moved : Bool = elim (find_snake id w.snakes) [ none ↦ false | some s ↦ s.update.pos ] in
      check_changes ids (if moved then checked else w)

  -- World::TickSnakes, its first loop
  abbrev pub tick_each : ℕ → World F → World F
  tick_each dt w =
      let ticked = tick_all dt w.snakes w.sectors in
      record w {
        snakes = ticked.snakes;
        sectors = ticked.sectors;
        changes = w.changes ++ ticked.changed;
      }

  -- World::TickSnakes
  unfoldable pub tick_snakes : ℕ → World F → World F
  unfolding tick_all check_changes
  tick_snakes dt w = let ticked = tick_each dt w in check_changes ticked.changes ticked

  -- World::Tick
  unfoldable pub world_tick : ℕ → World F → World F
  unfolding tick_snakes
  world_tick dt w =
      let ticks = w.ticks + dt in
      let vfr = ticks / frame_time_ms in
      let vfr_time = vfr * frame_time_ms in
      let ticked = tick_snakes vfr_time (record w { ticks = ticks }) in
      if ltb 0 vfr
      then record ticked {
        ticks = ticked.ticks - vfr_time;
        frames = (ticked.frames + vfr) % 2 ^ 32;
      }
      else record w { ticks = ticks }
