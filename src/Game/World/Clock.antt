-- ===== src/Game/World/Clock.antt =====
-- The account of time in World::Tick.
use slitherss.Prelude.{
  ℕ, ◌+◌, ◌*◌, ◌/◌, ◌%◌, ◌^◌, ◌<◌, ◌≡◌, refl, ◌∙◌, Bool, false, inl, inr, List, [], ◌∷◌, none, some,
  arith, if◌then◌else◌, if_rule, Option-cases,
}
use slitherss.Float.{Float}
use slitherss.Game.Config.{frame_time_ms}
use slitherss.Game.World.{World, find_snake}
use slitherss.Game.World.Frame.{
  is_dying, check_snake_bounds, check_changes, tick_each, tick_snakes, world_tick,
}

module _ {F : Type 0} ⦃float : Float F⦄ {V : Type 0} (view : World F → V)
    (keeps : (w : World F) (snakes : _) → view (record w { snakes = snakes }) ≡ view w) where
  check_snake_bounds-view : (id : ℕ) (w : World F) → view (check_snake_bounds id w) ≡ view w
  unfolding check_snake_bounds
  check_snake_bounds-view id w = elim (Option-cases (find_snake id w.snakes)) [
    | inl e ↦ rw (e, check_snake_bounds) refl
    | inr (s, e) ↦
        rw (e, check_snake_bounds)
          (if_rule (λ w'. view w' ≡ view w) (is_dying w s) (keeps w _) refl)
  ]

  -- What does not read the snakes, the second loop of TickSnakes keeps.
  pub check_changes-view : (ids : List ℕ) (w : World F) → view (check_changes ids w) ≡ view w
  unfolding check_changes
  check_changes-view [] w = refl
  check_changes-view (id ∷ ids) w =
      let checked = check_snake_bounds id w in
      let moved : Bool = elim (find_snake id w.snakes) [ none ↦ false | some s ↦ s.update.pos ] in
      check_changes-view ids (if moved then checked else w)
      ∙ if_rule (λ w'. view w' ≡ view w) moved (check_snake_bounds-view id w) refl

module _ {F : Type 0} ⦃float : Float F⦄ where
  tick_snakes-clock :
      (dt : ℕ) (w : World F)
      → ((tick_snakes dt w).ticks ≡ w.ticks) × ((tick_snakes dt w).frames ≡ w.frames)
  unfolding tick_snakes
  tick_snakes-clock dt w = (
    check_changes-view {F = F} (λ w'. w'.ticks) (λ w' s. refl) (tick_each dt w).changes
        (tick_each dt w),
    check_changes-view {F = F} (λ w'. w'.frames) (λ w' s. refl) (tick_each dt w).changes
        (tick_each dt w),
  )

  -- World::Tick keeps account of time, from a frame count of 32 bits on: the
  -- frames passed are those that fit into the time so far and the new, the rest of the division is left for the next tick, and it is less than a frame.
  pub world_tick-clock :
      (dt : ℕ) (w : World F)
      → w.frames < 2 ^ 32
      → let after = world_tick dt w in
        (after.ticks ≡ (w.ticks + dt) % frame_time_ms)
        × (after.frames ≡ (w.frames + (w.ticks + dt) / frame_time_ms) % 2 ^ 32)
        × (after.ticks < frame_time_ms)
  unfolding world_tick
  world_tick-clock dt w h =
      let ticks = w.ticks + dt in
      let known = tick_snakes-clock (ticks / 8 * 8) (record w { ticks = ticks }) in
      ground (arith, known.0, known.1)
