-- ===== src/Game/Tick/Clock.antt =====
-- The account of the time of movement in Snake::Tick.
use native.Mathlib.Nat.{mod-eq-sub-div-mul, mod-eq_of_lt, mod-lt, div-eq-sub-div}
use slitherss.Prelude.{
  ℕ, zero, suc, ◌+◌, ◌-◌, ◌*◌, ◌/◌, ◌%◌, ◌^◌, ◌≤◌, ◌<◌, ◌≡◌, refl, sym, ap, ap₂, ◌∙◌, Bool, false,
  not, ◌&&◌, leb, ◌||◌, List, arith, if_rule, if_cases, pos,
}
use slitherss.Float.{Float}
use slitherss.Game.Sector.{Food, Sector}
use slitherss.Game.Snake.{
  Changes, no_changes, Snake, spawn_food, update_snake_consts, increase_snake, drop_part,
  drop_parts, decrease_snake,
}
use slitherss.Game.Feed.{on_food_eaten, update_eaten_food}
use slitherss.Game.Move.{Scene, same_changes, tick_bot, tick_ai, steer, rotate}
use slitherss.Game.Tick.{
  mov_frame_interval, advance, leave_sectors, burn, change_speed, move, tick_changes, tick,
}
use slitherss.Game.Feed.Untouched.{update_eaten_food-view}

module _ {F : Type 0} ⦃float : Float F⦄ where
  on_food_eaten-clock : (f : Food) (s : Snake F) → (on_food_eaten f s).mov_ticks ≡ s.mov_ticks
  unfolding on_food_eaten increase_snake update_snake_consts
  on_food_eaten-clock f s = ground arith

  update_eaten_food-clock :
      (s : Snake F) (ss : List (Sector F)) → (update_eaten_food s ss).0.mov_ticks ≡ s.mov_ticks
  update_eaten_food-clock = update_eaten_food-view (λ s. s.mov_ticks) on_food_eaten-clock

  drop_parts-clock :
      (n : ℕ) (s : Snake F) (ss : List (Sector F))
      → (drop_parts n (s, ss)).0.mov_ticks ≡ s.mov_ticks
  unfolding drop_parts drop_part spawn_food
  drop_parts-clock zero s ss = refl
  drop_parts-clock (suc n) s ss =
      let next = drop_part (s, ss) in ground (arith, drop_parts-clock n next.0 next.1)

  burn-clock : (s : Snake F) (ss : List (Sector F)) → (burn (s, ss)).0.mov_ticks ≡ s.mov_ticks
  unfolding burn decrease_snake update_snake_consts
  burn-clock s ss = ground (arith, drop_parts-clock ((1 + (33 - s.fullness) / 100) % 2 ^ 16) s ss)

  change_speed-clock : (t : ℕ) (s : Snake F) → (change_speed t s).1.mov_ticks ≡ s.mov_ticks
  unfolding change_speed
  change_speed-clock t s = ground arith

  move-clock :
      (t : ℕ) (s : Snake F) (ss : List (Sector F))
      → (move t (s, ss)).1.0.mov_ticks ≡ s.mov_ticks - t
  unfolding move advance leave_sectors
  move-clock t s ss =
      let d = float.div (float.of_int (pos (s.speed * t))) (float.ratio 1000 1) in
      let left = leave_sectors (advance d (s, ss)) in
      let fed = update_eaten_food left.0 left.1 in
      ap (λ m. m - t)
        (change_speed-clock t (burn fed).0
          ∙ burn-clock fed.0 fed.1
          ∙ update_eaten_food-clock left.0 left.1)

  tick_ai-clock :
      (n : ℕ) (s : Snake F)
      → ((tick_ai n s).mov_ticks ≡ s.mov_ticks) × ((tick_ai n s).speed ≡ s.speed)
  unfolding tick_ai steer
  tick_ai-clock zero s = (refl, refl)
  tick_ai-clock (suc n) s = ground (arith, tick_ai-clock n (steer s))

  turn-clock :
      (t : ℕ) (s : Snake F)
      → let turned = (rotate t (tick_bot t s)).1 in
        (turned.mov_ticks ≡ s.mov_ticks) × (turned.speed ≡ s.speed)
  unfolding rotate tick_bot
  turn-clock t s =
      let ticks = s.ai_ticks + t in
      ground (arith, tick_ai-clock (ticks / 1000) (record s { ai_ticks = ticks }))

  tick_changes-clock :
      (dt : ℕ) (s : Snake F) (ss : List (Sector F))
      → (tick_changes dt (s, ss)).1.0.mov_ticks ≡ (s.mov_ticks + dt) % mov_frame_interval s.speed
  unfolding tick_changes
  tick_changes-clock dt s ss =
      let rotated = rotate dt (tick_bot dt s) in
      let ready : Snake F = record rotated.1 { mov_ticks = rotated.1.mov_ticks + dt } in
      let interval = mov_frame_interval ready.speed in
      let n = ready.mov_ticks / interval * interval in
      let had : ready.mov_ticks ≡ s.mov_ticks + dt = omega (arith, (turn-clock dt s).0) in
      let whole : ready.mov_ticks % interval ≡ (s.mov_ticks + dt) % mov_frame_interval s.speed =
        ap₂ (λ m v. m % mov_frame_interval v) had (turn-clock dt s).1 in
      if_cases
        (λ (t : Changes × Scene F).
          t.1.0.mov_ticks ≡ (s.mov_ticks + dt) % mov_frame_interval s.speed)
        (leb interval ready.mov_ticks)
        (λ _. move-clock n ready ss ∙ sym (mod-eq-sub-div-mul ready.mov_ticks interval) ∙ whole)
        (λ e. sym (mod-eq_of_lt (ground arith)) ∙ whole)

  -- Snake::Tick of a snake that is not dying or dead, at a speed of 1 to 42000, uses up all the time
  -- that makes whole frames at that speed: what is left of the time that it had and the time that
  -- passed is the remainder by the length of a frame, which is less than a frame.
  pub tick-clock :
      (dt : ℕ) (s : Snake F) (ss : List (Sector F))
      → (s.update.dying || s.update.dead) ≡ false
      → 0 < s.speed
      → s.speed ≤ 42000
      → let left = (tick dt (s, ss)).1.0.mov_ticks in
        (left ≡ (s.mov_ticks + dt) % mov_frame_interval s.speed)
        × (left < mov_frame_interval s.speed)
  unfolding tick
  tick-clock dt s ss alive low high =
      let ticked = tick_changes dt (s, ss) in
      let fresh =
        not (same_changes ticked.0 no_changes) && not (same_changes ticked.0 ticked.1.0.update) in
      let P : Bool × Scene F → Type 0 =
        λ t. t.1.0.mov_ticks ≡ (s.mov_ticks + dt) % mov_frame_interval s.speed in
      let known : (tick dt (s, ss)).1.0.mov_ticks
          ≡ (s.mov_ticks + dt) % mov_frame_interval s.speed =
        if_cases P (s.update.dying || s.update.dead) (λ e. absurd (cc))
          (λ _. if_rule P fresh (tick_changes-clock dt s ss) (tick_changes-clock dt s ss)) in
      let frame : 0 < mov_frame_interval s.speed = omega (arith, div-eq-sub-div low high) in
      (known, rw known (mod-lt (s.mov_ticks + dt) frame))
