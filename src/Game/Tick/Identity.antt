-- ===== src/Game/Tick/Identity.antt =====
-- What Snake::Tick leaves alone in a snake: who it is, and what its client knows of its length.
use slitherss.Prelude.{
  ℕ, zero, suc, ◌+◌, ◌-◌, ◌*◌, ◌/◌, ◌%◌, ◌^◌, ◌≡◌, refl, ◌∙◌, Bool, not, ◌&&◌, leb, ◌||◌, List,
  arith, if_rule, pos,
}
use slitherss.Float.{Float}
use slitherss.Game.Sector.{Food, Sector}
use slitherss.Game.Snake.{
  Changes, no_changes, Snake, spawn_food, update_snake_consts, increase_snake, drop_part,
  drop_parts, decrease_snake,
}
use slitherss.Game.Feed.{on_food_eaten, update_eaten_food}
use slitherss.Game.Feed.Untouched.{update_eaten_food-view}
use slitherss.Game.Move.{Scene, same_changes, tick_bot, tick_ai, steer, rotate}
use slitherss.Game.Tick.{
  mov_frame_interval, advance, leave_sectors, burn, change_speed, move, tick_changes, tick,
}

module _ {F : Type 0} ⦃float : Float F⦄ where
  abbrev pub identity : Snake F → ℕ × (Bool × ℕ)
  identity s = (s.id, (s.bot, s.client_parts_index))

  on_food_eaten-identity : (f : Food) (s : Snake F) → identity (on_food_eaten f s) ≡ identity s
  unfolding on_food_eaten increase_snake update_snake_consts
  on_food_eaten-identity f s = ground arith

  drop_parts-identity :
      (n : ℕ) (s : Snake F) (ss : List (Sector F)) → identity (drop_parts n (s, ss)).0 ≡ identity s
  unfolding drop_parts drop_part spawn_food
  drop_parts-identity zero s ss = refl
  drop_parts-identity (suc n) s ss =
      let next = drop_part (s, ss) in ground (arith, drop_parts-identity n next.0 next.1)

  burn-identity : (s : Snake F) (ss : List (Sector F)) → identity (burn (s, ss)).0 ≡ identity s
  unfolding burn decrease_snake update_snake_consts
  burn-identity s ss =
      ground (arith, drop_parts-identity ((1 + (33 - s.fullness) / 100) % 2 ^ 16) s ss)

  change_speed-identity : (t : ℕ) (s : Snake F) → identity (change_speed t s).1 ≡ identity s
  unfolding change_speed
  change_speed-identity t s = ground arith

  move-identity :
      (t : ℕ) (s : Snake F) (ss : List (Sector F)) → identity (move t (s, ss)).1.0 ≡ identity s
  unfolding move advance leave_sectors
  move-identity t s ss =
      let d = float.div (float.of_int (pos (s.speed * t))) (float.ratio 1000 1) in
      let left = leave_sectors (advance d (s, ss)) in
      let fed = update_eaten_food left.0 left.1 in
      change_speed-identity t (burn fed).0
      ∙ burn-identity fed.0 fed.1
      ∙ update_eaten_food-view identity on_food_eaten-identity left.0 left.1

  tick_ai-identity : (n : ℕ) (s : Snake F) → identity (tick_ai n s) ≡ identity s
  unfolding tick_ai steer
  tick_ai-identity zero s = refl
  tick_ai-identity (suc n) s = ground (arith, tick_ai-identity n (steer s))

  pub turn-identity : (t : ℕ) (s : Snake F) → identity (rotate t (tick_bot t s)).1 ≡ identity s
  unfolding rotate tick_bot
  turn-identity t s =
      let ticks = s.ai_ticks + t in
      ground (arith, tick_ai-identity (ticks / 1000) (record s { ai_ticks = ticks }))

  tick_changes-identity :
      (dt : ℕ) (s : Snake F) (ss : List (Sector F))
      → identity (tick_changes dt (s, ss)).1.0 ≡ identity s
  unfolding tick_changes
  tick_changes-identity dt s ss =
      let rotated = rotate dt (tick_bot dt s) in
      let ready : Snake F = record rotated.1 { mov_ticks = rotated.1.mov_ticks + dt } in
      let interval = mov_frame_interval ready.speed in
      let n = ready.mov_ticks / interval * interval in
      if_rule (λ (t : Changes × Scene F). identity t.1.0 ≡ identity s)
        (leb interval ready.mov_ticks) (move-identity n ready ss ∙ turn-identity dt s)
        (turn-identity dt s)

  pub tick-identity :
      (dt : ℕ) (s : Snake F) (ss : List (Sector F)) → identity (tick dt (s, ss)).1.0 ≡ identity s
  unfolding tick
  tick-identity dt s ss =
      let ticked = tick_changes dt (s, ss) in
      let fresh =
        not (same_changes ticked.0 no_changes) && not (same_changes ticked.0 ticked.1.0.update) in
      let known = tick_changes-identity dt s ss in
      let P : Bool × Scene F → Type 0 = λ t. identity t.1.0 ≡ identity s in
      if_rule P (s.update.dying || s.update.dead) refl (if_rule P fresh known known)
