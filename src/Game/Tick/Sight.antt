-- ===== src/Game/Tick/Sight.antt =====
-- What the client of a snake sees of it, and what the parts of a tick leave of that.
use slitherss.Prelude.{
  ℕ, zero, suc, ◌+◌, ◌-◌, ◌*◌, ◌/◌, ◌%◌, ◌^◌, ◌≡◌, refl, ap, ap₂, ◌∙◌, Bool, true, false, not, ◌&&◌,
  ◌||◌, inl, inr, List, arith, leb, ltb, length, Option-cases, if_rule, pos,
}
use slitherss.Float.{Float}
use slitherss.Game.Sector.{Food, Sector}
use slitherss.Game.BoundBox.{ViewPort}
use slitherss.Game.Snake.{
  Changes, no_changes, Snake, spawn_food, update_snake_consts, increase_snake, drop_part,
  drop_parts, decrease_snake, spawn_sector, shed,
}
use slitherss.Game.Feed.{on_food_eaten, update_eaten_food}
use slitherss.Game.Feed.Untouched.{update_eaten_food-view}
use slitherss.Game.Move.{Scene, join, same_changes, tick_bot, tick_ai, steer, rotate}
use slitherss.Game.Tick.Identity.{turn-identity}
use slitherss.Game.Tick.{
  mov_frame_interval, advance, leave_sectors, burn, change_speed, move, tick_changes, tick,
}

or_none : (a b : Bool) → b ≡ false → (a || b) ≡ a
or_none a b e = ground (arith, e)

module _ {F : Type 0} ⦃float : Float F⦄ where
  -- What the client sees of a snake, and whether it is to be told of a movement or a death
  abbrev pub fate : Snake F → Bool × Bool
  fate s = (s.update.dying, s.update.dead)

  abbrev pub sight : Snake F → ViewPort F × (Bool × (Bool × Bool))
  sight s = (s.vp, (s.update.pos, fate s))

  on_food_eaten-sight : (f : Food) (s : Snake F) → sight (on_food_eaten f s) ≡ sight s
  unfolding on_food_eaten increase_snake update_snake_consts
  on_food_eaten-sight f s = ground arith

  spawn_food-sight :
      (s : Snake F) (ss : List (Sector F)) (f : Food) → sight (spawn_food s ss f).0 ≡ sight s
  unfolding spawn_food
  spawn_food-sight s ss f =
      elim (Option-cases (spawn_sector ss (f.x / 300) (f.y / 300) s.sbb.sectors)) [
        | inl e ↦ rw (e, spawn_food) refl
        | inr (k, e) ↦ rw (e, spawn_food) refl
      ]

  drop_parts-sight :
      (n : ℕ) (s : Snake F) (ss : List (Sector F)) → sight (drop_parts n (s, ss)).0 ≡ sight s
  unfolding drop_parts drop_part
  drop_parts-sight zero s ss = refl
  drop_parts-sight (suc n) s ss =
      let next = drop_part (s, ss) in
      drop_parts-sight n next.0 next.1
      ∙ if_rule (λ (t : Scene F). sight t.0 ≡ sight s) (ltb 3 (length s.parts))
          (spawn_food-sight s ss (shed s)) refl

  burn-sight : (s : Snake F) (ss : List (Sector F)) → sight (burn (s, ss)).0 ≡ sight s
  unfolding burn decrease_snake update_snake_consts
  burn-sight s ss =
      let P = λ (t : Scene F). sight t.0 ≡ sight s in
      let dropped = drop_parts-sight ((1 + (33 - s.fullness) / 100) % 2 ^ 16) s ss in
      if_rule P s.acceleration
        (if_rule P (leb (length s.parts) 3) refl (
          if_rule
            (λ (t : Scene F).
              sight (
                update_snake_consts (record t.0 { update = record t.0.update { fullness = true } }))
              ≡ sight s)
            (ltb s.fullness 33) dropped refl))
        refl

  change_speed-sight : (t : ℕ) (s : Snake F) → sight (change_speed t s).1 ≡ sight s
  unfolding change_speed
  change_speed-sight t s = ground arith

  tick_ai-sight : (n : ℕ) (s : Snake F) → sight (tick_ai n s) ≡ sight s
  unfolding tick_ai steer
  tick_ai-sight zero s = refl
  tick_ai-sight (suc n) s = ground (arith, tick_ai-sight n (steer s))

  pub turn-sight : (t : ℕ) (s : Snake F) → sight (rotate t (tick_bot t s)).1 ≡ sight s
  unfolding rotate tick_bot
  turn-sight t s =
      let ticks = s.ai_ticks + t in
      ground (arith, tick_ai-sight (ticks / 1000) (record s { ai_ticks = ticks }))

  pub turn-bot : (t : ℕ) (s : Snake F) → (rotate t (tick_bot t s)).1.bot ≡ s.bot
  turn-bot t s = ap (λ i. i.1.0) (turn-identity t s)

  -- Of a movement only the boxes change what is seen.
  pub move-sight :
      (t : ℕ) (s : Snake F) (ss : List (Sector F))
      → let d = float.div (float.of_int (pos (s.speed * t))) (float.ratio 1000 1) in
        sight (move t (s, ss)).1.0 ≡ sight (leave_sectors (advance d (s, ss))).0
  unfolding move
  move-sight t s ss =
      let d = float.div (float.of_int (pos (s.speed * t))) (float.ratio 1000 1) in
      let left = leave_sectors (advance d (s, ss)) in
      let fed = update_eaten_food left.0 left.1 in
      change_speed-sight t (burn fed).0
      ∙ burn-sight fed.0 fed.1
      ∙ update_eaten_food-view sight on_food_eaten-sight left.0 left.1

  pub move-notes :
      (t : ℕ) (s : Snake F) (ss : List (Sector F)) → (sight (move t (s, ss)).1.0).1 ≡ (sight s).1
  unfolding advance leave_sectors
  move-notes t s ss = ap (λ i. i.1) (move-sight t s ss)

  -- A tick finds no death.
  pub tick_changes-notes :
      (dt : ℕ) (s : Snake F) (ss : List (Sector F))
      → let t = tick_changes dt (s, ss) in
        ((sight t.1.0).1 ≡ (sight s).1) × (t.0.dying ≡ false) × (t.0.dead ≡ false)
  unfolding tick_changes
  tick_changes-notes dt s ss =
      let rotated = rotate dt (tick_bot dt s) in
      let ready : Snake F = record rotated.1 { mov_ticks = rotated.1.mov_ticks + dt } in
      let same : sight ready ≡ sight s = turn-sight dt s in
      let interval = mov_frame_interval ready.speed in
      let n = ready.mov_ticks / interval * interval in
      if_rule
        (λ (t : Changes × Scene F).
          ((sight t.1.0).1 ≡ (sight s).1) × (t.0.dying ≡ false) × (t.0.dead ≡ false))
        (leb interval ready.mov_ticks) (move-notes n ready ss ∙ ap (λ i. i.1) same, refl, refl)
        (ap (λ i. i.1) same, refl, refl)

  pub tick-fate :
      (dt : ℕ) (s : Snake F) (ss : List (Sector F)) → fate (tick dt (s, ss)).1.0 ≡ fate s
  unfolding tick join
  tick-fate dt s ss =
      let ticked = tick_changes dt (s, ss) in
      let c = ticked.0 in
      let s' = ticked.1.0 in
      let fresh = not (same_changes c no_changes) && not (same_changes c s'.update) in
      let (notes, dying, dead) = tick_changes-notes dt s ss in
      let known : fate s' ≡ fate s = ap (λ i. i.1) notes in
      let P : Bool × Scene F → Type 0 = λ t. fate t.1.0 ≡ fate s in
      if_rule P (s.update.dying || s.update.dead) refl (
        if_rule P fresh
          (ap₂ (λ a b. (a, b)) (or_none s'.update.dying c.dying dying)
              (or_none s'.update.dead c.dead dead)
            ∙ known)
          known)
