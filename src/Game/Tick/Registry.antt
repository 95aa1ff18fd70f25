-- ===== src/Game/Tick/Registry.antt =====
-- Snake::Tick and the registry: the sectors of a snake's box, and the lists of the sectors.
use slitherss.Prelude.{
  ℕ, zero, suc, ◌+◌, ◌*◌, ◌/◌, ◌≡◌, refl, sym, subst, ◌∙◌, Bool, not, ◌&&◌, ◌||◌, List, [], ◌∷◌,
  arith, leb, if◌then◌else◌, if_rule, pos, length,
}
use slitherss.Float.{Float}
use slitherss.Game.Sector.{Sector, BoundBoxPos}
use slitherss.Game.BoundBox.{BoundBox, sbb_update_new, sbb_update_old}
use slitherss.Game.BoundBox.Registry.{
  IsRegistered, KeepsOthers, sbb_update_old-IsRegistered, sbb_update_new-IsRegistered,
}
use slitherss.Game.Snake.{Changes, no_changes, Body, Snake}
use slitherss.Game.Feed.{update_eaten_food}
use slitherss.Game.Move.{
  Scene, same_changes, move_parts, tick_bot, tick_ai, steer, rotate, place, tail_step, head_of,
  box_radius,
}
use slitherss.Game.Tick.{
  mov_frame_interval, advance, leave_sectors, burn, change_speed, move, tick_changes, tick,
}
use slitherss.Game.Tick.Kept.{
  Kept, Kept-refl, Kept-trans, Kept-at, update_eaten_food-Kept, decrease_snake-Kept,
}

module _ {F : Type 0} ⦃float : Float F⦄ where
  pub update_new-Kept :
      (bb : BoundBox F) (ss : List (Sector F)) (r nx ny ox oy : F)
      → IsRegistered bb ss
      → Kept bb ss (sbb_update_new bb ss r nx ny ox oy).0 (sbb_update_new bb ss r nx ny ox oy).1
  unfolding sbb_update_new
  update_new-Kept bb ss r nx ny ox oy v =
      let known = sbb_update_new-IsRegistered bb ss r nx ny ox oy v in
      record { same = ground arith; reg = known.0; others = known.1 }

  update_old-Kept :
      (bb : BoundBox F) (ss : List (Sector F))
      → IsRegistered bb ss
      → Kept bb ss (sbb_update_old bb ss).0 (sbb_update_old bb ss).1
  unfolding sbb_update_old
  update_old-Kept bb ss v =
      let known = sbb_update_old-IsRegistered bb ss v in
      record { same = refl; reg = known.1; others = known.2 }

  move_parts-Kept :
      (i j : ℕ) (prev last : Body F) (bbx bby : F) (bb : BoundBox F) (ss : List (Sector F))
      → (ps : List (Body F)) → IsRegistered bb ss
      → let moved = move_parts i j prev last bbx bby bb ss ps in Kept bb ss moved.box moved.sectors
  unfolding move_parts
  move_parts-Kept i j prev last bbx bby bb ss [] v = Kept-refl bb ss v
  move_parts-Kept i j prev last bbx bby bb ss (old ∷ rest) v =
      let pt = place i prev last in
      let in_tail = leb 7 i && leb i (j + tail_step F) in
      let found = sbb_update_new bb ss (float.of_int (pos 150)) pt.x pt.y old.x old.y in
      let next = if in_tail then found else (bb, ss) in
      let one : Kept bb ss next.0 next.1 =
        if_rule (λ (t : BoundBox F × List (Sector F)). Kept bb ss t.0 t.1) in_tail
          (update_new-Kept bb ss (float.of_int (pos 150)) pt.x pt.y old.x old.y v)
          (Kept-refl bb ss v) in
      Kept-trans one (
        move_parts-Kept (suc i) (if in_tail then i else j) old pt (float.add bbx pt.x)
          (float.add bby pt.y) next.0 next.1 rest one.reg)

  -- A change of the scene that keeps the registry of its snake
  abbrev Keeps : Scene F → Scene F → Type 0
  Keeps t t' = Kept t.0.sbb t.1 t'.0.sbb t'.1

  advance-Keeps :
      (d : F) (s : Snake F) (ss : List (Sector F))
      → IsRegistered s.sbb ss
      → Keeps (s, ss) (advance d (s, ss))
  unfolding advance
  advance-Keeps d s ss v =
      let prev = head_of s.parts in
      let hx = float.add prev.x (float.mul (float.cos s.angle) d) in
      let hy = float.add prev.y (float.mul (float.sin s.angle) d) in
      let rest : List (Body F) = elim s.parts [ [] ↦ [] | _ ∷ ps ↦ ps ] in
      let first = update_new-Kept s.sbb ss (float.of_int (pos 150)) hx hy prev.x prev.y v in
      let moved = move_parts-Kept 1 0 prev (record { x = hx; y = hy }) hx hy _ _ rest first.reg in
      Kept-trans first (Kept-trans moved (Kept-at _ _ _ moved.reg))

  leave_sectors-Keeps :
      (s : Snake F) (ss : List (Sector F))
      → IsRegistered s.sbb ss
      → Keeps (s, ss) (leave_sectors (s, ss))
  unfolding leave_sectors
  leave_sectors-Keeps s ss v =
      let at : BoundBoxPos F = record s.sbb.at { r = box_radius (length s.parts) } in
      let grown = Kept-at s.sbb ss at v in
      Kept-trans grown (update_old-Kept (record s.sbb { at = at }) ss grown.reg)

  burn-Keeps :
      (s : Snake F) (ss : List (Sector F)) → IsRegistered s.sbb ss → Keeps (s, ss) (burn (s, ss))
  unfolding burn
  burn-Keeps s ss v =
      if_rule (Keeps (s, ss)) s.acceleration
        (if_rule (Keeps (s, ss)) (leb (length s.parts) 3) (Kept-refl s.sbb ss v)
          (decrease_snake-Kept 33 s ss v))
        (Kept-refl s.sbb ss v)

  change_speed-sbb : (t : ℕ) (s : Snake F) → (change_speed t s).1.sbb ≡ s.sbb
  unfolding change_speed
  change_speed-sbb t s = ground arith

  tick_ai-sbb : (n : ℕ) (s : Snake F) → (tick_ai n s).sbb ≡ s.sbb
  unfolding tick_ai steer
  tick_ai-sbb zero s = refl
  tick_ai-sbb (suc n) s = ground (arith, tick_ai-sbb n (steer s))

  tick_bot-sbb : (t : ℕ) (s : Snake F) → (tick_bot t s).sbb ≡ s.sbb
  unfolding tick_bot
  tick_bot-sbb t s =
      let ticks = s.ai_ticks + t in
      ground (arith, tick_ai-sbb (ticks / 1000) (record s { ai_ticks = ticks }))

  rotate-sbb : (t : ℕ) (s : Snake F) → (rotate t s).1.sbb ≡ s.sbb
  unfolding rotate
  rotate-sbb t s = ground arith

  move-Keeps :
      (t : ℕ) (s : Snake F) (ss : List (Sector F))
      → IsRegistered s.sbb ss
      → Keeps (s, ss) (move t (s, ss)).1
  unfolding move
  move-Keeps t s ss v =
      let d = float.div (float.of_int (pos (s.speed * t))) (float.ratio 1000 1) in
      let advanced = advance d (s, ss) in
      let one = advance-Keeps d s ss v in
      let left = leave_sectors advanced in
      let two = leave_sectors-Keeps advanced.0 advanced.1 one.reg in
      let fed = update_eaten_food left.0 left.1 in
      let three = update_eaten_food-Kept left.0 left.1 two.reg in
      let burnt = burn fed in
      let four = burn-Keeps fed.0 fed.1 three.reg in
      rw (change_speed-sbb t burnt.0) (Kept-trans one (Kept-trans two (Kept-trans three four)))

  tick_changes-Keeps :
      (dt : ℕ) (s : Snake F) (ss : List (Sector F))
      → IsRegistered s.sbb ss
      → Keeps (s, ss) (tick_changes dt (s, ss)).1
  unfolding tick_changes
  tick_changes-Keeps dt s ss v =
      let rotated = rotate dt (tick_bot dt s) in
      let ready : Snake F = record rotated.1 { mov_ticks = rotated.1.mov_ticks + dt } in
      let same : ready.sbb ≡ s.sbb = rotate-sbb dt (tick_bot dt s) ∙ tick_bot-sbb dt s in
      let known : IsRegistered ready.sbb ss = subst (λ b. IsRegistered b ss) (sym same) v in
      let interval = mov_frame_interval ready.speed in
      let n = ready.mov_ticks / interval * interval in
      if_rule (λ (t : Changes × Scene F). Keeps (s, ss) t.1) (leb interval ready.mov_ticks)
        (subst (λ b. Kept b ss (move n (ready, ss)).1.0.sbb (move n (ready, ss)).1.1) same
          (move-Keeps n ready ss known))
        (subst (λ b. Kept b ss ready.sbb ss) same (Kept-refl ready.sbb ss known))

  -- Snake::Tick, a whole step of time with its turn, its movement, its food and its loss of parts:
  -- a snake that is registered with the sectors is registered with them after it, its id is the same
  -- and the entries of other snakes stay.
  pub tick-IsRegistered :
      (dt : ℕ) (s : Snake F) (ss : List (Sector F))
      → IsRegistered s.sbb ss
      → let after = (tick dt (s, ss)).1 in
        (after.0.sbb.id ≡ s.sbb.id)
        × IsRegistered after.0.sbb after.1
        × KeepsOthers s.sbb.id ss after.1
  unfolding tick
  tick-IsRegistered dt s ss v =
      let ticked = tick_changes dt (s, ss) in
      let fresh =
        not (same_changes ticked.0 no_changes) && not (same_changes ticked.0 ticked.1.0.update) in
      let kept = tick_changes-Keeps dt s ss v in
      let whole : Keeps (s, ss) (tick dt (s, ss)).1 =
        if_rule (λ (t : Bool × Scene F). Keeps (s, ss) t.1) (s.update.dying || s.update.dead)
          (Kept-refl s.sbb ss v)
          (if_rule (λ (t : Bool × Scene F). Keeps (s, ss) t.1) fresh kept kept) in
      (whole.same, whole.reg, whole.others)
