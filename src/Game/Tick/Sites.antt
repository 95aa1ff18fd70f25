-- ===== src/Game/Tick/Sites.antt =====
-- A tick of a snake leaves the sectors where they are.
use slitherss.Prelude.{
  ℕ, zero, suc, ◌+◌, ◌-◌, ◌*◌, ◌/◌, ◌%◌, ◌^◌, ◌≡◌, refl, ◌∙◌, Bool, not, ◌&&◌, ◌||◌, inl, inr, List,
  [], ◌∷◌, ltb, leb, if◌then◌else◌, if_rule, head_rule, Option-cases, pos, length, foldl, modify,
  elem, ◌==◌,
}
use slitherss.Float.{Float}
use slitherss.Game.Sector.{
  Food, Sector, BoundBoxPos, insert_food, get_sector, get_index, remove_snake,
}
use slitherss.Game.Sector.Sites.{sites, sites-modify, site-remove_snake}
use slitherss.Game.BoundBox.{
  BoundBox, Registered, sector_meets, sector_coord, same_sector, window, is_present, reg_cell,
  insert_sorted_with_reg, sbb_update_new, sbb_update_old,
}
use slitherss.Game.BoundBox.Refresh.{view-update_old}
use slitherss.Game.BoundBox.Registry.{keep-forget}
use slitherss.Game.Snake.{
  Changes, no_changes, Body, Snake, spawn_food, shed, drop_part, drop_parts, decrease_snake,
  spawn_sector,
}
use slitherss.Game.Feed.{eat_around, eat_at, update_eaten_food}
use slitherss.Game.Move.{
  Scene, same_changes, move_parts, tick_bot, rotate, place, tail_step, head_of, box_radius,
}
use slitherss.Game.Tick.{mov_frame_interval, advance, leave_sectors, burn, move, tick_changes, tick}

module _ {F : Type 0} where
  pub sites-food :
      (ss : List (Sector F)) (k : ℕ) (g : List Food → List Food)
      → sites (modify ss k (λ s. record s { food = g s.food })) ≡ sites ss
  sites-food ss k g = sites-modify ss k (λ s. record s { food = g s.food }) (λ s. refl)

  pub sites-spawn_food :
      (s : Snake F) (ss : List (Sector F)) (f : Food) → sites (spawn_food s ss f).1 ≡ sites ss
  unfolding spawn_food
  sites-spawn_food s ss f =
      elim (Option-cases (spawn_sector ss (f.x / 300) (f.y / 300) s.sbb.sectors)) [
        | inl e ↦ rw (e, spawn_food) refl
        | inr (k, e) ↦ rw (e, spawn_food) (sites-food ss k (insert_food f))
      ]

module _ {F : Type 0} ⦃float : Float F⦄ where
  sites-reg_cells :
      (id : ℕ) (box : BoundBoxPos F) (cs xs : List ℕ) (ss : List (Sector F))
      → sites (foldl (reg_cell id box) (xs, ss) cs).1 ≡ sites ss
  unfolding reg_cell insert_sorted_with_reg
  sites-reg_cells id box [] xs ss = refl
  sites-reg_cells id box (c ∷ cs) xs ss =
      let next = reg_cell id box (xs, ss) c in
      sites-reg_cells id box cs next.0 next.1
      ∙ if_rule (λ (r : Registered F). sites r.1 ≡ sites ss)
          (not (is_present c xs) && sector_meets ss box c) (sites-modify ss c _ (λ s. refl)) refl

  pub sites-update_new :
      (bb : BoundBox F) (ss : List (Sector F)) (r nx ny ox oy : F)
      → sites (sbb_update_new bb ss r nx ny ox oy).1 ≡ sites ss
  unfolding sbb_update_new
  sites-update_new bb ss r nx ny ox oy =
      if_rule (λ (t : BoundBox F × List (Sector F)). sites t.1 ≡ sites ss) (same_sector nx ny ox oy)
        refl
        (sites-reg_cells bb.id (record { x = nx; y = ny; r = r })
          (window 1 (sector_coord nx) (sector_coord ny)) bb.sectors ss)

  sites-update_old :
      (bb : BoundBox F) (ss : List (Sector F)) → sites (sbb_update_old bb ss).1 ≡ sites ss
  unfolding sbb_update_old
  sites-update_old bb ss =
      let P = λ (ps : List (ℕ × ℕ)). ps ≡ sites ss in
      view-update_old (λ k ss'. sector_meets ss' bb.at k)
        (λ k ss'. modify ss' k (remove_snake bb.id)) (keep-forget bb ss) sites 0 (λ v. v)
        (λ k ss'.
          let gone = sites-modify ss' k (remove_snake bb.id) (site-remove_snake bb.id) in
          if_rule (λ v. sites (modify ss' k (remove_snake bb.id)) ≡ v) (k == 0) gone gone)
        (λ v. refl) bb.sectors ss
      ∙ if_rule P (sector_meets ss bb.at 0) refl (if_rule P (elem 0 bb.sectors) refl refl)

  sites-move_parts :
      (i j : ℕ) (prev last : Body F) (bbx bby : F) (bb : BoundBox F) (ss : List (Sector F))
      (ps : List (Body F))
      → sites (move_parts i j prev last bbx bby bb ss ps).sectors ≡ sites ss
  unfolding move_parts
  sites-move_parts i j prev last bbx bby bb ss [] = refl
  sites-move_parts i j prev last bbx bby bb ss (old ∷ rest) =
      let pt = place i prev last in
      let in_tail = leb 7 i && leb i (j + tail_step F) in
      let found = sbb_update_new bb ss (float.of_int (pos 150)) pt.x pt.y old.x old.y in
      let next = if in_tail then found else (bb, ss) in
      sites-move_parts (suc i) (if in_tail then i else j) old pt (float.add bbx pt.x)
        (float.add bby pt.y) next.0 next.1 rest
      ∙ if_rule (λ (t : BoundBox F × List (Sector F)). sites t.1 ≡ sites ss) in_tail
          (sites-update_new bb ss (float.of_int (pos 150)) pt.x pt.y old.x old.y) refl

  sites-advance :
      (d : F) (s : Snake F) (ss : List (Sector F)) → sites (advance d (s, ss)).1 ≡ sites ss
  unfolding advance
  sites-advance d s ss =
      let prev = head_of s.parts in
      let hx = float.add prev.x (float.mul (float.cos s.angle) d) in
      let hy = float.add prev.y (float.mul (float.sin s.angle) d) in
      let rest : List (Body F) = elim s.parts [ [] ↦ [] | _ ∷ ps ↦ ps ] in
      sites-move_parts 1 0 prev (record { x = hx; y = hy }) hx hy _ _ rest
      ∙ sites-update_new s.sbb ss (float.of_int (pos 150)) hx hy prev.x prev.y

  sites-leave_sectors :
      (s : Snake F) (ss : List (Sector F)) → sites (leave_sectors (s, ss)).1 ≡ sites ss
  unfolding leave_sectors
  sites-leave_sectors s ss =
      sites-update_old (record s.sbb { at = record s.sbb.at { r = box_radius (length s.parts) } })
        ss

  sites-eat_at :
      (hx hy r2 : ℕ) (s : Snake F) (ss : List (Sector F))
      → sites (eat_at hx hy r2 s ss).1 ≡ sites ss
  unfolding eat_at
  sites-eat_at hx hy r2 s ss = elim (Option-cases (get_sector ss (hx / 300) (hy / 300))) [
    | inl e ↦ rw (e, eat_at) refl
    | inr (sec, e) ↦
        rw (e, eat_at)
          (sites-food ss (get_index (hx / 300) (hy / 300))
            (λ _. (eat_around hx hy r2 sec.food s).food))
  ]

  sites-update_eaten_food :
      (s : Snake F) (ss : List (Sector F)) → sites (update_eaten_food s ss).1 ≡ sites ss
  unfolding update_eaten_food
  sites-update_eaten_food s ss =
      head_rule (λ (t : Scene F). sites t.1 ≡ sites ss) s.parts refl (λ p. sites-eat_at _ _ _ s ss)

  sites-drop_parts :
      (n : ℕ) (s : Snake F) (ss : List (Sector F)) → sites (drop_parts n (s, ss)).1 ≡ sites ss
  unfolding drop_parts drop_part
  sites-drop_parts zero s ss = refl
  sites-drop_parts (suc n) s ss =
      let next = drop_part (s, ss) in
      sites-drop_parts n next.0 next.1
      ∙ if_rule (λ (t : Scene F). sites t.1 ≡ sites ss) (ltb 3 (length s.parts))
          (sites-spawn_food s ss (shed s)) refl

  sites-burn : (s : Snake F) (ss : List (Sector F)) → sites (burn (s, ss)).1 ≡ sites ss
  unfolding burn decrease_snake
  sites-burn s ss =
      let P = λ (t : Scene F). sites t.1 ≡ sites ss in
      if_rule P s.acceleration
        (if_rule P (leb (length s.parts) 3) refl (
          if_rule P (ltb s.fullness 33)
            (sites-drop_parts ((1 + (33 - s.fullness) / 100) % 2 ^ 16) s ss) refl))
        refl

  sites-move : (t : ℕ) (s : Snake F) (ss : List (Sector F)) → sites (move t (s, ss)).1.1 ≡ sites ss
  unfolding move
  sites-move t s ss =
      let d = float.div (float.of_int (pos (s.speed * t))) (float.ratio 1000 1) in
      let advanced = advance d (s, ss) in
      let left = leave_sectors advanced in
      let fed = update_eaten_food left.0 left.1 in
      sites-burn fed.0 fed.1
      ∙ sites-update_eaten_food left.0 left.1
      ∙ sites-leave_sectors advanced.0 advanced.1
      ∙ sites-advance d s ss

  pub sites-tick :
      (dt : ℕ) (s : Snake F) (ss : List (Sector F)) → sites (tick dt (s, ss)).1.1 ≡ sites ss
  unfolding tick tick_changes
  sites-tick dt s ss =
      let ticked = tick_changes dt (s, ss) in
      let fresh =
        not (same_changes ticked.0 no_changes) && not (same_changes ticked.0 ticked.1.0.update) in
      let rotated = rotate dt (tick_bot dt s) in
      let ready : Snake F = record rotated.1 { mov_ticks = rotated.1.mov_ticks + dt } in
      let interval = mov_frame_interval ready.speed in
      let n = ready.mov_ticks / interval * interval in
      let known : sites ticked.1.1 ≡ sites ss =
        if_rule (λ (t : Changes × Scene F). sites t.1.1 ≡ sites ss) (leb interval ready.mov_ticks)
          (sites-move n ready ss) refl in
      let P = λ (t : Bool × Scene F). sites t.1.1 ≡ sites ss in
      if_rule P (s.update.dying || s.update.dead) refl (if_rule P fresh known known)
