-- ===== src/Game/Tick/Seen.antt =====
-- A tick and the view port: what the client of a snake has to be told.
use slitherss.Prelude.{
  ℕ, ◌+◌, ◌*◌, ◌/◌, ◌≡◌, refl, sym, subst, ap, ◌∙◌, Bool, true, false, not, ◌&&◌, ◌||◌, inl, inr,
  List, [], arith, leb, if◌then◌else◌, if_rule, if_cases, Bool-cases, pos, elem, elem-select,
}
use slitherss.Prelude.Order.{IsAscending, select-IsAscending}
use slitherss.Float.{Float}
use slitherss.Game.Sector.{Sector}
use slitherss.Game.BoundBox.{ViewPort, sbb_update_new, sector_meets, vp_update_new, vp_update_old}
use slitherss.Game.BoundBox.View.{
  found-IsAscending, elem-found, found-old, left-sectors, elem-left, moved_to,
}
use slitherss.Game.Snake.{Changes, no_changes, Snake}
use slitherss.Game.Move.{Scene, join, same_changes, tick_bot, rotate, head_of, view_radius}
use slitherss.Game.Tick.Sight.{move-sight, turn-sight, turn-bot, tick_changes-notes}
use slitherss.Game.Tick.{mov_frame_interval, advance, leave_sectors, move, tick_changes, tick}

-- The sector k in a view port, for a client that knows it or not: if the client is told the new
-- sectors and then to forget the old ones, it knows whether k is a sector of the view port.
pub record Tells {F : Type 0} (k : ℕ) (known : Bool) (vp : ViewPort F) : Type 0 where
  pub sorted : IsAscending vp.sectors
  pub told : elem k vp.sectors ≡ ((known || elem k vp.new_sectors) && not (elem k vp.old_sectors))

-- There is nothing to tell.
abbrev pub IsTold : {F : Type 0} → ViewPort F → Type 0
IsTold vp = (vp.new_sectors ≡ []) × (vp.old_sectors ≡ [])

module _ {F : Type 0} ⦃float : Float F⦄ (ss ss' : List (Sector F)) (vp : ViewPort F)
    (new_x new_y old_x old_y x y r : F) where
  new-update_old : (vp' : ViewPort F) → (vp_update_old vp' ss').new_sectors ≡ vp'.new_sectors
  unfolding vp_update_old
  new-update_old vp' = refl

  -- Both updates of a movement, the second one with the sectors as they are then
  view_moves :
      (k : ℕ) (known : Bool)
      → Tells k known vp
      → IsTold vp
      → Tells k known
          (vp_update_old (moved_to ss (vp_update_new vp ss new_x new_y old_x old_y) x y r) ss')
  view_moves k known t (none_new, none_old) =
      let mid = moved_to ss (vp_update_new vp ss new_x new_y old_x old_y) x y r in
      let asc : IsAscending mid.sectors =
        found-IsAscending ss vp new_x new_y old_x old_y t.sorted in
      let meets = sector_meets ss' mid.at in
      record {
        sorted = rw (left-sectors ss' mid asc) (select-IsAscending meets mid.sectors asc);
        told =
            rw (left-sectors ss' mid asc, new-update_old mid)
              (ground (
                arith,
                t.told,
                elem-select meets k mid.sectors,
                elem-left ss' mid asc k,
                elem-found ss vp new_x new_y old_x old_y t.sorted none_new k,
                found-old ss vp new_x new_y old_x old_y t.sorted,
                none_new,
                none_old,
              ));
      }

-- A movement that was not noted yet is news.
pos-fresh :
    (c u : Changes)
    → c.pos ≡ true
    → u.pos ≡ false
    → (not (same_changes c no_changes) && not (same_changes c u)) ≡ true
unfolding same_changes
pos-fresh c u e e' = ground (arith, e, e')

module _ {F : Type 0} ⦃float : Float F⦄ where
  -- The movement of a snake that a client watches
  move-Tells :
      (k : ℕ) (known : Bool) (t : ℕ) (s : Snake F) (ss : List (Sector F))
      → s.bot ≡ false
      → Tells k known s.vp
      → IsTold s.vp
      → Tells k known (move t (s, ss)).1.0.vp
  unfolding move advance leave_sectors
  move-Tells k known t s ss player v told =
      let d = float.div (float.of_int (pos (s.speed * t))) (float.ratio 1000 1) in
      let prev = head_of s.parts in
      let hx = float.add prev.x (float.mul (float.cos s.angle) d) in
      let hy = float.add prev.y (float.mul (float.sin s.angle) d) in
      let first = (sbb_update_new s.sbb ss (float.of_int (pos 150)) hx hy prev.x prev.y).1 in
      let advanced = advance d (s, ss) in
      let left = leave_sectors advanced in
      let same = ap (λ i. i.0) (move-sight t s ss) in
      let seen : Tells k known left.0.vp =
        subst
          (λ b.
            let vp = if b then s.vp else vp_update_new s.vp first hx hy prev.x prev.y in
            let at = moved_to first vp hx hy view_radius in
            Tells k known (if b then at else vp_update_old at left.1))
          (sym player)
          (view_moves first left.1 s.vp hx hy prev.x prev.y hx hy view_radius k known v told) in
      subst (Tells k known) (sym same) seen

  -- What a tick makes of a snake that is told of, with the changes that it found
  record Moves (k : ℕ) (known : Bool) (t : Changes × Scene F) : Type 0 where
    tells : Tells k known t.1.0.vp
    quiet : t.0.pos ≡ false → IsTold t.1.0.vp

  tick_changes-Moves :
      (k : ℕ) (known : Bool) (dt : ℕ) (s : Snake F) (ss : List (Sector F))
      → s.bot ≡ false
      → Tells k known s.vp
      → IsTold s.vp
      → Moves k known (tick_changes dt (s, ss))
  unfolding tick_changes
  tick_changes-Moves k known dt s ss player v told =
      let rotated = rotate dt (tick_bot dt s) in
      let ready : Snake F = record rotated.1 { mov_ticks = rotated.1.mov_ticks + dt } in
      let vp : ready.vp ≡ s.vp = ap (λ i. i.0) (turn-sight dt s) in
      let still : Tells k known ready.vp = subst (Tells k known) (sym vp) v in
      let told' : IsTold ready.vp = subst IsTold (sym vp) told in
      let interval = mov_frame_interval ready.speed in
      let n = ready.mov_ticks / interval * interval in
      if_rule (Moves k known) (leb interval ready.mov_ticks)
        (record {
          tells = move-Tells k known n ready ss (turn-bot dt s ∙ player) still told';
          quiet = λ e. absurd cc;
        })
        (record { tells = still; quiet = λ e. told' })

  -- After a tick: what there is to tell is noted as a movement, and Tick says so.
  pub record Seen (k : ℕ) (known : Bool) (t : Bool × Scene F) : Type 0 where
    pub tells : Tells k known t.1.0.vp
    pub quiet : t.1.0.update.pos ≡ false → IsTold t.1.0.vp
    pub news : t.1.0.update.pos ≡ true → t.0 ≡ true

  -- Snake::Tick of a player's snake whose client was told of everything: a client that is told the
  -- new sectors of the view port, and then to forget the old ones, knows those of the view port. If
  -- there are any, the movement is noted, and Tick returns that there is something new.
  pub tick-Seen :
      (k : ℕ) (known : Bool) (dt : ℕ) (s : Snake F) (ss : List (Sector F))
      → s.bot ≡ false
      → s.update.pos ≡ false
      → Tells k known s.vp
      → IsTold s.vp
      → Seen k known (tick dt (s, ss))
  unfolding tick join
  tick-Seen k known dt s ss player still v told =
      let ticked = tick_changes dt (s, ss) in
      let c = ticked.0 in
      let s' = ticked.1.0 in
      let fresh = not (same_changes c no_changes) && not (same_changes c s'.update) in
      let m = tick_changes-Moves k known dt s ss player v told in
      let no_pos : s'.update.pos ≡ false = ap (λ i. i.0) (tick_changes-notes dt s ss).0 ∙ still in
      if_rule (Seen k known) (s.update.dying || s.update.dead)
        (record { tells = v; quiet = λ e. told; news = λ e. absurd (ground (arith, e, still)) })
        (if_cases (Seen k known) fresh
          (λ new. record {
            tells = m.tells;
            quiet = λ e. m.quiet (ground (arith, e, no_pos));
            news = λ e. refl;
          })
          (λ old. record {
            tells = m.tells;
            quiet = λ e. m.quiet (elim (Bool-cases c.pos) [
              | inl moved ↦ absurd (ground (arith, pos-fresh c s'.update moved no_pos, old))
              | inr unmoved ↦ unmoved
            ]);
            news = λ e. absurd (ground (arith, e, no_pos));
          }))
