-- ===== src/Server/Game/Watched/Ticked.antt =====
-- World::Tick and BroadcastDebug, and what the clients know of the sectors.
use slitherss.Prelude.{
  ℕ, ◌+◌, ◌*◌, ◌/◌, ◌≡◌, refl, sym, subst, ap, ◌∙◌, Bool, true, false, inl, inr, List, [], ◌∷◌,
  ◌++◌, Option, none, some, arith, ltb, ◌==◌, if◌then◌else◌, if_rule, Bool-cases, Option-cases,
  elem, elem-append,
}
use slitherss.Float.{Float}
use slitherss.Game.Sector.{Sector}
use slitherss.Game.Sector.Sites.{sites}
use slitherss.Game.Snake.{Snake}
use slitherss.Game.Tick.{tick}
use slitherss.Game.Tick.Identity.{tick-identity}
use slitherss.Game.Tick.Seen.{tick-Seen}
use slitherss.Game.Tick.Sight.{fate, tick-fate}
use slitherss.Game.Tick.Sites.{sites-tick}
use slitherss.Game.World.{World, find_snake}
use slitherss.Game.World.Clock.{check_changes-view}
use slitherss.Game.World.Frame.{
  tick_all, tick_each, is_dying, check_snake_bounds, check_changes, tick_snakes, world_tick,
}
use slitherss.Server.Game.{Clock, Server}
use slitherss.Server.Game.Linked.{snake_of, IsLinked}
use slitherss.Server.Game.Linked.Rounds.{find_snake-update_snake}
use slitherss.Server.Game.Replay.Shown.{shown}
use slitherss.Server.Game.Watched.{Sees, Watches}

module _ {F : Type 0} ⦃float : Float F⦄ where
  pub sites-tick_all :
      (dt : ℕ) (snakes : List (ℕ × Snake F)) (ss : List (Sector F))
      → sites (tick_all dt snakes ss).sectors ≡ sites ss
  unfolding tick_all
  sites-tick_all dt [] ss = refl
  sites-tick_all dt ((k, s) ∷ rest) ss =
      sites-tick_all dt rest (tick dt (s, ss)).1.1 ∙ sites-tick dt s ss

  -- Where a snake after the first loop of TickSnakes comes from
  record Comes (dt : ℕ) (from : Option (Snake F)) (changed : List ℕ) (s : Snake F) : Type 0 where
    before : Snake F
    sectors : List (Sector F)
    found : from ≡ some before
    made : s ≡ (tick dt (before, sectors)).1.0
    told : (tick dt (before, sectors)).0 ≡ true → elem before.id changed ≡ true

  tick_all-Comes :
      (dt i : ℕ) (snakes : List (ℕ × Snake F)) (ss : List (Sector F)) (s : Snake F)
      → find_snake i (tick_all dt snakes ss).snakes ≡ some s
      → Comes dt (find_snake i snakes) (tick_all dt snakes ss).changed s
  unfolding tick_all find_snake
  tick_all-Comes dt i [] ss s e = absurd (ground (arith, e))
  tick_all-Comes dt i ((k, t) ∷ rest) ss s e =
      let ticked = tick dt (t, ss) in
      let later = tick_all dt rest ticked.1.1 in
      elim (Bool-cases (k == i)) [
        | inl here ↦ record {
          before = t;
          sectors = ss;
          found = ground (arith, here);
          made = ground (arith, here, e);
          told = λ new. ground (arith, new);
        }
        | inr there ↦
            let c = tick_all-Comes dt i rest ticked.1.1 s (ground (arith, there, e)) in
            record {
              before = c.before;
              sectors = c.sectors;
              found = ground (arith, there, c.found);
              made = c.made;
              told = λ new.
                  if_rule (λ ids. elem c.before.id ids ≡ true) ticked.0 (ground (arith, c.told new))
                    (c.told new);
            }
      ]

  -- CheckSnakeBounds changes no snake but those that it finds dying.
  bounds-find :
      (id i : ℕ) (w : World F) (s : Snake F)
      → s.update.dying ≡ false
      → find_snake i (check_snake_bounds id w).snakes ≡ some s
      → find_snake i w.snakes ≡ some s
  unfolding check_snake_bounds
  bounds-find id i w s alive = elim (Option-cases (find_snake id w.snakes)) [
    | inl e ↦ rw (e, check_snake_bounds) (λ f. f)
    | inr (s', e) ↦
        let kill : Snake F → Snake F =
          λ t. record t { update = record t.update { dying = true } } in
        rw (e, check_snake_bounds)
          (if_rule
            (λ (w' : World F). find_snake i w'.snakes ≡ some s → find_snake i w.snakes ≡ some s)
            (is_dying w s')
            (λ f.
              let at = find_snake-update_snake id i kill w.snakes in
              elim (Bool-cases (id == i)) [
                | inl here ↦
                    let it : kill s' ≡ s = ground (arith, at, e, f, here) in
                    absurd (ground (arith, ap (λ u. u.update.dying) it, alive))
                | inr there ↦ ground (arith, at, f, there)
              ])
            (λ f. f))
  ]

  changes-find :
      (ids : List ℕ) (i : ℕ) (w : World F) (s : Snake F)
      → s.update.dying ≡ false
      → find_snake i (check_changes ids w).snakes ≡ some s
      → find_snake i w.snakes ≡ some s
  unfolding check_changes
  changes-find [] i w s alive f = f
  changes-find (id ∷ ids) i w s alive f =
      let checked = check_snake_bounds id w in
      let moved : Bool = elim (find_snake id w.snakes) [ none ↦ false | some t ↦ t.update.pos ] in
      if_rule (λ (w' : World F). find_snake i w'.snakes ≡ some s → find_snake i w.snakes ≡ some s)
        moved (bounds-find id i w s alive) (λ e. e)
        (changes-find ids i (if moved then checked else w) s alive f)

module _ {F : Type 0} ⦃float : Float F⦄ (j : ℕ) where
  -- A snake that its client saw before the tick, with nothing left to tell
  tick-Sees :
      (dt : ℕ) (known : Bool) (changed : List ℕ) (t : Snake F) (ss : List (Sector F))
      → t.bot ≡ false
      → ((tick dt (t, ss)).0 ≡ true → elem t.id changed ≡ true)
      → Sees j known [] t
      → Sees j known changed (tick dt (t, ss)).1.0
  tick-Sees dt known changed t ss player told v =
      let still : t.update.pos ≡ false = elim (Bool-cases t.update.pos) [
        | inl moved ↦ absurd (ground (arith, v.news moved))
        | inr still ↦ still
      ] in
      let seen = tick-Seen j known dt t ss player still v.tells (v.quiet still) in
      record {
        tells = seen.tells;
        quiet = seen.quiet;
        news = λ e. ap (λ i. elem i.0 changed) (tick-identity dt t ss) ∙ told (seen.news e);
        living = ap (λ f. f.1) (tick-fate dt t ss) ∙ v.living;
      }

  -- One with nothing left to tell sees, whoever is to be told of.
  pub Sees-none :
      (known : Bool) (ids : List ℕ) (s : Snake F) → Sees j known [] s → Sees j known ids s
  Sees-none known ids s v = record {
    tells = v.tells;
    quiet = v.quiet;
    news = λ e. absurd (ground (arith, v.news e));
    living = v.living;
  }

  Sees-more :
      (known : Bool) (ids more : List ℕ) (s : Snake F)
      → Sees j known more s
      → Sees j known (ids ++ more) s
  Sees-more known ids more s v = record {
    tells = v.tells;
    quiet = v.quiet;
    news = λ e. ground (arith, elem-append s.id ids more, v.news e);
    living = v.living;
  }

module _ {F : Type 0} ⦃float : Float F⦄ {G : Type 0} ⦃clock : Clock G⦄ (j x y : ℕ) where
  pub world_tick-Watches :
      (dt : ℕ) (srv : Server F G) (g : G)
      → IsLinked srv
      → Watches j x y [] srv
      → Watches j x y
          (world_tick dt srv.world).changes
          (record srv { world = world_tick dt srv.world; outside = g })
  unfolding world_tick tick_snakes
  world_tick-Watches dt srv g v w =
      let ticks = srv.world.ticks + dt in
      let t = ticks / 8 * 8 in
      let begun : World F = record srv.world { ticks = ticks } in
      let each = tick_each t begun in
      let after = check_changes each.changes each in
      let changes =
        check_changes-view {F = F} (λ w'. w'.changes) (λ w' s. refl) each.changes each in
      let P = λ (w' : World F).
        (h i : ℕ) (s : Snake F)
        → snake_of h srv.sessions ≡ some i
        → find_snake i w'.snakes ≡ some s
        → s.update.dying ≡ false
        → Sees j (shown x y h srv) w'.changes s in
      if_rule P (ltb 0 (ticks / 8))
        (λ h i s e f alive.
          let c =
            tick_all-Comes t i srv.world.snakes srv.world.sectors s
              (changes-find each.changes i each s alive f) in
          let player : c.before.bot ≡ false = ground (arith, (v.ses h i e).1, c.found) in
          let known = shown x y h srv in
          let changed = (tick_all t srv.world.snakes srv.world.sectors).changed in
          let seen = tick-Sees j t known changed c.before c.sectors player c.told (
            w h i c.before e c.found (
              sym (ap (λ u. (fate u).0) c.made ∙ ap (λ u. u.0) (tick-fate t c.before c.sectors))
              ∙ alive)) in
          subst (Sees j known after.changes) (sym c.made) (
            subst (λ ids. Sees j known ids (tick t (c.before, c.sectors)).1.0) (sym changes)
              (Sees-more j known srv.world.changes changed (tick t (c.before, c.sectors)).1.0
                seen)))
        (λ h i s e f alive. Sees-none j (shown x y h srv) srv.world.changes s (w h i s e f alive))
