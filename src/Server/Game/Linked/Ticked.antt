-- ===== src/Server/Game/Linked/Ticked.antt =====
-- World::Tick, and the snakes of the players: none comes, goes or changes sides.
use slitherss.Prelude.{
  ℕ, ◌+◌, ◌*◌, ◌/◌, ◌≡◌, refl, sym, subst, ap, ◌∙◌, Bool, true, false, not, inl, inr, List, [], ◌∷◌,
  none, some, arith, ltb, if◌then◌else◌, if_rule, Option-cases, elem,
}
use slitherss.Float.{Float}
use slitherss.Game.Sector.{Sector}
use slitherss.Game.Snake.{Snake}
use slitherss.Game.Tick.{tick}
use slitherss.Game.Tick.Identity.{tick-identity}
use slitherss.Game.World.{World, find_snake}
use slitherss.Game.World.Clock.{check_changes-view}
use slitherss.Game.World.Frame.{
  tick_all, tick_each, is_dying, check_snake_bounds, check_changes, tick_snakes, world_tick,
}
use slitherss.Game.World.Sound.Ticks.{world_tick-IsSound}
use slitherss.Server.Game.{Server}
use slitherss.Server.Game.Linked.{is_player, IsLinked}
use slitherss.Server.Game.Linked.Rounds.{find_snake-update_snake}

-- Whether a snake of the map is a player's
abbrev plays : {F : Type 0} → ℕ → List (ℕ × Snake F) → Bool
plays j snakes = elim (find_snake j snakes) [ none ↦ false | some s ↦ not s.bot ]

module _ {F : Type 0} ⦃float : Float F⦄ where
  tick_all-plays :
      (dt j : ℕ) (snakes : List (ℕ × Snake F)) (ss : List (Sector F))
      → plays j (tick_all dt snakes ss).snakes ≡ plays j snakes
  unfolding tick_all find_snake
  tick_all-plays dt j [] ss = refl
  tick_all-plays dt j ((k, s) ∷ rest) ss =
      let ticked = tick dt (s, ss) in
      let same : ticked.1.0.bot ≡ s.bot = ap (λ i. i.1.0) (tick-identity dt s ss) in
      ground (arith, tick_all-plays dt j rest ticked.1.1, same)

  check_snake_bounds-player :
      (id j : ℕ) (w : World F) → is_player j (check_snake_bounds id w) ≡ is_player j w
  unfolding check_snake_bounds
  check_snake_bounds-player id j w = elim (Option-cases (find_snake id w.snakes)) [
    | inl e ↦ rw (e, check_snake_bounds) refl
    | inr (s, e) ↦
        let kill : Snake F → Snake F =
          λ s'. record s' { update = record s'.update { dying = true } } in
        rw (e, check_snake_bounds)
          (if_rule (λ (w' : World F). is_player j w' ≡ is_player j w) (is_dying w s)
            (ground (arith, find_snake-update_snake id j kill w.snakes)) refl)
  ]

  check_changes-player :
      (ids : List ℕ) (j : ℕ) (w : World F) → is_player j (check_changes ids w) ≡ is_player j w
  unfolding check_changes
  check_changes-player [] j w = refl
  check_changes-player (id ∷ ids) j w =
      let checked = check_snake_bounds id w in
      let moved : Bool = elim (find_snake id w.snakes) [ none ↦ false | some s ↦ s.update.pos ] in
      check_changes-player ids j (if moved then checked else w)
      ∙ if_rule (λ (w' : World F). is_player j w' ≡ is_player j w) moved
          (check_snake_bounds-player id j w) refl

  world_tick-player :
      (dt j : ℕ) (w : World F)
      → (is_player j (world_tick dt w) ≡ is_player j w) × ((world_tick dt w).dead ≡ w.dead)
  unfolding world_tick tick_snakes
  world_tick-player dt j w =
      let ticks = w.ticks + dt in
      let begun : World F = record w { ticks = ticks } in
      let ticked = tick_each (ticks / 8 * 8) begun in
      (
        if_rule (λ (w' : World F). is_player j w' ≡ is_player j w) (ltb 0 (ticks / 8))
            (check_changes-player ticked.changes j ticked
              ∙ tick_all-plays (ticks / 8 * 8) j w.snakes w.sectors)
            refl,
        if_rule (λ (w' : World F). w'.dead ≡ w.dead) (ltb 0 (ticks / 8))
            (check_changes-view (λ w'. w'.dead) (λ w' s. refl) ticked.changes ticked) refl,
      )

  pub world_tick-IsLinked :
      {G : Type 0} (dt : ℕ) (srv : Server F G) (g : G)
      → IsLinked srv
      → IsLinked (record srv { world = world_tick dt srv.world; outside = g })
  world_tick-IsLinked dt srv g v =
      let player = λ (j : ℕ). (world_tick-player dt j srv.world).0 in
      record {
        sound = world_tick-IsSound dt srv.world v.sound;
        safe = v.safe;
        ses = λ h i e. let known = v.ses h i e in (known.0, player i ∙ known.1);
        con = v.con;
        own = λ i p. v.own i (sym (player i) ∙ p);
        dead = λ i e.
            player i
            ∙ v.dead i (subst (λ l. elem i l ≡ true) (world_tick-player dt i srv.world).1 e);
      }
