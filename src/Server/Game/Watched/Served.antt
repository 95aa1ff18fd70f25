-- ===== src/Server/Game/Watched/Served.antt =====
-- The clients of the servers that Run and the handlers come to, and what they know of the sectors.
use slitherss.Prelude.{
  ℕ, ◌-◌, ◌≡◌, refl, sym, subst, ap, ◌∙◌, Bool, false, inl, inr, List, [], some, arith, if_rule,
  Bool-cases, elem, get_elem?,
}
use slitherss.Float.{Float}
use slitherss.Game.Config.{WorldConfig}
use slitherss.Game.Random.{Random}
use slitherss.Game.Sector.{Sector, new_sector, sectors_from, init_sectors}
use slitherss.Game.Sector.Sites.{sites, init_sectors-IsGrid, site-get_elem?}
use slitherss.Game.Snake.{Snake}
use slitherss.Game.World.{find_snake}
use slitherss.Game.World.Frame.{world_tick}
use slitherss.Game.World.Sites.{sites-init_world}
use slitherss.Server.Maps.{find_key}
use slitherss.Server.Game.{Clock, Server}
use slitherss.Server.Game.Broadcast.{broadcast_updates}
use slitherss.Server.Game.Draw.{broadcast_drawing}
use slitherss.Server.Game.Handlers.{on_timer, next_tick, run}
use slitherss.Server.Game.Linked.{snake_of, IsIdle}
use slitherss.Server.Game.Linked.Drawn.{broadcast_drawing-IsLinked}
use slitherss.Server.Game.Linked.Served.{
  IsNew, Serves, started, timed, opened, told, closed, Serves-IsIdle,
}
use slitherss.Server.Game.Linked.Ticked.{world_tick-IsLinked}
use slitherss.Server.Game.Replay.Shown.{shown}
use slitherss.Server.Game.Watched.{Watches, Watches-IsCalm}
use slitherss.Server.Game.Watched.Drawn.{sites-world_tick, broadcast_drawing-IsCalm}
use slitherss.Server.Game.Watched.Handled.{on_message-Keeps, on_close-Keeps, remove_dead-Keeps}
use slitherss.Server.Game.Watched.Opened.{on_open-Watches}
use slitherss.Server.Game.Watched.Rounds.{Shows, broadcast_updates-Shows}
use slitherss.Server.Game.Watched.Ticked.{world_tick-Watches}

pub sites-first :
    (F : Type 0) → ⦃float : Float F⦄ → get_elem? (sites (init_sectors {F = F})) 0 ≡ some (0, 0)
unfolding init_sectors sectors_from new_sector
sites-first F = refl

module _ {F : Type 0} ⦃float : Float F⦄ {G : Type 0} ⦃clock : Clock G⦄ ⦃random : Random G⦄ where
  module _ (j x y : ℕ) (here : get_elem? (sites (init_sectors {F = F})) j ≡ some (x, y)) where
    abbrev Displays : List ℕ → Server F G → Type 0
    Displays ids srv =
        Shows (sites (init_sectors {F = F})) j x y (init_sectors-IsGrid F) here ids srv

    -- A server without sessions
    run-Displays :
        (config : WorldConfig) (debug : Bool) (srv : Server F G)
        → IsNew srv
        → Displays [] (run config debug srv)
    unfolding run next_tick find_key
    run-Displays config debug srv n = (
      sites-init_world config srv.world srv.outside,
      λ h i s e f alive. absurd (ground (arith, subst (λ l. snake_of h l ≡ some i) n.sessions e)),
    )

    on_timer-Displays :
        (failed : Bool) (srv : Server F G)
        → IsIdle srv
        → Displays [] srv
        → Displays [] (on_timer failed srv)
    unfolding on_timer next_tick
    on_timer-Displays failed srv v w =
        let time = clock.now srv.outside in
        let dt = time.0 - srv.last_time_point in
        let begun : Server F G = record srv { world = world_tick dt srv.world; outside = time.1 } in
        let linked = world_tick-IsLinked dt srv time.1 v.linked in
        let drawn = broadcast_drawing begun in
        let calm = broadcast_drawing-IsCalm j x y begun in
        let ticked =
          Watches-IsCalm j x y (world_tick dt srv.world).changes begun drawn calm
            (world_tick-Watches j x y dt srv time.1 v.linked w.1) in
        let all =
          broadcast_updates-Shows (sites (init_sectors {F = F})) j x y (init_sectors-IsGrid F) here
            drawn (broadcast_drawing-IsLinked begun linked)
            (
              ap (λ u. sites u.sectors) calm.world ∙ sites-world_tick dt srv.world ∙ w.0,
              subst (λ u. Watches j x y u.changes drawn) (sym calm.world) ticked,
            ) in
        let left = remove_dead-Keeps j x y (broadcast_updates drawn) all.1 in
        if_rule (Displays []) failed w (left.1 ∙ all.0, left.0)

    Serves-Displays : {srv : Server F G} → Serves srv → Displays [] srv
    Serves-Displays (started config debug srv n few) = run-Displays config debug srv n
    Serves-Displays (timed failed srv s) =
        on_timer-Displays failed srv (Serves-IsIdle s) (Serves-Displays s)
    Serves-Displays (opened hdl srv free fresh s) =
        let old = Serves-Displays s in
        let new =
          on_open-Watches (sites (init_sectors {F = F})) j x y (init_sectors-IsGrid F) here hdl srv
            free fresh (Serves-IsIdle s) old.0 old.1 in
        (new.1, new.0)
    Serves-Displays (told hdl is_binary payload srv s) =
        let old = Serves-Displays s in
        let kept = on_message-Keeps j x y hdl is_binary payload srv old.1 in
        (kept.1 ∙ old.0, kept.0)
    Serves-Displays (closed hdl srv s) =
        let old = Serves-Displays s in
        let kept = on_close-Keeps j x y hdl srv old.1 in (kept.1 ∙ old.0, kept.0)

  pub sites-Serves :
      {srv : Server F G} → Serves srv → sites srv.world.sectors ≡ sites (init_sectors {F = F})
  sites-Serves s = (Serves-Displays 0 0 0 (sites-first F) s).0

  -- For a server that was just made, after Run with fewer than 65536 bots and any events, where
  -- connections open under handles that have no session and while the next id is not in use: the
  -- client of a session whose snake is in the world and not dying, which adds a sector with each
  -- packet 'W', removes one with each packet 'w' and starts anew with a packet 'a', knows a sector of
  -- the world exactly if it is one of the view port of its snake.
  pub Serves-Watches :
      {srv : Server F G}
      → Serves srv
      → (h i j : ℕ) (s : Snake F) (sec : Sector F) → snake_of h srv.sessions ≡ some i
      → find_snake i srv.world.snakes ≡ some s
      → s.update.dying ≡ false
      → get_elem? srv.world.sectors j ≡ some sec
      → shown sec.x sec.y h srv ≡ elem j s.vp.sectors
  Serves-Watches {srv} serves h i j s sec session found alive at =
      let here =
        site-get_elem? srv.world.sectors (sites (init_sectors {F = F})) (sites-Serves serves) j
          (some sec) at in
      let seen = (Serves-Displays j sec.x sec.y here serves).1 h i s session found alive in
      let still : s.update.pos ≡ false = elim (Bool-cases s.update.pos) [
        | inl moved ↦ absurd (ground (arith, seen.news moved))
        | inr still ↦ still
      ] in
      let told = seen.quiet still in sym (seen.tells.told ∙ ground (arith, told.0, told.1))
