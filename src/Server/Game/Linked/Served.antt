-- ===== src/Server/Game/Linked/Served.antt =====
-- The servers that Run and the handlers come to.
use slitherss.Prelude.{
  ℕ, ◌-◌, ◌^◌, ◌<◌, ◌≡◌, refl, ◌∙◌, Bool, false, List, [], none, some, subst, arith, if_rule,
}
use slitherss.Float.{Float}
use slitherss.Game.Config.{WorldConfig}
use slitherss.Game.Random.{Random}
use slitherss.Game.World.Create.{next_id, init_world}
use slitherss.Game.World.Frame.{world_tick}
use slitherss.Game.World.Sound.{has, IsSound}
use slitherss.Game.World.Sound.Reached.{first, IsFirst-IsSound}
use slitherss.Server.Maps.{find_key}
use slitherss.Server.Game.{Clock, Server}
use slitherss.Server.Game.Draw.{broadcast_drawing}
use slitherss.Server.Game.Broadcast.{broadcast_updates, remove_dead_snakes}
use slitherss.Server.Game.Handlers.{
  on_close, on_message, on_open, on_timer, next_tick, build_init_packet, run,
}
use slitherss.Server.Game.Linked.{snake_of, is_player, IsLinked, IsLike, IsIdle, IsIdle-IsLike}
use slitherss.Server.Game.Linked.Deaths.{broadcast_updates-IsLinked}
use slitherss.Server.Game.Linked.Drawn.{broadcast_drawing-IsLinked}
use slitherss.Server.Game.Linked.Entered.{init_world-player}
use slitherss.Server.Game.Linked.Handled.{on_message-IsIdle}
use slitherss.Server.Game.Linked.Opened.{on_open-IsIdle}
use slitherss.Server.Game.Linked.Removed.{remove_dead-IsIdle, on_close-IsIdle}
use slitherss.Server.Game.Linked.Ticked.{world_tick-IsLinked}

module _ {F : Type 0} ⦃float : Float F⦄ {G : Type 0} ⦃clock : Clock G⦄ ⦃random : Random G⦄ where
  -- A server that was just made
  pub record IsNew (srv : Server F G) : Type 0 where
    pub snakes : srv.world.snakes ≡ []
    pub changes : srv.world.changes ≡ []
    pub dead : srv.world.dead ≡ []
    pub last_snake_id : srv.world.last_snake_id ≡ 0
    pub sessions : srv.sessions ≡ []
    pub connections : srv.connections ≡ []
    pub is_lost : srv.is_lost ≡ false

  -- Run, and then one event after the other: the timer, a connection that opens under a handle that has
  -- no session while the next id is not in use, a message, and a connection that closes.
  pub data Serves : Server F G → Type 0 where
    started :
        (config : WorldConfig) (debug : Bool) (srv : Server F G)
        → IsNew srv
        → config.bots < 2 ^ 16
        → Serves (run config debug srv)
    timed : (failed : Bool) (srv : Server F G) → Serves srv → Serves (on_timer failed srv)
    opened :
        (hdl : ℕ) (srv : Server F G)
        → has (next_id srv.world) srv.world.snakes ≡ false
        → snake_of hdl srv.sessions ≡ none
        → Serves srv
        → Serves (on_open hdl srv)
    told :
        (hdl : ℕ) (is_binary : Bool) (payload : List ℕ) (srv : Server F G)
        → Serves srv
        → Serves (on_message hdl is_binary payload srv)
    closed : (hdl : ℕ) (srv : Server F G) → Serves srv → Serves (on_close hdl srv)

  pub quiet-IsLinked :
      (srv : Server F G)
      → IsSound srv.world
      → srv.is_lost ≡ false
      → srv.sessions ≡ []
      → srv.connections ≡ []
      → ((i : ℕ) → is_player i srv.world ≡ false)
      → IsLinked srv
  unfolding find_key
  quiet-IsLinked srv sound safe no_sessions no_connections bots = record {
    sound = sound;
    safe = safe;
    ses = λ h i e. absurd (ground (arith, subst (λ l. snake_of h l ≡ some i) no_sessions e));
    con = λ i h e. absurd (ground (arith, subst (λ l. find_key i l ≡ some h) no_connections e));
    own = λ i p. absurd (ground (arith, bots i, p));
    dead = λ i e. bots i;
  }

  pub next_tick-IsLike : (last : ℕ) (srv : Server F G) → IsLike srv (next_tick last srv).1
  unfolding next_tick
  next_tick-IsLike last srv = record {
    world = refl;
    connections = refl;
    ses = λ h. refl;
    safe = refl;
  }

  pub outside-IsLike : (g : G) (srv : Server F G) → IsLike srv (record srv { outside = g })
  outside-IsLike g srv = record { world = refl; connections = refl; ses = λ h. refl; safe = refl }

  on_timer-IsIdle : (failed : Bool) (srv : Server F G) → IsIdle srv → IsIdle (on_timer failed srv)
  unfolding on_timer
  on_timer-IsIdle failed srv v =
      let time = clock.now srv.outside in
      let world = world_tick (time.0 - srv.last_time_point) srv.world in
      let begun : Server F G = record srv { world = world; outside = time.1 } in
      let ticked = world_tick-IsLinked (time.0 - srv.last_time_point) srv time.1 v.linked in
      let drawn = broadcast_drawing begun in
      let shown = broadcast_drawing-IsLinked begun ticked in
      let told = broadcast_updates-IsLinked drawn shown in
      let left = remove_dead-IsIdle (broadcast_updates drawn) told in
      let done = remove_dead_snakes (broadcast_updates drawn) in
      let measured = clock.now done.outside in
      if_rule IsIdle failed (IsIdle-IsLike (outside-IsLike time.1 srv) v) (
        IsIdle-IsLike (next_tick-IsLike time.0 (record done { outside = measured.1 }))
          (IsIdle-IsLike (outside-IsLike measured.1 done) left))

  run-IsIdle :
      (config : WorldConfig) (debug : Bool) (srv : Server F G)
      → IsNew srv
      → config.bots < 2 ^ 16
      → IsIdle (run config debug srv)
  unfolding run
  run-IsIdle config debug srv n few =
      let made = init_world config srv.world srv.outside in
      let time = clock.now made.1 in
      let begun : Server F G = record srv {
        world = made.0;
        outside = time.1;
        init = build_init_packet F;
        debug = debug;
      } in
      let first_world = first config srv.world srv.outside n.snakes n.changes n.last_snake_id few in
      let bots = λ (i : ℕ). init_world-player config i srv.world srv.outside n.snakes in
      IsIdle-IsLike (next_tick-IsLike time.0 begun) (record {
        alive = (bots 0).1 ∙ n.dead;
        linked =
            quiet-IsLinked begun (IsFirst-IsSound G first_world) n.is_lost n.sessions n.connections
              (λ i. (bots i).0);
      })

  pub Serves-IsIdle : {srv : Server F G} → Serves srv → IsIdle srv
  Serves-IsIdle (started config debug srv n few) = run-IsIdle config debug srv n few
  Serves-IsIdle (timed failed srv s) = on_timer-IsIdle failed srv (Serves-IsIdle s)
  Serves-IsIdle (opened hdl srv free fresh s) = on_open-IsIdle hdl srv free fresh (Serves-IsIdle s)
  Serves-IsIdle (told hdl is_binary payload srv s) =
      on_message-IsIdle hdl is_binary payload srv (Serves-IsIdle s)
  Serves-IsIdle (closed hdl srv s) = on_close-IsIdle hdl srv (Serves-IsIdle s)

  -- A server that was just made, after Run with fewer than 65536 bots and any events, where connections
  -- open under handles that have no session and while the next id is not in use, has read no iterator
  -- at the end and no pointer to a snake that is gone; and the sessions, the connections and the
  -- snakes of the players stand for each other, one to one.
  pub Serves-IsLinked : {srv : Server F G} → Serves srv → (srv.is_lost ≡ false) × IsLinked srv
  Serves-IsLinked s = let v = (Serves-IsIdle s).linked in (v.safe, v)
