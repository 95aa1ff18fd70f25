-- ===== src/Server/Game/Watched/Arrived.antt =====
-- A connection that opens: its session and its snake, and what the packets of on_open tell of the
-- sectors.
use slitherss.Prelude.{
  ℕ, ◌≡◌, refl, sym, subst, ap, ◌∙◌, false, List, [], ◌∷◌, Option, none, some, arith, ◌==◌,
  if◌then◌else◌, if_rule,
}
use slitherss.Float.{Float}
use slitherss.Game.Random.{Random}
use slitherss.Game.Sector.Sites.{sites}
use slitherss.Game.Snake.{Snake}
use slitherss.Game.Spawn.Seen.{create_snake-Tells}
use slitherss.Game.Tick.Seen.{Tells}
use slitherss.Game.World.{find_snake}
use slitherss.Game.World.Create.{next_id, enter}
use slitherss.Game.World.Sites.{sites-enter}
use slitherss.Game.World.Sound.{has}
use slitherss.Game.World.Sound.Entering.{find_snake-has}
use slitherss.Packet.Wire.{add_snake, init}
use slitherss.Server.Game.{Clock, Server, new_session, send_binary, broadcast_binary}
use slitherss.Server.Game.Update.{packet_move, put_back, send_new, send_pov_update_to}
use slitherss.Server.Game.Handlers.{introduce, connect, on_open}
use slitherss.Server.Game.Linked.{snake_of, IsLike, IsLike-trans, broadcast_binary-IsLike}
use slitherss.Server.Game.Linked.Entered.{enter-found}
use slitherss.Server.Game.Linked.Opened.{
  snake_of-put_key, introduce-IsLike, connect-session, connect-found,
}
use slitherss.Server.Game.Linked.Rounds.{find_snake-update_snake}
use slitherss.Server.Game.Linked.Told.{send_pov-Tells}
use slitherss.Server.Game.Replay.{replay-append, send-quiet, broadcast-quiet}
use slitherss.Server.Game.Replay.Shown.{show, shown, send_new-other, send_old-other}

module _ {F : Type 0} ⦃float : Float F⦄ {G : Type 0} ⦃clock : Clock G⦄ where
  -- The packets of on_open before the sectors
  abbrev pub placed : Snake F → Server F G → Server F G
  placed s srv =
      broadcast_binary (packet_move s)
        (broadcast_binary (add_snake (record { client_time = 0; s = s })) srv)

  pub placed-IsLike : (s : Snake F) (srv : Server F G) → IsLike srv (placed s srv)
  placed-IsLike s srv =
      IsLike-trans (broadcast_binary-IsLike (add_snake (record { client_time = 0; s = s })) srv)
        (broadcast_binary-IsLike (packet_move s) _)

module _ {F : Type 0} ⦃float : Float F⦄ {G : Type 0} ⦃clock : Clock G⦄ ⦃random : Random G⦄ where
  pub new-Tells :
      (j hdl : ℕ) (srv : Server F G)
      → Tells j false (connect hdl srv).0.vp
        × ((connect hdl srv).0.update.pos ≡ false)
        × ((connect hdl srv).0.update.dead ≡ false)
  unfolding connect enter
  new-Tells j hdl srv =
      let made =
        create_snake-Tells srv.world.config (next_id srv.world) j srv.world.sectors srv.outside in
      (made.0, ap (λ u. u.pos) made.1, ap (λ u. u.dead) made.1)

  pub connect-ses :
      (hdl : ℕ) (srv : Server F G) (h : ℕ)
      → snake_of h (connect hdl srv).1.sessions
        ≡ (if hdl == h then some (connect hdl srv).0.id else snake_of h srv.sessions)
  unfolding connect
  connect-ses hdl srv h =
      let entered = enter srv.world srv.outside in
      snake_of-put_key hdl h (new_session entered.0.0.id (clock.now entered.1).0) srv.sessions

  pub connect-find :
      (hdl : ℕ) (srv : Server F G)
      → has (next_id srv.world) srv.world.snakes ≡ false
      → (i : ℕ)
      → find_snake i (connect hdl srv).1.world.snakes ≡ (
          if (connect hdl srv).0.id == i
          then some (connect hdl srv).0
          else find_snake i srv.world.snakes)
  unfolding connect
  connect-find hdl srv free i =
      let (own, bot, found, dead) = enter-found srv.world srv.outside free in
      ground (arith, found i, own)

  pub connect-sites :
      (hdl : ℕ) (srv : Server F G)
      → sites (connect hdl srv).1.world.sectors ≡ sites srv.world.sectors
  unfolding connect
  connect-sites hdl srv = sites-enter srv.world srv.outside

module _ {F : Type 0} ⦃float : Float F⦄ {G : Type 0} ⦃clock : Clock G⦄ (x y h : ℕ) where
  pub introduce-shown :
      (hdl me : ℕ) (snakes : List (ℕ × Snake F)) (srv : Server F G)
      → shown x y h (introduce (some hdl) me snakes srv) ≡ shown x y h srv
  unfolding introduce
  introduce-shown hdl me [] srv = refl
  introduce-shown hdl me ((k, s) ∷ rest) srv =
      let p = add_snake (record { client_time = 0; s = s }) in
      let one = send_binary (some hdl) p srv in
      let told = send_binary (some hdl) (packet_move s) one in
      let quiet = send-quiet (show x y) h false (some hdl) in
      introduce-shown hdl me rest (if k == me then srv else told)
      ∙ if_rule (λ (t : Server F G). shown x y h t ≡ shown x y h srv) (k == me) refl
          (quiet (packet_move s) one (λ t b. refl) ∙ quiet p srv (λ t b. refl))

  pub placed-shown : (s : Snake F) (srv : Server F G) → shown x y h (placed s srv) ≡ shown x y h srv
  placed-shown s srv =
      let p = add_snake (record { client_time = 0; s = s }) in
      let quiet = broadcast-quiet (show x y) h false in
      quiet (packet_move s) (broadcast_binary p srv) (λ t b. refl) ∙ quiet p srv (λ t b. refl)

  pub send_pov-other :
      (hdl : ℕ)
      → (hdl == h) ≡ false
      → (s : Snake F) (srv : Server F G)
      → shown x y h (send_pov_update_to (some hdl) s srv).1 ≡ shown x y h srv
  unfolding send_pov_update_to
  send_pov-other hdl other s srv =
      send_old-other x y h hdl other s.vp.old_sectors (send_new (some hdl) s.vp.new_sectors srv)
      ∙ send_new-other x y h hdl other s.vp.new_sectors srv

  module _ ⦃random : Random G⦄ where
    -- A client starts anew, and the others hear nothing of it.
    pub connect-shown :
        (hdl : ℕ) (srv : Server F G)
        → shown x y h (connect hdl srv).1 ≡ (if hdl == h then false else shown x y h srv)
    unfolding connect
    connect-shown hdl srv = replay-append (show x y) h srv.sent ((hdl, init srv.init) ∷ []) false

module _ {F : Type 0} ⦃float : Float F⦄ {G : Type 0} ⦃clock : Clock G⦄ ⦃random : Random G⦄ where
  -- The server before the loop over the snakes: the snake is that of the world.
  abbrev pub settled : ℕ → Server F G → Server F G
  settled hdl srv =
      let connected = connect hdl srv in
      let s = connected.0 in put_back s.id (send_pov_update_to (some hdl) s (placed s connected.1))

  pub on_open-settled :
      (hdl : ℕ) (srv : Server F G)
      → has (next_id srv.world) srv.world.snakes ≡ false
      → let back = settled hdl srv in
        on_open hdl srv ≡ introduce (some hdl) (connect hdl srv).0.id back.world.snakes back
  unfolding on_open
  on_open-settled hdl srv free =
      let connected = connect hdl srv in
      let s = connected.0 in
      let after = send_pov_update_to (some hdl) s (placed s connected.1) in
      let (own, bot, found, dead) = enter-found srv.world srv.outside free in
      let kept : Option (Snake F) → Server F G =
        λ o. elim o [ none ↦ put_back s.id after | some _ ↦ after.1 ] in
      let absent : find_snake s.id srv.world.snakes ≡ none =
        subst (λ i. find_snake i srv.world.snakes ≡ none) (sym own)
          (find_snake-has (next_id srv.world) srv.world.snakes free) in
      ap (λ o. introduce (some hdl) s.id (kept o).world.snakes (kept o)) absent

  -- What the new client is told before that, and the loop, leave all but the packets.
  module _ (hdl : ℕ) (srv : Server F G)
      (free : has (next_id srv.world) srv.world.snakes ≡ false) where
    pub told-Tells :
        let connected = connect hdl srv in
        let first = placed connected.0 connected.1 in
        IsLike connected.1 (send_pov_update_to (some hdl) connected.0 first).1
    told-Tells =
        let connected = connect hdl srv in
        let s = connected.0 in
        let two = placed-IsLike s connected.1 in
        let seen =
          send_pov-Tells hdl s.id s (placed s connected.1)
            (two.ses hdl ∙ connect-session hdl srv) in
        IsLike-trans two seen.like

    pub introduced : IsLike (settled hdl srv) (on_open hdl srv)
    introduced =
        let s = (connect hdl srv).0 in
        let back = settled hdl srv in
        subst (IsLike back) (sym (on_open-settled hdl srv free)) (
          introduce-IsLike hdl s.id s.id back.world.snakes back
            (told-Tells.ses hdl ∙ connect-session hdl srv))

    -- The session of the new client, and its snake
    pub on_open-arrives :
        (snake_of hdl (on_open hdl srv).sessions ≡ some (next_id srv.world))
        × (s : Snake F) × (find_snake (next_id srv.world) (on_open hdl srv).world.snakes ≡ some s)
        × (s.update.dying ≡ false)
    unfolding send_pov_update_to connect enter
    on_open-arrives =
        let connected = connect hdl srv in
        let s = connected.0 in
        let after = send_pov_update_to (some hdl) s (placed s connected.1) in
        let (own, bot, found, dead) = enter-found srv.world srv.outside free in
        let made =
          create_snake-Tells srv.world.config (next_id srv.world) 0 srv.world.sectors srv.outside in
        let at : find_snake s.id (settled hdl srv).world.snakes ≡ some after.0 = ground (
          arith,
          find_snake-update_snake s.id s.id (λ (_ : Snake F). after.0) after.1.world.snakes,
          ap (λ u. find_snake s.id u.snakes) told-Tells.world,
          connect-found hdl srv free,
        ) in
        (
          introduced.ses hdl ∙ told-Tells.ses hdl ∙ connect-session hdl srv ∙ ap some own,
          after.0,
          subst (λ i. find_snake i (on_open hdl srv).world.snakes ≡ some after.0) own
              (ap (λ u. find_snake s.id u.snakes) introduced.world ∙ at),
          ap (λ u. u.dying) made.1,
        )
