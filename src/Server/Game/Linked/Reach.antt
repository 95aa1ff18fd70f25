-- ===== src/Server/Game/Linked/Reach.antt =====
-- How far a message of a client reaches.
use slitherss.Prelude.{
  ℕ, ◌≡◌, refl, ◌∙◌, Bool, true, false, ◌&&◌, inl, inr, List, [], ◌∷◌, some, arith, ltb, leb, ◌==◌,
  if_rule, Option-cases, length,
}
use slitherss.Float.{Float}
use slitherss.Game.Snake.{Snake}
use slitherss.Game.World.{find_snake}
use slitherss.Packet.Wire.{pong}
use slitherss.Server.Maps.{find_key, update_key, find_key-update_key}
use slitherss.Server.Game.{Clock, Session, Server, send_binary}
use slitherss.Server.Game.Handlers.{read_char, do_snake, on_username, on_packet, on_message}
use slitherss.Server.Game.Linked.Rounds.{find_snake-update_snake}

module _ {F G : Type 0} where
  -- From one server to another, no more changes than the snake `me`, the session of `hdl`, what is
  -- outside, what was sent and the flag.
  pub record StaysWithin (hdl me : ℕ) (srv srv' : Server F G) : Type 0 where
    pub snakes :
        (id : ℕ)
        → (me == id) ≡ false
        → find_snake id srv'.world.snakes ≡ find_snake id srv.world.snakes
    pub sectors : srv'.world.sectors ≡ srv.world.sectors
    pub changes : srv'.world.changes ≡ srv.world.changes
    pub connections : srv'.connections ≡ srv.connections
    pub sessions : (h : ℕ) → (hdl == h) ≡ false → find_key h srv'.sessions ≡ find_key h srv.sessions

  StaysWithin-refl : (hdl me : ℕ) (srv : Server F G) → StaysWithin hdl me srv srv
  StaysWithin-refl hdl me srv = record {
    snakes = λ id ne. refl;
    sectors = refl;
    changes = refl;
    connections = refl;
    sessions = λ h ne. refl;
  }

  do_snake-StaysWithin :
      (hdl me : ℕ) (f : Snake F → Snake F) (srv srv' : Server F G)
      → StaysWithin hdl me srv srv'
      → StaysWithin hdl me srv (do_snake me f srv')
  unfolding do_snake
  do_snake-StaysWithin hdl me f srv srv' v = elim (Option-cases (find_snake me srv'.world.snakes)) [
    | inl gone ↦
        rw (gone, do_snake)
          (if_rule (StaysWithin hdl me srv) (ltb 0 me)
            (record {
              snakes = v.snakes;
              sectors = v.sectors;
              changes = v.changes;
              connections = v.connections;
              sessions = v.sessions;
            })
            v)
    | inr (s, found) ↦
        rw (found, do_snake)
          (if_rule (StaysWithin hdl me srv) (ltb 0 me)
            (record {
              snakes = λ id ne.
                  ground (
                    arith,
                    find_snake-update_snake me id (λ (_ : Snake F). f s) srv'.world.snakes,
                    ne,
                  )
                  ∙ v.snakes id ne;
              sectors = v.sectors;
              changes = v.changes;
              connections = v.connections;
              sessions = v.sessions;
            })
            v)
  ]

module _ {F : Type 0} ⦃float : Float F⦄ {G : Type 0} ⦃clock : Clock G⦄ where
  send_binary-StaysWithin :
      (hdl me : ℕ) (srv : Server F G)
      → StaysWithin hdl me srv (send_binary (some hdl) (pong (record { client_time = 0 })) srv)
  unfolding send_binary
  send_binary-StaysWithin hdl me srv = elim (Option-cases (find_key hdl srv.sessions)) [
    | inl gone ↦ rw (gone, send_binary) (StaysWithin-lost hdl me srv)
    | inr (ses, found) ↦
        let now = (clock.now srv.outside).0 in
        rw (found, send_binary)
          (record {
            snakes = λ id ne. refl;
            sectors = refl;
            changes = refl;
            connections = refl;
            sessions = λ h ne. ground (
              arith,
              find_key-update_key hdl h (λ (s : Session). record s { last_packet_time = now })
                  srv.sessions,
              ne,
            );
          })
  ]
    where
      StaysWithin-lost :
          (hdl me : ℕ) (srv : Server F G) → StaysWithin hdl me srv (record srv { is_lost = true })
      StaysWithin-lost hdl me srv = record {
        snakes = λ id ne. refl;
        sectors = refl;
        changes = refl;
        connections = refl;
        sessions = λ h ne. refl;
      }

  on_packet-StaysWithin :
      (hdl : ℕ) (ses : Session) (type : ℕ) (rest : List ℕ) (srv : Server F G)
      → StaysWithin hdl ses.snake_id srv (on_packet hdl ses type rest srv)
  unfolding on_packet on_username
  on_packet-StaysWithin hdl ses type rest srv =
      let me = ses.snake_id in
      let P = StaysWithin hdl me srv in
      let same = StaysWithin-refl hdl me srv in
      let version = read_char ses.protocol_version rest in
      let skin = read_char ses.skin version.1 in
      let known : Session = record ses { protocol_version = version.0; skin = skin.0 } in
      let kept : Server F G = record srv { sessions = update_key hdl (λ _. known) srv.sessions } in
      let named : P kept = record {
        snakes = λ id ne. refl;
        sectors = refl;
        changes = refl;
        connections = refl;
        sessions = λ h ne.
            ground (arith, find_key-update_key hdl h (λ (_ : Session). known) srv.sessions, ne);
      } in
      if_rule P (type == 251) (send_binary-StaysWithin hdl me srv) (
        if_rule P (type == b's')
          (do_snake-StaysWithin hdl me (λ s. record s { name = known.name; skin = known.skin }) srv
            kept named)
          (if_rule P (type == 253)
            (do_snake-StaysWithin hdl me (λ s. record s { acceleration = true }) srv srv same)
            (if_rule P (type == 254)
              (do_snake-StaysWithin hdl me (λ s. record s { acceleration = false }) srv srv same)
              same)))

  -- A message of any bytes, from a connection with a session, changes no snake but the one of that
  -- session, no sector, no connection, no other session, and nothing of the list of changed snakes.
  pub on_message-StaysWithin :
      (hdl : ℕ) (is_binary : Bool) (payload : List ℕ) (srv : Server F G) (ses : Session)
      → find_key hdl srv.sessions ≡ some ses
      → StaysWithin hdl ses.snake_id srv (on_message hdl is_binary payload srv)
  unfolding on_message
  on_message-StaysWithin hdl is_binary payload srv ses found =
      let type : ℕ = elim payload [ [] ↦ 0 | b ∷ _ ↦ b ] in
      let rest : List ℕ = elim payload [ [] ↦ [] | _ ∷ bs ↦ bs ] in
      let len = length payload in
      let P = StaysWithin hdl ses.snake_id srv in
      let same = StaysWithin-refl hdl ses.snake_id srv in
      rw (found, on_message)
        (if_rule P is_binary
          (if_rule P (ltb 255 len) same (
            if_rule P (leb type 250 && len == 1)
              (do_snake-StaysWithin hdl ses.snake_id _ srv srv same)
              (on_packet-StaysWithin hdl ses type rest srv)))
          same)
