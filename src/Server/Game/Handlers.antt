-- ===== src/Server/Game/Handlers.antt =====
-- Of src/server/game.cc: the handlers on_timer, on_open, on_message and on_close. A message is what
-- get_payload returns, a list of bytes, and whether its opcode is binary.
use slitherss.Prelude.{
  ℕ, ◌-◌, Bool, true, false, ◌&&◌, ◌||◌, List, [], ◌∷◌, ◌++◌, Option, none, some, ltb, leb, ◌==◌,
  if◌then◌else◌, pos, length,
}
use slitherss.Float.{Float}
use slitherss.Game.Config.{
  WorldConfig, game_radius, max_snake_parts, sector_size, sector_count_along_edge, protocol_version,
}
use slitherss.Game.Random.{Random}
use slitherss.Game.Math.{f_pi}
use slitherss.Game.Snake.{Snake}
use slitherss.Game.Move.{snake_angular_speed, snake_tail_k}
use slitherss.Game.World.{find_snake}
use slitherss.Game.World.Frame.{world_tick}
use slitherss.Game.World.Create.{enter, init_world}
use slitherss.Packet.Entry.{PacketInit}
use slitherss.Packet.Wire.{init, add_snake, pong}
use slitherss.Server.Maps.{find_key, put_key, erase_key, update_key}
use slitherss.Server.Game.{Clock, Session, new_session, Server, lose, send_binary, broadcast_binary}
use slitherss.Server.Game.Update.{packet_move, send_pov_update_to, put_back}
use slitherss.Server.Game.Draw.{broadcast_drawing}
use slitherss.Server.Game.Broadcast.{remove_from_server, remove_dead_snakes, broadcast_updates}

-- `buf >> x` for an `unsigned char`, which passes over white space; x stays at the end of the buffer.
unfoldable pub read_char : ℕ → List ℕ → ℕ × List ℕ
read_char old [] = (old, [])
read_char old (b ∷ bs) =
    let later = read_char old bs in if (leb 9 b && leb b 13) || b == 32 then later else (b, bs)

module _ {F G : Type 0} where
  -- GameServer::DoSnake
  unfoldable pub do_snake : ℕ → (Snake F → Snake F) → Server F G → Server F G
  unfolding find_snake
  do_snake id f srv =
      let done : Server F G = elim (find_snake id srv.world.snakes) [
        | none ↦ lose srv
        | some s ↦ put_back id (f s, srv)
      ] in
      if ltb 0 id then done else srv

  -- GameServer::on_close
  unfoldable pub on_close : ℕ → Server F G → Server F G
  unfolding find_key erase_key remove_from_server
  on_close hdl srv = elim (find_key hdl srv.sessions) [
    | none ↦ srv
    | some ses ↦
        remove_from_server ses.snake_id (record srv { sessions = erase_key hdl srv.sessions })
  ]

module _ {F : Type 0} ⦃float : Float F⦄ {G : Type 0} ⦃clock : Clock G⦄ where
  open float use {ratio, of_int, mul, div}

  -- Of on_message, the case in_packet_t_username_skin. `buf.str(ss.name)` writes the buffer and leaves
  -- the name.
  unfoldable pub on_username : ℕ → Session → List ℕ → Server F G → Server F G
  unfolding read_char update_key do_snake
  on_username hdl ses rest srv =
      let version = read_char ses.protocol_version rest in
      let skin = read_char ses.skin version.1 in
      let known : Session = record ses { protocol_version = version.0; skin = skin.0 } in
      do_snake ses.snake_id (λ s. record s { name = known.name; skin = known.skin })
        (record srv { sessions = update_key hdl (λ _. known) srv.sessions })

  -- The switch of on_message
  unfoldable pub on_packet : ℕ → Session → ℕ → List ℕ → Server F G → Server F G
  unfolding send_binary on_username do_snake
  on_packet hdl ses type rest srv =
      if type == 251
      then send_binary (some hdl) (pong (record { client_time = 0 })) srv
      else if type == b's'
      then on_username hdl ses rest srv
      else if type == 253
      then do_snake ses.snake_id (λ s. record s { acceleration = true }) srv
      else if type == 254
      then do_snake ses.snake_id (λ s. record s { acceleration = false }) srv
      else srv

  -- GameServer::on_message
  unfoldable pub on_message : ℕ → Bool → List ℕ → Server F G → Server F G
  unfolding find_key on_packet do_snake f_pi
  on_message hdl is_binary payload srv =
      let type : ℕ = elim payload [ [] ↦ 0 | b ∷ _ ↦ b ] in
      let rest : List ℕ = elim payload [ [] ↦ [] | _ ∷ bs ↦ bs ] in
      let len = length payload in
      let angle = div (mul f_pi (of_int (pos type))) (ratio 125 1) in
      let steer : Snake F → Snake F =
        λ s. record s { wangle = angle; update = record s.update { wangle = true } } in
      let handled : Server F G = elim (find_key hdl srv.sessions) [
        | none ↦ srv
        | some ses ↦
            let turned = do_snake ses.snake_id steer srv in
            let other = on_packet hdl ses type rest srv in
            if leb type 250 && len == 1 then turned else other
      ] in
      if is_binary then (if ltb 255 len then srv else handled) else srv

  -- Of on_open, the loop over the other snakes
  unfoldable pub introduce : Option ℕ → ℕ → List (ℕ × Snake F) → Server F G → Server F G
  unfolding send_binary
  introduce ses me [] srv = srv
  introduce ses me ((k, s) ∷ rest) srv =
      let told =
        send_binary ses (packet_move s)
          (send_binary ses (add_snake (record { client_time = 0; s = s })) srv) in
      introduce ses me rest (if k == me then srv else told)

  module _ ⦃random : Random G⦄ where
    -- GameServer::on_open, up to the session: the snake that was made
    unfoldable pub connect : ℕ → Server F G → Snake F × Server F G
    unfolding enter put_key
    connect hdl srv =
        let entered = enter srv.world srv.outside in
        let s = entered.0.0 in
        let time = clock.now entered.1 in
        (
          s,
          record srv {
            world = entered.0.1;
            sessions = put_key hdl (new_session s.id time.0) srv.sessions;
            connections = put_key s.id hdl srv.connections;
            outside = time.1;
            sent = srv.sent ++ (hdl, init srv.init) ∷ [];
          },
        )

    -- GameServer::on_open. The snake is that of the world, if AddSnake found its key free.
    unfoldable pub on_open : ℕ → Server F G → Server F G
    unfolding connect broadcast_binary send_pov_update_to introduce find_snake
    on_open hdl srv =
        let connected = connect hdl srv in
        let s = connected.0 in
        let shown = broadcast_binary (add_snake (record { client_time = 0; s = s })) connected.1 in
        let placed = broadcast_binary (packet_move s) shown in
        let seen = send_pov_update_to (some hdl) s placed in
        let kept : Server F G = elim (find_snake s.id srv.world.snakes) [
          | none ↦ put_back s.id seen
          | some _ ↦ seen.1
        ] in
        introduce (some hdl) s.id kept.world.snakes kept

    -- GameServer::NextTick, but for the timer: the delay that it is set to, and the server
    unfoldable pub next_tick : ℕ → Server F G → ℕ × Server F G
    next_tick last srv =
        let time = clock.now srv.outside in
        (10 - (time.0 - last), record srv { last_time_point = last; outside = time.1 })

    -- GameServer::on_timer: `failed` is the error code.
    unfoldable pub on_timer : Bool → Server F G → Server F G
    unfolding world_tick broadcast_drawing broadcast_updates remove_dead_snakes next_tick
    on_timer failed srv =
        let time = clock.now srv.outside in
        let begun : Server F G = record srv {
          world = world_tick (time.0 - srv.last_time_point) srv.world;
          outside = time.1;
        } in
        let done = remove_dead_snakes (broadcast_updates (broadcast_drawing begun)) in
        let measured = clock.now done.outside in
        if failed
        then record srv { outside = time.1 }
        else (next_tick time.0 (record done { outside = measured.1 })).1

-- GameServer::BuildInitPacket
unfoldable pub build_init_packet : (F : Type 0) → ⦃float : Float F⦄ → PacketInit F
unfolding snake_angular_speed snake_tail_k
build_init_packet F ⦃float⦄ =
    let milli : F → F = λ v. float.div (float.mul (float.ratio 8 1) v) (float.ratio 1000 1) in
    record {
      client_time = 0;
      game_radius = game_radius;
      max_snake_parts = max_snake_parts;
      sector_size = sector_size;
      sector_count_along_edge = sector_count_along_edge;
      spangdv = float.ratio 48 10;
      nsp1 = float.ratio 539 100;
      nsp2 = float.ratio 4 10;
      nsp3 = float.ratio 14 1;
      snake_ang_speed = milli snake_angular_speed;
      prey_ang_speed = milli (float.ratio 35 10);
      snake_tail_k = snake_tail_k;
      protocol_version = protocol_version;
    }

-- GameServer::Run up to the loop of the endpoint, for a server that was just made
unfoldable pub run :
    {F : Type 0} ⦃float : Float F⦄ {G : Type 0} ⦃clock : Clock G⦄ ⦃random : Random G⦄
    → WorldConfig
    → Bool
    → Server F G
    → Server F G
unfolding init_world build_init_packet next_tick
run {F} ⦃clock⦄ config debug srv =
    let made = init_world config srv.world srv.outside in
    let time = clock.now made.1 in
    (next_tick time.0 (record srv {
      world = made.0;
      outside = time.1;
      init = build_init_packet F;
      debug = debug;
    })).1
