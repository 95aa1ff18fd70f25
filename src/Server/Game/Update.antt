-- ===== src/Server/Game/Update.antt =====
-- Of src/server/game.cc: what BroadcastUpdates tells of the changed snakes, and RemoveDeadSnakes. A
-- snake that is changed through its pointer is put back into the world at the end of its round.
use slitherss.Prelude.{
  ℕ, ◌+◌, ◌-◌, ◌%◌, ◌^◌, Bool, false, ◌&&◌, ◌||◌, List, [], ◌∷◌, Option, none, some, ltb,
  if◌then◌else◌, pos, length, get_elem?,
}
use slitherss.Float.{Float}
use slitherss.Game.Sector.{Food}
use slitherss.Game.Snake.{Changes, Snake}
use slitherss.Game.Move.{head_of}
use slitherss.Game.World.{update_snake}
use slitherss.Packet.Body.{packet_add_sector, packet_remove_sector}
use slitherss.Packet.Wire.{
  Packet, move, sector, inc, fullness, remove_part, set_food, spawn_food, eat_food, rotation,
}
use slitherss.Server.Game.{Clock, Server, load_session_iter, send_binary, broadcast_binary}

module _ {F : Type 0} ⦃float : Float F⦄ where
  open float use {ratio, of_int, neg, div, to_unsigned}

  -- The packets that are made of a snake
  abbrev pub packet_move : Snake F → Packet F
  packet_move s =
      let head = head_of s.parts in
      move (record {
        client_time = 0;
        snake_id = s.id;
        x = to_unsigned 16 head.x;
        y = to_unsigned 16 head.y;
      })

  abbrev pub packet_inc : Snake F → Packet F
  packet_inc s =
      let head = head_of s.parts in
      inc (record {
        client_time = 0;
        snake_id = s.id;
        x = to_unsigned 16 head.x;
        y = to_unsigned 16 head.y;
        fullness = s.fullness % 2 ^ 8;
      })

  abbrev pub packet_fullness : Snake F → Packet F
  packet_fullness s =
      fullness (record { client_time = 0; snake_id = s.id; fullness = s.fullness % 2 ^ 8 })

  abbrev pub packet_remove_part : Snake F → Packet F
  packet_remove_part s =
      remove_part (record { client_time = 0; snake_id = s.id; fullness = s.fullness % 2 ^ 8 })

  -- The packet_rotation that BroadcastUpdates fills in by the flags
  abbrev pub rotation_of : Snake F → Packet F
  rotation_of s =
      let absent = neg (ratio 1 1) in
      let turned = s.update.angle in
      rotation (record {
        client_time = 0;
        snake_id = s.id;
        ang = if turned then s.angle else absent;
        wang = if turned && s.update.wangle then s.wangle else absent;
        snake_speed = if s.update.speed then div (of_int (pos s.speed)) (ratio 32 1) else absent;
      })

module _ {F G : Type 0} where
  -- The snake goes back into the world.
  abbrev pub put_back : ℕ → Snake F × Server F G → Server F G
  put_back id (s, srv) = record srv {
    world = record srv.world { snakes = update_snake id (λ _. s) srv.world.snakes };
  }

module _ {F : Type 0} ⦃float : Float F⦄ {G : Type 0} ⦃clock : Clock G⦄ where
  -- The loops of GameServer::SendPOVUpdateTo
  unfoldable pub send_new : Option ℕ → List ℕ → Server F G → Server F G
  unfolding send_binary packet_add_sector
  send_new ses [] srv = srv
  send_new ses (k ∷ ks) srv =
      let next : Server F G = elim (get_elem? srv.world.sectors k) [
        | none ↦ srv
        | some sec ↦
            send_binary ses (set_food (record { client_time = 0; food = sec.food }))
              (send_binary ses (sector (packet_add_sector sec.x sec.y)) srv)
      ] in
      send_new ses ks next

  unfoldable pub send_old : Option ℕ → List ℕ → Server F G → Server F G
  unfolding send_binary packet_remove_sector
  send_old ses [] srv = srv
  send_old ses (k ∷ ks) srv =
      let next : Server F G = elim (get_elem? srv.world.sectors k) [
        | none ↦ srv
        | some sec ↦ send_binary ses (sector (packet_remove_sector sec.x sec.y)) srv
      ] in
      send_old ses ks next

  -- GameServer::SendPOVUpdateTo
  unfoldable pub send_pov_update_to : Option ℕ → Snake F → Server F G → Snake F × Server F G
  unfolding send_new send_old
  send_pov_update_to ses s srv = (
    record s { vp = record s.vp { new_sectors = []; old_sectors = [] } },
    send_old ses s.vp.old_sectors (send_new ses s.vp.new_sectors srv),
  )

  unfoldable pub tell_eaten : ℕ → List Food → Server F G → Server F G
  unfolding broadcast_binary
  tell_eaten id [] srv = srv
  tell_eaten id (f ∷ fs) srv =
      tell_eaten id fs
        (broadcast_binary (eat_food (record { client_time = 0; m_food = f; snake_id = id })) srv)

  unfoldable pub tell_spawn : List Food → Server F G → Server F G
  unfolding broadcast_binary
  tell_spawn [] srv = srv
  tell_spawn (f ∷ fs) srv =
      tell_spawn fs (broadcast_binary (spawn_food (record { client_time = 0; m_food = f })) srv)

  -- GameServer::SendFoodUpdate
  unfoldable pub send_food_update : Snake F → Server F G → Snake F × Server F G
  unfolding tell_eaten tell_spawn
  send_food_update s srv =
      (record s { eaten = []; spawn = [] }, tell_spawn s.spawn (tell_eaten s.id s.eaten srv))

  -- BroadcastUpdates of the rotation and the speed
  unfoldable pub tell_rotation : Snake F × Server F G → Snake F × Server F G
  unfolding broadcast_binary
  tell_rotation (s, srv) =
      let flags = s.update in
      let told : Changes = record flags {
        angle = false;
        wangle = if flags.angle then false else flags.wangle;
        speed = false;
      } in
      if flags.angle || flags.speed
      then (record s { update = told }, broadcast_binary (rotation_of s) srv)
      else (s, srv)

  -- Of the length and the place of the snake
  unfoldable pub tell_place : Snake F × Server F G → Snake F × Server F G
  unfolding broadcast_binary
  tell_place (s, srv) =
      let n = length s.parts in
      let known = s.client_parts_index in
      let grown = broadcast_binary (packet_inc s) srv in
      let cut = broadcast_binary (packet_remove_part s) srv in
      if ltb known n
      then (record s { client_parts_index = known + 1 }, grown)
      else if ltb n known
      then (record s { client_parts_index = known - 1 }, broadcast_binary (packet_move s) cut)
      else (s, broadcast_binary (packet_move s) srv)

  -- Of what its own client sees, with the session that it has
  unfoldable pub tell_session : Option ℕ → Bool → Snake F × Server F G → Snake F × Server F G
  unfolding send_pov_update_to send_binary
  tell_session ses full (s, srv) =
      let seen = send_pov_update_to ses s srv in
      if full
      then (
        record seen.0 { update = record seen.0.update { fullness = false } },
        send_binary ses (packet_fullness s) seen.1,
      )
      else seen

  unfoldable pub tell_own : Bool → Snake F × Server F G → Snake F × Server F G
  unfolding load_session_iter tell_session
  tell_own full (s, srv) =
      let told = tell_session (load_session_iter s.id srv) full (s, srv) in
      if s.bot then (s, srv) else told

  -- Of a movement
  unfoldable pub tell_movement : Snake F × Server F G → Snake F × Server F G
  unfolding tell_place send_food_update tell_own
  tell_movement (s, srv) =
      let placed = tell_place (record s { update = record s.update { pos = false } }, srv) in
      let fed = send_food_update placed.0 placed.1 in
      if s.update.pos then tell_own s.update.fullness fed else (s, srv)
