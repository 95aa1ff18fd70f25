-- ===== src/Server/Game.antt =====
-- Of src/server/game.h and game.cc: the state of the server, its sessions and what it sends.
-- A connection_hdl is a number, in the order of `std::owner_less`; a SessionIter is the handle that it
-- stands at, `none` for sessions.end(). `sent` is what the endpoint was asked to send, the oldest
-- first, and `is_lost` notes that an iterator at the end, or a pointer to a snake that is gone, was read.
pub mod Update
pub mod Draw
pub mod Broadcast
pub mod Handlers
pub mod Linked
pub mod Replay
pub mod Watched
use slitherss.Prelude.{ℕ, ◌+◌, ◌-◌, ◌%◌, ◌^◌, Bool, true, List, [], ◌∷◌, ◌++◌, Option, none, some}
use slitherss.Game.Snake.{Snake}
use slitherss.Game.World.{World}
use slitherss.Packet.Body.{
  PacketEnd, PacketKill, PacketMove, PacketMoveRel, PacketSector, PacketMinimap, PacketPong,
  PacketRemoveSnake, PacketInc, PacketIncRel, PacketFullness, PacketRemovePart,
}
use slitherss.Packet.Food.{PacketSetFood, PacketSpawnFood, PacketAddFood, PacketEatFood}
use slitherss.Packet.Entry.{PacketInit, PacketAddSnake, PacketLeaderboard, PacketHighscore}
use slitherss.Packet.Rotation.{PacketRotation}
use slitherss.Packet.Debug.{PacketDebugDraw, PacketDebugReset}
use slitherss.Packet.Wire.{
  Packet, end, kill, move, move_rel, sector, minimap, pong, remove_snake, inc, inc_rel, fullness,
  remove_part, set_food, spawn_food, add_food, eat_food, init, add_snake, leaderboard, highscore,
  rotation, debug_draw, debug_reset,
}
use slitherss.Server.Maps.{find_key, update_key}

-- `steady_clock::now` in milliseconds, a parameter. G is all that is outside of the server.
pub record Clock (G : Type 0) : Type 0 where
  pub now : G → ℕ × G

pub record Session : Type 0 where
  pub snake_id : ℕ
  pub last_packet_time : ℕ
  pub name : List ℕ
  pub message : List ℕ
  pub protocol_version : ℕ
  pub skin : ℕ

-- Session::Session
abbrev pub new_session : ℕ → ℕ → Session
new_session id now = record {
  snake_id = id;
  last_packet_time = now;
  name = [];
  message = [];
  protocol_version = 0;
  skin = 0;
}

pub record Server (F G : Type 0) : Type 0 where
  pub world : World F
  pub sessions : List (ℕ × Session)
  pub connections : List (ℕ × ℕ)
  pub init : PacketInit F
  pub debug : Bool
  pub last_time_point : ℕ
  pub outside : G
  pub sent : List (ℕ × Packet F)
  pub is_lost : Bool

-- packet.client_time = interval
abbrev pub set_client_time : {F : Type 0} → ℕ → Packet F → Packet F
set_client_time t (end p) = end (record p { client_time = t })
set_client_time t (kill p) = kill (record p { client_time = t })
set_client_time t (move p) = move (record p { client_time = t })
set_client_time t (move_rel p) = move_rel (record p { base = record p.base { client_time = t } })
set_client_time t (sector p) = sector (record p { base = record p.base { client_time = t } })
set_client_time t (minimap p) = minimap (record p { client_time = t })
set_client_time t (pong p) = pong (record p { client_time = t })
set_client_time t (remove_snake p) = remove_snake (record p { client_time = t })
set_client_time t (inc p) = inc (record p { client_time = t })
set_client_time t (inc_rel p) = inc_rel (record p { client_time = t })
set_client_time t (fullness p) = fullness (record p { client_time = t })
set_client_time t (remove_part p) = remove_part (record p { client_time = t })
set_client_time t (set_food p) = set_food (record p { client_time = t })
set_client_time t (spawn_food p) = spawn_food (record p { client_time = t })
set_client_time t (add_food p) = add_food (record p { client_time = t })
set_client_time t (eat_food p) = eat_food (record p { client_time = t })
set_client_time t (init p) = init (record p { client_time = t })
set_client_time t (add_snake p) = add_snake (record p { client_time = t })
set_client_time t (leaderboard p) = leaderboard (record p { client_time = t })
set_client_time t (highscore p) = highscore (record p { client_time = t })
set_client_time t (rotation p) = rotation (record p { client_time = t })
set_client_time t (debug_draw p) = debug_draw (record p { client_time = t })
set_client_time t (debug_reset p) = debug_reset (record p { client_time = t })

-- `static_cast<uint16_t>(now - last)`
abbrev pub interval : ℕ → ℕ → ℕ
interval now last = (now + 2 ^ 64 - last) % 2 ^ 16

-- The loop of GameServer::broadcast_binary: the sessions, and what is sent
unfoldable pub tell_all :
    {F : Type 0} → ℕ → Packet F → List (ℕ × Session) → List (ℕ × Session) × List (ℕ × Packet F)
tell_all now p [] = ([], [])
tell_all now p ((h, ses) ∷ rest) =
    let later = tell_all now p rest in
    (
      (h, record ses { last_packet_time = now }) ∷ later.0,
      (h, set_client_time (interval now ses.last_packet_time) p) ∷ later.1,
    )

module _ {F G : Type 0} where
  -- An iterator at the end, or a pointer to a snake that is gone, is read.
  abbrev pub lose : Server F G → Server F G
  lose srv = record srv { is_lost = true }

  -- GameServer::LoadSessionIter
  unfoldable pub load_session_iter : ℕ → Server F G → Option ℕ
  unfolding find_key
  load_session_iter id srv = elim (find_key id srv.connections) [
    | none ↦ none
    | some h ↦ elim (find_key h srv.sessions) [ none ↦ none | some _ ↦ some h ]
  ]

  module _ ⦃clock : Clock G⦄ where
    -- GameServer::send_binary
    unfoldable pub send_binary : Option ℕ → Packet F → Server F G → Server F G
    unfolding find_key update_key
    send_binary none p srv = lose srv
    send_binary (some h) p srv = elim (find_key h srv.sessions) [
      | none ↦ lose srv
      | some ses ↦
          let time = clock.now srv.outside in
          record srv {
            sessions = update_key h (λ s. record s { last_packet_time = time.0 }) srv.sessions;
            outside = time.1;
            sent = srv.sent ++ (h, set_client_time (interval time.0 ses.last_packet_time) p) ∷ [];
          }
    ]

    -- GameServer::broadcast_binary
    unfoldable pub broadcast_binary : Packet F → Server F G → Server F G
    unfolding tell_all
    broadcast_binary p srv =
        let time = clock.now srv.outside in
        let told = tell_all time.0 p srv.sessions in
        record srv { sessions = told.0; outside = time.1; sent = srv.sent ++ told.1 }
