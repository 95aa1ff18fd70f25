-- ===== src/Server/Game/Broadcast.antt =====
-- Of src/server/game.cc: BroadcastUpdates, RemoveSnake and RemoveDeadSnakes.
use slitherss.Prelude.{ℕ, true, List, [], ◌∷◌, ◌++◌, none, some, if◌then◌else◌, foldl}
use slitherss.Float.{Float}
use slitherss.Game.Random.{Random}
use slitherss.Game.Snake.{no_changes, Snake}
use slitherss.Game.Move.{same_changes}
use slitherss.Game.Death.{on_dead_food_spawn}
use slitherss.Game.World.{find_snake, remove_from_world}
use slitherss.Packet.Wire.{end, remove_snake}
use slitherss.Server.Maps.{erase_key}
use slitherss.Server.Game.{Clock, Server, lose, load_session_iter, send_binary, broadcast_binary}
use slitherss.Server.Game.Update.{send_food_update, put_back, tell_rotation, tell_movement}

module _ {F G : Type 0} where
  -- GameServer::RemoveSnake
  unfoldable pub remove_from_server : ℕ → Server F G → Server F G
  unfolding erase_key remove_from_world
  remove_from_server id srv = record srv {
    connections = erase_key id srv.connections;
    world = remove_from_world id srv.world;
  }

  -- GameServer::RemoveDeadSnakes, its loop and the whole
  unfoldable pub remove_all : List ℕ → Server F G → Server F G
  unfolding remove_from_server
  remove_all [] srv = srv
  remove_all (id ∷ ids) srv = remove_all ids (remove_from_server id srv)

  unfoldable pub remove_dead_snakes : Server F G → Server F G
  unfolding remove_all
  remove_dead_snakes srv =
      let left = remove_all srv.world.dead srv in
      record left { world = record left.world { dead = [] } }

module _ {F : Type 0} ⦃float : Float F⦄ {G : Type 0} ⦃clock : Clock G⦄ ⦃random : Random G⦄ where
  -- BroadcastUpdates of a dying snake: the end of its session
  unfoldable pub end_session : ℕ → Snake F → Server F G → Server F G
  unfolding load_session_iter send_binary
  end_session id s srv =
      let over = end (record { client_time = 0; status = 0 }) in
      let ended : Server F G = elim (load_session_iter id srv) [
        | none ↦ srv
        | some h ↦ send_binary (some h) over srv
      ] in
      if s.bot then srv else ended

  -- The food that it leaves
  unfoldable pub bury : Snake F → Server F G → Snake F × Server F G
  unfolding on_dead_food_spawn
  bury s srv =
      let dropped = on_dead_food_spawn (s, srv.world.sectors) srv.outside in
      (
        dropped.0.0,
        record srv { world = record srv.world { sectors = dropped.0.1 }; outside = dropped.1 },
      )

  -- What is told of its death: the snake that is dead, and the server
  unfoldable pub funeral : ℕ → Snake F → Server F G → Snake F × Server F G
  unfolding end_session bury send_food_update broadcast_binary
  funeral id s srv =
      let buried = bury s (end_session id s srv) in
      let fed = send_food_update buried.0 buried.1 in
      let died = remove_snake (record { client_time = 0; snake_id = s.id; status = 1 }) in
      let left = remove_snake (record { client_time = 0; snake_id = s.id; status = 0 }) in
      (
        record fed.0 { update = record fed.0.update { dead = true } },
        broadcast_binary left (broadcast_binary died fed.1),
      )

  -- The whole of its round
  unfoldable pub die : ℕ → Snake F → Server F G → Server F G
  unfolding funeral
  die id s srv =
      let back = put_back id (funeral id s srv) in
      if s.bot
      then record back { world = record back.world { dead = back.world.dead ++ s.id ∷ [] } }
      else back

  -- A round of GameServer::BroadcastUpdates, for the pointer to the snake id
  unfoldable pub update_one : Server F G → ℕ → Server F G
  unfolding find_snake die tell_rotation tell_movement same_changes
  update_one srv id = elim (find_snake id srv.world.snakes) [
    | none ↦ lose srv
    | some s ↦
        let buried = die id s srv in
        let told = put_back id (tell_movement (tell_rotation (s, srv))) in
        if s.update.dead
        then srv
        else if s.update.dying
        then buried
        else if same_changes s.update no_changes
        then srv
        else told
  ]

  -- GameServer::BroadcastUpdates
  unfoldable pub broadcast_updates : Server F G → Server F G
  unfolding update_one
  broadcast_updates srv =
      let told = foldl update_one srv srv.world.changes in
      record told { world = record told.world { changes = [] } }
