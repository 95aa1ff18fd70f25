-- ===== src/Packet/Wire.antt =====
-- Every packet as one type: what the templates `send` and `operator <<` are instantiated with.
pub mod Fits
use slitherss.Prelude.{ℕ, ◌+◌, ◌-◌, ◌*◌, List, [], ◌∷◌, length}
use slitherss.Float.{Float}
use slitherss.Game.Snake.{Snake}
use slitherss.Packet.Body.{
  PacketEnd, put_end, PacketKill, put_kill, PacketMove, put_move, PacketMoveRel, put_move_rel,
  PacketSector, put_sector, PacketMinimap, put_minimap, PacketPong, put_pong, PacketRemoveSnake,
  put_remove_snake, PacketInc, put_inc, PacketIncRel, put_inc_rel, PacketFullness, put_fullness,
  PacketRemovePart, put_remove_part,
}
use slitherss.Packet.Food.{
  PacketSetFood, put_set_food, PacketSpawnFood, put_spawn_food, PacketAddFood, put_add_food,
  PacketEatFood, put_eat_food,
}
use slitherss.Packet.Entry.{
  PacketInit, put_init, PacketAddSnake, put_add_snake, PacketLeaderboard, put_leaderboard,
  PacketHighscore, put_highscore,
}
use slitherss.Packet.Rotation.{PacketRotation, put_rotation}
use slitherss.Packet.Debug.{PacketDebugDraw, put_debug_draw, PacketDebugReset, put_debug_reset}

pub data Packet (F : Type 0) : Type 0 where
  end : PacketEnd → Packet F
  kill : PacketKill → Packet F
  move : PacketMove → Packet F
  move_rel : PacketMoveRel → Packet F
  sector : PacketSector → Packet F
  minimap : PacketMinimap → Packet F
  pong : PacketPong → Packet F
  remove_snake : PacketRemoveSnake → Packet F
  inc : PacketInc → Packet F
  inc_rel : PacketIncRel → Packet F
  fullness : PacketFullness → Packet F
  remove_part : PacketRemovePart → Packet F
  set_food : PacketSetFood → Packet F
  spawn_food : PacketSpawnFood → Packet F
  add_food : PacketAddFood → Packet F
  eat_food : PacketEatFood → Packet F
  init : PacketInit F → Packet F
  add_snake : PacketAddSnake F → Packet F
  leaderboard : PacketLeaderboard F → Packet F
  highscore : PacketHighscore F → Packet F
  rotation : PacketRotation F → Packet F
  debug_draw : PacketDebugDraw → Packet F
  debug_reset : PacketDebugReset → Packet F

-- packet_leaderboard::get_size, its loop
abbrev names_size : {F : Type 0} → List (Snake F) → ℕ
names_size [] = 0
names_size (s ∷ ss) = 2 + 3 + 1 + 1 + length s.name + names_size ss

-- get_size of each packet; a snake has parts, so that parts.size() - 1 does not wrap.
unfoldable pub get_size : {F : Type 0} → Packet F → ℕ
get_size (end p) = 4
get_size (kill p) = 8
get_size (move p) = 9
get_size (move_rel p) = 7
get_size (sector p) = 5
get_size (minimap p) = 3 + length p.pixels
get_size (pong p) = 3
get_size (remove_snake p) = 6
get_size (inc p) = 12
get_size (inc_rel p) = 10
get_size (fullness p) = 8
get_size (remove_part p) = 8
get_size (set_food p) = 3 + length p.food * 6
get_size (spawn_food p) = 9
get_size (add_food p) = 9
get_size (eat_food p) = 9
get_size (init p) = 26
get_size (add_snake p) = 25 + length p.s.name + 2 * 3 + (length p.s.parts - 1) * 2
get_size (leaderboard p) = 8 + names_size p.top
get_size (highscore p) = 9 + 1 + length p.winner.name + length p.message
get_size (rotation p) = 8
get_size (debug_draw p) =
    3 + length p.dots * 11 + length p.segments * 15 + length p.rects * 15 + length p.circles * 13
get_size (debug_reset p) = 3

-- operator << for each packet
unfoldable pub encode : {F : Type 0} ⦃float : Float F⦄ → Packet F → List ℕ
encode (end p) = put_end p
encode (kill p) = put_kill p
encode (move p) = put_move p
encode (move_rel p) = put_move_rel p
encode (sector p) = put_sector p
encode (minimap p) = put_minimap p
encode (pong p) = put_pong p
encode (remove_snake p) = put_remove_snake p
encode {F} (inc p) = put_inc F p
encode {F} (inc_rel p) = put_inc_rel F p
encode {F} (fullness p) = put_fullness F p
encode {F} (remove_part p) = put_remove_part F p
encode (set_food p) = put_set_food p
encode (spawn_food p) = put_spawn_food p
encode (add_food p) = put_add_food p
encode (eat_food p) = put_eat_food p
encode (init p) = put_init p
encode (add_snake p) = put_add_snake p
encode (leaderboard p) = put_leaderboard p
encode (highscore p) = put_highscore p
encode (rotation p) = put_rotation p
encode (debug_draw p) = put_debug_draw p
encode (debug_reset p) = put_debug_reset p
