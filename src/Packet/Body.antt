-- ===== src/Packet/Body.antt =====
-- The packets of fixed form: p_end, p_move, p_inc, p_fullness, p_remove_part, p_sector, p_pong,
-- p_minimap and the packet_remove_snake of p_snake in src/packet. `put_x` is the operator << of the
-- packet x, and a head whose type the constructors fix is given by `client_time`.
use slitherss.Prelude.{ℕ, List, [], ◌++◌, ltb, if◌then◌else◌, pos}
use slitherss.Float.{Float}
use slitherss.Packet.Format.{PacketBase, put_base, put_uint8, put_uint16, put_uint24, write_fp24}

abbrev pub head : ℕ → ℕ → List ℕ
head time type = put_base (record { client_time = time; packet_type = type })

pub record PacketEnd : Type 0 where
  pub client_time : ℕ
  pub status : ℕ

unfoldable pub put_end : PacketEnd → List ℕ
put_end p = head p.client_time b'v' ++ put_uint8 p.status

pub record PacketKill : Type 0 where
  pub client_time : ℕ
  pub snake_id : ℕ
  pub kills : ℕ

unfoldable pub put_kill : PacketKill → List ℕ
put_kill p = head p.client_time b'k' ++ put_uint16 p.snake_id ++ put_uint24 p.kills

pub record PacketMove : Type 0 where
  pub client_time : ℕ
  pub snake_id : ℕ
  pub x : ℕ
  pub y : ℕ

unfoldable pub put_move : PacketMove → List ℕ
put_move p = head p.client_time b'g' ++ put_uint16 p.snake_id ++ put_uint16 p.x ++ put_uint16 p.y

-- The constructor from a snake writes the type of packet_move; the other one its own.
pub record PacketMoveRel : Type 0 where
  pub base : PacketBase
  pub snake_id : ℕ
  pub dx : ℕ
  pub dy : ℕ

unfoldable pub put_move_rel : PacketMoveRel → List ℕ
put_move_rel p = put_base p.base ++ put_uint16 p.snake_id ++ put_uint8 p.dx ++ put_uint8 p.dy

pub record PacketSector : Type 0 where
  pub base : PacketBase
  pub x : ℕ
  pub y : ℕ

unfoldable pub put_sector : PacketSector → List ℕ
put_sector p = put_base p.base ++ put_uint8 p.x ++ put_uint8 p.y

-- packet_add_sector and packet_remove_sector
unfoldable pub packet_add_sector : ℕ → ℕ → PacketSector
packet_add_sector x y = record {
  base = record { client_time = 0; packet_type = b'W' };
  x = x;
  y = y;
}

unfoldable pub packet_remove_sector : ℕ → ℕ → PacketSector
packet_remove_sector x y = record {
  base = record { client_time = 0; packet_type = b'w' };
  x = x;
  y = y;
}

pub record PacketMinimap : Type 0 where
  pub client_time : ℕ
  pub pixels : List ℕ

unfoldable pub put_minimap : PacketMinimap → List ℕ
put_minimap p = head p.client_time b'u' ++ p.pixels

pub record PacketPong : Type 0 where
  pub client_time : ℕ

unfoldable pub put_pong : PacketPong → List ℕ
put_pong p = head p.client_time b'p'

pub record PacketRemoveSnake : Type 0 where
  pub client_time : ℕ
  pub snake_id : ℕ
  pub status : ℕ

unfoldable pub put_remove_snake : PacketRemoveSnake → List ℕ
put_remove_snake p = head p.client_time b's' ++ put_uint16 p.snake_id ++ put_uint8 p.status

pub record PacketInc : Type 0 where
  pub client_time : ℕ
  pub snake_id : ℕ
  pub x : ℕ
  pub y : ℕ
  pub fullness : ℕ

pub record PacketIncRel : Type 0 where
  pub client_time : ℕ
  pub snake_id : ℕ
  pub dx : ℕ
  pub dy : ℕ
  pub fullness : ℕ

pub record PacketFullness : Type 0 where
  pub client_time : ℕ
  pub snake_id : ℕ
  pub fullness : ℕ

pub record PacketRemovePart : Type 0 where
  pub client_time : ℕ
  pub snake_id : ℕ
  pub fullness : ℕ

module _ (F : Type 0) ⦃float : Float F⦄ where
  open float use {ratio, of_int, div}

  -- `write_fp24(fullness / 100.0f)`
  abbrev pub fam : ℕ → ℕ
  fam fullness = write_fp24 {F = F} (div (of_int (pos fullness)) (ratio 100 1))

  unfoldable pub put_inc : PacketInc → List ℕ
  put_inc p =
      head p.client_time b'n'
      ++ put_uint16 p.snake_id
      ++ put_uint16 p.x
      ++ put_uint16 p.y
      ++ put_uint24 (fam p.fullness)

  unfoldable pub put_inc_rel : PacketIncRel → List ℕ
  put_inc_rel p =
      head p.client_time b'N'
      ++ put_uint16 p.snake_id
      ++ put_uint8 p.dx
      ++ put_uint8 p.dy
      ++ put_uint24 (fam p.fullness)

  unfoldable pub put_fullness : PacketFullness → List ℕ
  put_fullness p = head p.client_time b'h' ++ put_uint16 p.snake_id ++ put_uint24 (fam p.fullness)

  unfoldable pub put_remove_part : PacketRemovePart → List ℕ
  put_remove_part p =
      head p.client_time b'r'
      ++ put_uint16 p.snake_id
      ++ (if ltb 0 p.fullness then put_uint24 (fam p.fullness) else [])
