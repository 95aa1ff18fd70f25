-- ===== src/Packet/Entry.antt =====
-- The packets that describe the game and its snakes: p_init, packet_add_snake of p_snake,
-- p_leaderboard and p_highscore in src/packet. A pointer to a snake is the snake.
use mathlib.Core.List.{reverse}
use slitherss.Prelude.{ℕ, List, [], ◌∷◌, ◌++◌, pos, length, pop_back}
use slitherss.Float.{Float}
use slitherss.Game.Snake.{Body, Snake}
use slitherss.Packet.Format.{
  put_uint8, put_uint16, put_uint24, put_string, write_fp8, write_fp16_2, write_fp16_3, write_ang24,
}
use slitherss.Packet.Body.{head, fam}

pub record PacketInit (F : Type 0) : Type 0 where
  pub client_time : ℕ
  pub game_radius : ℕ
  pub max_snake_parts : ℕ
  pub sector_size : ℕ
  pub sector_count_along_edge : ℕ
  pub spangdv : F
  pub nsp1 : F
  pub nsp2 : F
  pub nsp3 : F
  pub snake_ang_speed : F
  pub prey_ang_speed : F
  pub snake_tail_k : F
  pub protocol_version : ℕ

pub record PacketAddSnake (F : Type 0) : Type 0 where
  pub client_time : ℕ
  pub s : Snake F

pub record PacketLeaderboard (F : Type 0) : Type 0 where
  pub client_time : ℕ
  pub leaderboard_rank : ℕ
  pub local_rank : ℕ
  pub players : ℕ
  pub top : List (Snake F)

pub record PacketHighscore (F : Type 0) : Type 0 where
  pub client_time : ℕ
  pub winner : Snake F
  pub message : List ℕ

module _ {F : Type 0} ⦃float : Float F⦄ where
  open float use {ratio, of_int, add, sub, mul, div, to_unsigned}

  unfoldable pub put_init : PacketInit F → List ℕ
  put_init p =
      head p.client_time b'a'
      ++ put_uint24 p.game_radius
      ++ put_uint16 p.max_snake_parts
      ++ put_uint16 p.sector_size
      ++ put_uint16 p.sector_count_along_edge
      ++ put_uint8 (write_fp8 p.spangdv)
      ++ put_uint16 (write_fp16_2 p.nsp1)
      ++ put_uint16 (write_fp16_2 p.nsp2)
      ++ put_uint16 (write_fp16_2 p.nsp3)
      ++ put_uint16 (write_fp16_3 p.snake_ang_speed)
      ++ put_uint16 (write_fp16_3 p.prey_ang_speed)
      ++ put_uint16 (write_fp16_3 p.snake_tail_k)
      ++ put_uint8 p.protocol_version

  -- A position as it is written: five units to a pixel
  abbrev coord : F → ℕ
  coord a = to_unsigned 32 (mul a (ratio 5 1))

  -- The loop from the tail to the head: each part relative to the one before it.
  unfoldable pub put_trail : F → F → List (Body F) → List ℕ
  put_trail hx hy [] = []
  put_trail hx hy (p ∷ ps) =
      let bpx = sub p.x hx in
      let bpy = sub p.y hy in
      put_uint8 (to_unsigned 8 (add (mul bpx (ratio 2 1)) (ratio 127 1)))
      ++ put_uint8 (to_unsigned 8 (add (mul bpy (ratio 2 1)) (ratio 127 1)))
      ++ put_trail (add hx bpx) (add hy bpy) ps

  -- The parts from the tail on. The head is left out: a snake has two parts at least.
  unfoldable pub put_parts : List (Body F) → List ℕ
  unfolding put_trail
  put_parts [] = []
  put_parts (tail ∷ ps) =
      put_uint24 (coord tail.x)
      ++ put_uint24 (coord tail.y)
      ++ put_trail tail.x tail.y (pop_back ps)

  -- The position of the head, of a snake that has one
  abbrev pub put_head : List (Body F) → List ℕ
  put_head [] = put_uint24 0 ++ put_uint24 0
  put_head (p ∷ ps) = put_uint24 (coord p.x) ++ put_uint24 (coord p.y)

  unfoldable pub put_add_snake : PacketAddSnake F → List ℕ
  unfolding put_parts
  put_add_snake p =
      head p.client_time b's'
      ++ put_uint16 s.id
      ++ put_uint24 (write_ang24 s.angle)
      ++ put_uint8 0
      ++ put_uint24 (write_ang24 s.angle)
      ++ put_uint16 (write_fp16_3 (div (of_int (pos s.speed)) (ratio 32 1)))
      ++ put_uint24 (fam F s.fullness)
      ++ put_uint8 s.skin
      ++ put_head s.parts
      ++ put_string s.name
      ++ put_parts (reverse s.parts)
    where
      s : Snake F
      s = p.s

  -- One line of the leaderboard
  unfoldable pub put_line : Snake F → List ℕ
  put_line s =
      put_uint16 (length s.parts)
      ++ put_uint24 (fam F s.fullness)
      ++ put_uint8 s.skin
      ++ put_string s.name

  unfoldable pub put_lines : List (Snake F) → List ℕ
  unfolding put_line
  put_lines [] = []
  put_lines (s ∷ ss) = put_line s ++ put_lines ss

  unfoldable pub put_leaderboard : PacketLeaderboard F → List ℕ
  unfolding put_lines
  put_leaderboard p =
      head p.client_time b'l'
      ++ put_uint8 p.leaderboard_rank
      ++ put_uint16 p.local_rank
      ++ put_uint16 p.players
      ++ put_lines p.top

  unfoldable pub put_highscore : PacketHighscore F → List ℕ
  put_highscore p =
      head p.client_time b'm'
      ++ put_uint24 (length p.winner.parts)
      ++ put_uint24 (fam F p.winner.fullness)
      ++ put_string p.winner.name
      ++ p.message
