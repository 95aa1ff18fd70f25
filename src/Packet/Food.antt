-- ===== src/Packet/Food.antt =====
-- src/packet/p_food.h and p_food.cc.
use slitherss.Prelude.{ℕ, ◌*◌, List, [], ◌∷◌, ◌++◌, ltb, if◌then◌else◌}
use slitherss.Game.Sector.{Food}
use slitherss.Packet.Format.{put_uint8, put_uint16}
use slitherss.Packet.Body.{head}

-- The vector that `food_ptr` points at is given by its content.
pub record PacketSetFood : Type 0 where
  pub client_time : ℕ
  pub food : List Food

-- packet_spawn_food
pub record PacketSpawnFood : Type 0 where
  pub client_time : ℕ
  pub m_food : Food

-- packet_add_food
pub record PacketAddFood : Type 0 where
  pub client_time : ℕ
  pub m_food : Food

pub record PacketEatFood : Type 0 where
  pub client_time : ℕ
  pub m_food : Food
  pub snake_id : ℕ

abbrev pub put_food : Food → List ℕ
put_food f = put_uint8 f.color ++ put_uint16 f.x ++ put_uint16 f.y ++ put_uint8 (f.size * 5)

abbrev pub put_foods : List Food → List ℕ
put_foods [] = []
put_foods (f ∷ fs) = put_food f ++ put_foods fs

unfoldable pub put_set_food : PacketSetFood → List ℕ
put_set_food p = head p.client_time b'F' ++ put_foods p.food

unfoldable pub put_spawn_food : PacketSpawnFood → List ℕ
put_spawn_food p = head p.client_time b'b' ++ put_food p.m_food

unfoldable pub put_add_food : PacketAddFood → List ℕ
put_add_food p = head p.client_time b'f' ++ put_food p.m_food

unfoldable pub put_eat_food : PacketEatFood → List ℕ
put_eat_food p =
    head p.client_time b'c'
    ++ put_uint16 p.m_food.x
    ++ put_uint16 p.m_food.y
    ++ (if ltb 0 p.snake_id then put_uint16 p.snake_id else [])
