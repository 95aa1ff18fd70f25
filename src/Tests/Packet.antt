-- ===== src/Tests/Packet.antt =====
-- The theorems on src/packet at concrete packets.
use slitherss.Prelude.{◌≤◌, ◌≡◌, [], ◌∷◌, some, arith, ℤ, pos, negsuc, length}
use slitherss.Float.{whole_float}
use slitherss.Packet.Food.{PacketSetFood, put_set_food}
use slitherss.Packet.Body.{PacketMove, put_move}
use slitherss.Packet.Rotation.{PacketRotation, put_rotation}
use slitherss.Packet.Wire.{set_food, encode, get_size}
use slitherss.Packet.Wire.Fits.{length-encode-le}
use slitherss.Packet.Read.{
  read_move, read_set_food, read_rotation, sent_fields, read_move-put_move,
  read_set_food-put_set_food, read_rotation-put_rotation,
}

abbrev pieces : PacketSetFood
pieces = record {
  client_time = 12;
  food =
      record { x = 20; y = 1000; size = 8; color = 1 }
      ∷ record { x = 9800; y = 101; size = 40; color = 28 }
      ∷ [];
}

length-encode_example :
    length (encode {F = ℤ} (set_food pieces)) ≤ get_size {F = ℤ} (set_food pieces)
length-encode_example = length-encode-le (set_food pieces)

read_set_food_example : read_set_food (put_set_food pieces) ≡ some pieces
read_set_food_example = read_set_food-put_set_food pieces (omega arith) (ground arith)

abbrev a_move : PacketMove
a_move = record { client_time = 12; snake_id = 300; x = 21600; y = 4 }

read_move_example : read_move (put_move a_move) ≡ some a_move
read_move_example =
    read_move-put_move a_move (omega arith) (omega arith) (omega arith) (omega arith)

-- Without the target angle
abbrev turn : PacketRotation ℤ
turn = record {
  client_time = 12;
  snake_id = 300;
  ang = pos 2;
  wang = negsuc 0;
  snake_speed = pos 4;
}

read_rotation_example : read_rotation (put_rotation turn) ≡ some (300, sent_fields turn)
read_rotation_example = read_rotation-put_rotation turn (omega arith)
