-- ===== src/Packet/Read.antt =====
-- Readers of what src/packet writes, as the comments in its headers describe the packets: the
-- converse of the operators <<.
use mathlib.Core.Option
use slitherss.Prelude.{
  ℕ, ◌+◌, ◌*◌, ◌/◌, ◌%◌, ◌^◌, ◌<◌, ◌≡◌, refl, List, [], ◌∷◌, Option, none, some, Bool, ◌||◌, ◌==◌,
  if◌then◌else◌, arith, All,
}
use slitherss.Float.{Float}
use slitherss.Game.Sector.{Food}
use slitherss.Packet.Format.{write_ang8}
use slitherss.Packet.Food.{put_foods, PacketSetFood, put_set_food}
use slitherss.Packet.Body.{PacketMove, put_move}
use slitherss.Packet.Rotation.{PacketRotation, put_rotation, get_rot_type, is_absent}

abbrev uint16 : ℕ → ℕ → ℕ
uint16 a b = a * 2 ^ 8 + b

unfoldable pub read_move : List ℕ → Option PacketMove
read_move (t₁ ∷ t₂ ∷ type ∷ i₁ ∷ i₂ ∷ x₁ ∷ x₂ ∷ y₁ ∷ y₂ ∷ []) =
    if type == b'g'
    then some (record {
      client_time = uint16 t₁ t₂;
      snake_id = uint16 i₁ i₂;
      x = uint16 x₁ x₂;
      y = uint16 y₁ y₂;
    })
    else none
read_move other = none

unfoldable pub read_foods : List ℕ → Option (List Food)
read_foods [] = some []
read_foods (c ∷ x₁ ∷ x₂ ∷ y₁ ∷ y₂ ∷ s ∷ rest) =
    let f : Food = record { x = uint16 x₁ x₂; y = uint16 y₁ y₂; size = s / 5; color = c } in
    Option.map (◌∷◌ f) (read_foods rest)
read_foods other = none

unfoldable pub read_set_food : List ℕ → Option PacketSetFood
unfolding read_foods
read_set_food (t₁ ∷ t₂ ∷ type ∷ rest) =
    let time = uint16 t₁ t₂ in
    let foods = read_foods rest in
    if type == b'F' then Option.map (λ fs. record { client_time = time; food = fs }) foods else none
read_set_food other = none

-- The fields of a rotation that were sent, each as its byte
pub record Fields : Type 0 where
  pub ang : Option ℕ
  pub wang : Option ℕ
  pub snake_speed : Option ℕ

-- By the table of the types in p_base.h and the number of the bytes that follow the snake
abbrev read_fields : ℕ → List ℕ → Option Fields
read_fields type [] =
    if type == b'e' then some (record { ang = none; wang = none; snake_speed = none }) else none
read_fields type (a ∷ []) =
    if type == b'e'
    then some (record { ang = some a; wang = none; snake_speed = none })
    else if type == b'E'
    then some (record { ang = none; wang = some a; snake_speed = none })
    else if type == b'3'
    then some (record { ang = none; wang = none; snake_speed = some a })
    else none
read_fields type (a ∷ b ∷ []) =
    if type == b'e'
    then some (record { ang = some a; wang = none; snake_speed = some b })
    else if type == b'E'
    then some (record { ang = none; wang = some a; snake_speed = some b })
    else if type == b'3' || type == b'5'
    then some (record { ang = some a; wang = some b; snake_speed = none })
    else none
read_fields type (a ∷ b ∷ c ∷ []) =
    if type == b'e' || type == b'4'
    then some (record { ang = some a; wang = some b; snake_speed = some c })
    else none
read_fields type other = none

unfoldable pub read_rotation : List ℕ → Option (ℕ × Fields)
read_rotation (t₁ ∷ t₂ ∷ type ∷ i₁ ∷ i₂ ∷ rest) =
    let fields = read_fields type rest in Option.map (λ f. (uint16 i₁ i₂, f)) fields
read_rotation other = none

-- Each number of a piece of food in the range in which it is sent: five times the size is a byte.
abbrev pub IsSendable : Food → Type 0
IsSendable f = f.color < 2 ^ 8 × f.x < 2 ^ 16 × f.y < 2 ^ 16 × f.size * 5 < 2 ^ 8

pub uint16_lem : (n : ℕ) → n < 2 ^ 16 → uint16 (n / 2 ^ 8 % 2 ^ 8) (n % 2 ^ 8) ≡ n
uint16_lem n h = omega arith

-- A move is read as what was sent, when its numbers have 16 bits.
pub read_move-put_move :
    (p : PacketMove)
    → p.client_time < 2 ^ 16
    → p.snake_id < 2 ^ 16
    → p.x < 2 ^ 16
    → p.y < 2 ^ 16
    → read_move (put_move p) ≡ some p
unfolding put_move read_move
read_move-put_move p t i x y =
    rw (uint16_lem p.client_time t, uint16_lem p.snake_id i, uint16_lem p.x x, uint16_lem p.y y)

food_lem :
    (f : Food)
    → IsSendable f
    → record {
      x = uint16 (f.x / 2 ^ 8 % 2 ^ 8) (f.x % 2 ^ 8);
      y = uint16 (f.y / 2 ^ 8 % 2 ^ 8) (f.y % 2 ^ 8);
      size = f.size * 5 % 2 ^ 8 / 5;
      color = f.color % 2 ^ 8;
    }
      ≡ f
food_lem f (c, x, y, s) =
    let color : f.color % 2 ^ 8 ≡ f.color = omega arith in
    let size : f.size * 5 % 2 ^ 8 / 5 ≡ f.size = omega arith in
    rw (uint16_lem f.x x, uint16_lem f.y y, color, size)

read_foods-put_foods : (fs : List Food) → All IsSendable fs → read_foods (put_foods fs) ≡ some fs
unfolding read_foods
read_foods-put_foods [] h = refl
read_foods-put_foods (f ∷ fs) (h, hs) = rw (food_lem f h, read_foods-put_foods fs hs)

-- The food of a sector is read as what was sent, when the time and the coordinates have 16 bits, and
-- the colours and five times the sizes are bytes.
pub read_set_food-put_set_food :
    (p : PacketSetFood)
    → p.client_time < 2 ^ 16
    → All IsSendable p.food
    → read_set_food (put_set_food p) ≡ some p
unfolding put_set_food read_set_food
read_set_food-put_set_food p t h = rw (uint16_lem p.client_time t, read_foods-put_foods p.food h)

abbrev pub present : Bool → ℕ → Option ℕ
present absent v = if absent then none else some (v % 2 ^ 8)

module _ {F : Type 0} ⦃float : Float F⦄ where
  open float use {ratio, mul, to_unsigned}

  abbrev pub sent_fields : PacketRotation F → Fields
  sent_fields p = record {
    ang = present (is_absent p.ang) (write_ang8 p.ang);
    wang = present (is_absent p.wang) (write_ang8 p.wang);
    snake_speed =
        present (is_absent p.snake_speed) (to_unsigned 8 (mul p.snake_speed (ratio 18 1)));
  }

  -- A rotation, whichever of its three fields are sent, is read as the snake, when its id has 16 bits,
  -- and exactly the fields that were sent: the type and the number of the bytes tell them apart.
  pub read_rotation-put_rotation :
      (p : PacketRotation F)
      → p.snake_id < 2 ^ 16
      → read_rotation (put_rotation p) ≡ some (p.snake_id, sent_fields p)
  unfolding put_rotation read_rotation get_rot_type
  read_rotation-put_rotation p h = ground (arith, uint16_lem p.snake_id h)
