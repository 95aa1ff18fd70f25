-- ===== src/Packet/Rotation.antt =====
-- src/packet/p_rotation.h and p_rotation.cc. A value of -1 stands for a field that is not sent.
use slitherss.Prelude.{ℕ, Bool, List, [], ◌++◌, if◌then◌else◌}
use slitherss.Float.{Float}
use slitherss.Game.Math.{f_pi, f_2pi, normalize_angle}
use slitherss.Packet.Format.{put_uint8, put_uint16, write_ang8}
use slitherss.Packet.Body.{head}

pub record PacketRotation (F : Type 0) : Type 0 where
  pub client_time : ℕ
  pub snake_id : ℕ
  pub ang : F
  pub wang : F
  pub snake_speed : F

module _ {F : Type 0} ⦃float : Float F⦄ where
  open float use {ratio, neg, sub, mul, lt, eq, to_unsigned}

  -- `a == -1.0f`
  unfoldable pub is_absent : F → Bool
  is_absent a = eq a (neg (ratio 1 1))

  unfoldable pub is_clockwise : PacketRotation F → Bool
  unfolding normalize_angle f_pi f_2pi
  is_clockwise p =
      let d = normalize_angle (sub p.wang p.ang) in
      let d' = if lt f_pi d then sub d f_2pi else d in lt (ratio 0 1) d'

  -- The number of the type that get_rot_type gives
  unfoldable pub get_rot_type : PacketRotation F → ℕ
  unfolding is_absent
  get_rot_type p =
      if is_absent p.wang
      then (if is_absent p.snake_speed then b'e' else if is_absent p.ang then b'3' else b'e')
      else if is_absent p.ang
      then b'E'
      else if is_absent p.snake_speed
      then (if is_clockwise p then b'5' else b'3')
      else if is_clockwise p
      then b'4'
      else b'e'

  unfoldable pub put_rotation : PacketRotation F → List ℕ
  unfolding is_absent get_rot_type
  put_rotation p =
      head p.client_time (get_rot_type p)
      ++ put_uint16 p.snake_id
      ++ (if is_absent p.ang then [] else put_uint8 (write_ang8 p.ang))
      ++ (if is_absent p.wang then [] else put_uint8 (write_ang8 p.wang))
      ++ (if is_absent p.snake_speed
          then []
          else put_uint8 (to_unsigned 8 (mul p.snake_speed (ratio 18 1))))
