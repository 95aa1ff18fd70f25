-- ===== src/Packet/Format.antt =====
-- src/packet/p_format.h, p_format.cc, p_base.h and p_base.cc: numbers, text and the head of a
-- packet as bytes. What is written to the stream is the list of the bytes that are put.
use slitherss.Prelude.{ℕ, ◌/◌, ◌%◌, ◌^◌, List, [], ◌∷◌, ◌++◌, pos, length}
use slitherss.Float.{Float}

abbrev pub put_uint8 : ℕ → List ℕ
put_uint8 v = (v % 2 ^ 8) ∷ []

abbrev pub put_uint16 : ℕ → List ℕ
put_uint16 v = (v / 2 ^ 8 % 2 ^ 8) ∷ (v % 2 ^ 8) ∷ []

abbrev pub put_uint24 : ℕ → List ℕ
put_uint24 v = (v / 2 ^ 16 % 2 ^ 8) ∷ (v / 2 ^ 8 % 2 ^ 8) ∷ (v % 2 ^ 8) ∷ []

abbrev pub put_string : List ℕ → List ℕ
put_string s = (length s % 2 ^ 8) ∷ s

module _ {F : Type 0} ⦃float : Float F⦄ where
  open float use {ratio, of_int, mul, div, to_unsigned}

  unfoldable pub write_fp8 : F → ℕ
  write_fp8 v = to_unsigned 8 (mul (ratio 10 1) v)

  unfoldable pub write_fp16_2 : F → ℕ
  write_fp16_2 v = to_unsigned 16 (mul (ratio 100 1) v)

  unfoldable pub write_fp16_3 : F → ℕ
  write_fp16_3 v = to_unsigned 16 (mul (ratio 1000 1) v)

  unfoldable pub write_fp24 : F → ℕ
  write_fp24 v = to_unsigned 32 (mul v (of_int (pos 0xFFFFFF)))

  unfoldable pub m_2pi : F
  m_2pi = mul (ratio 2 1) (ratio 314159265358979323846 100000000000000000000)

  unfoldable pub write_ang8 : F → ℕ
  unfolding m_2pi
  write_ang8 v = to_unsigned 8 (div (mul (of_int (pos 256)) v) m_2pi)

  unfoldable pub write_ang24 : F → ℕ
  unfolding m_2pi
  write_ang24 v = to_unsigned 32 (div (mul (of_int (pos 0xFFFFFF)) v) m_2pi)

-- PacketBase
pub record PacketBase : Type 0 where
  pub client_time : ℕ
  pub packet_type : ℕ

abbrev pub put_base : PacketBase → List ℕ
put_base p = put_uint16 p.client_time ++ put_uint8 p.packet_type
