-- ===== src/Game/Math/FastSqrt.antt =====
-- Math::fast_sqrt on the fields of a float: 8 bits of exponent, which is 127 for 1.0, and 23 of
-- mantissa.
use slitherss.Prelude.{
  ℕ, ◌+◌, ◌-◌, ◌*◌, ◌/◌, ◌%◌, ◌^◌, ◌<◌, ◌≡◌, ap, ◌∙◌, ℤ, pos, ◌+ℤ◌, ◌-ℤ◌, arith,
}
use slitherss.Game.Math.{Bits, half, fast_sqrt}

-- The bits of a positive float
abbrev pub float_bits : ℕ → ℕ → ℤ
float_bits e m = pos (e * 2 ^ 23 + m)

halve :
    (e m : ℕ)
    → 0 < e
    → half (float_bits e m -ℤ pos (2 ^ 23)) +ℤ pos (2 ^ 29)
      ≡ pos (((e - 1) * 2 ^ 23 + m) / 2 + 2 ^ 29)
unfolding ◌-ℤ◌ ◌+ℤ◌
halve e m h = ground arith

-- The union reads the int that was written.
abbrev pub Reads : (F : Type 0) ⦃bits : Bits F⦄ → Type 0
Reads F ⦃bits⦄ = (n : ℕ) → n < 2 ^ 31 → bits.tmp (bits.val (pos n)) ≡ pos n

module _ {F : Type 0} ⦃bits : Bits F⦄ where
  fast_sqrt-val :
      (e m : ℕ)
      → Reads F
      → 0 < e
      → e < 255
      → m < 2 ^ 23
      → fast_sqrt (bits.val (float_bits e m)) ≡ bits.val (pos (((e - 1) * 2 ^ 23 + m) / 2 + 2 ^ 29))
  unfolding fast_sqrt
  fast_sqrt-val e m read h le fits =
      ap (λ t. bits.val (half (t -ℤ pos (2 ^ 23)) +ℤ pos (2 ^ 29)))
        (read (e * 2 ^ 23 + m) (omega arith))
      ∙ ap bits.val (halve e m h)

-- (2^23 + h)^2 against 2^23 (2^23 + m), for m = 2 h + r
square : (h r : ℕ) (c : ℕ) → (c + h) * (c + h) + c * r ≡ c * (c + (2 * h + r)) + h * h
square h r c = grind arith

-- For a union that reads the int that was written, fast_sqrt of (1 + m / 2^23) * 4^k is
-- (1 + h / 2^23) * 2^k, where h is half of m, rounded down; of twice the former it is
-- (1 + (2^22 + h) / 2^23) * 2^k. In the first case the square of the result is more than the number
-- by the square of h / 2^23, but for the rounding. The exponent 2 k is less than 127.
pub fast_sqrt_fields :
    {F : Type 0} ⦃bits : Bits F⦄ (k m : ℕ)
    → Reads F
    → k < 63
    → m < 2 ^ 23
    → (fast_sqrt (bits.val (float_bits (127 + 2 * k) m)) ≡ bits.val (float_bits (127 + k) (m / 2)))
      × (fast_sqrt (bits.val (float_bits (128 + 2 * k) m))
          ≡ bits.val (float_bits (127 + k) (2 ^ 22 + m / 2)))
      × ((2 ^ 23 + m / 2) * (2 ^ 23 + m / 2) + 2 ^ 23 * (m % 2)
          ≡ 2 ^ 23 * (2 ^ 23 + m) + m / 2 * (m / 2))
fast_sqrt_fields ⦃bits⦄ k m read small fits = (
  fast_sqrt-val (127 + 2 * k) m read (omega arith) (omega arith) fits
      ∙ ap (λ n. bits.val (pos n)) (omega arith),
  fast_sqrt-val (128 + 2 * k) m read (omega arith) (omega arith) fits
      ∙ ap (λ n. bits.val (pos n)) (omega arith),
  omega (arith, square (m / 2) (m % 2) (2 ^ 23)),
)
