-- ===== src/Float/Defs.antt =====
-- The operations, and the one law that the theorems use: a cast to an unsigned type fits the type.
use slitherss.Prelude.{ℕ, ◌^◌, ◌<◌, Bool, ℤ}

pub record Float (F : Type 0) : Type 0 where
  -- The literal `num / den`, as `ratio 43 100` for `0.43f`, and an integer converted to `float`.
  pub ratio : ℕ → ℕ → F
  pub of_int : ℤ → F
  pub neg : F → F
  pub add : F → F → F
  pub sub : F → F → F
  pub mul : F → F → F
  pub div : F → F → F
  pub lt : F → F → Bool
  pub le : F → F → Bool
  pub eq : F → F → Bool
  pub floor : F → F
  pub fabs : F → F
  pub fmin : F → F → F
  pub fmax : F → F → F
  pub cos : F → F
  pub sin : F → F
  pub atan2 : F → F → F
  pub pow : F → F → F
  -- `static_cast` to an unsigned type of w bits, and to a signed one.
  pub to_unsigned : ℕ → F → ℕ
  pub to_signed : ℕ → F → ℤ

-- A cast yields a value of its type, whatever it yields outside the range.
pub record Casts (F : Type 0) ⦃float : Float F⦄ : Type 0 where
  pub fits : (w : ℕ) (x : F) → float.to_unsigned w x < 2 ^ w
