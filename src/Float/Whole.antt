-- ===== src/Float/Whole.antt =====
-- Whole numbers as an instance, at which the theorems are exercised.
use native.Mathlib.Nat.{mod-lt, pow-suc}
use slitherss.Prelude.{
  ℕ, zero, suc, ◌+◌, ◌-◌, ◌/◌, ◌%◌, ◌^◌, ◌<◌, ℤ, pos, negsuc, pos_part, neg_part, ◌+ℤ◌, ◌-ℤ◌, ◌*ℤ◌,
  ltb_ℤ, leb_ℤ, eqb_ℤ, if◌then◌else◌, arith,
}
use slitherss.Float.Defs.{Float, Casts}

-- Division rounds towards zero, as that of C does.
abbrev quotient : ℤ → ℤ → ℤ
quotient (pos a) (pos b) = pos (a / b)
quotient a b =
    let n = (pos_part a + neg_part a) / (pos_part b + neg_part b) in
    if ltb_ℤ (a *ℤ b) (pos 0) then pos 0 -ℤ pos n else pos n

abbrev magnitude : ℤ → ℤ
magnitude a = pos (pos_part a + neg_part a)

abbrev wrap : ℕ → ℤ → ℕ
wrap w a = (pos_part a + (2 ^ w - neg_part a % 2 ^ w)) % 2 ^ w

-- A heading is a whole number of half turns here: the cosine is 1 or -1 and the sine 0.
instance abbrev pub whole_float : Float ℤ
whole_float = record {
  ratio = λ a b. pos (a / b);
  of_int = λ a. a;
  neg = λ a. pos 0 -ℤ a;
  add = ◌+ℤ◌;
  sub = ◌-ℤ◌;
  mul = ◌*ℤ◌;
  div = quotient;
  lt = ltb_ℤ;
  le = leb_ℤ;
  eq = eqb_ℤ;
  floor = λ a. a;
  fabs = magnitude;
  fmin = λ a b. if ltb_ℤ b a then b else a;
  fmax = λ a b. if ltb_ℤ a b then b else a;
  cos = λ a. if eqb_ℤ a (pos 0) then pos 1 else negsuc 0;
  sin = λ _. pos 0;
  atan2 = λ _ _. pos 0;
  pow = λ a _. a;
  to_unsigned = wrap;
  to_signed = λ _ a. a;
}

pow_pos : (w : ℕ) → 0 < 2 ^ w
pow_pos zero = omega arith
pow_pos (suc w) = rw pow-suc (omega (arith, pow_pos w))

pub whole-Casts : Casts ℤ
whole-Casts = record {
  fits = λ w a. mod-lt (pos_part a + (2 ^ w - neg_part a % 2 ^ w)) (pow_pos w);
}
