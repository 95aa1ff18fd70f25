-- ===== src/Game/Math.antt =====
-- src/game/math.h and src/game/math.cc.
pub mod FastSqrt
use slitherss.Prelude.{
  ℕ, ◌+◌, ◌-◌, ◌*◌, ◌/◌, ◌^◌, Bool, false, not, ◌&&◌, ◌||◌, ltb, if◌then◌else◌, ℤ, pos, negsuc,
  ◌+ℤ◌, ◌-ℤ◌,
}
use slitherss.Float.{Float}

pub record Point (F : Type 0) : Type 0 where
  pub x : F
  pub y : F

-- The overload on `uint16_t`: dx * dx + dy * dy, where dx and dy have a sign that the squares drop.
abbrev distance : ℕ → ℕ → ℕ
distance a b = if ltb a b then b - a else a - b

unfoldable pub distance_squared_u16 : ℕ → ℕ → ℕ → ℕ → ℕ
distance_squared_u16 x0 y0 x1 y1 = distance x0 x1 * distance x0 x1 + distance y0 y1 * distance y0 y1

module _ {F : Type 0} ⦃float : Float F⦄ where
  open float use {ratio, of_int, neg, add, sub, mul, div, lt, le, eq, floor, fmin, fmax}

  unfoldable pub f_pi : F
  f_pi = ratio 314159265358979323846 100000000000000000000

  unfoldable pub f_2pi : F
  f_2pi = mul (ratio 2 1) f_pi

  unfoldable pub normalize_angle : F → F
  normalize_angle ang = sub ang (mul f_2pi (floor (div ang f_2pi)))

  -- points p0, p1
  unfoldable pub distance_squared : F → F → F → F → F
  distance_squared x0 y0 x1 y1 =
      let dx = sub x0 x1 in let dy = sub y0 y1 in add (mul dx dx) (mul dy dy)

  -- line vw, and point p; both coordinates of the degenerate case are w_x, as in the source
  unfoldable pub segment_distance_squared : F → F → F → F → F → F → F
  segment_distance_squared vx vy wx wy px py =
      let l2 = distance_squared vx vy wx wy in
      let dot = add (mul (sub px vx) (sub wx vx)) (mul (sub py vy) (sub wy vy)) in
      let t = fmax (of_int (pos 0)) (fmin (of_int (pos 1)) (div dot l2)) in
      if eq l2 (ratio 0 1)
      then distance_squared px py wx wx
      else distance_squared px py (add vx (mul t (sub wx vx))) (add vy (mul t (sub wy vy)))

  -- center, point, radius
  unfoldable pub intersect_circle : F → F → F → F → F → Bool
  unfolding distance_squared
  intersect_circle cx cy px py r = le (distance_squared cx cy px py) (mul r r)

  unfoldable pub intersect_segments : F → F → F → F → F → F → F → F → Bool
  intersect_segments x0 y0 x1 y1 x2 y2 x3 y3 =
      let s1x = sub x1 x0 in
      let s1y = sub y1 y0 in
      let s2x = sub x3 x2 in
      let s2y = sub y3 y2 in
      let d = add (mul (neg s2x) s1y) (mul s1x s2y) in
      let epsilon = ratio 1 10000 in
      let s = add (mul (neg s1y) (sub x0 x2)) (mul s1x (sub y0 y2)) in
      let t = sub (mul s2x (sub y0 y2)) (mul s2y (sub x0 x2)) in
      let zero_f = of_int (pos 0) in
      if le d epsilon && le (neg epsilon) d
      then false
      else if lt s zero_f || lt d s
      then false
      else not (lt t zero_f || lt d t)

-- The union of an `int` and a `float`, a parameter: the int that the bits of a float are, and back.
pub record Bits (F : Type 0) : Type 0 where
  pub tmp : F → ℤ
  pub val : ℤ → F

-- `>> 1` of an int, which rounds down
abbrev pub half : ℤ → ℤ
half (pos n) = pos (n / 2)
half (negsuc n) = negsuc (n / 2)

-- The arithmetic of the bits stays within an int for a float that is not negative.
unfoldable pub fast_sqrt : {F : Type 0} ⦃bits : Bits F⦄ → F → F
fast_sqrt ⦃bits⦄ v = bits.val (half (bits.tmp v -ℤ pos (2 ^ 23)) +ℤ pos (2 ^ 29))

unfoldable pub fast_inv_sqrt : {F : Type 0} ⦃float : Float F⦄ ⦃bits : Bits F⦄ → F → F
fast_inv_sqrt ⦃float⦄ ⦃bits⦄ x =
    let xhalf = float.mul (float.ratio 1 2) x in
    let y = bits.val (pos 0x5f3759df -ℤ half (bits.tmp x)) in
    float.mul y (float.sub (float.ratio 3 2) (float.mul (float.mul xhalf y) y))
