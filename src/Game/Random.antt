-- ===== src/Game/Random.antt =====
-- `std::rand`, a parameter, and the numbers that src/game/world.cc makes of it. G is what the
-- generator remembers.
use slitherss.Prelude.{ℕ, ◌%◌, pos}
use slitherss.Float.{Float}

pub record Random (G : Type 0) : Type 0 where
  pub rand : G → ℕ × G
  pub rand_max : ℕ

module _ {G : Type 0} ⦃random : Random G⦄ where
  -- World::NextRandom of a base. With a base of 0 the remainder ends the process: the number is then
  -- one that the code does not come to.
  unfoldable pub next_random : ℕ → G → ℕ × G
  next_random base g = let drawn = random.rand g in (drawn.0 % base, drawn.1)

  -- World::NextRandomf
  unfoldable pub next_randomf : {F : Type 0} ⦃float : Float F⦄ → G → F × G
  next_randomf ⦃float⦄ g =
      let drawn = random.rand g in
      let scaled = float.mul (float.ratio 1 1) (float.of_int (pos drawn.0)) in
      (float.div scaled (float.of_int (pos random.rand_max)), drawn.1)
