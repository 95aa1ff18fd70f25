-- ===== src/Game/Snake/Growth.antt =====
-- The mass of a snake: a hundred for each part, and its fullness.
use slitherss.Prelude.{
  ℕ, zero, suc, ◌+◌, ◌-◌, ◌*◌, ◌/◌, ◌%◌, ◌^◌, ◌≤◌, ◌<◌, ◌≡◌, refl, ◌∙◌, List, [], ◌∷◌, arith,
  length, length-append, back, length-pop_back,
}
use slitherss.Float.{Float}
use slitherss.Game.Sector.{Sector}
use slitherss.Game.Snake.{
  Snake, push_copy, spawn_food, update_snake_consts, increase_snake, drop_part, drop_parts,
  decrease_snake,
}

length-push_copy :
    {A : Type 0} (xs : List A) → 0 < length xs → length (push_copy xs) ≡ length xs + 1
unfolding push_copy
length-push_copy [] h = absurd (omega arith)
length-push_copy (x ∷ xs) h = omega (arith, length-append xs (back x xs ∷ []))

abbrev pub mass : {F : Type 0} → Snake F → ℕ
mass s = 100 * length s.parts + s.fullness

module _ {F : Type 0} ⦃float : Float F⦄ where
  -- Food of a size up to 100 adds its size to the mass of a snake that is not full, which stays not
  -- full; at most one part is added, and none is lost.
  pub increase_snake-mass :
      (volume : ℕ) (s : Snake F)
      → volume ≤ 100
      → s.fullness < 100
      → 0 < length s.parts
      → (mass (increase_snake volume s) ≡ mass s + volume)
        × ((increase_snake volume s).fullness < 100)
        × (length s.parts ≤ length (increase_snake volume s).parts)
        × (length (increase_snake volume s).parts ≤ length s.parts + 1)
  unfolding increase_snake update_snake_consts
  increase_snake-mass volume s h f p = ground (arith, length-push_copy s.parts p)

  pub increase_snake-eaten : (volume : ℕ) (s : Snake F) → (increase_snake volume s).eaten ≡ s.eaten
  unfolding increase_snake update_snake_consts
  increase_snake-eaten volume s = ground arith

  drop_part_lem :
      (s : Snake F) (ss : List (Sector F))
      → 3 ≤ length s.parts
      → ((drop_part (s, ss)).0.fullness ≡ s.fullness)
        × (3 ≤ length (drop_part (s, ss)).0.parts)
        × (length (drop_part (s, ss)).0.parts ≤ length s.parts)
        × (3 < length s.parts → length (drop_part (s, ss)).0.parts + 1 ≡ length s.parts)
  unfolding drop_part spawn_food
  drop_part_lem s ss h = ground (arith, length-pop_back s.parts)

  drop_parts_lem :
      (n : ℕ) (s : Snake F) (ss : List (Sector F))
      → 3 ≤ length s.parts
      → ((drop_parts n (s, ss)).0.fullness ≡ s.fullness)
        × (3 ≤ length (drop_parts n (s, ss)).0.parts)
        × (length (drop_parts n (s, ss)).0.parts ≤ length s.parts)
        × (3 + n ≤ length s.parts → length (drop_parts n (s, ss)).0.parts + n ≡ length s.parts)
  unfolding drop_parts
  drop_parts_lem zero s ss h = (refl, h, omega arith, λ e. omega arith)
  drop_parts_lem (suc n) s ss h =
      let next = drop_part (s, ss) in
      let one = drop_part_lem s ss h in
      let rest = drop_parts_lem n next.0 next.1 one.1 in
      (
        rest.0 ∙ one.0,
        rest.1,
        omega (arith, rest.2, one.2),
        λ e. omega (arith, rest.3 (omega (arith, one.3 (omega arith))), one.3 (omega arith)),
      )

  -- A snake of at least three parts, and not full, that loses mass keeps at least three parts and is
  -- left with a fullness of at most 100.
  pub decrease_snake-parts :
      (volume : ℕ) (s : Snake F) (ss : List (Sector F))
      → volume < 2 ^ 16
      → s.fullness < 100
      → 3 ≤ length s.parts
      → let after = (decrease_snake volume (s, ss)).0 in
        (3 ≤ length after.parts) × (length after.parts ≤ length s.parts) × (after.fullness ≤ 100)
  unfolding decrease_snake update_snake_consts
  decrease_snake-parts volume s ss h f p =
      let n = (1 + (volume - s.fullness) / 100) % 2 ^ 16 in ground (arith, drop_parts_lem n s ss p)

  -- If a snake, not full, can shed the parts that a loss of mass costs and keep three, then its mass
  -- falls by exactly the volume.
  pub decrease_snake-mass :
      (volume : ℕ) (s : Snake F) (ss : List (Sector F))
      → volume < 2 ^ 16
      → s.fullness < 100
      → 4 + (volume - s.fullness) / 100 ≤ length s.parts
      → mass (decrease_snake volume (s, ss)).0 + volume ≡ mass s
  unfolding decrease_snake update_snake_consts
  decrease_snake-mass volume s ss h f p =
      let n = (1 + (volume - s.fullness) / 100) % 2 ^ 16 in
      let exact : n ≡ 1 + (volume - s.fullness) / 100 = omega arith in
      ground (arith, drop_parts_lem n s ss (omega arith), exact)
