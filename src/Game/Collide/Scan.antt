-- ===== src/Game/Collide/Scan.antt =====
-- Snake::Intersect against the plain scan of all parts.
use slitherss.Prelude.{
  ℕ, zero, suc, ◌+◌, ◌-◌, ◌*◌, ◌/◌, ◌≤◌, ◌<◌, ◌≡◌, refl, Bool, true, false, ◌&&◌, ◌||◌, List, [],
  ◌∷◌, some, arith, ltb, if◌then◌else◌, length, take, drop, ap,
}
use slitherss.Float.{Float}
use slitherss.Game.Sector.{BoundBoxPos}
use slitherss.Game.Snake.{Body, Snake}
use slitherss.Game.Move.{tail_step}
use slitherss.Game.Collide.{
  intersect_range, intersect_slice, near_part, intersect_tail, or_false, intersect,
}

module _ {F : Type 0} ⦃float : Float F⦄ where
  -- Every pair of neighbours, from the head on.
  abbrev pub scan : Snake F → BoundBoxPos F → List (Body F) → Bool
  scan s foe [] = false
  scan s foe (p ∷ ps) = intersect_range s foe p ps

  module _ (s : Snake F) (foe : BoundBoxPos F) where
    range-take :
        (n m : ℕ) (p : Body F) (ps : List (Body F))
        → n ≤ m
        → intersect_range s foe p (take n ps) ≡ true
        → intersect_range s foe p (take m ps) ≡ true
    unfolding intersect_range
    range-take zero m p ps l h = cc
    range-take (suc n) zero p ps l h = absurd (omega arith)
    range-take (suc n) (suc m) p [] l h = h
    range-take (suc n) (suc m) p (q ∷ ps) l h = ground (arith, range-take n m q ps)

    -- The n parts after the part i, each with the one before it
    abbrev slice : ℕ → ℕ → List (Body F) → Bool
    slice i n ps = elim (drop i ps) [
      | [] ↦ false
      | prev ∷ rest ↦ intersect_range s foe prev (take n rest)
    ]

    scan-cons :
        (p : Body F) (ps : List (Body F)) → scan s foe ps ≡ true → scan s foe (p ∷ ps) ≡ true
    unfolding intersect_range
    scan-cons p [] h = cc
    scan-cons p (q ∷ ps) h = ground arith

    slice-scan :
        (i n m : ℕ) (ps : List (Body F))
        → i + n < m
        → slice i n ps ≡ true
        → scan s foe (take m ps) ≡ true
    slice-scan zero n m [] l h = cc
    slice-scan zero n zero (p ∷ ps) l h = absurd (omega arith)
    slice-scan zero n (suc m) (p ∷ ps) l h = range-take n m p ps (omega arith) h
    slice-scan (suc i) n m [] l h = cc
    slice-scan (suc i) n zero (p ∷ ps) l h = absurd (omega arith)
    slice-scan (suc i) n (suc m) (p ∷ ps) l h =
        scan-cons p (take m ps) (slice-scan i n m ps (omega arith) h)

    take-all : (m : ℕ) (ps : List (Body F)) → length ps ≤ m → take m ps ≡ ps
    take-all zero [] h = refl
    take-all zero (p ∷ ps) h = absurd (omega arith)
    take-all (suc m) [] h = refl
    take-all (suc m) (p ∷ ps) h = ap (◌∷◌ p) (take-all m ps (omega arith))

    within :
        (i j m : ℕ)
        → i < j
        → j ≤ m
        → intersect_slice s foe i j ≡ true
        → scan s foe (take m s.parts) ≡ true
    unfolding intersect_slice
    within i j m l l' h = slice-scan i (j - i - 1) m s.parts (omega arith) h

    -- The rounds of the loop end at `last`, and start before it.
    tail-scan :
        (fuel i m : ℕ)
        → tail_step F / 2 < i
        → 0 < tail_step F / 2
        → length s.parts ≤ m
        → intersect_tail fuel s foe i ≡ some true
        → scan s foe (take m s.parts) ≡ true
    unfolding intersect_tail
    tail-scan zero i m l p h e = absurd (ground (arith, e))
    tail-scan (suc fuel) i m l p h e =
        let len = length s.parts in
        let half = tail_step F / 2 in
        let last = if ltb len (i + half) then len else i + half in
        ground (arith, tail-scan fuel (i + tail_step F) m, within (i - half) last m)

  -- Snake::Intersect leaves out parts that are far from the foe, but reports no collision that the
  -- plain scan of all parts, each with the one before it, does not find. The snake has a head, and
  -- half a tail step is not 0.
  pub intersect-scan :
      (s : Snake F) (foe : BoundBoxPos F)
      → 0 < tail_step F / 2
      → 0 < length s.parts
      → intersect s foe ≡ (intersect s foe && scan s foe s.parts)
  unfolding intersect
  intersect-scan s foe p n =
      let len = length s.parts in
      ground (
        arith,
        tail-scan s foe len (7 + tail_step F / 2) len,
        within s foe 0 len len,
        within s foe 0 9 len,
        take-all s foe len s.parts,
      )

  intersect_tail-stop :
      (s : Snake F) (foe : BoundBoxPos F) (fuel i : ℕ)
      → length s.parts ≤ i
      → intersect_tail fuel s foe i ≡ some false
  unfolding intersect_tail
  intersect_tail-stop s foe zero i h = ground arith
  intersect_tail-stop s foe (suc fuel) i h = ground arith

  -- The loop of Snake::Intersect over the tail ends, with an answer, after as many rounds as take the
  -- step from the part i past the last part, and further rounds do not change the answer.
  pub intersect_tail-ends :
      (s : Snake F) (foe : BoundBoxPos F) (fuel i : ℕ)
      → length s.parts ≤ i + fuel * tail_step F
      → (b : Bool) × ((rounds : ℕ) → fuel ≤ rounds → intersect_tail rounds s foe i ≡ some b)
  unfolding intersect_tail
  intersect_tail-ends s foe zero i h =
      (false, λ n l. intersect_tail-stop s foe n i (omega (arith, h)))
  intersect_tail-ends s foe (suc fuel) i h =
      let rest = intersect_tail-ends s foe fuel (i + tail_step F) (grind arith) in
      (round rest.0, again rest.0 rest.1)
    where
      round : Bool → Bool
      round b =
          let len = length s.parts in
          let half = tail_step F / 2 in
          let last = if ltb len (i + half) then len else i + half in
          ltb i len && ((near_part s foe i && intersect_slice s foe (i - half) last) || b)

      again :
          (b : Bool)
          → ((n : ℕ) → fuel ≤ n → intersect_tail n s foe (i + tail_step F) ≡ some b)
          → (n : ℕ) → suc fuel ≤ n
          → intersect_tail n s foe i ≡ some (round b)
      again b rest zero l = absurd (omega arith)
      again b rest (suc n) l = ground (arith, rest n (omega arith))

  tail-once :
      (s : Snake F) (foe : BoundBoxPos F) (fuel : ℕ)
      → tail_step F ≡ 12
      → 18 < length s.parts
      → length s.parts ≤ 25
      → intersect_tail fuel s foe (7 + tail_step F / 2) ≡ some true
      → intersect_slice s foe 7 19 ≡ true
  unfolding intersect_tail
  tail-once s foe zero e l h t = absurd (ground (arith, t))
  tail-once s foe (suc fuel) e l h t =
      let from : 7 + tail_step F / 2 ≡ 13 = omega arith in
      ground (arith, intersect_tail-stop s foe fuel (13 + tail_step F), rw from at t)

  intersect-long :
      (s : Snake F) (foe : BoundBoxPos F)
      → 8 + tail_step F < length s.parts
      → intersect s foe ≡ (
          (near_part s foe 3 && intersect_slice s foe 0 9)
          || or_false (intersect_tail (length s.parts) s foe (7 + tail_step F / 2)))
  unfolding intersect
  intersect-long s foe l = ground arith

  -- With the step of twelve parts that 300 / 24 gives, the test of a snake of 21 to 25 parts sees only
  -- the first 19 of them: what it finds, the plain scan of these finds.
  pub intersect-blind :
      (s : Snake F) (foe : BoundBoxPos F)
      → tail_step F ≡ 12
      → 20 < length s.parts
      → length s.parts ≤ 25
      → intersect s foe ≡ (intersect s foe && scan s foe (take 19 s.parts))
  intersect-blind s foe e l h = ground (
    arith,
    intersect-long s foe (omega arith),
    tail-once s foe (length s.parts) e (omega arith) h,
    within s foe 7 19 19,
    within s foe 0 9 19,
  )
