-- ===== src/Game/World/Cache.antt =====
-- The cache of World::CheckSnakeBounds, against a search without one.
use slitherss.Prelude.{
  ℕ, ◌≡◌, refl, sym, subst, ◌∙◌, Bool, true, false, not, ◌&&◌, ◌||◌, inl, inr, List, [], ◌∷◌, ◌++◌,
  none, some, arith, ◌==◌, Bool-cases, Option-cases, elem, elem-append, get_elem?, pos,
}
use slitherss.Float.{Float}
use slitherss.Game.Config.{move_step_distance}
use slitherss.Game.Sector.{BoundBoxPos, Sector}
use slitherss.Game.BoundBox.{window, sector_meets, sector_coord}
use slitherss.Game.Snake.{Snake}
use slitherss.Game.Collide.{intersect}
use slitherss.Game.World.{World, find_snake}
use slitherss.Game.World.Frame.{check_snakes, check_cells, is_outside, check_of, is_dying}

module _ {F : Type 0} ⦃float : Float F⦄ (snakes : List (ℕ × Snake F)) (me : ℕ)
    (check : BoundBoxPos F) where
  -- Whether the snake of an id is another one and is hit
  abbrev pub is_hit : ℕ → Bool
  is_hit b =
      not (b == me) && elim (find_snake b snakes) [ none ↦ false | some s ↦ intersect s check ]

  abbrev pub any_hit : List ℕ → Bool
  any_hit [] = false
  any_hit (b ∷ bs) = is_hit b || any_hit bs

  -- Whether a snake of one of the sectors is hit, of those sectors that the head can reach
  abbrev pub any_near : List (Sector F) → List ℕ → Bool
  any_near ss [] = false
  any_near ss (k ∷ ks) =
      (sector_meets ss (record check { r = float.of_int (pos move_step_distance) }) k
        && elim (get_elem? ss k) [ none ↦ false | some sec ↦ any_hit sec.snakes ])
      || any_near ss ks

  -- Each snake of the cache was tried and not hit.
  abbrev IsMissed : List ℕ → Type 0
  IsMissed cache = (c : ℕ) → elem c cache ≡ true → is_hit c ≡ false

  module _ (own : (b : ℕ) (s : Snake F) → find_snake b snakes ≡ some s → s.id ≡ b) where
    IsMissed-append :
        (cache : List ℕ) (b : ℕ) → IsMissed cache → is_hit b ≡ false → IsMissed (cache ++ b ∷ [])
    IsMissed-append cache b h miss c e = elim (Bool-cases (elem c cache)) [
      | inl old ↦ h c old
      | inr new ↦
          let same : b ≡ c = ground (arith, elem-append c cache (b ∷ [])) in
          subst (λ d. is_hit d ≡ false) same miss
    ]

    check_snakes-eq :
        (cache bs : List ℕ)
        → IsMissed cache
        → let found = check_snakes snakes me check cache bs in
          (found.0 ≡ any_hit bs) × (found.0 ≡ false → IsMissed found.1)
    unfolding check_snakes
    check_snakes-eq cache [] h = (refl, λ _. h)
    check_snakes-eq cache (b ∷ bs) h =
        let rest = check_snakes-eq cache bs h in
        elim (Option-cases (find_snake b snakes)) [
          | inl e ↦ rw (e, check_snakes) (ground (arith, rest.0), rest.1)
          | inr (s, e) ↦ elim (Bool-cases (b == me || elem s.id cache)) [
            | inl known ↦
                let missed : is_hit b ≡ false = ground (arith, own b s e, h b) in
                rw (e, check_snakes)
                  (rw (known, check_snakes) (ground (arith, rest.0, missed), rest.1))
            | inr fresh ↦ elim (Bool-cases (intersect s check)) [
              | inl hit ↦
                  rw (e, check_snakes)
                    (rw (fresh, check_snakes)
                      (rw (hit, check_snakes) (ground arith, λ no. absurd cc)))
              | inr miss ↦
                  let missed : is_hit b ≡ false = ground (arith, e) in
                  let later = check_snakes-eq (cache ++ s.id ∷ []) bs (
                    IsMissed-append cache s.id h
                      (subst (λ d. is_hit d ≡ false) (sym (own b s e)) missed)) in
                  rw (e, check_snakes)
                    (rw (fresh, check_snakes)
                      (rw (miss, check_snakes) (ground (arith, later.0, missed), later.1)))
            ]
          ]
        ]

    check_cells-eq :
        (ss : List (Sector F)) (ks cache : List ℕ)
        → IsMissed cache
        → check_cells snakes ss me check cache ks ≡ any_near ss ks
    unfolding check_cells
    check_cells-eq ss [] cache h = refl
    check_cells-eq ss (k ∷ ks) cache h =
        let step : BoundBoxPos F = record check { r = float.of_int (pos move_step_distance) } in
        elim (Option-cases (get_elem? ss k)) [
          | inl e ↦ rw (e, check_cells) (ground (arith, check_cells-eq ss ks cache h))
          | inr (sec, e) ↦
              let found = check_snakes-eq cache sec.snakes h in
              let next = check_cells-eq ss ks cache h in
              elim (Bool-cases (any_hit sec.snakes)) [
                | inl hit ↦ ground (arith, found.0, next, e)
                | inr miss ↦
                    let later =
                      check_cells-eq ss ks (check_snakes snakes me check cache sec.snakes).1
                        (found.1 (found.0 ∙ miss)) in
                    ground (arith, found.0, next, later, e)
              ]
        ]

module _ {F : Type 0} ⦃float : Float F⦄ where
  -- World::CheckSnakeBounds, with its cache of the snakes tried before, decides what a search without
  -- the cache decides, if each snake of the world stands in the map under its own id: the snake dies
  -- if its head is too far out, or if one of the other snakes enlisted in the 3 by 3 sectors round the
  -- head, of those that the head reaches with one step, is hit by the head.
  pub is_dying-any_near :
      (w : World F) (s : Snake F)
      → ((b : ℕ) (s' : Snake F) → find_snake b w.snakes ≡ some s' → s'.id ≡ b)
      → is_dying w s ≡ (
          let check = check_of s in
          let cells = window 1 (sector_coord check.x) (sector_coord check.y) in
          is_outside s || any_near w.snakes s.id check w.sectors cells)
  unfolding is_dying
  is_dying-any_near w s own =
      let check = check_of s in
      let cells = window 1 (sector_coord check.x) (sector_coord check.y) in
      ground (arith, check_cells-eq w.snakes s.id check own w.sectors cells [] (λ c h. absurd cc))
