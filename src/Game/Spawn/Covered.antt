-- ===== src/Game/Spawn/Covered.antt =====
-- The sectors that InitBoxNewSectors finds: those round the head and round parts of the tail.
use mathlib.Core.Option.{some-injective}
use slitherss.Prelude.{
  ℕ, zero, suc, ◌+◌, ◌-◌, ◌≤◌, ◌<◌, ◌≡◌, refl, ap, ◌∙◌, Bool, false, not, ◌&&◌, ◌||◌, inl, inr,
  List, [], ◌∷◌, none, some, arith, if_rule, Option-cases, foldl, pos, length, get_elem?,
  get_elem?-length, elem,
}
use slitherss.Float.{Float}
use slitherss.Game.Sector.{Sector, BoundBoxPos}
use slitherss.Game.BoundBox.{
  BoundBox, reg_cell, sector_coord, same_sector, sector_meets, sbb_update_new, window,
}
use slitherss.Game.BoundBox.Register.{sector_meets-modify}
use slitherss.Game.BoundBox.Registry.{IsRegistered, sbb_update_new-IsRegistered}
use slitherss.Game.Snake.{Body, Snake}
use slitherss.Game.Move.{tail_step, head_of}
use slitherss.Game.Spawn.{init_tail, init_box_new_sectors}

-- The part k, and every t-th part after it
abbrev pub each_nth : {A : Type 0} → ℕ → ℕ → List A → List A
each_nth t k [] = []
each_nth t zero (p ∷ ps) = p ∷ each_nth t (t - 1) ps
each_nth t (suc k) (p ∷ ps) = each_nth t k ps

each_nth-none : {A : Type 0} (t k : ℕ) (ps : List A) → get_elem? ps k ≡ none → each_nth t k ps ≡ []
each_nth-none t k [] h = refl
each_nth-none t zero (p ∷ ps) h = absurd (ground (arith, h))
each_nth-none t (suc k) (p ∷ ps) h = each_nth-none t k ps h

each_nth-some :
    {A : Type 0} (t k m : ℕ) (ps : List A) (p : A)
    → 0 < t
    → k + t ≡ m
    → get_elem? ps k ≡ some p
    → each_nth t k ps ≡ p ∷ each_nth t m ps
each_nth-some t k m [] p h e at = absurd (ground (arith, at))
each_nth-some t zero zero (q ∷ ps) p h e at = absurd (omega arith)
each_nth-some t zero (suc m) (q ∷ ps) p h e at =
    let less : t - 1 ≡ m = omega arith in
    rw less (ap (λ r. r ∷ each_nth t m ps) (some-injective _ _ at))
each_nth-some t (suc k) zero (q ∷ ps) p h e at = absurd (omega arith)
each_nth-some t (suc k) (suc m) (q ∷ ps) p h e at = each_nth-some t k m ps p h (omega arith) at

module _ {F : Type 0} ⦃float : Float F⦄ where
  -- A box of half a sector round a part meets the sector j, which lies next to that of the part or is
  -- it. A part in the sector 0, 0 counts for nothing.
  abbrev pub covers : List (Sector F) → ℕ → Body F → Bool
  covers ss j p =
      not (same_sector p.x p.y (float.ratio 0 1) (float.ratio 0 1))
      && (elem j (window 1 (sector_coord p.x) (sector_coord p.y))
          && sector_meets ss (record { x = p.x; y = p.y; r = float.of_int (pos 150) }) j)

  abbrev pub any_covers : List (Sector F) → ℕ → List (Body F) → Bool
  any_covers ss j [] = false
  any_covers ss j (p ∷ ps) = covers ss j p || any_covers ss j ps

  meets-reg_cells :
      (id : ℕ) (box at : BoundBoxPos F) (j : ℕ) (cs xs : List ℕ) (ss : List (Sector F))
      → sector_meets (foldl (reg_cell id box) (xs, ss) cs).1 at j ≡ sector_meets ss at j
  unfolding reg_cell
  meets-reg_cells id box at j [] xs ss = refl
  meets-reg_cells id box at j (c ∷ cs) xs ss =
      let next = reg_cell id box (xs, ss) c in
      meets-reg_cells id box at j cs next.0 next.1
      ∙ if_rule (λ (t : List ℕ × List (Sector F)). sector_meets t.1 at j ≡ sector_meets ss at j) _
          (sector_meets-modify ss at c j _ (λ s. refl)) refl

  meets-update_new :
      (bb : BoundBox F) (ss : List (Sector F)) (r nx ny ox oy : F) (at : BoundBoxPos F) (j : ℕ)
      → sector_meets (sbb_update_new bb ss r nx ny ox oy).1 at j ≡ sector_meets ss at j
  unfolding sbb_update_new
  meets-update_new bb ss r nx ny ox oy at j =
      if_rule (λ (t : BoundBox F × List (Sector F)). sector_meets t.1 at j ≡ sector_meets ss at j)
        (same_sector nx ny ox oy) refl
        (meets-reg_cells bb.id (record { x = nx; y = ny; r = r }) at j
          (window 1 (sector_coord nx) (sector_coord ny)) bb.sectors ss)

  any_covers-update_new :
      (bb : BoundBox F) (ss : List (Sector F)) (r nx ny ox oy : F) (j : ℕ) (ps : List (Body F))
      → any_covers (sbb_update_new bb ss r nx ny ox oy).1 j ps ≡ any_covers ss j ps
  any_covers-update_new bb ss r nx ny ox oy j [] = refl
  any_covers-update_new bb ss r nx ny ox oy j (p ∷ ps) =
      let at : BoundBoxPos F = record { x = p.x; y = p.y; r = float.of_int (pos 150) } in
      ground (
        arith,
        meets-update_new bb ss r nx ny ox oy at j,
        any_covers-update_new bb ss r nx ny ox oy j ps,
      )

  elem-init_tail :
      (fuel i j : ℕ) (parts : List (Body F)) (bb : BoundBox F) (ss : List (Sector F))
      → 0 < tail_step F
      → length parts ≤ i + fuel
      → IsRegistered bb ss
      → elem j (init_tail fuel i parts bb ss).0.sectors
        ≡ (elem j bb.sectors || any_covers ss j (each_nth (tail_step F) i parts))
  unfolding init_tail
  elem-init_tail zero i j parts bb ss h l v =
      rw (each_nth-none (tail_step F) i parts (get_elem?-length parts i (omega arith)))
        (ground arith)
  elem-init_tail (suc fuel) i j parts bb ss h l v = elim (Option-cases (get_elem? parts i)) [
    | inl gone ↦ rw (gone, init_tail) (rw (each_nth-none (tail_step F) i parts gone) (ground arith))
    | inr (p, found) ↦
        let z = float.ratio 0 1 in
        let half = float.of_int (pos 150) in
        let next = sbb_update_new bb ss half p.x p.y z z in
        let known = sbb_update_new-IsRegistered bb ss half p.x p.y z z v in
        rw (found, init_tail)
          (rw (each_nth-some (tail_step F) i (i + tail_step F) parts p h refl found) (
            ground (
              arith,
              elem-init_tail fuel (i + tail_step F) j parts next.0 next.1 h (omega arith) known.0,
              any_covers-update_new bb ss half p.x p.y z z j
                  (each_nth (tail_step F) (i + tail_step F) parts),
              known.2 j,
            )))
  ]

  -- After InitBoxNewSectors, the sectors of the box besides those before
  pub elem-init_box :
      (s : Snake F) (ss : List (Sector F)) (j : ℕ)
      → 0 < tail_step F
      → IsRegistered s.sbb ss
      → elem j (init_box_new_sectors (s, ss)).0.sbb.sectors ≡ (
          elem j s.sbb.sectors
          || any_covers ss j (head_of s.parts ∷ each_nth (tail_step F) 3 s.parts))
  unfolding init_box_new_sectors
  elem-init_box s ss j h v =
      let head = head_of s.parts in
      let z = float.ratio 0 1 in
      let half = float.of_int (pos 150) in
      let first = sbb_update_new s.sbb ss half head.x head.y z z in
      let known = sbb_update_new-IsRegistered s.sbb ss half head.x head.y z z v in
      ground (
        arith,
        elem-init_tail (length s.parts) 3 j s.parts first.0 first.1 h (omega arith) known.0,
        any_covers-update_new s.sbb ss half head.x head.y z z j (each_nth (tail_step F) 3 s.parts),
        known.2 j,
      )
