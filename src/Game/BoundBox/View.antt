-- ===== src/Game/BoundBox/View.antt =====
-- ViewPort: what the client is told of the sectors, and the view of the server.
use slitherss.Prelude.{
  ℕ, ◌≡◌, refl, true, false, not, ◌&&◌, ◌||◌, inl, inr, List, [], ◌∷◌, arith, foldl, ◌==◌,
  if◌then◌else◌, Bool-cases, elem, elem-append, select, elem-select,
}
use slitherss.Prelude.Order.{IsAscending, select-IsAscending}
use slitherss.Float.{Float}
use slitherss.Game.Sector.{BoundBoxPos, Sector}
use slitherss.Game.BoundBox.{
  ViewPort, sector_meets, sector_coord, same_sector, window, reg_sector_if_missing, delta_cell,
  vp_update_new, vp_update_old,
}
use slitherss.Game.BoundBox.Refresh.{update_old-eq-select, view-update_old}
use slitherss.Game.BoundBox.Register.{insert-IsAscending, is_present-eq-elem, elem-insert}

elem-reg_sector_if_missing :
    (k j : ℕ) (xs : List ℕ)
    → elem j (reg_sector_if_missing k xs) ≡ (if k == j then true else elem j xs)
unfolding reg_sector_if_missing
elem-reg_sector_if_missing k j xs = ground (arith, elem-append j xs (k ∷ []))

module _ {F : Type 0} ⦃float : Float F⦄ (ss : List (Sector F)) where
  module _ (box : BoundBoxPos F) where
    module _ (xs new : List ℕ) (c : ℕ) (v : IsAscending xs) where
      delta_cell-IsAscending : IsAscending (delta_cell ss box (xs, new) c).0
      unfolding delta_cell
      delta_cell-IsAscending = ground (arith, is_present-eq-elem c xs v, insert-IsAscending c xs v)

      elem-delta_cell :
          (j : ℕ)
          → (elem j (delta_cell ss box (xs, new) c).0
              ≡ (elem j xs || (c == j && sector_meets ss box c)))
            × (elem j (delta_cell ss box (xs, new) c).1
                ≡ (elem j new || (not (elem j xs) && (c == j && sector_meets ss box c))))
      unfolding delta_cell
      elem-delta_cell j = (
        ground (arith, is_present-eq-elem c xs v, elem-insert c j xs),
        ground (arith, is_present-eq-elem c xs v, elem-reg_sector_if_missing c j new),
      )

    delta_cells-IsAscending :
        (cs xs new : List ℕ)
        → IsAscending xs
        → IsAscending (foldl (delta_cell ss box) (xs, new) cs).0
    delta_cells-IsAscending [] xs new v = v
    delta_cells-IsAscending (c ∷ cs) xs new v =
        let next = delta_cell ss box (xs, new) c in
        delta_cells-IsAscending cs next.0 next.1 (delta_cell-IsAscending xs new c v)

    elem-delta_cells :
        (cs xs new : List ℕ)
        → IsAscending xs
        → (j : ℕ)
        → (elem j (foldl (delta_cell ss box) (xs, new) cs).0
            ≡ (elem j xs || (elem j cs && sector_meets ss box j)))
          × (elem j (foldl (delta_cell ss box) (xs, new) cs).1
              ≡ (elem j new || (not (elem j xs) && (elem j cs && sector_meets ss box j))))
    elem-delta_cells [] xs new v j = ground arith
    elem-delta_cells (c ∷ cs) xs new v j =
        let next = delta_cell ss box (xs, new) c in
        let ih = elem-delta_cells cs next.0 next.1 (delta_cell-IsAscending xs new c v) j in
        (
          ground (arith, ih.0, elem-delta_cell xs new c v j),
          ground (arith, ih.1, elem-delta_cell xs new c v j),
        )

  -- One round of a tick: new sectors are looked for round the new position, then the box moves to
  -- (x, y) with radius r, and the sectors that it left are dropped.
  abbrev pub moved_to : ViewPort F → F → F → F → ViewPort F
  moved_to vp x y r = record vp { bound = record vp.bound { at = record { x = x; y = y; r = r } } }

  -- The view port after the two updates of one movement of the snake
  abbrev pub view_step : ViewPort F → F → F → F → F → F → F → F → ViewPort F
  view_step vp new_x new_y old_x old_y x y r =
      vp_update_old (moved_to (vp_update_new vp ss new_x new_y old_x old_y) x y r) ss

  module _ (vp : ViewPort F) (new_x new_y old_x old_y : F) (v : IsAscending vp.sectors) where
    abbrev pub found : ViewPort F
    found = vp_update_new vp ss new_x new_y old_x old_y

    abbrev done : List ℕ × List ℕ
    done =
        foldl (delta_cell ss vp.at) (vp.sectors, vp.new_sectors)
          (window 3 (sector_coord new_x) (sector_coord new_y))

    update_new-same : same_sector new_x new_y old_x old_y ≡ true → found ≡ vp
    unfolding vp_update_new
    update_new-same e = rw e

    update_new-moved :
        same_sector new_x new_y old_x old_y ≡ false
        → found ≡ record vp { bound = record vp.bound { sectors = done.0 }; new_sectors = done.1 }
    unfolding vp_update_new
    update_new-moved e = rw e

    pub found-IsAscending : IsAscending found.sectors
    found-IsAscending = elim (Bool-cases (same_sector new_x new_y old_x old_y)) [
      | inl same ↦ rw (update_new-same same) v
      | inr moved ↦ rw (update_new-moved moved) (
          delta_cells-IsAscending vp.at (window 3 (sector_coord new_x) (sector_coord new_y))
            vp.sectors vp.new_sectors v)
    ]

    pub elem-found :
        vp.new_sectors ≡ []
        → (j : ℕ) → elem j found.sectors ≡ (elem j vp.sectors || elem j found.new_sectors)
    elem-found none_new j = elim (Bool-cases (same_sector new_x new_y old_x old_y)) [
      | inl same ↦ rw (update_new-same same) (rw none_new (ground arith))
      | inr moved ↦ rw (update_new-moved moved) (
          ground (
            arith,
            elem-delta_cells vp.at (window 3 (sector_coord new_x) (sector_coord new_y)) vp.sectors
                vp.new_sectors v j,
            none_new,
          ))
    ]

    pub found-old : found.old_sectors ≡ vp.old_sectors
    unfolding vp_update_new
    found-old = ground arith

  module _ (vp : ViewPort F) (v : IsAscending vp.sectors) where
    abbrev pub left : ViewPort F
    left = vp_update_old vp ss

    pub left-sectors : left.sectors ≡ select (sector_meets ss vp.at) vp.sectors
    unfolding vp_update_old
    left-sectors =
        update_old-eq-select (λ k _. sector_meets ss vp.at k) reg_sector_if_missing (λ k j s. refl)
          vp.sectors vp.old_sectors v

    pub elem-left :
        (j : ℕ)
        → elem j left.old_sectors
          ≡ (elem j vp.old_sectors || (elem j vp.sectors && not (sector_meets ss vp.at j)))
    unfolding vp_update_old
    elem-left j = ground (
      arith,
      view-update_old (λ k _. sector_meets ss vp.at k) reg_sector_if_missing (λ k i s. refl)
          (λ xs. elem j xs) j (λ _. true) (λ k xs. elem-reg_sector_if_missing k j xs) (λ b. refl)
          vp.sectors vp.old_sectors,
    )

  module _ (vp : ViewPort F) (new_x new_y old_x old_y x y r : F) (v : IsAscending vp.sectors)
      (none_new : vp.new_sectors ≡ []) (none_old : vp.old_sectors ≡ []) where
    abbrev step : ViewPort F
    step = view_step vp new_x new_y old_x old_y x y r

    view_step-new : step.new_sectors ≡ (vp_update_new vp ss new_x new_y old_x old_y).new_sectors
    unfolding vp_update_old
    view_step-new = refl

    -- From a sorted vector and empty lists of changes: if the client knew the sectors of the view
    -- port, and is told to add the new sectors and then to remove the old ones, it knows the sectors
    -- of the view port after the movement, which are sorted without repetition and all meet the box.
    pub view_step_lem :
        IsAscending step.sectors
        × ((j : ℕ)
            → elem j step.sectors
              ≡ ((elem j vp.sectors || elem j step.new_sectors) && not (elem j step.old_sectors)))
        × ((j : ℕ)
            → elem j step.sectors
              ≡ (elem j step.sectors && sector_meets ss (record { x = x; y = y; r = r }) j))
    view_step_lem =
        let mid = moved_to (vp_update_new vp ss new_x new_y old_x old_y) x y r in
        let asc : IsAscending mid.sectors = found-IsAscending vp new_x new_y old_x old_y v in
        let meets = sector_meets ss (record { x = x; y = y; r = r }) in
        (
          rw (left-sectors mid asc) (select-IsAscending meets mid.sectors asc),
          λ j.
              rw (left-sectors mid asc, view_step-new)
                (ground (
                  arith,
                  elem-select meets j mid.sectors,
                  elem-left mid asc j,
                  elem-found vp new_x new_y old_x old_y v none_new j,
                  found-old vp new_x new_y old_x old_y v,
                  none_old,
                )),
          λ j. rw (left-sectors mid asc) (ground (arith, elem-select meets j mid.sectors)),
        )
