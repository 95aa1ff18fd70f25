-- ===== src/Game/BoundBox/Registry.antt =====
-- The registry of a snake: the sorted vector of its sectors, and its entries in their lists.
use slitherss.Prelude.{
  ℕ, ◌+◌, ◌≡◌, ◌≢◌, refl, Bool, true, false, not, ◌&&◌, ◌||◌, inl, inr, List, [], ◌∷◌, arith, foldl,
  ◌==◌, if◌then◌else◌, Bool-cases, modify, elem, select, elem-select,
}
use slitherss.Prelude.Order.{IsAscending, select-IsAscending}
use slitherss.Float.{Float}
use slitherss.Game.Sector.{BoundBoxPos, Sector, remove_snake}
use slitherss.Game.BoundBox.{
  BoundBox, sector_meets, sector_coord, same_sector, window, reg_cell, sbb_update_new,
  sbb_update_old,
}
use slitherss.Game.BoundBox.Refresh.{update_old-eq-select, view-update_old}
use slitherss.Game.BoundBox.Register.{
  enlisted, enlisted-remove_snake, sector_meets-modify, sector_meets-reg_cell, reg_cell-IsAscending,
  elem-reg_cell, enlisted-reg_cell,
}

-- The vector is sorted without repetition, and the snake stands once in the list of each sector
-- of the vector, and in no other list. So every pointer of the vector points at a sector.
pub record IsRegistered {F : Type 0} (bb : BoundBox F) (ss : List (Sector F)) : Type 0 where
  pub sorted : IsAscending bb.sectors
  pub listed : (k : ℕ) → enlisted ss bb.id k ≡ (if elem k bb.sectors then 1 else 0)

-- No other snake's entries change.
abbrev pub KeepsOthers : {F : Type 0} → ℕ → List (Sector F) → List (Sector F) → Type 0
KeepsOthers id ss ss' = (other k : ℕ) → other ≢ id → enlisted ss' other k ≡ enlisted ss other k

module _ {F : Type 0} ⦃float : Float F⦄ where
  module _ (bb : BoundBox F) (ss : List (Sector F)) where
    abbrev keep : ℕ → List (Sector F) → Bool
    keep k ss' = sector_meets ss' bb.at k

    abbrev forget : ℕ → List (Sector F) → List (Sector F)
    forget k ss' = modify ss' k (remove_snake bb.id)

    pub keep-forget : (k j : ℕ) (ss' : List (Sector F)) → keep k (forget j ss') ≡ keep k ss'
    unfolding remove_snake
    keep-forget k j ss' = sector_meets-modify ss' bb.at j k (remove_snake bb.id) (λ s. refl)

    pub sbb_update_old-sectors :
        IsAscending bb.sectors
        → (sbb_update_old bb ss).0.sectors ≡ select (sector_meets ss bb.at) bb.sectors
    unfolding sbb_update_old
    sbb_update_old-sectors v = update_old-eq-select keep forget keep-forget bb.sectors ss v

    enlisted-update_old :
        (other j : ℕ)
        → enlisted (sbb_update_old bb ss).1 other j ≡ (
            if sector_meets ss bb.at j
            then enlisted ss other j
            else if elem j bb.sectors
            then (if other == bb.id then 0 else enlisted ss other j)
            else enlisted ss other j)
    unfolding sbb_update_old
    enlisted-update_old other j =
        view-update_old keep forget keep-forget (λ ss'. enlisted ss' other j) j
          (λ n. if other == bb.id then 0 else n)
          (λ k ss'. enlisted-remove_snake ss' bb.id k other j) (λ n. ground arith) bb.sectors ss

    -- SnakeBoundBox::UpdateBoxOldSectors keeps exactly the sectors that the box still meets, in
    -- order, and takes a registered snake out of the lists of the others and out of no more: the
    -- snake is registered after it. The entries of other snakes stay.
    pub sbb_update_old-IsRegistered :
        IsRegistered bb ss
        → (let done = sbb_update_old bb ss in
            (done.0.sectors ≡ select (sector_meets ss bb.at) bb.sectors)
            × IsRegistered done.0 done.1
            × KeepsOthers bb.id ss done.1)
    unfolding sbb_update_old
    sbb_update_old-IsRegistered reg = (
      sbb_update_old-sectors reg.sorted,
      record {
        sorted =
            rw (sbb_update_old-sectors reg.sorted)
              (select-IsAscending (sector_meets ss bb.at) bb.sectors reg.sorted);
        listed = λ k. rw (sbb_update_old-sectors reg.sorted) (
            ground (
              arith,
              enlisted-update_old bb.id k,
              reg.listed k,
              elem-select (sector_meets ss bb.at) k bb.sectors,
            ));
      },
      λ other k ne. ground (arith, enlisted-update_old other k),
    )

  module _ (id : ℕ) (box : BoundBoxPos F) where
    reg_cells-IsAscending :
        (cs xs : List ℕ) (ss : List (Sector F))
        → IsAscending xs
        → IsAscending (foldl (reg_cell id box) (xs, ss) cs).0
    reg_cells-IsAscending [] xs ss v = v
    reg_cells-IsAscending (c ∷ cs) xs ss v =
        let next = reg_cell id box (xs, ss) c in
        reg_cells-IsAscending cs next.0 next.1 (reg_cell-IsAscending ss box id xs c v)

    elem-reg_cells :
        (cs xs : List ℕ) (ss : List (Sector F))
        → IsAscending xs
        → (j : ℕ)
        → elem j (foldl (reg_cell id box) (xs, ss) cs).0
          ≡ (elem j xs || (elem j cs && sector_meets ss box j))
    elem-reg_cells [] xs ss v j = ground arith
    elem-reg_cells (c ∷ cs) xs ss v j =
        let next = reg_cell id box (xs, ss) c in
        ground (
          arith,
          elem-reg_cells cs next.0 next.1 (reg_cell-IsAscending ss box id xs c v) j,
          elem-reg_cell ss box id xs c v j,
          sector_meets-reg_cell ss box id xs c v j,
        )

    enlisted-reg_cells :
        (cs xs : List ℕ) (ss : List (Sector F))
        → IsAscending xs
        → (other j : ℕ)
        → enlisted (foldl (reg_cell id box) (xs, ss) cs).1 other j
          ≡ enlisted ss other j
            + (if other == id && (not (elem j xs) && (elem j cs && sector_meets ss box j))
                then 1
                else 0)
    enlisted-reg_cells [] xs ss v other j = ground arith
    enlisted-reg_cells (c ∷ cs) xs ss v other j =
        let next = reg_cell id box (xs, ss) c in
        ground (
          arith,
          enlisted-reg_cells cs next.0 next.1 (reg_cell-IsAscending ss box id xs c v) other j,
          elem-reg_cell ss box id xs c v j,
          sector_meets-reg_cell ss box id xs c v j,
          enlisted-reg_cell ss box id xs c v other j,
        )

  module _ (bb : BoundBox F) (ss : List (Sector F)) (bb_r new_x new_y old_x old_y : F)
      (reg : IsRegistered bb ss) where
    abbrev new_box : BoundBoxPos F
    new_box = record { x = new_x; y = new_y; r = bb_r }

    abbrev cells : List ℕ
    cells = window 1 (sector_coord new_x) (sector_coord new_y)

    abbrev done : List ℕ × List (Sector F)
    done = foldl (reg_cell bb.id new_box) (bb.sectors, ss) cells

    update_new-same :
        same_sector new_x new_y old_x old_y ≡ true
        → sbb_update_new bb ss bb_r new_x new_y old_x old_y ≡ (bb, ss)
    unfolding sbb_update_new
    update_new-same e = rw e

    update_new-moved :
        same_sector new_x new_y old_x old_y ≡ false
        → sbb_update_new bb ss bb_r new_x new_y old_x old_y
          ≡ (record bb { sectors = done.0 }, done.1)
    unfolding sbb_update_new
    update_new-moved e = rw e

    -- Of a registered snake, SnakeBoundBox::UpdateBoxNewSectors adds exactly the sectors of the 3 by 3 window round the new
    -- position that the new box meets, if the position is in another sector than before, and
    -- nothing otherwise. The snake is registered after it, and the entries of other snakes stay.
    pub sbb_update_new-IsRegistered :
        let done = sbb_update_new bb ss bb_r new_x new_y old_x old_y in
        IsRegistered done.0 done.1
        × KeepsOthers bb.id ss done.1
        × ((j : ℕ)
            → elem j done.0.sectors ≡ (
                elem j bb.sectors
                || (not (same_sector new_x new_y old_x old_y)
                    && (elem j cells && sector_meets ss new_box j))))
    sbb_update_new-IsRegistered = elim (Bool-cases (same_sector new_x new_y old_x old_y)) [
      | inl same ↦ rw (update_new-same same) (reg, λ other k ne. refl, λ j. rw same (ground arith))
      | inr moved ↦ rw (update_new-moved moved) (
        record {
          sorted = reg_cells-IsAscending bb.id new_box cells bb.sectors ss reg.sorted;
          listed = λ k. ground (
            arith,
            reg.listed k,
            enlisted-reg_cells bb.id new_box cells bb.sectors ss reg.sorted bb.id k,
            elem-reg_cells bb.id new_box cells bb.sectors ss reg.sorted k,
          );
        },
        λ other k ne.
            ground (arith, enlisted-reg_cells bb.id new_box cells bb.sectors ss reg.sorted other k),
        λ j. rw moved (elem-reg_cells bb.id new_box cells bb.sectors ss reg.sorted j),
      )
    ]
