-- ===== src/Game/BoundBox.antt =====
-- The classes BoundBox, SnakeBoundBox and ViewPort of src/game/sector.h and src/game/sector.cc. An
-- operation that changes sectors takes the world's sectors and returns them anew.
pub mod Sweep
pub mod Refresh
pub mod Register
pub mod Registry
pub mod Window
pub mod View
use slitherss.Prelude.{
  ℕ, zero, suc, ◌+◌, ◌*◌, Bool, true, false, not, ◌&&◌, ◌||◌, List, [], ◌∷◌, ◌++◌, none, some,
  foldl, ltb, ◌==◌, if◌then◌else◌, ℤ, pos, negsuc, ◌+ℤ◌, ◌-ℤ◌, eqb_ℤ, length, get_elem?, get_or,
  set, modify, insert_at, back, pop_back, elem,
}
use slitherss.Prelude.Order.{lower_bound, binary_search, sort}
use slitherss.Float.{Float}
use slitherss.Game.Config.{sector_size, sector_count_along_edge}
use slitherss.Game.Sector.{BoundBoxPos, Sector, intersects, get_index, remove_snake}

-- BoundBox and SnakeBoundBox. The field `snake`, a pointer back to the owner, is given by `id`.
pub record BoundBox (F : Type 0) : Type 0 where
  pub at : BoundBoxPos F
  pub open at use *
  pub id : ℕ
  pub sectors : List ℕ

pub record ViewPort (F : Type 0) : Type 0 where
  pub bound : BoundBox F
  pub open bound use *
  pub new_sectors : List ℕ
  pub old_sectors : List ℕ

-- BoundBox::Insert, IsPresent and RemoveUnsorted, on the vector `sectors`
unfoldable pub insert : ℕ → List ℕ → List ℕ
insert s sectors =
    let i = lower_bound s sectors in
    if i == length sectors then sectors ++ s ∷ [] else insert_at i s sectors

unfoldable pub is_present : ℕ → List ℕ → Bool
is_present s sectors = binary_search s sectors

-- The result says whether an unseen element stands at i now.
unfoldable pub remove_unsorted : ℕ → List ℕ → List ℕ × Bool
remove_unsorted i sectors =
    if suc i == length sectors
    then (pop_back sectors, false)
    else (pop_back (set sectors i (back 0 sectors)), true)

-- The loop of both UpdateBoxOldSectors, over the vector, an index into it and what the loop changes
-- elsewhere: `keep` is the test that an element intersects the box, and `forget` what is done with
-- one that does not. Each round passes an element or drops one, so that the length is fuel enough.
module _ {S : Type 0} (keep : ℕ → S → Bool) (forget : ℕ → S → S) where
  unfoldable pub sweep : ℕ → ℕ → List ℕ → S → List ℕ × S
  unfolding remove_unsorted
  sweep zero i xs s = (xs, s)
  sweep (suc fuel) i xs s =
      let sec = get_or xs i 0 in
      let removed = remove_unsorted i xs in
      elim (i == length xs) [
        | true ↦ (xs, s)
        | false ↦ elim (keep sec s) [
          | true ↦ sweep fuel (suc i) xs s
          | false ↦ elim removed.1 [
            | true ↦ sweep fuel i removed.0 (forget sec s)
            | false ↦ (removed.0, forget sec s)
          ]
        ]
      ]

  -- The whole of UpdateBoxOldSectors: the loop, and the sort if anything was removed.
  unfoldable pub update_old : List ℕ → S → List ℕ × S
  unfolding sweep
  update_old xs s =
      let swept = sweep (length xs) 0 xs s in
      if length xs == length swept.0 then swept else (sort swept.0, swept.1)

-- The pointers `get_sector i j` of the cells that the double loop of UpdateBoxNewSectors visits, in
-- its order, those off the map left out: j from cy - w to cy + w, and for each j the same of i.
unfoldable pub cell : ℤ → ℤ → List ℕ
unfolding get_index
cell (pos i) (pos j) =
    if ltb i sector_count_along_edge && ltb j sector_count_along_edge
    then get_index i j ∷ []
    else []
cell i j = []

unfoldable pub row : ℕ → ℤ → ℤ → List ℕ
unfolding cell
row zero i j = []
row (suc n) i j = cell i j ++ row n (i +ℤ pos 1) j

unfoldable pub rows : ℕ → ℕ → ℤ → ℤ → List ℕ
unfolding row
rows zero width i j = []
rows (suc n) width i j = row width i j ++ rows n width i (j +ℤ pos 1)

unfoldable pub window : ℕ → ℤ → ℤ → List ℕ
unfolding rows
window w cx cy = rows (2 * w + 1) (2 * w + 1) (cx -ℤ pos w) (cy -ℤ pos w)

-- The vector `sectors` of a box, and the world's sectors.
abbrev pub Registered : Type 0 → Type 0
Registered F = List ℕ × List (Sector F)

-- SnakeBoundBox::InsertSortedWithReg
unfoldable pub insert_sorted_with_reg : {F : Type 0} → ℕ → ℕ → Registered F → Registered F
unfolding insert
insert_sorted_with_reg id k (xs, ss) =
    (insert k xs, modify ss k (λ s. record s { snakes = s.snakes ++ id ∷ [] }))

-- ViewPort::RegNewSectorIfMissing and RegOldSectorIfMissing, on `new_sectors` or `old_sectors`
unfoldable pub reg_sector_if_missing : ℕ → List ℕ → List ℕ
reg_sector_if_missing k xs = if elem k xs then xs else xs ++ k ∷ []

-- ViewPort::InsertSortedWithDelta, on `sectors` and `new_sectors`
unfoldable pub insert_sorted_with_delta : ℕ → List ℕ × List ℕ → List ℕ × List ℕ
unfolding insert reg_sector_if_missing
insert_sorted_with_delta k (xs, new) = (insert k xs, reg_sector_if_missing k new)

module _ {F : Type 0} ⦃float : Float F⦄ where
  open float use {div, of_int, to_signed}

  -- `s->Intersect(box)` through a pointer. A pointer past the vector counts as no sector; the
  -- pointers of `window` are never such.
  unfoldable pub sector_meets : List (Sector F) → BoundBoxPos F → ℕ → Bool
  unfolding intersects
  sector_meets ss box k = elim (get_elem? ss k) [ none ↦ false | some s ↦ intersects s box ]

  -- static_cast<int16_t>(x / WorldConfig::sector_size)
  unfoldable pub sector_coord : F → ℤ
  sector_coord a = to_signed 16 (div a (of_int (pos sector_size)))

  -- The early return of both UpdateBoxNewSectors: new and old position lie in one sector.
  unfoldable pub same_sector : F → F → F → F → Bool
  unfolding sector_coord
  same_sector new_x new_y old_x old_y =
      eqb_ℤ (sector_coord new_x) (sector_coord old_x)
      && eqb_ℤ (sector_coord new_y) (sector_coord old_y)

  -- The body of the loop of SnakeBoundBox::UpdateBoxNewSectors
  unfoldable pub reg_cell : ℕ → BoundBoxPos F → Registered F → ℕ → Registered F
  unfolding is_present sector_meets insert_sorted_with_reg
  reg_cell id box (xs, ss) k =
      if not (is_present k xs) && sector_meets ss box k
      then insert_sorted_with_reg id k (xs, ss)
      else (xs, ss)

  -- SnakeBoundBox::UpdateBoxNewSectors
  unfoldable pub sbb_update_new :
      BoundBox F → List (Sector F) → F → F → F → F → F → BoundBox F × List (Sector F)
  unfolding sector_coord same_sector window reg_cell
  sbb_update_new bb ss bb_r new_x new_y old_x old_y =
      let nx = sector_coord new_x in
      let ny = sector_coord new_y in
      let box : BoundBoxPos F = record { x = new_x; y = new_y; r = bb_r } in
      let done = foldl (reg_cell bb.id box) (bb.sectors, ss) (window 1 nx ny) in
      if same_sector new_x new_y old_x old_y
      then (bb, ss)
      else (record bb { sectors = done.0 }, done.1)

  -- SnakeBoundBox::UpdateBoxOldSectors
  unfoldable pub sbb_update_old : BoundBox F → List (Sector F) → BoundBox F × List (Sector F)
  unfolding sector_meets update_old remove_snake
  sbb_update_old bb ss =
      let done =
        update_old (λ k ss'. sector_meets ss' bb.at k) (λ k ss'. modify ss' k (remove_snake bb.id))
          bb.sectors ss in
      (record bb { sectors = done.0 }, done.1)

  -- The body of the loop of ViewPort::UpdateBoxNewSectors
  unfoldable pub delta_cell :
      List (Sector F) → BoundBoxPos F → List ℕ × List ℕ → ℕ → List ℕ × List ℕ
  unfolding is_present sector_meets insert_sorted_with_delta
  delta_cell ss box (xs, new) k =
      if not (is_present k xs) && sector_meets ss box k
      then insert_sorted_with_delta k (xs, new)
      else (xs, new)

  -- ViewPort::UpdateBoxNewSectors
  unfoldable pub vp_update_new : ViewPort F → List (Sector F) → F → F → F → F → ViewPort F
  unfolding sector_coord same_sector window delta_cell
  vp_update_new vp ss new_x new_y old_x old_y =
      let nx = sector_coord new_x in
      let ny = sector_coord new_y in
      let done = foldl (delta_cell ss vp.at) (vp.sectors, vp.new_sectors) (window 3 nx ny) in
      if same_sector new_x new_y old_x old_y
      then vp
      else record vp { bound = record vp.bound { sectors = done.0 }; new_sectors = done.1 }

  -- ViewPort::UpdateBoxOldSectors
  unfoldable pub vp_update_old : ViewPort F → List (Sector F) → ViewPort F
  unfolding sector_meets update_old reg_sector_if_missing
  vp_update_old vp ss =
      let done =
        update_old (λ k _. sector_meets ss vp.at k) reg_sector_if_missing vp.sectors
          vp.old_sectors in
      record vp { bound = record vp.bound { sectors = done.0 }; old_sectors = done.1 }
