-- ===== src/Game/BoundBox/Window.antt =====
-- The cells that UpdateBoxNewSectors visits.
use slitherss.Prelude.{
  ℕ, zero, suc, ◌+◌, ◌*◌, ◌<◌, ◌≡◌, Bool, false, ◌&&◌, ◌||◌, List, arith, ℤ, pos, negsuc, ◌+ℤ◌,
  ◌-ℤ◌, leb_ℤ, ltb_ℤ, eqb_ℤ, elem, elem-append, All, All-append,
}
use slitherss.Game.Sector.{get_index}
use slitherss.Game.BoundBox.{cell, row, rows, window}

-- x is one of the n numbers from i on.
within : ℕ → ℕ → ℤ → Bool
within x n i = leb_ℤ i (pos x) && ltb_ℤ (pos x) (i +ℤ pos n)

within-zero : (x : ℕ) (i : ℤ) → within x 0 i ≡ false
unfolding within ◌+ℤ◌
within-zero x i = ground arith

within-suc : (x n : ℕ) (i : ℤ) → within x (suc n) i ≡ (eqb_ℤ i (pos x) || within x n (i +ℤ pos 1))
unfolding within ◌+ℤ◌
within-suc x n i = ground arith

within_span :
    (x w : ℕ) (c : ℤ)
    → within x (2 * w + 1) (c -ℤ pos w) ≡ (leb_ℤ c (pos (x + w)) && leb_ℤ (pos x) (c +ℤ pos w))
unfolding within ◌+ℤ◌ ◌-ℤ◌
within_span x w c = ground arith

module _ (x y : ℕ) (hx : x < 144) (hy : y < 144) where
  elem-cell : (i j : ℤ) → elem (get_index x y) (cell i j) ≡ (eqb_ℤ i (pos x) && eqb_ℤ j (pos y))
  unfolding cell
  elem-cell (pos i) (pos j) = ground arith
  elem-cell (pos i) (negsuc j) = ground arith
  elem-cell (negsuc i) (pos j) = ground arith
  elem-cell (negsuc i) (negsuc j) = ground arith

  elem-row :
      (n : ℕ) (i j : ℤ) → elem (get_index x y) (row n i j) ≡ (within x n i && eqb_ℤ j (pos y))
  unfolding row
  elem-row zero i j = rw (within-zero x i)
  elem-row (suc n) i j =
      rw
        (
          elem-append (get_index x y) (cell i j) (row n (i +ℤ pos 1) j),
          elem-cell i j,
          elem-row n (i +ℤ pos 1) j,
          within-suc x n i,
        )
        (factor (eqb_ℤ i (pos x)) (within x n (i +ℤ pos 1)) (eqb_ℤ j (pos y)))
    where
      factor : (a b c : Bool) → (a && c || b && c) ≡ ((a || b) && c)
      factor a b c = ground arith

  elem-rows :
      (n w : ℕ) (i j : ℤ) → elem (get_index x y) (rows n w i j) ≡ (within x w i && within y n j)
  unfolding rows
  elem-rows zero w i j = rw (within-zero y j) (ground arith)
  elem-rows (suc n) w i j =
      rw
        (
          elem-append (get_index x y) (row w i j) (rows n w i (j +ℤ pos 1)),
          elem-row w i j,
          elem-rows n w i (j +ℤ pos 1),
          within-suc y n j,
        )
        (factor (within x w i) (eqb_ℤ j (pos y)) (within y n (j +ℤ pos 1)))
    where
      factor : (a b c : Bool) → (a && b || a && c) ≡ (a && (b || c))
      factor a b c = ground arith

  -- A cell of the map is visited by the double loop of UpdateBoxNewSectors exactly if neither of its coordinates is more than w away from
  -- those of the centre, which may lie off the map.
  pub elem-window :
      (w : ℕ) (cx cy : ℤ)
      → elem (get_index x y) (window w cx cy) ≡ (
          (leb_ℤ cx (pos (x + w)) && leb_ℤ (pos x) (cx +ℤ pos w))
          && (leb_ℤ cy (pos (y + w)) && leb_ℤ (pos y) (cy +ℤ pos w)))
  unfolding window
  elem-window w cx cy = rw (
    elem-rows (2 * w + 1) (2 * w + 1) (cx -ℤ pos w) (cy -ℤ pos w),
    within_span x w cx,
    within_span y w cy,
  )

-- Every pointer that the loops follow points into the vector of the sectors.
abbrev Below : List ℕ → Type 0
Below = All λ k. k < 20736

cell-Below : (i j : ℤ) → Below (cell i j)
unfolding cell
cell-Below (pos i) (pos j) = ground arith
cell-Below (pos i) (negsuc j) = tt
cell-Below (negsuc i) (pos j) = tt
cell-Below (negsuc i) (negsuc j) = tt

row-Below : (n : ℕ) (i j : ℤ) → Below (row n i j)
unfolding row
row-Below zero i j = tt
row-Below (suc n) i j = All-append _ (cell i j) _ (cell-Below i j) (row-Below n (i +ℤ pos 1) j)

rows-Below : (n w : ℕ) (i j : ℤ) → Below (rows n w i j)
unfolding rows
rows-Below zero w i j = tt
rows-Below (suc n) w i j =
    All-append _ (row w i j) _ (row-Below w i j) (rows-Below n w i (j +ℤ pos 1))

-- So do the pointers of the window, whatever its centre.
pub window-Below : (w : ℕ) (cx cy : ℤ) → Below (window w cx cy)
unfolding window
window-Below w cx cy = rows-Below (2 * w + 1) (2 * w + 1) (cx -ℤ pos w) (cy -ℤ pos w)
