-- ===== src/Game/BoundBox/Register.antt =====
-- One step of the loops of UpdateBoxNewSectors and UpdateBoxOldSectors, on the vector of the box
-- and on the lists of snakes that the sectors keep.
use slitherss.Prelude.{
  ℕ, ◌+◌, ◌≡◌, refl, true, false, not, ◌&&◌, ◌||◌, inl, inr, List, [], ◌∷◌, ◌++◌, none, some, arith,
  ap, ◌==◌, if◌then◌else◌, Bool-cases, Option-cases, modify, get_elem?, get_elem?-modify, insert_at,
  insert_at-length, count, count-append, count-select, elem,
}
use slitherss.Prelude.Order.{
  lower_bound, IsAscending, binary_search-elem, elem-insert_at, insert_at-Ascends,
}
use slitherss.Float.{Float}
use slitherss.Game.Sector.{BoundBoxPos, Sector, remove_snake}
use slitherss.Game.BoundBox.{insert, is_present, sector_meets, reg_cell}

insert-eq : (k : ℕ) (xs : List ℕ) → insert k xs ≡ insert_at (lower_bound k xs) k xs
unfolding insert
insert-eq k xs = ground (arith, insert_at-length xs k, ap (λ (i : ℕ). insert_at i k xs))

pub elem-insert : (k j : ℕ) (xs : List ℕ) → elem j (insert k xs) ≡ (k == j || elem j xs)
elem-insert k j xs = rw (insert-eq k xs) (elem-insert_at k j (lower_bound k xs) xs)

-- BoundBox::Insert keeps the vector sorted without repetition, if the pointer is not there yet.
pub insert-IsAscending :
    (k : ℕ) (xs : List ℕ) → IsAscending xs → elem k xs ≡ false → IsAscending (insert k xs)
insert-IsAscending k xs v e = rw (insert-eq k xs) (insert_at-Ascends 0 k xs (omega arith) v e)

-- On a sorted vector the binary search of BoundBox::IsPresent finds exactly what is there.
pub is_present-eq-elem : (k : ℕ) (xs : List ℕ) → IsAscending xs → is_present k xs ≡ elem k xs
unfolding is_present
is_present-eq-elem k xs v = binary_search-elem 0 k xs v

-- How often a snake stands in the list of the sector k.
abbrev pub enlisted : {F : Type 0} → List (Sector F) → ℕ → ℕ → ℕ
enlisted ss id k = elim (get_elem? ss k) [ none ↦ 0 | some s ↦ count id s.snakes ]

module _ {F : Type 0} (ss : List (Sector F)) (id k other j : ℕ) where
  pub enlisted-remove_snake :
      enlisted (modify ss k (remove_snake id)) other j
      ≡ (if k == j then (if other == id then 0 else enlisted ss other j) else enlisted ss other j)
  unfolding remove_snake
  enlisted-remove_snake = elim (Option-cases (get_elem? ss j)) [
    | inl e ↦ ground (arith, get_elem?-modify ss k j (remove_snake id))
    | inr (s, e) ↦ ground (
      arith,
      get_elem?-modify ss k j (remove_snake id),
      count-select (λ b. not (b == id)) other s.snakes,
    )
  ]

  abbrev enlist : Sector F → Sector F
  enlist s = record s { snakes = s.snakes ++ id ∷ [] }

  -- A pointer past the vector enlists nobody.
  pub enlisted-enlist :
      {s : Sector F}
      → get_elem? ss k ≡ some s
      → enlisted (modify ss k enlist) other j
        ≡ enlisted ss other j + (if k == j && other == id then 1 else 0)
  enlisted-enlist {s} e =
      ground (arith, get_elem?-modify ss k j enlist, count-append other s.snakes (id ∷ []))

module _ {F : Type 0} ⦃float : Float F⦄ (ss : List (Sector F)) (box : BoundBoxPos F) where
  -- The test of a sector reads its box alone, which the loops leave as it is.
  pub sector_meets-modify :
      (j k : ℕ) (f : Sector F → Sector F)
      → ((s : Sector F) → (f s).box ≡ s.box)
      → sector_meets (modify ss j f) box k ≡ sector_meets ss box k
  unfolding sector_meets
  sector_meets-modify j k f same = elim (Option-cases (get_elem? ss k)) [
    | inl e ↦ ground (arith, get_elem?-modify ss j k f)
    | inr (s, e) ↦ ground (arith, get_elem?-modify ss j k f, same s)
  ]

  pub get_elem?-sector_meets :
      (k : ℕ) → sector_meets ss box k ≡ true → (s : Sector F) × (get_elem? ss k ≡ some s)
  unfolding sector_meets
  get_elem?-sector_meets k e = elim (Option-cases (get_elem? ss k)) [
    | inl gone ↦ absurd (ground arith)
    | inr found ↦ found
  ]

  module _ (id : ℕ) (xs : List ℕ) (k : ℕ) (v : IsAscending xs) where
    abbrev step : List ℕ × List (Sector F)
    step = reg_cell id box (xs, ss) k

    pub reg_cell-IsAscending : IsAscending step.0
    unfolding reg_cell
    reg_cell-IsAscending = ground (arith, is_present-eq-elem k xs v, insert-IsAscending k xs v)

    pub elem-reg_cell : (j : ℕ) → elem j step.0 ≡ (elem j xs || (k == j && sector_meets ss box k))
    unfolding reg_cell
    elem-reg_cell j = ground (arith, is_present-eq-elem k xs v, elem-insert k j xs)

    pub sector_meets-reg_cell : (j : ℕ) → sector_meets step.1 box j ≡ sector_meets ss box j
    unfolding reg_cell
    sector_meets-reg_cell j = ground (
      arith,
      sector_meets-modify k j (λ s. record s { snakes = s.snakes ++ id ∷ [] }) (λ s. refl),
    )

    pub enlisted-reg_cell :
        (other j : ℕ)
        → enlisted step.1 other j
          ≡ enlisted ss other j
            + (if other == id && (k == j && (not (elem j xs) && sector_meets ss box k))
                then 1
                else 0)
    unfolding reg_cell
    enlisted-reg_cell other j = elim (Bool-cases (sector_meets ss box k)) [
      | inl m ↦ ground (
        arith,
        is_present-eq-elem k xs v,
        enlisted-enlist ss id k other j (get_elem?-sector_meets k m).1,
      )
      | inr m ↦ ground arith
    ]
