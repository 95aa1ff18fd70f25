-- ===== src/Game/Sector.antt =====
-- src/game/food.h, and of src/game/sector.h and src/game/sector.cc the classes BoundBoxPos, Sector
-- and SectorSeq. A `Sector *` points into the vector `SectorSeq`, whose elements lie in one array:
-- it is the index of the sector, and the order of the pointers is that of the indices. A
-- `BoundBox *` in `Sector::snakes` is the id of the snake that owns the box.
pub mod Grid
pub mod Sites
pub mod Larder
use slitherss.Prelude.{
  ℕ, zero, suc, ◌+◌, ◌*◌, ◌/◌, ◌%◌, ◌^◌, Bool, not, List, [], ◌∷◌, ◌++◌, Option, none, some, map,
  ltb, ◌==◌, if◌then◌else◌, pos, length, get_elem?, insert_at, erase_at, select, modify,
}
use slitherss.Float.{Float}
use slitherss.Game.Config.{sector_size, sector_diag_size, sector_count_along_edge}
use slitherss.Game.Math.{intersect_circle}

pub record Food : Type 0 where
  pub x : ℕ
  pub y : ℕ
  pub size : ℕ
  pub color : ℕ

pub record BoundBoxPos (F : Type 0) : Type 0 where
  pub x : F
  pub y : F
  pub r : F

pub record Sector (F : Type 0) : Type 0 where
  pub x : ℕ
  pub y : ℕ
  pub box : BoundBoxPos F
  pub snakes : List ℕ
  pub food : List Food

module _ {F : Type 0} ⦃float : Float F⦄ where
  open float use {ratio, of_int, add, mul, div}

  unfoldable pub boxes_intersect : BoundBoxPos F → BoundBoxPos F → Bool
  unfolding intersect_circle
  boxes_intersect b1 b2 = intersect_circle b1.x b1.y b2.x b2.y (add b1.r b2.r)

  -- Sector::Intersect
  unfoldable pub intersects : Sector F → BoundBoxPos F → Bool
  unfolding boxes_intersect
  intersects s box2 = boxes_intersect s.box box2

  -- Sector::Sector
  unfoldable pub new_sector : ℕ → ℕ → Sector F
  new_sector x y = record { x = x; y = y; box = box; snakes = []; food = [] }
    where
      center : ℕ → F
      center i = mul (ratio 1 1) (of_int (pos (sector_size * i + sector_size / 2)))

      box : BoundBoxPos F
      box = record {
        x = center x;
        y = center y;
        r = div (of_int (pos sector_diag_size)) (ratio 2 1);
      }

  -- The loop of SectorSeq::InitSectors, from i on with n sectors to go.
  unfoldable pub sectors_from : ℕ → ℕ → List (Sector F)
  unfolding new_sector
  sectors_from zero i = []
  sectors_from (suc n) i =
      new_sector (i % sector_count_along_edge % 2 ^ 8) (i / sector_count_along_edge % 2 ^ 8)
      ∷ sectors_from n (suc i)

  unfoldable pub init_sectors : List (Sector F)
  unfolding sectors_from
  init_sectors = sectors_from (sector_count_along_edge * sector_count_along_edge) 0

unfoldable pub get_index : ℕ → ℕ → ℕ
get_index x y = y * sector_count_along_edge + x

-- SectorSeq::get_sector gives the pointer `get_index x y`; this reads through a pointer. `none` is
-- a read past the end of the vector.
unfoldable pub get_sector : {F : Type 0} → List (Sector F) → ℕ → ℕ → Option (Sector F)
unfolding get_index
get_sector ss x y = get_elem? ss (get_index x y)

-- Sector::RemoveSnake: the erase-remove idiom on the ids of the boxes.
unfoldable pub remove_snake : {F : Type 0} → ℕ → Sector F → Sector F
remove_snake id s = record s { snakes = select (λ b. not (b == id)) s.snakes }

-- `std::lower_bound` on food sorted by x.
unfoldable pub food_lower_bound : ℕ → List Food → ℕ
food_lower_bound fx [] = 0
food_lower_bound fx (f ∷ fs) = if ltb f.x fx then suc (food_lower_bound fx fs) else 0

-- Sector::Insert, on the food of the sector
unfoldable pub insert_food : Food → List Food → List Food
unfolding food_lower_bound
insert_food f food =
    let i = food_lower_bound f.x food in
    if i == length food then food ++ f ∷ [] else insert_at i f food

-- Sector::FindClosestFood
unfoldable pub find_closest_food : ℕ → List Food → ℕ
unfolding food_lower_bound
find_closest_food fx food = food_lower_bound fx food

-- Sector::Remove
unfoldable pub remove_food : ℕ → List Food → List Food
remove_food i food = erase_at i food
