-- ===== src/Tests/Game.antt =====
-- The theorems on src/game at concrete snakes and sectors, with whole numbers as floats.
use mathlib.Core.List.{Perm}
use slitherss.Prelude.{
  ℕ, zero, suc, ◌+◌, ◌≤◌, ◌<◌, ◌%◌, ◌==◌, ◌≡◌, refl, true, false, not, ◌&&◌, ◌||◌, List, [], ◌∷◌,
  some, arith, if◌then◌else◌, ℤ, pos, negsuc, leb_ℤ, ◌+ℤ◌, ◌*ℤ◌, ◌*◌, ◌/◌, length, elem, select,
}
use slitherss.Prelude.Order.{IsAscending}
use slitherss.Float.{whole_float}
use slitherss.Game.Sector.{
  Food, Sector, new_sector, init_sectors, get_index, get_sector, insert_food,
}
use slitherss.Game.Config.{sector_diag_size}
use slitherss.Game.Sector.Grid.{get_sector-init_sectors}
use slitherss.Game.Sector.Larder.{RisesX, insert_food-RisesX}
use slitherss.Game.BoundBox.{
  BoundBox, ViewPort, insert, window, sector_meets, sector_coord, same_sector, sbb_update_new,
  sbb_update_old, update_old,
}
use slitherss.Game.BoundBox.Register.{insert-IsAscending, enlisted}
use slitherss.Game.BoundBox.Refresh.{update_old-eq-select}
use slitherss.Game.BoundBox.Registry.{
  IsRegistered, KeepsOthers, sbb_update_old-IsRegistered, sbb_update_new-IsRegistered,
}
use slitherss.Game.BoundBox.Window.{elem-window}
use slitherss.Game.BoundBox.View.{view_step, view_step_lem}
use slitherss.Game.Snake.{Snake, Body, no_changes, increase_snake, decrease_snake}
use slitherss.Game.Snake.Growth.{
  mass, increase_snake-mass, decrease_snake-mass, decrease_snake-parts,
}
use slitherss.Game.Feed.{eat_around}
use slitherss.Game.Feed.Pieces.{IsFar, IsFarBelow}
use slitherss.Game.Feed.Eating.{Ate}
use slitherss.Game.Feed.Place.{IsParted}
use slitherss.Game.Feed.Stops.{eat_around_lem}

abbrev body : ℕ → ℕ → Body ℤ
body x y = record { x = pos x; y = pos y }

-- A box at (450, 150), which meets the sector 1 of a row of three, and is known to the sector 0.
abbrev box : BoundBox ℤ
box = record { at = record { x = pos 1000; y = pos 150; r = pos 50 }; id = 7; sectors = 0 ∷ [] }

abbrev row_of_three : List (Sector ℤ)
row_of_three =
    record (new_sector 0 0) { snakes = 7 ∷ 9 ∷ [] } ∷ new_sector 1 0 ∷ new_sector 2 0 ∷ []

abbrev view : ViewPort ℤ
view = record { bound = box; new_sectors = []; old_sectors = [] }

abbrev snake : Snake ℤ
snake = record {
  id = 7;
  skin = 3;
  update = no_changes;
  acceleration = true;
  bot = false;
  name = b'a' ∷ [];
  speed = 185;
  angle = pos 0;
  wangle = pos 0;
  fullness = 95;
  sbb = box;
  vp = view;
  parts = body 100 100 ∷ body 58 100 ∷ body 16 100 ∷ body 8 100 ∷ body 4 100 ∷ [];
  eaten = [];
  spawn = [];
  client_parts_index = 5;
  mov_ticks = 0;
  rot_ticks = 0;
  ai_ticks = 0;
  gsc = pos 1;
  sc = pos 1;
  scang = pos 1;
  ssp = pos 5;
  fsp = pos 5;
  sbpr = pos 14;
}

abbrev food : List Food
food =
    record { x = 20; y = 100; size = 8; color = 1 }
    ∷ record { x = 98; y = 101; size = 4; color = 2 }
    ∷ record { x = 103; y = 99; size = 6; color = 3 }
    ∷ record { x = 280; y = 99; size = 6; color = 3 }
    ∷ []

eat_around_example :
    let meal = eat_around 100 100 4900 food snake in
    Ate 100 100 4900 food snake meal.food meal.snake
    × IsFar 100 100 4900 meal.food meal.i
    × IsFarBelow 100 100 4900 meal.food meal.i
    × IsParted 100 meal.food meal.i
eat_around_example = eat_around_lem 100 100 4900 food snake (ground arith) (ground arith)

increase_snake_example :
    (mass (increase_snake 8 snake) ≡ mass snake + 8)
    × ((increase_snake 8 snake).fullness < 100)
    × (5 ≤ length (increase_snake 8 snake).parts)
    × (length (increase_snake 8 snake).parts ≤ 5 + 1)
increase_snake_example = increase_snake-mass 8 snake (omega arith) (omega arith) (omega arith)

decrease_snake_example : mass (decrease_snake 133 (snake, row_of_three)).0 + 133 ≡ mass snake
decrease_snake_example =
    decrease_snake-mass 133 snake row_of_three (omega arith) (omega arith) (omega arith)

decrease_snake_parts_example :
    let after = (decrease_snake 900 (snake, row_of_three)).0 in
    (3 ≤ length after.parts) × (length after.parts ≤ 5) × (after.fullness ≤ 100)
decrease_snake_parts_example =
    decrease_snake-parts 900 snake row_of_three (omega arith) (omega arith) (omega arith)

box-IsRegistered : IsRegistered box row_of_three
unfolding new_sector
box-IsRegistered = record { sorted = ground arith; listed = listed }
  where
    listed : (k : ℕ) → enlisted row_of_three 7 k ≡ (if elem k (0 ∷ []) then 1 else 0)
    listed zero = refl
    listed (suc zero) = refl
    listed (suc (suc zero)) = refl
    listed (suc (suc (suc k))) = ground arith

sbb_update_old_example :
    let done = sbb_update_old box row_of_three in
    (done.0.sectors ≡ select (sector_meets row_of_three box.at) (0 ∷ []))
    × IsRegistered done.0 done.1
    × KeepsOthers 7 row_of_three done.1
sbb_update_old_example = sbb_update_old-IsRegistered box row_of_three box-IsRegistered

sbb_update_new_example :
    let done = sbb_update_new box row_of_three (pos 150) (pos 450) (pos 150) (pos 100) (pos 100) in
    IsRegistered done.0 done.1
    × KeepsOthers 7 row_of_three done.1
    × ((j : ℕ)
        → elem j done.0.sectors ≡ (
            elem j (0 ∷ [])
            || (not (same_sector (pos 450) (pos 150) (pos 100) (pos 100))
                && (elem j (window 1 (sector_coord (pos 450)) (sector_coord (pos 150)))
                    && sector_meets row_of_three
                        (record { x = pos 450; y = pos 150; r = pos 150 })
                        j))))
sbb_update_new_example =
    sbb_update_new-IsRegistered box row_of_three (pos 150) (pos 450) (pos 150) (pos 100) (pos 100)
      box-IsRegistered

view_step_example :
    let step =
      view_step row_of_three view
        (pos 450)
        (pos 150)
        (pos 100)
        (pos 100)
        (pos 450)
        (pos 150)
        (pos 9) in
    IsAscending step.sectors
    × ((j : ℕ)
        → elem j step.sectors
          ≡ ((elem j (0 ∷ []) || elem j step.new_sectors) && not (elem j step.old_sectors)))
    × ((j : ℕ)
        → elem j step.sectors ≡ (
            elem j step.sectors
            && sector_meets row_of_three (record { x = pos 450; y = pos 150; r = pos 9 }) j))
view_step_example =
    view_step_lem row_of_three view (pos 450) (pos 150) (pos 100) (pos 100) (pos 450) (pos 150)
      (pos 9) (ground arith) refl refl

-- The even numbers are kept, and the others are noted.
update_old_example :
    (update_old (λ k _. k % 2 == 0) (λ k s. k ∷ s) (1 ∷ 2 ∷ 5 ∷ 7 ∷ 8 ∷ []) []).0
    ≡ select (λ k. k % 2 == 0) (1 ∷ 2 ∷ 5 ∷ 7 ∷ 8 ∷ [])
update_old_example =
    update_old-eq-select (λ k _. k % 2 == 0) (λ k s. k ∷ s) (λ k j s. refl) (1 ∷ 2 ∷ 5 ∷ 7 ∷ 8 ∷ [])
      [] (ground arith)

window_example : elem (get_index 1 0) (window 1 (pos 0) (negsuc 0)) ≡ (
    (leb_ℤ (pos 0) (pos 2) && leb_ℤ (pos 1) (pos 0 +ℤ pos 1))
    && (leb_ℤ (negsuc 0) (pos 1) && leb_ℤ (pos 0) (negsuc 0 +ℤ pos 1)))
window_example = elem-window 1 0 (omega arith) (omega arith) 1 (pos 0) (negsuc 0)

insert_example : IsAscending (insert 4 (1 ∷ 3 ∷ 7 ∷ []))
insert_example = insert-IsAscending 4 (1 ∷ 3 ∷ 7 ∷ []) (ground arith) refl

get_sector_example :
    get_sector (init_sectors {F = ℤ}) 143 2
    ≡ some (record {
      x = 143;
      y = 2;
      box = record {
        x = pos 1 *ℤ pos (300 * 143 + 150);
        y = pos 1 *ℤ pos (300 * 2 + 150);
        r = pos (sector_diag_size / 2);
      };
      snakes = [];
      food = [];
    })
get_sector_example = get_sector-init_sectors ℤ 143 2 (omega arith) (omega arith)

insert_food_example :
    let f : Food = record { x = 100; y = 5; size = 9; color = 4 } in
    RisesX 0 (insert_food f food) × Perm (insert_food f food) (f ∷ food)
insert_food_example =
    insert_food-RisesX (record { x = 100; y = 5; size = 9; color = 4 }) food (ground arith)
