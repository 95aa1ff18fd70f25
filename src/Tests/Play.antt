-- ===== src/Tests/Play.antt =====
-- The theorems on collisions, on new snakes and on the life of the world, at concrete inputs. The
-- generator counts up, from the number that it holds.
use slitherss.Prelude.{
  ℕ, zero, suc, ◌+◌, ◌*◌, ◌/◌, ◌%◌, ◌^◌, ◌<◌, ◌≤◌, ◌≡◌, Bool, refl, false, ◌&&◌, ◌||◌, List, [],
  ◌∷◌, arith, some, All, elem, ℤ, pos, take,
}
use slitherss.Float.{whole_float}
use slitherss.Game.Random.{Random}
use slitherss.Game.Sector.{BoundBoxPos, new_sector, init_sectors}
use slitherss.Game.BoundBox.{window, sector_coord}
use slitherss.Game.BoundBox.Register.{enlisted}
use slitherss.Game.BoundBox.Registry.{IsRegistered, KeepsOthers}
use slitherss.Game.Snake.{Snake, Body}
use slitherss.Game.Move.{tail_step, head_of}
use slitherss.Game.Collide.{intersect, intersect_tail}
use slitherss.Game.Collide.Scan.{scan, intersect-scan, intersect_tail-ends, intersect-blind}
use slitherss.Game.Spawn.{create_snake}
use slitherss.Game.Spawn.Covered.{any_covers, each_nth}
use slitherss.Game.Spawn.Registry.{create_snake-IsRegistered}
use slitherss.Game.World.{World, find_snake}
use slitherss.Game.World.Cache.{any_near, is_dying-any_near}
use slitherss.Game.World.Clock.{world_tick-clock}
use slitherss.Game.World.Create.{next_id, enter, init_food, init_world, spawn_num_snakes}
use slitherss.Game.World.Frame.{is_outside, check_of, is_dying, world_tick}
use slitherss.Game.World.Sound.{has, IsSound}
use slitherss.Game.World.Sound.Reached.{init, next, first, come, time, Reached-IsSound}
use slitherss.Game.World.Stock.{IsStocked, init_food-init_sectors}
use slitherss.Tests.World.{body, snake, sectors, config, world}

instance abbrev pub counter : Random ℕ
counter = record { rand = λ n. (n, n + 1); rand_max = 2147483647 }

abbrev seed : ℕ
seed = 5

abbrev foe : BoundBoxPos ℤ
foe = record { x = pos 250; y = pos 110; r = pos 14 }

abbrev line : ℕ → List (Body ℤ)
line zero = []
line (suc n) = body (1000 + 24 * n) 100 ∷ line n

abbrev long : Snake ℤ
long = record snake { parts = line 22 }

tail_step-whole : tail_step ℤ ≡ 12
unfolding tail_step
tail_step-whole = refl

intersect_example : intersect snake foe ≡ (intersect snake foe && scan snake foe snake.parts)
intersect_example = intersect-scan snake foe (rw tail_step-whole (omega arith)) (omega arith)

intersect_tail_example :
    (b : Bool) × ((rounds : ℕ) → 1 ≤ rounds → intersect_tail rounds long foe 13 ≡ some b)
intersect_tail_example = intersect_tail-ends long foe 1 13 (rw tail_step-whole (omega arith))

intersect_blind_example :
    intersect long foe ≡ (intersect long foe && scan long foe (take 19 long.parts))
intersect_blind_example = intersect-blind long foe tail_step-whole (omega arith) (omega arith)

sectors-free : (k : ℕ) → enlisted sectors 3 k ≡ 0
unfolding new_sector
sectors-free zero = refl
sectors-free (suc zero) = refl
sectors-free (suc (suc zero)) = refl
sectors-free (suc (suc (suc k))) = ground arith

create_snake_example :
    let made = create_snake config 3 sectors seed in
    (made.0.0.id ≡ 3)
    × (made.0.0.sbb.id ≡ 3)
    × IsRegistered made.0.0.sbb made.0.1
    × KeepsOthers 3 sectors made.0.1
    × ((j : ℕ)
        → elem j made.0.0.sbb.sectors
          ≡ any_covers sectors j (head_of made.0.0.parts ∷ each_nth (tail_step ℤ) 3 made.0.0.parts))
create_snake_example =
    create_snake-IsRegistered config 3 sectors seed (rw tail_step-whole (omega arith)) sectors-free

init_food_example : All IsStocked (init_food (init_sectors {F = ℤ}) seed).0
init_food_example = init_food-init_sectors ℤ seed

-- The head of the other lies on the body of the snake.
abbrev other : Snake ℤ
other = record snake { id = 9; parts = body 250 110 ∷ body 250 150 ∷ [] }

abbrev arena : World ℤ
arena = record world { snakes = (7, snake) ∷ (9, other) ∷ [] }

arena-own : (b : ℕ) (s : Snake ℤ) → find_snake b arena.snakes ≡ some s → s.id ≡ b
unfolding find_snake
arena-own b s e = ground arith

is_dying_example : is_dying arena other ≡ (
    let check = check_of other in
    let cells = window 1 (sector_coord check.x) (sector_coord check.y) in
    is_outside other || any_near arena.snakes 9 check arena.sectors cells)
is_dying_example = is_dying-any_near arena other arena-own

-- 5 and 30 milliseconds: four frames, and 3 left
world_tick_example :
    let after = world_tick 30 arena in
    (after.ticks ≡ (5 + 30) % 8)
    × (after.frames ≡ (100 + (5 + 30) / 8) % 2 ^ 32)
    × (after.ticks < 8)
world_tick_example = world_tick-clock 30 arena (omega arith)

abbrev pub empty : World ℤ
empty = record world {
  snakes = [];
  sectors = [];
  changes = [];
  last_snake_id = 0;
  ticks = 0;
  frames = 0;
}

abbrev started : World ℤ
started = (init_world config empty seed).0

started-free : has (next_id started) started.snakes ≡ false
unfolding init_world spawn_num_snakes
started-free = refl

-- A snake comes, and 16 milliseconds pass.
Reached_example : IsSound (world_tick 16 (enter started seed).0.1)
Reached_example = Reached-IsSound ℕ (
    next
      (next (init (first config empty seed refl refl refl (omega arith)))
        (come started seed started-free))
      (time 16 (enter started seed).0.1))
