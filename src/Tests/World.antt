-- ===== src/Tests/World.antt =====
-- The theorems on a step of time and on the world, at a concrete snake and three sectors.
use slitherss.Prelude.{
  ℕ, zero, suc, ◌≡◌, ◌+◌, ◌%◌, ◌<◌, refl, true, false, List, [], ◌∷◌, none, some, arith,
  if◌then◌else◌, ◌==◌, ℤ, pos, elem,
}
use slitherss.Float.{whole_float}
use slitherss.Game.Config.{WorldConfig}
use slitherss.Game.Sector.{Sector, new_sector}
use slitherss.Game.BoundBox.{BoundBox}
use slitherss.Game.BoundBox.Register.{enlisted}
use slitherss.Game.BoundBox.Registry.{IsRegistered, KeepsOthers}
use slitherss.Game.Snake.{Snake, Body, no_changes}
use slitherss.Game.Tick.{mov_frame_interval, tick}
use slitherss.Game.Tick.Clock.{tick-clock}
use slitherss.Game.Tick.Registry.{tick-IsRegistered}
use slitherss.Game.World.{World, get_snake, remove_from_world}
use slitherss.Game.World.Leave.{remove_from_world_lem}

abbrev pub body : ℕ → ℕ → Body ℤ
body x y = record { x = pos x; y = pos y }

abbrev pub box : BoundBox ℤ
box = record { at = record { x = pos 100; y = pos 150; r = pos 50 }; id = 7; sectors = 0 ∷ [] }

abbrev pub snake : Snake ℤ
snake = record {
  id = 7;
  skin = 3;
  update = no_changes;
  acceleration = true;
  bot = false;
  name = b'a' ∷ [];
  speed = 185;
  angle = pos 0;
  wangle = pos 1;
  fullness = 95;
  sbb = box;
  vp = record { bound = box; new_sectors = []; old_sectors = [] };
  parts = body 290 100 ∷ body 248 100 ∷ body 206 100 ∷ body 164 100 ∷ [];
  eaten = [];
  spawn = [];
  client_parts_index = 4;
  mov_ticks = 220;
  rot_ticks = 0;
  ai_ticks = 0;
  gsc = pos 1;
  sc = pos 1;
  scang = pos 1;
  ssp = pos 5;
  fsp = pos 5;
  sbpr = pos 14;
}

abbrev pub sectors : List (Sector ℤ)
sectors = record (new_sector 0 0) { snakes = 7 ∷ 9 ∷ [] } ∷ new_sector 1 0 ∷ new_sector 2 0 ∷ []

pub snake-IsRegistered : IsRegistered box sectors
unfolding new_sector
snake-IsRegistered = record { sorted = ground arith; listed = listed }
  where
    listed : (k : ℕ) → enlisted sectors 7 k ≡ (if elem k (0 ∷ []) then 1 else 0)
    listed zero = refl
    listed (suc zero) = refl
    listed (suc (suc zero)) = refl
    listed (suc (suc (suc k))) = ground arith

tick_example :
    let after = (tick 16 (snake, sectors)).1 in
    (after.0.sbb.id ≡ 7) × IsRegistered after.0.sbb after.1 × KeepsOthers 7 sectors after.1
tick_example = tick-IsRegistered 16 snake sectors snake-IsRegistered

-- 220 and 16 milliseconds at 185 pixels a second: a frame of 227, and 9 left
tick_clock_example :
    let left = (tick 16 (snake, sectors)).1.0.mov_ticks in
    (left ≡ (220 + 16) % mov_frame_interval 185) × (left < mov_frame_interval 185)
tick_clock_example = tick-clock 16 snake sectors refl (omega arith) (omega arith)

abbrev pub config : WorldConfig
config = record { snake_average_length = 30; snake_min_length = 3; bots = 0 }

abbrev pub world : World ℤ
world = record {
  snakes = (7, snake) ∷ [];
  sectors = sectors;
  changes = 7 ∷ 9 ∷ [];
  dead = [];
  last_snake_id = 9;
  ticks = 5;
  frames = 100;
  config = config;
}

world-get_snake : get_snake 7 world ≡ some snake
unfolding get_snake
world-get_snake = refl

remove_from_world_example :
    let after = remove_from_world 7 world in
    ((other : ℕ) → get_snake other after ≡ (if other == 7 then none else get_snake other world))
    × ((other : ℕ)
        → elem other after.changes ≡ (if other == 7 then false else elem other (7 ∷ 9 ∷ [])))
    × ((other k : ℕ)
        → enlisted after.sectors other k ≡ (if other == 7 then 0 else enlisted sectors other k))
remove_from_world_example =
    remove_from_world_lem world 7 snake world-get_snake refl snake-IsRegistered
