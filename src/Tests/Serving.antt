-- ===== src/Tests/Serving.antt =====
-- The theorems on the game server, for a server that runs and a connection that comes, and for small
-- worlds with one snake.
use slitherss.Prelude.{
  ℕ, zero, suc, ◌+◌, ◌≡◌, refl, sym, ap, ◌∙◌, true, false, inl, inr, List, [], ◌∷◌, Option, none,
  some, arith, ℤ, elem, Option-cases, get_elem?, if◌then◌else◌,
}
use slitherss.Game.Sector.{Sector, new_sector}
use slitherss.Game.Snake.{Snake, no_changes}
use slitherss.Game.BoundBox.Register.{enlisted}
use slitherss.Game.World.{World, find_snake}
use slitherss.Server.Game.Broadcast.{broadcast_updates, remove_dead_snakes}
use slitherss.Server.Game.Update.{tell_rotation, tell_movement}
use slitherss.Server.Game.Replay.Counted.{IsCounted, tell_movement-IsCounted}
use slitherss.Server.Game.Linked.Gone.{remove_dead_snakes-broadcast_updates}
use slitherss.Server.Game.Linked.Reach.{StaysWithin, on_message-StaysWithin}
use slitherss.Float.{whole_float}
use slitherss.Game.World.Create.{next_id, init_world, spawn_num_snakes}
use slitherss.Game.World.Sound.{has, IsSound}
use slitherss.Server.Maps.{find_key}
use slitherss.Server.Game.{Clock, new_session, Server}
use slitherss.Server.Game.Handlers.{
  build_init_packet, next_tick, run, on_timer, on_open, on_message, on_close,
}
use slitherss.Server.Game.Linked.{snake_of, IsLinked}
use slitherss.Server.Game.Linked.Served.{
  IsNew, started, opened, told, timed, closed, Serves-IsLinked, quiet-IsLinked, Serves,
}
use slitherss.Game.World.Sound.Reached.{Reached}
use slitherss.Server.Game.Linked.Reached.{Serves-Reached}
use slitherss.Server.Game.Watched.Served.{sites-first, sites-Serves, Serves-Watches}
use slitherss.Game.Sector.Sites.{site_of, get_elem?-sites}
use slitherss.Server.Game.Watched.Arrived.{on_open-arrives}
use slitherss.Server.Game.Replay.Shown.{shown}
use slitherss.Tests.World.{config, snake, world}
use slitherss.Tests.Play.{counter, empty}

-- A millisecond passes between two readings.
instance abbrev pub stop_watch : Clock ℕ
stop_watch = record { now = λ n. (n, n + 1) }

abbrev pub made : Server ℤ ℕ
made = record {
  world = empty;
  sessions = [];
  connections = [];
  init = build_init_packet ℤ;
  debug = false;
  last_time_point = 0;
  outside = 5;
  sent = [];
  is_lost = false;
}

abbrev pub made-IsNew : IsNew made
made-IsNew = record {
  snakes = refl;
  changes = refl;
  dead = refl;
  last_snake_id = refl;
  sessions = refl;
  connections = refl;
  is_lost = refl;
}

abbrev running : Server ℤ ℕ
running = run config false made

running-free : has (next_id running.world) running.world.snakes ≡ false
unfolding run next_tick init_world spawn_num_snakes
running-free = refl

running-fresh : snake_of 4 running.sessions ≡ none
unfolding run next_tick find_key
running-fresh = refl

abbrev served : Server ℤ ℕ
served = on_timer false (on_message 4 true (253 ∷ []) (on_open 4 running))

abbrev served-Serves : Serves (on_close 4 served)
served-Serves = closed 4 served (
    timed false (on_message 4 true (253 ∷ []) (on_open 4 running)) (
      told 4 true (253 ∷ []) (on_open 4 running) (
        opened 4 running running-free running-fresh
          (started config false made made-IsNew (omega arith)))))

Serves_example : ((on_close 4 served).is_lost ≡ false) × IsLinked (on_close 4 served)
Serves_example = Serves-IsLinked served-Serves

Serves-Reached_example : Reached ℕ (on_close 4 served).world
Serves-Reached_example = Serves-Reached served-Serves

-- The client of a connection that opens, and the snake that it gets
abbrev welcomed : Server ℤ ℕ
welcomed = on_open 4 running

welcomed-Serves : Serves welcomed
welcomed-Serves =
    opened 4 running running-free running-fresh (started config false made made-IsNew (omega arith))

abbrev arrived :
    (snake_of 4 welcomed.sessions ≡ some (next_id running.world))
    × (s : Snake ℤ) × (find_snake (next_id running.world) welcomed.world.snakes ≡ some s)
    × (s.update.dying ≡ false)
arrived = on_open-arrives 4 running running-free

abbrev or_sector : Option (Sector ℤ) → Sector ℤ
or_sector none = new_sector 0 0
or_sector (some s) = s

abbrev welcomed_sector : Sector ℤ
welcomed_sector = or_sector (get_elem? welcomed.world.sectors 0)

welcomed-sector : get_elem? welcomed.world.sectors 0 ≡ some welcomed_sector
welcomed-sector = elim (Option-cases (get_elem? welcomed.world.sectors 0)) [
  | inl gone ↦ absurd (
      ground (
        arith,
        sym (ap site_of gone)
            ∙ sym (get_elem?-sites welcomed.world.sectors 0)
            ∙ ap (λ ps. get_elem? ps 0) (sites-Serves welcomed-Serves)
            ∙ sites-first ℤ,
      ))
  | inr (sec, found) ↦ found ∙ ap some (sym (ap or_sector found))
]

Serves-Watches_example :
    shown welcomed_sector.x welcomed_sector.y 4 welcomed ≡ elem 0 arrived.1.vp.sectors
Serves-Watches_example =
    Serves-Watches welcomed-Serves 4 (next_id running.world) 0 arrived.1 welcomed_sector arrived.0
      arrived.2 arrived.3 welcomed-sector

-- A player's snake with a session
abbrev desk : Server ℤ ℕ
desk = record made {
  world = world;
  sessions = (4, new_session 7 0) ∷ [];
  connections = (7, 4) ∷ [];
}

desk-session : find_key 4 desk.sessions ≡ some (new_session 7 0)
unfolding find_key
desk-session = refl

on_message_example : StaysWithin 4 7 desk (on_message 4 true (253 ∷ []) desk)
on_message_example = on_message-StaysWithin 4 true (253 ∷ []) desk (new_session 7 0) desk-session

-- A bot that is dying
abbrev bot_snake : Snake ℤ
bot_snake = record snake { bot = true; update = record no_changes { dying = true } }

abbrev bot_sectors : List (Sector ℤ)
bot_sectors = record (new_sector 0 0) { snakes = 7 ∷ [] } ∷ new_sector 1 0 ∷ []

abbrev bot_world : World ℤ
bot_world = record world { snakes = (7, bot_snake) ∷ []; sectors = bot_sectors; changes = 7 ∷ [] }

bot_sectors-listed : (k : ℕ) → enlisted bot_sectors 7 k ≡ (if elem k (0 ∷ []) then 1 else 0)
unfolding new_sector
bot_sectors-listed zero = refl
bot_sectors-listed (suc zero) = refl
bot_sectors-listed (suc (suc k)) = ground arith

bot_sectors-strays : (id k : ℕ) → has id bot_world.snakes ≡ false → enlisted bot_sectors id k ≡ 0
unfolding new_sector
bot_sectors-strays id zero h = ground arith
bot_sectors-strays id (suc zero) h = refl
bot_sectors-strays id (suc (suc k)) h = ground arith

bot_world-IsSound : IsSound bot_world
bot_world-IsSound = record {
  own = (
    record {
      id = refl;
      box = refl;
      reg = record { sorted = ground arith; listed = bot_sectors-listed };
    },
    tt,
  );
  unique = (refl, tt);
  strays = bot_sectors-strays;
  changed = λ id h. ground arith;
}

abbrev arena : Server ℤ ℕ
arena = record made { world = bot_world }

arena-IsLinked : IsLinked arena
unfolding find_snake
arena-IsLinked = quiet-IsLinked arena bot_world-IsSound refl refl refl (λ i. ground arith)

arena-found : find_snake 7 bot_world.snakes ≡ some bot_snake
unfolding find_snake
arena-found = refl

remove_dead_example :
    find_snake 7 (remove_dead_snakes (broadcast_updates arena)).world.snakes ≡ none
remove_dead_example =
    remove_dead_snakes-broadcast_updates 7 bot_snake arena arena-IsLinked refl arena-found refl refl
      refl

-- The client knows three of the four parts.
abbrev grown : Snake ℤ
grown = record snake { client_parts_index = 3; update = record no_changes { pos = true } }

tell_movement_example : IsCounted 4 3 (tell_movement (tell_rotation (grown, desk)))
tell_movement_example = tell_movement-IsCounted 4 3 grown desk refl refl
