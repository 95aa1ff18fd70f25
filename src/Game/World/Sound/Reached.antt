-- ===== src/Game/World/Sound/Reached.antt =====
-- The worlds that the server can come to: the first one, and the steps from it.
use slitherss.Prelude.{
  ℕ, zero, suc, ◌+◌, ◌^◌, ◌≤◌, ◌<◌, ◌≡◌, refl, true, false, inl, inr, List, [], some, arith,
  Option-cases,
}
use slitherss.Float.{Float}
use slitherss.Game.Config.{WorldConfig}
use slitherss.Game.Random.{Random}
use slitherss.Game.Sector.{init_sectors}
use slitherss.Game.BoundBox.Register.{enlisted}
use slitherss.Game.Snake.{Snake}
use slitherss.Game.Death.{on_dead_food_spawn}
use slitherss.Game.Death.Kept.{food_spawn-Feeds}
use slitherss.Game.Spawn.{create_snake_bot}
use slitherss.Game.Spawn.Registry.{create_snake-id}
use slitherss.Game.World.{World, find_snake, update_snake, add_snake, remove_from_world}
use slitherss.Game.World.Frame.{world_tick}
use slitherss.Game.World.Create.{next_id, enter, enter_bot, spawn_num_snakes, init_food, init_world}
use slitherss.Game.World.Stock.{enlisted-IsStocked, init_food-init_sectors}
use slitherss.Game.World.Sound.{has, IsSound}
use slitherss.Game.World.Sound.Fed.{sectors-IsSound}
use slitherss.Game.World.Sound.Ticks.{world_tick-IsSound, update_snake-IsSound}
use slitherss.Game.World.Sound.Entering.{
  enter-IsSound, enter_bot-IsSound, remove_from_world-IsSound,
}

module _ {F : Type 0} where
  -- The ids of the map are those that were given.
  abbrev IsGiven : World F → Type 0
  IsGiven w = (id : ℕ) → has id w.snakes ≡ true → id ≤ w.last_snake_id

  add_snake-IsGiven :
      (s : Snake F) (w : World F)
      → s.id ≡ w.last_snake_id
      → ((id : ℕ) → has id w.snakes ≡ true → id ≤ w.last_snake_id)
      → ((add_snake s w).last_snake_id ≡ w.last_snake_id) × IsGiven (add_snake s w)
  unfolding add_snake
  add_snake-IsGiven s w own h = elim (Option-cases (find_snake s.id w.snakes)) [
    | inl free ↦ rw (free, add_snake) (refl, λ id e. ground (arith, own, h id))
    | inr (t, taken) ↦ rw (taken, add_snake) (refl, h)
  ]

  empty-IsSound :
      (w : World F)
      → w.snakes ≡ []
      → w.changes ≡ []
      → ((id k : ℕ) → enlisted w.sectors id k ≡ 0)
      → IsSound w × IsGiven w
  empty-IsSound w none_in none_told quiet = (
    record {
      own = rw none_in tt;
      unique = rw none_in tt;
      strays = λ id k h. quiet id k;
      changed = λ id h. ground (arith, none_told);
    },
    λ id h. ground (arith, none_in),
  )

  next_id-free :
      (w : World F)
      → IsGiven w
      → w.last_snake_id + 1 < 2 ^ 16
      → (next_id w ≡ w.last_snake_id + 1) × (has (next_id w) w.snakes ≡ false)
  next_id-free w h l = (omega arith, ground (arith, h (next_id w)))

module _ {F : Type 0} ⦃float : Float F⦄ (G : Type 0) ⦃random : Random G⦄ where
  enter_bot-IsGiven :
      (w : World F) (g : G)
      → w.last_snake_id + 1 < 2 ^ 16
      → IsGiven w
      → ((enter_bot w g).0.last_snake_id ≡ next_id w) × IsGiven (enter_bot w g).0
  unfolding enter_bot create_snake_bot
  enter_bot-IsGiven w g l h =
      let id = next_id w in
      let made = create_snake_bot w.config id w.sectors g in
      add_snake-IsGiven made.0.0 (record w { sectors = made.0.1; last_snake_id = id })
        (create_snake-id w.config id w.sectors g) (λ i e. omega (arith, h i e))

  spawn-IsSound :
      (n : ℕ) (w : World F) (g : G)
      → w.last_snake_id + n < 2 ^ 16
      → IsSound w
      → IsGiven w
      → IsSound (spawn_num_snakes n w g).0
  unfolding spawn_num_snakes
  spawn-IsSound zero w g l v h = v
  spawn-IsSound (suc n) w g l v h =
      let entered = enter_bot w g in
      let known = enter_bot-IsGiven w g (omega arith) h in
      spawn-IsSound n entered.0 entered.1 (omega (arith, known.0))
        (enter_bot-IsSound w g v (next_id-free w h (omega arith)).1) known.1

  -- The world that World::Init leaves
  pub data IsFirst : World F → Type 0 where
    first :
        (config : WorldConfig) (w : World F) (g : G)
        → w.snakes ≡ []
        → w.changes ≡ []
        → w.last_snake_id ≡ 0
        → config.bots < 2 ^ 16
        → IsFirst (init_world config w g).0

  -- What the server does with the world: time passes, a snake or a bot comes under an id that is not
  -- in use, a snake leaves, a snake is changed through its pointer but not its id and box, the food of
  -- a dead snake falls, the dead bots are noted or dropped, and the changes are told.
  pub data Step : World F → World F → Type 0 where
    time : (dt : ℕ) (w : World F) → Step w (world_tick dt w)
    come : (w : World F) (g : G) → has (next_id w) w.snakes ≡ false → Step w (enter w g).0.1
    bot : (w : World F) (g : G) → has (next_id w) w.snakes ≡ false → Step w (enter_bot w g).0
    leave : (id : ℕ) (w : World F) → Step w (remove_from_world id w)
    touch :
        (w : World F) (id : ℕ) (f : Snake F → Snake F)
        → ((s : Snake F)
            → find_snake id w.snakes ≡ some s
            → ((f s).id ≡ s.id) × ((f s).sbb ≡ s.sbb))
        → Step w (record w { snakes = update_snake id f w.snakes })
    feed :
        (s : Snake F) (w : World F) (g : G)
        → Step w (record w { sectors = (on_dead_food_spawn (s, w.sectors) g).0.1 })
    bury : (ids : List ℕ) (w : World F) → Step w (record w { dead = ids })
    tell : (w : World F) → Step w (record w { changes = [] })

  pub data Reached : World F → Type 0 where
    init : {w : World F} → IsFirst w → Reached w
    next : {w w' : World F} → Reached w → Step w w' → Reached w'

  pub IsFirst-IsSound : {w : World F} → IsFirst w → IsSound w
  unfolding init_world
  IsFirst-IsSound (first config w g none_in none_told zero_id few) =
      let fed = init_food (init_sectors {F = F}) g in
      let begun : World F = record w { config = config; sectors = fed.0 } in
      let quiet = λ (id k : ℕ). enlisted-IsStocked id k fed.0 (init_food-init_sectors F g) in
      let empty = empty-IsSound begun none_in none_told quiet in
      spawn-IsSound config.bots begun fed.1 (omega (arith, zero_id)) empty.0 empty.1

  Step-IsSound : {w w' : World F} → Step w w' → IsSound w → IsSound w'
  Step-IsSound (time dt w) v = world_tick-IsSound dt w v
  Step-IsSound (come w g free) v = enter-IsSound w g v free
  Step-IsSound (bot w g free) v = enter_bot-IsSound w g v free
  Step-IsSound (leave id w) v = remove_from_world-IsSound id w v
  Step-IsSound (touch w id f same) v = update_snake-IsSound w id f same v
  Step-IsSound (feed s w g) v =
      sectors-IsSound w (on_dead_food_spawn (s, w.sectors) g).0.1
        (food_spawn-Feeds (s, w.sectors) g).lists v
  Step-IsSound (bury ids w) v = record {
    own = v.own;
    unique = v.unique;
    strays = v.strays;
    changed = v.changed;
  }
  Step-IsSound (tell w) v = record {
    own = v.own;
    unique = v.unique;
    strays = v.strays;
    changed = λ id h. absurd cc;
  }

  -- In every world that comes from World::Init with fewer than 65536 bots, by time, by snakes that come
  -- under an id not in use, by snakes that leave, by changes of a snake that keep its id and box, by
  -- the food of dead snakes, and by what is noted of dead bots and of changes: each snake stands once
  -- in the map, under the id that it and its box have, it is registered with exactly the sectors of
  -- its box, and no sector's list and no pointer in `changes` leads to a snake that is gone.
  pub Reached-IsSound : {w : World F} → Reached w → IsSound w
  Reached-IsSound (init f) = IsFirst-IsSound f
  Reached-IsSound (next r s) = Step-IsSound s (Reached-IsSound r)
