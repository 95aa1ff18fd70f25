-- ===== src/Server/Game/Linked/Entered.antt =====
-- The snakes that come into the world, and which of them are players'.
use slitherss.Prelude.{
  ℕ, zero, suc, ◌≡◌, refl, sym, subst, ap, ◌∙◌, true, false, not, inl, inr, List, [], none, some,
  arith, ◌==◌, if◌then◌else◌, Option-cases,
}
use slitherss.Float.{Float}
use slitherss.Game.Config.{WorldConfig}
use slitherss.Game.Random.{Random}
use slitherss.Game.Sector.{Sector, init_sectors}
use slitherss.Game.Snake.{Snake, update_snake_consts}
use slitherss.Game.Spawn.{
  new_snake, update_box_center, update_box_radius, init_box_new_sectors, draw_snake, create_snake,
  create_snake_bot,
}
use slitherss.Game.Spawn.Registry.{create_snake-id}
use slitherss.Game.World.{World, find_snake, add_snake}
use slitherss.Game.World.Create.{next_id, enter, enter_bot, spawn_num_snakes, init_food, init_world}
use slitherss.Game.World.Sound.{has}
use slitherss.Game.World.Sound.Entering.{find_snake-has}
use slitherss.Server.Game.Linked.{is_player}

module _ {F : Type 0} where
  add_snake-free :
      (s : Snake F) (j : ℕ) (w : World F)
      → find_snake s.id w.snakes ≡ none
      → (find_snake j (add_snake s w).snakes
          ≡ (if s.id == j then some s else find_snake j w.snakes))
        × ((add_snake s w).dead ≡ w.dead)
  unfolding add_snake find_snake
  add_snake-free s j w free = rw (free, add_snake) (refl, refl)

  add_snake-player :
      (s : Snake F) (j : ℕ) (w : World F)
      → s.bot ≡ true
      → (is_player j (add_snake s w) ≡ is_player j w) × ((add_snake s w).dead ≡ w.dead)
  unfolding add_snake find_snake
  add_snake-player s j w bot = elim (Option-cases (find_snake s.id w.snakes)) [
    | inl free ↦ rw (free, add_snake) (ground (arith, free, bot), refl)
    | inr (t, taken) ↦ rw (taken, add_snake) (refl, refl)
  ]

module _ {F : Type 0} ⦃float : Float F⦄ {G : Type 0} ⦃random : Random G⦄ where
  create_snake-bot :
      (config : WorldConfig) (id : ℕ) (ss : List (Sector F)) (g : G)
      → (create_snake config id ss g).0.0.bot ≡ false
  unfolding create_snake draw_snake init_box_new_sectors update_snake_consts update_box_radius
      update_box_center new_snake
  create_snake-bot config id ss g = refl

  -- A snake that comes under an id that is not in use
  pub enter-found :
      (w : World F) (g : G)
      → has (next_id w) w.snakes ≡ false
      → let made = (enter w g).0 in
        (made.0.id ≡ next_id w)
        × (made.0.bot ≡ false)
        × ((j : ℕ)
            → find_snake j made.1.snakes
              ≡ (if next_id w == j then some made.0 else find_snake j w.snakes))
        × (made.1.dead ≡ w.dead)
  unfolding enter
  enter-found w g free =
      let id = next_id w in
      let made = create_snake w.config id w.sectors g in
      let own = create_snake-id w.config id w.sectors g in
      let begun : World F = record w { sectors = made.0.1; last_snake_id = id } in
      let absent : find_snake made.0.0.id w.snakes ≡ none =
        subst (λ i. find_snake i w.snakes ≡ none) (sym own) (find_snake-has id w.snakes free) in
      (
        own,
        create_snake-bot w.config id w.sectors g,
        λ j.
            subst
              (λ i.
                find_snake j (add_snake made.0.0 begun).snakes
                ≡ (if i == j then some made.0.0 else find_snake j w.snakes))
              own (add_snake-free made.0.0 j begun absent).0,
        (add_snake-free made.0.0 id begun absent).1,
      )

  enter_bot-player :
      (j : ℕ) (w : World F) (g : G)
      → (is_player j (enter_bot w g).0 ≡ is_player j w) × ((enter_bot w g).0.dead ≡ w.dead)
  unfolding enter_bot create_snake_bot
  enter_bot-player j w g =
      let id = next_id w in
      let made = create_snake_bot w.config id w.sectors g in
      add_snake-player made.0.0 j (record w { sectors = made.0.1; last_snake_id = id }) refl

  spawn-player :
      (n j : ℕ) (w : World F) (g : G)
      → (is_player j (spawn_num_snakes n w g).0 ≡ is_player j w)
        × ((spawn_num_snakes n w g).0.dead ≡ w.dead)
  unfolding spawn_num_snakes
  spawn-player zero j w g = (refl, refl)
  spawn-player (suc n) j w g =
      let entered = enter_bot w g in
      let rest = spawn-player n j entered.0 entered.1 in
      let one = enter_bot-player j w g in (rest.0 ∙ one.0, rest.1 ∙ one.1)

  -- World::Init makes bots only.
  pub init_world-player :
      (config : WorldConfig) (j : ℕ) (w : World F) (g : G)
      → w.snakes ≡ []
      → (is_player j (init_world config w g).0 ≡ false) × ((init_world config w g).0.dead ≡ w.dead)
  unfolding init_world
  init_world-player config j w g empty =
      let fed = init_food (init_sectors {F = F}) g in
      let begun : World F = record w { config = config; sectors = fed.0 } in
      let rest = spawn-player config.bots j begun fed.1 in
      (rest.0 ∙ ap (λ l. elim (find_snake j l) [ none ↦ false | some s ↦ not s.bot ]) empty, rest.1)
