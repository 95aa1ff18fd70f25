-- ===== src/Game/World/Sites.antt =====
-- Nothing that happens to the world moves its sectors.
use slitherss.Prelude.{
  ℕ, zero, suc, ◌≡◌, refl, ap, ◌∙◌, inl, inr, List, [], ◌∷◌, Option-cases, foldl, modify,
}
use slitherss.Float.{Float}
use slitherss.Game.Config.{WorldConfig}
use slitherss.Game.Random.{Random}
use slitherss.Game.Sector.{Sector, init_sectors, remove_snake}
use slitherss.Game.Sector.Sites.{site, sites, sites-modify, site-remove_snake}
use slitherss.Game.Snake.{Snake}
use slitherss.Game.Spawn.{create_snake, create_snake_bot}
use slitherss.Game.Spawn.Seen.{sites-create_snake}
use slitherss.Game.World.{World, find_snake, add_snake, remove_from_world, flush_changes}
use slitherss.Game.World.Create.{
  next_id, enter, enter_bot, spawn_num_snakes, density, fill, init_food, init_world,
}

module _ {F : Type 0} where
  sites-remove_snakes :
      (id : ℕ) (ks : List ℕ) (ss : List (Sector F))
      → sites (foldl (λ ss' k. modify ss' k (remove_snake id)) ss ks) ≡ sites ss
  sites-remove_snakes id [] ss = refl
  sites-remove_snakes id (k ∷ ks) ss =
      sites-remove_snakes id ks (modify ss k (remove_snake id))
      ∙ sites-modify ss k (remove_snake id) (site-remove_snake id)

  pub sites-remove_from_world :
      (id : ℕ) (w : World F) → sites (remove_from_world id w).sectors ≡ sites w.sectors
  unfolding remove_from_world flush_changes
  sites-remove_from_world id w = elim (Option-cases (find_snake id w.snakes)) [
    | inl e ↦ rw (e, remove_from_world) refl
    | inr (s, e) ↦ rw (e, remove_from_world) (sites-remove_snakes id s.sbb.sectors w.sectors)
  ]

  sites-add_snake : (s : Snake F) (w : World F) → sites (add_snake s w).sectors ≡ sites w.sectors
  unfolding add_snake
  sites-add_snake s w = elim (Option-cases (find_snake s.id w.snakes)) [
    | inl e ↦ rw (e, add_snake) refl
    | inr (t, e) ↦ rw (e, add_snake) refl
  ]

module _ {F : Type 0} ⦃float : Float F⦄ {G : Type 0} ⦃random : Random G⦄ where
  pub sites-enter : (w : World F) (g : G) → sites (enter w g).0.1.sectors ≡ sites w.sectors
  unfolding enter
  sites-enter w g =
      let id = next_id w in
      let made = create_snake w.config id w.sectors g in
      sites-add_snake made.0.0 (record w { sectors = made.0.1; last_snake_id = id })
      ∙ sites-create_snake w.config id w.sectors g

  sites-enter_bot : (w : World F) (g : G) → sites (enter_bot w g).0.sectors ≡ sites w.sectors
  unfolding enter_bot create_snake_bot
  sites-enter_bot w g =
      let id = next_id w in
      let made = create_snake_bot w.config id w.sectors g in
      sites-add_snake made.0.0 (record w { sectors = made.0.1; last_snake_id = id })
      ∙ sites-create_snake w.config id w.sectors g

  sites-spawn :
      (n : ℕ) (w : World F) (g : G) → sites (spawn_num_snakes n w g).0.sectors ≡ sites w.sectors
  unfolding spawn_num_snakes
  sites-spawn zero w g = refl
  sites-spawn (suc n) w g =
      let entered = enter_bot w g in sites-spawn n entered.0 entered.1 ∙ sites-enter_bot w g

  sites-init_food : (ss : List (Sector F)) (g : G) → sites (init_food ss g).0 ≡ sites ss
  unfolding init_food
  sites-init_food [] g = refl
  sites-init_food (s ∷ ss) g =
      let filled = fill (density F s.x s.y) s.x s.y s.food g in
      ap (λ ps. site s ∷ ps) (sites-init_food ss filled.1)

  pub sites-init_world :
      (config : WorldConfig) (w : World F) (g : G)
      → sites (init_world config w g).0.sectors ≡ sites (init_sectors {F = F})
  unfolding init_world
  sites-init_world config w g =
      let fed = init_food (init_sectors {F = F}) g in
      sites-spawn config.bots (record w { config = config; sectors = fed.0 }) fed.1
      ∙ sites-init_food (init_sectors {F = F}) g
