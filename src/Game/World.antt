-- ===== src/Game/World.antt =====
-- Of src/game/world.h and src/game/world.cc: the state of the world, and how a snake comes and leaves. The map of the snakes is a list of pairs, and a `Snake *` in `changes` is the id.
pub mod Leave
pub mod Frame
pub mod Create
pub mod Stock
pub mod Clock
pub mod Cache
pub mod Sound
pub mod Sites
use slitherss.Prelude.{
  ℕ, not, List, [], ◌∷◌, Option, none, some, foldl, ◌==◌, if◌then◌else◌, select, modify,
}
use slitherss.Game.Config.{WorldConfig}
use slitherss.Game.Sector.{Sector, remove_snake}
use slitherss.Game.Snake.{Snake}

pub record World (F : Type 0) : Type 0 where
  pub snakes : List (ℕ × Snake F)
  pub sectors : List (Sector F)
  pub changes : List ℕ
  pub dead : List ℕ
  pub last_snake_id : ℕ
  pub ticks : ℕ
  pub frames : ℕ
  pub config : WorldConfig

module _ {F : Type 0} where
  -- `find`, `insert` of a pair whose key may be there, and `erase`
  unfoldable pub find_snake : ℕ → List (ℕ × Snake F) → Option (Snake F)
  find_snake id [] = none
  find_snake id ((k, s) ∷ rest) = if k == id then some s else find_snake id rest

  unfoldable pub erase_snake : ℕ → List (ℕ × Snake F) → List (ℕ × Snake F)
  erase_snake id [] = []
  erase_snake id ((k, s) ∷ rest) =
      let left = erase_snake id rest in if k == id then left else (k, s) ∷ left

  -- World::GetSnake
  unfoldable pub get_snake : ℕ → World F → Option (Snake F)
  unfolding find_snake
  get_snake id w = find_snake id w.snakes

  -- World::AddSnake: a key that is there keeps its snake.
  unfoldable pub add_snake : Snake F → World F → World F
  unfolding find_snake
  add_snake s w = elim (find_snake s.id w.snakes) [
    | none ↦ record w { snakes = (s.id, s) ∷ w.snakes }
    | some _ ↦ w
  ]

  -- A change of a snake through its pointer
  unfoldable pub update_snake : ℕ → (Snake F → Snake F) → List (ℕ × Snake F) → List (ℕ × Snake F)
  update_snake id f [] = []
  update_snake id f ((k, s) ∷ rest) =
      let later = update_snake id f rest in if k == id then (k, f s) ∷ rest else (k, s) ∷ later

  -- World::FlushChanges of one snake
  unfoldable pub flush_changes : ℕ → World F → World F
  flush_changes id w = record w { changes = select (λ k. not (k == id)) w.changes }

  -- World::RemoveSnake
  unfoldable pub remove_from_world : ℕ → World F → World F
  unfolding find_snake erase_snake flush_changes remove_snake
  remove_from_world id w =
      let flushed = flush_changes id w in
      elim (find_snake id flushed.snakes) [
        | none ↦ flushed
        | some s ↦ record flushed {
          sectors = foldl (λ ss k. modify ss k (remove_snake id)) flushed.sectors s.sbb.sectors;
          snakes = erase_snake id flushed.snakes;
        }
      ]
