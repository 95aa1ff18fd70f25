-- ===== src/Game/World/Leave.antt =====
-- World::RemoveSnake.
use slitherss.Prelude.{
  ℕ, ◌≡◌, refl, false, not, List, [], ◌∷◌, none, some, arith, foldl, ◌==◌, if◌then◌else◌, elem,
  elem-select, modify,
}
use slitherss.Game.Sector.{Sector, remove_snake}
use slitherss.Game.Snake.{Snake}
use slitherss.Game.BoundBox.Register.{enlisted, enlisted-remove_snake}
use slitherss.Game.BoundBox.Registry.{IsRegistered}
use slitherss.Game.World.{
  World, find_snake, erase_snake, get_snake, flush_changes, remove_from_world,
}

module _ {F : Type 0} where
  pub enlisted-remove_all :
      (id : ℕ) (ks : List ℕ) (ss : List (Sector F)) (other j : ℕ)
      → enlisted (foldl (λ ss' k. modify ss' k (remove_snake id)) ss ks) other j ≡ (
          if elem j ks
          then (if other == id then 0 else enlisted ss other j)
          else enlisted ss other j)
  enlisted-remove_all id [] ss other j = refl
  enlisted-remove_all id (k ∷ ks) ss other j = ground (
    arith,
    enlisted-remove_all id ks (modify ss k (remove_snake id)) other j,
    enlisted-remove_snake ss id k other j,
  )

  pub find_snake-erase_snake :
      (id other : ℕ) (snakes : List (ℕ × Snake F))
      → find_snake other (erase_snake id snakes)
        ≡ (if other == id then none else find_snake other snakes)
  unfolding find_snake erase_snake
  find_snake-erase_snake id other [] = ground arith
  find_snake-erase_snake id other ((k, s) ∷ rest) =
      ground (arith, find_snake-erase_snake id other rest)

  -- World::RemoveSnake of a snake that is in the world and registered under its id: after it the
  -- snake is not found, is not among the changed snakes, and stands in the list of no sector; all of
  -- this is as it was for the other snakes.
  pub remove_from_world_lem :
      (w : World F) (id : ℕ) (s : Snake F)
      → get_snake id w ≡ some s
      → s.sbb.id ≡ id
      → IsRegistered s.sbb w.sectors
      → let after = remove_from_world id w in
        ((other : ℕ) → get_snake other after ≡ (if other == id then none else get_snake other w))
        × ((other : ℕ)
            → elem other after.changes ≡ (if other == id then false else elem other w.changes))
        × ((other k : ℕ)
            → enlisted after.sectors other k
              ≡ (if other == id then 0 else enlisted w.sectors other k))
  unfolding get_snake remove_from_world flush_changes
  remove_from_world_lem w id s e own reg =
      rw (e, remove_from_world)
        (
          λ other. find_snake-erase_snake id other w.snakes,
          λ other. ground (arith, elem-select (λ k. not (k == id)) other w.changes),
          λ other k.
              ground
                (arith, enlisted-remove_all id s.sbb.sectors w.sectors other k, reg.listed k, own),
        )
