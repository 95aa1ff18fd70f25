-- ===== src/Game/World/Stock.antt =====
-- InitSectors and InitFood: the sectors before any snake comes.
use slitherss.Prelude.{ℕ, zero, suc, ◌≡◌, refl, List, [], ◌∷◌, All}
use slitherss.Float.{Float}
use slitherss.Game.Random.{Random}
use slitherss.Game.Sector.{Food, Sector, new_sector, sectors_from, init_sectors}
use slitherss.Game.Sector.Larder.{RisesX, insert_food-RisesX}
use slitherss.Game.BoundBox.Register.{enlisted}
use slitherss.Game.World.Create.{fill, sort_food, density, init_food}

-- A sector that no snake is in, with its food sorted
pub record IsStocked {F : Type 0} (s : Sector F) : Type 0 where
  pub quiet : s.snakes ≡ []
  pub food : RisesX 0 s.food

sort_food-RisesX : (fs : List Food) → RisesX 0 (sort_food fs)
unfolding sort_food
sort_food-RisesX [] = tt
sort_food-RisesX (f ∷ fs) = (insert_food-RisesX f (sort_food fs) (sort_food-RisesX fs)).0

pub enlisted-IsStocked :
    {F : Type 0} (id k : ℕ) (ss : List (Sector F)) → All IsStocked ss → enlisted ss id k ≡ 0
enlisted-IsStocked id k [] v = refl
enlisted-IsStocked id zero (s ∷ ss) (q, v) = rw q.quiet refl
enlisted-IsStocked id (suc k) (s ∷ ss) (q, v) = enlisted-IsStocked id k ss v

module _ (F : Type 0) ⦃float : Float F⦄ where
  sectors_from-IsStocked : (n i : ℕ) → All IsStocked (sectors_from {F = F} n i)
  unfolding sectors_from new_sector
  sectors_from-IsStocked zero i = tt
  sectors_from-IsStocked (suc n) i =
      (record { quiet = refl; food = tt }, sectors_from-IsStocked n (suc i))

  module _ {G : Type 0} ⦃random : Random G⦄ where
    init_food-IsStocked :
        (ss : List (Sector F)) (g : G) → All IsStocked ss → All IsStocked (init_food ss g).0
    unfolding init_food
    init_food-IsStocked [] g v = tt
    init_food-IsStocked (s ∷ ss) g (q, v) =
        let filled = fill (density F s.x s.y) s.x s.y s.food g in
        (
          record { quiet = q.quiet; food = sort_food-RisesX filled.0 },
          init_food-IsStocked ss filled.1 v,
        )

    -- InitFood over the sectors that InitSectors made, whatever the generator gives: no sector has a
    -- snake, and the food of each is sorted by x, which the binary search of FindClosestFood needs.
    pub init_food-init_sectors : (g : G) → All IsStocked (init_food (init_sectors {F = F}) g).0
    unfolding init_sectors
    init_food-init_sectors g =
        init_food-IsStocked (init_sectors {F = F}) g (sectors_from-IsStocked 20736 0)
