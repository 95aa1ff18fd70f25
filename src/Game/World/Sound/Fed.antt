-- ===== src/Game/World/Sound/Fed.antt =====
-- What changes in the sectors but for the lists of the snakes, as the food of a dead snake, leaves a
-- world in order.
use slitherss.Prelude.{ℕ, ◌∙◌, List, [], ◌∷◌, All}
use slitherss.Game.Sector.{Sector}
use slitherss.Game.Snake.{Snake}
use slitherss.Game.Death.Kept.{SameLists}
use slitherss.Game.World.{World}
use slitherss.Game.World.Sound.{IsSound, IsOwn}

module _ {F : Type 0} where
  IsOwn-lists :
      (ss ss' : List (Sector F)) (snakes : List (ℕ × Snake F))
      → SameLists ss ss'
      → All (IsOwn ss) snakes
      → All (IsOwn ss') snakes
  IsOwn-lists ss ss' [] same own = tt
  IsOwn-lists ss ss' ((k, s) ∷ rest) same (o, own) = (
    record {
      id = o.id;
      box = o.box;
      reg = record { sorted = o.reg.sorted; listed = λ j. same s.sbb.id j ∙ o.reg.listed j };
    },
    IsOwn-lists ss ss' rest same own,
  )

  pub sectors-IsSound :
      (w : World F) (ss : List (Sector F))
      → SameLists w.sectors ss
      → IsSound w
      → IsSound (record w { sectors = ss })
  sectors-IsSound w ss same v = record {
    own = IsOwn-lists w.sectors ss w.snakes same v.own;
    unique = v.unique;
    strays = λ id k h. same id k ∙ v.strays id k h;
    changed = v.changed;
  }
