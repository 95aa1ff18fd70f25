-- ===== src/Game/World/Sound.antt =====
-- What holds of the world at all times: its map of snakes, the lists of the sectors and `changes`
-- agree. A snake is `alive` here if it is in the map.
pub mod Ticks
pub mod Entering
pub mod Fed
pub mod Reached
use slitherss.Prelude.{
  ℕ, zero, suc, ◌+◌, ◌≡◌, ◌≢◌, refl, sym, subst, ap, ◌∙◌, Bool, true, false, not, ◌&&◌, ◌||◌, inl,
  inr, List, [], ◌∷◌, ◌++◌, none, some, arith, ◌==◌, if◌then◌else◌, if_rule, Bool-cases,
  Option-cases, elem, elem-append, elem-select, All, foldl, modify,
}
use slitherss.Float.{Float}
use slitherss.Game.Sector.{Sector}
use slitherss.Game.BoundBox.Register.{enlisted}
use slitherss.Game.BoundBox.Registry.{IsRegistered, KeepsOthers}
use slitherss.Game.Snake.{Snake}
use slitherss.Game.Tick.{tick}
use slitherss.Game.Tick.Identity.{identity, tick-identity}
use slitherss.Game.Tick.Registry.{tick-IsRegistered}
use slitherss.Game.World.{World, find_snake}
use slitherss.Game.World.Frame.{tick_all, tick_each}

module _ {F : Type 0} where
  abbrev pub has : ℕ → List (ℕ × Snake F) → Bool
  has id [] = false
  has id ((k, s) ∷ rest) = k == id || has id rest

  -- A pair of the map: the id of the snake and of its box is the key, and it is registered.
  pub record IsOwn (ss : List (Sector F)) (entry : ℕ × Snake F) : Type 0 where
    pub id : entry.1.id ≡ entry.0
    pub box : entry.1.sbb.id ≡ entry.0
    pub reg : IsRegistered entry.1.sbb ss

  abbrev pub IsUnique : List (ℕ × Snake F) → Type 0
  IsUnique [] = Unit {0}
  IsUnique ((k, s) ∷ rest) = (has k rest ≡ false) × IsUnique rest

  -- Each id in a list of a sector and each pointer in `changes` leads to a snake of the map.
  pub record IsSound (w : World F) : Type 0 where
    pub own : All (IsOwn w.sectors) w.snakes
    pub unique : IsUnique w.snakes
    pub strays : (id k : ℕ) → has id w.snakes ≡ false → enlisted w.sectors id k ≡ 0
    pub changed : (id : ℕ) → elem id w.changes ≡ true → has id w.snakes ≡ true

  pub IsOwn-others :
      {ss ss' : List (Sector F)} {entry : ℕ × Snake F}
      → ((k : ℕ) → enlisted ss' entry.0 k ≡ enlisted ss entry.0 k)
      → IsOwn ss entry
      → IsOwn ss' entry
  IsOwn-others {ss} {ss'} {entry} same own = record {
    id = own.id;
    box = own.box;
    reg = record {
      sorted = own.reg.sorted;
      listed = λ k.
          ap (λ i. enlisted ss' i k) own.box
          ∙ same k
          ∙ ap (λ i. enlisted ss i k) (sym own.box)
          ∙ own.reg.listed k;
    };
  }

  -- A change of the lists for an id that is not in the map
  pub All-IsOwn :
      (ss ss' : List (Sector F)) (id : ℕ) (snakes : List (ℕ × Snake F))
      → KeepsOthers id ss ss'
      → has id snakes ≡ false
      → All (IsOwn ss) snakes
      → All (IsOwn ss') snakes
  All-IsOwn ss ss' id [] keeps h own = tt
  All-IsOwn ss ss' id ((k, s) ∷ rest) keeps h (o, own) = (
    IsOwn-others (λ j. keeps k j (λ e. absurd (ground arith))) o,
    All-IsOwn ss ss' id rest keeps (ground arith) own,
  )
