-- ===== src/Server/Game/Watched.antt =====
-- What the client of a snake knows of the sectors, against the snake's view port: the sector j, which
-- lies at x, y.
pub mod Told
pub mod Arrived
pub mod Opened
pub mod Drawn
pub mod Ticked
pub mod Rounds
pub mod Dead
pub mod Round
pub mod Handled
pub mod Served
use slitherss.Prelude.{
  ℕ, ◌≡◌, sym, subst, ap, ◌∙◌, Bool, true, false, List, [], some, elem, get_elem?,
}
use slitherss.Float.{Float}
use slitherss.Game.Sector.Sites.{sites}
use slitherss.Game.Snake.{Snake}
use slitherss.Game.Tick.Seen.{Tells, IsTold}
use slitherss.Game.World.{find_snake}
use slitherss.Server.Game.{Clock, Server}
use slitherss.Server.Game.Linked.{snake_of}
use slitherss.Server.Game.Replay.Shown.{shown}

-- A snake that lives, while the snakes `ids` are still to be told of: if the client knows of the
-- sector as `known` says, and is told what the view port has noted, it knows whether the sector is
-- one of the view port. What is noted is told with a movement, and that the snake moved is to be told.
pub record Sees {F : Type 0} (j : ℕ) (known : Bool) (ids : List ℕ) (s : Snake F) : Type 0 where
  pub tells : Tells j known s.vp
  pub quiet : s.update.pos ≡ false → IsTold s.vp
  pub news : s.update.pos ≡ true → elem s.id ids ≡ true
  pub living : s.update.dead ≡ false

module _ {F : Type 0} ⦃float : Float F⦄ {G : Type 0} ⦃clock : Clock G⦄ (j x y : ℕ) where
  -- The client of each session sees its snake, if that is not dying.
  abbrev pub Watches : List ℕ → Server F G → Type 0
  Watches ids srv =
      (h i : ℕ) (s : Snake F)
      → snake_of h srv.sessions ≡ some i
      → find_snake i srv.world.snakes ≡ some s
      → s.update.dying ≡ false
      → Sees j (shown x y h srv) ids s

  -- Nobody is told of a sector, and the world and whose the sessions are stay.
  pub record IsCalm (srv srv' : Server F G) : Type 0 where
    pub world : srv'.world ≡ srv.world
    pub ses : (h : ℕ) → snake_of h srv'.sessions ≡ snake_of h srv.sessions
    pub heard : (h : ℕ) → shown x y h srv' ≡ shown x y h srv

  pub IsCalm-trans : {a b c : Server F G} → IsCalm a b → IsCalm b c → IsCalm a c
  IsCalm-trans p q = record {
    world = q.world ∙ p.world;
    ses = λ h. q.ses h ∙ p.ses h;
    heard = λ h. q.heard h ∙ p.heard h;
  }

  pub Watches-IsCalm :
      (ids : List ℕ) (srv srv' : Server F G) → IsCalm srv srv' → Watches ids srv → Watches ids srv'
  Watches-IsCalm ids srv srv' c w h i s e f alive =
      subst (λ b. Sees j b ids s) (sym (c.heard h))
        (w h i s (sym (c.ses h) ∙ e) (ap (λ u. find_snake i u.snakes) (sym c.world) ∙ f) alive)
