-- ===== src/Server/Game/Linked.antt =====
-- What ties the sessions, the connections and the snakes of the players together, and what sending
-- leaves of it.
pub mod Told
pub mod Rounds
pub mod Drawn
pub mod Removed
pub mod Deaths
pub mod Handled
pub mod Ticked
pub mod Entered
pub mod Opened
pub mod Gone
pub mod Reach
pub mod Steps
pub mod Reached
pub mod Served
use slitherss.Prelude.{
  ℕ, ◌+◌, ◌≡◌, refl, sym, subst, ap, ◌∙◌, Bool, true, false, not, inl, inr, List, [], ◌∷◌, ◌++◌,
  Option, none, some, arith, ◌==◌, if◌then◌else◌, Option-cases, elem, get_elem?,
}
use slitherss.Float.{Float}
use slitherss.Game.Sector.{Food, Sector}
use slitherss.Game.Snake.{Snake}
use slitherss.Game.World.{World, find_snake}
use slitherss.Game.World.Sound.{IsSound}
use slitherss.Packet.Wire.{Packet}
use slitherss.Server.Maps.{find_key, update_key, find_key-update_key}
use slitherss.Server.Game.{
  Clock, Session, Server, tell_all, load_session_iter, send_binary, broadcast_binary,
}

-- The snake of a session, and whether a player's snake is in the world
abbrev pub snake_of : ℕ → List (ℕ × Session) → Option ℕ
snake_of h sessions = elim (find_key h sessions) [ none ↦ none | some ses ↦ some ses.snake_id ]

abbrev pub is_player : {F : Type 0} → ℕ → World F → Bool
is_player id w = elim (find_snake id w.snakes) [ none ↦ false | some s ↦ not s.bot ]

snake_of-tell_all :
    {F : Type 0} (now : ℕ) (p : Packet F) (sessions : List (ℕ × Session)) (h : ℕ)
    → snake_of h (tell_all now p sessions).0 ≡ snake_of h sessions
unfolding tell_all find_key
snake_of-tell_all now p [] h = refl
snake_of-tell_all now p ((h', ses) ∷ rest) h = ground (arith, snake_of-tell_all now p rest h)

module _ {F G : Type 0} where
  -- Each session has its snake in the world and is connected to it, each connection has its session,
  -- each player's snake has a connection, and no player's snake waits to be removed with the bots.
  pub record IsLinked (srv : Server F G) : Type 0 where
    pub sound : IsSound srv.world
    pub safe : srv.is_lost ≡ false
    pub ses :
        (h id : ℕ)
        → snake_of h srv.sessions ≡ some id
        → (find_key id srv.connections ≡ some h) × (is_player id srv.world ≡ true)
    pub con : (id h : ℕ) → find_key id srv.connections ≡ some h → snake_of h srv.sessions ≡ some id
    pub own :
        (id : ℕ) → is_player id srv.world ≡ true → (h : ℕ) × (find_key id srv.connections ≡ some h)
    pub dead : (id : ℕ) → elem id srv.world.dead ≡ true → is_player id srv.world ≡ false

  -- Sending changes the times of the sessions and what is outside, and no more of this.
  pub record IsLike (srv srv' : Server F G) : Type 0 where
    pub world : srv'.world ≡ srv.world
    pub connections : srv'.connections ≡ srv.connections
    pub ses : (h : ℕ) → snake_of h srv'.sessions ≡ snake_of h srv.sessions
    pub safe : srv'.is_lost ≡ srv.is_lost

  pub IsLike-refl : (srv : Server F G) → IsLike srv srv
  IsLike-refl srv = record { world = refl; connections = refl; ses = λ h. refl; safe = refl }

  pub IsLike-trans : {a b c : Server F G} → IsLike a b → IsLike b c → IsLike a c
  IsLike-trans p q = record {
    world = q.world ∙ p.world;
    connections = q.connections ∙ p.connections;
    ses = λ h. q.ses h ∙ p.ses h;
    safe = q.safe ∙ p.safe;
  }

  pub IsLinked-IsLike : {srv srv' : Server F G} → IsLike srv srv' → IsLinked srv → IsLinked srv'
  IsLinked-IsLike {srv} {srv'} l v = record {
    sound = subst IsSound (sym l.world) v.sound;
    safe = l.safe ∙ v.safe;
    ses = λ h i e.
        let known = v.ses h i (sym (l.ses h) ∙ e) in
        (ap (find_key i) l.connections ∙ known.0, ap (is_player i) l.world ∙ known.1);
    con = λ i h e. l.ses h ∙ v.con i h (ap (find_key i) (sym l.connections) ∙ e);
    own = λ i p.
        let (h, c) = v.own i (ap (is_player i) (sym l.world) ∙ p) in
        (h, ap (find_key i) l.connections ∙ c);
    dead = λ i e. ap (is_player i) l.world ∙ v.dead i (subst (λ w. elem i w.dead ≡ true) l.world e);
  }

  -- Between two events no dead bot waits to be removed.
  pub record IsIdle (srv : Server F G) : Type 0 where
    pub linked : IsLinked srv
    pub alive : srv.world.dead ≡ []

  pub IsIdle-IsLike : {srv srv' : Server F G} → IsLike srv srv' → IsIdle srv → IsIdle srv'
  IsIdle-IsLike l v = record {
    linked = IsLinked-IsLike l v.linked;
    alive = ap (λ w. w.dead) l.world ∙ v.alive;
  }

  pub load_session-some :
      (srv : Server F G) (id h : ℕ)
      → find_key id srv.connections ≡ some h
      → snake_of h srv.sessions ≡ some id
      → load_session_iter id srv ≡ some h
  unfolding load_session_iter
  load_session-some srv id h c known = ground (arith, c, known)

  module _ ⦃clock : Clock G⦄ where
    pub broadcast_binary-IsLike :
        (p : Packet F) (srv : Server F G) → IsLike srv (broadcast_binary p srv)
    unfolding broadcast_binary
    broadcast_binary-IsLike p srv = record {
      world = refl;
      connections = refl;
      ses = snake_of-tell_all (clock.now srv.outside).0 p srv.sessions;
      safe = refl;
    }

    -- To a session that is there
    pub send_binary-IsLike :
        (h id : ℕ) (p : Packet F) (srv : Server F G)
        → snake_of h srv.sessions ≡ some id
        → IsLike srv (send_binary (some h) p srv)
    unfolding send_binary
    send_binary-IsLike h id p srv e = elim (Option-cases (find_key h srv.sessions)) [
      | inl gone ↦ absurd (ground (arith, gone, e))
      | inr (ses, found) ↦
          let now = (clock.now srv.outside).0 in
          rw (found, send_binary)
            (record {
              world = refl;
              connections = refl;
              ses = λ j. ground (
                arith,
                find_key-update_key h j (λ (s : Session). record s { last_packet_time = now })
                    srv.sessions,
                found,
              );
              safe = refl;
            })
    ]
