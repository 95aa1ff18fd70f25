-- ===== src/Server/Game/Linked/Removed.antt =====
-- on_close and RemoveDeadSnakes, and what ties the server together.
use slitherss.Prelude.{
  ℕ, ◌≡◌, refl, subst, ◌∙◌, true, false, inl, inr, List, [], ◌∷◌, none, some, arith, ◌==◌,
  if◌then◌else◌, Option-cases, elem,
}
use slitherss.Game.World.{World, find_snake, flush_changes, remove_from_world}
use slitherss.Game.World.Leave.{find_snake-erase_snake}
use slitherss.Game.World.Sound.Entering.{remove_from_world-IsSound}
use slitherss.Server.Maps.{find_key, erase_key, find_key-erase_key}
use slitherss.Server.Game.{Session, Server}
use slitherss.Server.Game.Broadcast.{remove_from_server, remove_all, remove_dead_snakes}
use slitherss.Server.Game.Handlers.{on_close}
use slitherss.Server.Game.Linked.{snake_of, is_player, IsLinked, IsIdle}

pub snake_of-erase_key :
    (hdl h : ℕ) (sessions : List (ℕ × Session))
    → snake_of h (erase_key hdl sessions) ≡ (if hdl == h then none else snake_of h sessions)
snake_of-erase_key hdl h sessions = ground (arith, find_key-erase_key hdl h sessions)

module _ {F : Type 0} where
  pub find_snake-remove :
      (id j : ℕ) (w : World F)
      → find_snake j (remove_from_world id w).snakes
        ≡ (if j == id then none else find_snake j w.snakes)
  unfolding remove_from_world flush_changes
  find_snake-remove id j w = elim (Option-cases (find_snake id w.snakes)) [
    | inl e ↦ rw (e, remove_from_world) (ground (arith, e))
    | inr (s, e) ↦ rw (e, remove_from_world) (find_snake-erase_snake id j w.snakes)
  ]

  dead-remove : (id : ℕ) (w : World F) → (remove_from_world id w).dead ≡ w.dead
  unfolding remove_from_world flush_changes
  dead-remove id w = elim (Option-cases (find_snake id w.snakes)) [
    | inl e ↦ rw (e, remove_from_world) refl
    | inr (s, e) ↦ rw (e, remove_from_world) refl
  ]

  is_player-remove :
      (id j : ℕ) (w : World F)
      → is_player j (remove_from_world id w) ≡ (if j == id then false else is_player j w)
  is_player-remove id j w = ground (arith, find_snake-remove id j w)

module _ {F G : Type 0} where
  -- RemoveSnake of a snake that is no player's
  remove_from_server-IsLinked :
      (id : ℕ) (srv : Server F G)
      → is_player id srv.world ≡ false
      → IsLinked srv
      → IsLinked (remove_from_server id srv)
  unfolding remove_from_server
  remove_from_server-IsLinked id srv bot v = record {
    sound = remove_from_world-IsSound id srv.world v.sound;
    safe = v.safe;
    ses = λ h i e.
        let (c, p) = v.ses h i e in
        (
          ground (arith, find_key-erase_key id i srv.connections, c, p, bot),
          ground (arith, is_player-remove id i srv.world, p, bot),
        );
    con = λ i h e. v.con i h (ground (arith, find_key-erase_key id i srv.connections, e));
    own = λ i p.
        let there : is_player i srv.world ≡ true =
          ground (arith, is_player-remove id i srv.world, p) in
        let (h, c) = v.own i there in
        (h, ground (arith, find_key-erase_key id i srv.connections, c, there, bot));
    dead = λ i e.
        let old = v.dead i (subst (λ l. elem i l ≡ true) (dead-remove id srv.world) e) in
        ground (arith, is_player-remove id i srv.world, old);
  }

  remove_all-IsLinked :
      (ids : List ℕ) (srv : Server F G)
      → ((id : ℕ) → elem id ids ≡ true → is_player id srv.world ≡ false)
      → IsLinked srv
      → IsLinked (remove_all ids srv)
  unfolding remove_all remove_from_server
  remove_all-IsLinked [] srv bots v = v
  remove_all-IsLinked (id ∷ ids) srv bots v =
      remove_all-IsLinked ids (remove_from_server id srv)
        (λ i e. ground (arith, is_player-remove id i srv.world, bots i, e))
        (remove_from_server-IsLinked id srv (bots id (ground arith)) v)

  pub remove_dead-IsIdle : (srv : Server F G) → IsLinked srv → IsIdle (remove_dead_snakes srv)
  unfolding remove_dead_snakes
  remove_dead-IsIdle srv v =
      let left = remove_all-IsLinked srv.world.dead srv v.dead v in
      record {
        alive = refl;
        linked = record {
          sound = record {
            own = left.sound.own;
            unique = left.sound.unique;
            strays = left.sound.strays;
            changed = left.sound.changed;
          };
          safe = left.safe;
          ses = left.ses;
          con = left.con;
          own = left.own;
          dead = λ i e. absurd cc;
        };
      }

  pub on_close-IsIdle : (hdl : ℕ) (srv : Server F G) → IsIdle srv → IsIdle (on_close hdl srv)
  unfolding on_close remove_from_server
  on_close-IsIdle hdl srv v = elim (Option-cases (find_key hdl srv.sessions)) [
    | inl none_there ↦ rw (none_there, on_close) v
    | inr (ses, found) ↦
        let id = ses.snake_id in
        let mine : snake_of hdl srv.sessions ≡ some id = ground (arith, found) in
        let (c, p) = v.linked.ses hdl id mine in
        rw (found, on_close)
          (record {
            alive = dead-remove id srv.world ∙ v.alive;
            linked = record {
              sound = remove_from_world-IsSound id srv.world v.linked.sound;
              safe = v.linked.safe;
              ses = λ h i e.
                  let old : snake_of h srv.sessions ≡ some i =
                    ground (arith, snake_of-erase_key hdl h srv.sessions, e) in
                  let (k, q) = v.linked.ses h i old in
                  (
                    ground (
                      arith,
                      find_key-erase_key id i srv.connections,
                      snake_of-erase_key hdl h srv.sessions,
                      e,
                      k,
                      c,
                    ),
                    ground (
                      arith,
                      is_player-remove id i srv.world,
                      snake_of-erase_key hdl h srv.sessions,
                      e,
                      k,
                      c,
                      q,
                    ),
                  );
              con = λ i h e.
                  let old : find_key i srv.connections ≡ some h =
                    ground (arith, find_key-erase_key id i srv.connections, e) in
                  let known = v.linked.con i h old in
                  ground (
                    arith,
                    snake_of-erase_key hdl h srv.sessions,
                    find_key-erase_key id i srv.connections,
                    known,
                    mine,
                    e,
                  );
              own = λ i q.
                  let there : is_player i srv.world ≡ true =
                    ground (arith, is_player-remove id i srv.world, q) in
                  let (h, k) = v.linked.own i there in
                  (
                    h,
                    ground (
                      arith,
                      find_key-erase_key id i srv.connections,
                      k,
                      is_player-remove id i srv.world,
                      q,
                    ),
                  );
              dead = λ i e.
                  let old =
                    v.linked.dead i (subst (λ l. elem i l ≡ true) (dead-remove id srv.world) e) in
                  ground (arith, is_player-remove id i srv.world, old);
            };
          })
  ]
