-- ===== src/Game/World/Sound/Entering.antt =====
-- Snakes that come and leave, and what holds of the world.
use slitherss.Prelude.{
  ℕ, ◌≡◌, refl, sym, subst, ap, ◌∙◌, false, not, inl, inr, List, [], ◌∷◌, none, some, arith, ◌==◌,
  if◌then◌else◌, if_rule, Option-cases, Bool-cases, elem, elem-select, All, foldl, modify,
}
use slitherss.Float.{Float}
use slitherss.Game.Random.{Random}
use slitherss.Game.Sector.{Sector, remove_snake}
use slitherss.Game.BoundBox.Register.{enlisted}
use slitherss.Game.BoundBox.Registry.{IsRegistered, KeepsOthers}
use slitherss.Game.Snake.{Snake}
use slitherss.Game.Spawn.{create_snake, create_snake_bot}
use slitherss.Game.Spawn.Registry.{create_snake-enlisted}
use slitherss.Game.World.{
  World, find_snake, erase_snake, add_snake, flush_changes, remove_from_world,
}
use slitherss.Game.World.Create.{next_id, enter, enter_bot}
use slitherss.Game.World.Leave.{enlisted-remove_all}
use slitherss.Game.World.Sound.{has, IsOwn, IsUnique, IsSound, IsOwn-others, All-IsOwn}

module _ {F : Type 0} where
  pub find_snake-has :
      (id : ℕ) (snakes : List (ℕ × Snake F)) → has id snakes ≡ false → find_snake id snakes ≡ none
  unfolding find_snake
  find_snake-has id [] h = refl
  find_snake-has id ((k, s) ∷ rest) h = ground (arith, find_snake-has id rest)

  pub has-find_snake :
      (id : ℕ) (snakes : List (ℕ × Snake F)) → find_snake id snakes ≡ none → has id snakes ≡ false
  unfolding find_snake
  has-find_snake id [] h = refl
  has-find_snake id ((k, s) ∷ rest) h = ground (arith, has-find_snake id rest)

  -- The snake that find_snake returns is an entry of the map.
  pub find_snake-IsOwn :
      (ss : List (Sector F)) (id : ℕ) (s : Snake F) (snakes : List (ℕ × Snake F))
      → find_snake id snakes ≡ some s
      → All (IsOwn ss) snakes
      → IsOwn ss (id, s)
  unfolding find_snake
  find_snake-IsOwn ss id s [] e own = cc
  find_snake-IsOwn ss id s ((k, s') ∷ rest) e (o, own) = elim (Bool-cases (k == id)) [
    | inl same ↦
        let key : k ≡ id = ground arith in
        let it : s' ≡ s = ground arith in
        subst (λ i. IsOwn ss (i, s)) key (subst (λ t. IsOwn ss (k, t)) it o)
    | inr other ↦ find_snake-IsOwn ss id s rest (ground arith) own
  ]

  has-erase_snake :
      (id k : ℕ) (snakes : List (ℕ × Snake F))
      → has k (erase_snake id snakes) ≡ (if k == id then false else has k snakes)
  unfolding erase_snake
  has-erase_snake id k [] = ground arith
  has-erase_snake id k ((k', s) ∷ rest) = ground (arith, has-erase_snake id k rest)

  erase_snake-IsUnique :
      (id : ℕ) (snakes : List (ℕ × Snake F)) → IsUnique snakes → IsUnique (erase_snake id snakes)
  unfolding erase_snake
  erase_snake-IsUnique id [] u = tt
  erase_snake-IsUnique id ((k, s) ∷ rest) (fresh, u) =
      let later = erase_snake-IsUnique id rest u in
      if_rule IsUnique (k == id) later (ground (arith, has-erase_snake id k rest), later)

  -- The entries of the others, when the lists of the sectors lose no other snake
  erase_snake-IsOwn :
      (ss ss' : List (Sector F)) (id : ℕ) (snakes : List (ℕ × Snake F))
      → KeepsOthers id ss ss'
      → All (IsOwn ss) snakes
      → All (IsOwn ss') (erase_snake id snakes)
  unfolding erase_snake
  erase_snake-IsOwn ss ss' id [] keeps own = tt
  erase_snake-IsOwn ss ss' id ((k, s) ∷ rest) keeps (o, own) =
      let later = erase_snake-IsOwn ss ss' id rest keeps own in
      elim (Bool-cases (k == id)) [
        | inl gone ↦ rw gone later
        | inr stays ↦ rw stays (IsOwn-others (λ j. keeps k j (λ e. absurd (ground arith))) o, later)
      ]

  flush_changes-IsSound : (id : ℕ) (w : World F) → IsSound w → IsSound (flush_changes id w)
  unfolding flush_changes
  flush_changes-IsSound id w v = record {
    own = v.own;
    unique = v.unique;
    strays = v.strays;
    changed = λ i h. v.changed i (ground (arith, elem-select (λ k. not (k == id)) i w.changes));
  }

  -- World::RemoveSnake, of a snake that is there or not
  pub remove_from_world-IsSound :
      (id : ℕ) (w : World F) → IsSound w → IsSound (remove_from_world id w)
  unfolding remove_from_world flush_changes
  remove_from_world-IsSound id w v = elim (Option-cases (find_snake id w.snakes)) [
    | inl e ↦ rw (e, remove_from_world) (flush_changes-IsSound id w v)
    | inr (s, e) ↦
        let o = find_snake-IsOwn w.sectors id s w.snakes e v.own in
        let lists = foldl (λ ss k. modify ss k (remove_snake id)) w.sectors s.sbb.sectors in
        let keeps : KeepsOthers id w.sectors lists =
          λ other k ne. ground (arith, enlisted-remove_all id s.sbb.sectors w.sectors other k) in
        rw (e, remove_from_world)
          (record {
            own = erase_snake-IsOwn w.sectors lists id w.snakes keeps v.own;
            unique = erase_snake-IsUnique id w.snakes v.unique;
            strays = λ i k h.
                let listed : enlisted w.sectors id k ≡ (if elem k s.sbb.sectors then 1 else 0) =
                  ap (λ t. enlisted w.sectors t k) (sym o.box) ∙ o.reg.listed k in
                ground (
                  arith,
                  listed,
                  enlisted-remove_all id s.sbb.sectors w.sectors i k,
                  v.strays i k,
                  has-erase_snake id i w.snakes,
                );
            changed = λ i h. ground (
              arith,
              v.changed i,
              elem-select (λ k. not (k == id)) i w.changes,
              has-erase_snake id i w.snakes,
            );
          })
  ]

  -- A snake with an id that no snake has
  add_snake-IsSound :
      (w : World F) (s : Snake F) (ss : List (Sector F)) (id : ℕ)
      → IsSound w
      → has id w.snakes ≡ false
      → s.id ≡ id
      → s.sbb.id ≡ id
      → IsRegistered s.sbb ss
      → KeepsOthers id w.sectors ss
      → IsSound (add_snake s (record w { sectors = ss; last_snake_id = id }))
  unfolding add_snake
  add_snake-IsSound w s ss id v free own box reg keeps =
      let absent : find_snake s.id w.snakes ≡ none = find_snake-has s.id w.snakes (rw own free) in
      rw (absent, add_snake)
        (record {
          own = (
            record { id = refl; box = box ∙ sym own; reg = reg },
            All-IsOwn w.sectors ss id w.snakes keeps free v.own,
          );
          unique = (rw own free, v.unique);
          strays = λ i k h.
              keeps i k (λ e. absurd (ground (arith, own, e))) ∙ v.strays i k (ground arith);
          changed = λ i h. ground (arith, v.changed i);
        })

module _ {F : Type 0} ⦃float : Float F⦄ {G : Type 0} ⦃random : Random G⦄ where
  pub enter-IsSound :
      (w : World F) (g : G) → IsSound w → has (next_id w) w.snakes ≡ false → IsSound (enter w g).0.1
  unfolding enter
  enter-IsSound w g v free =
      let id = next_id w in
      let known = create_snake-enlisted w.config id w.sectors g (λ k. v.strays id k free) in
      let made = create_snake w.config id w.sectors g in
      add_snake-IsSound w made.0.0 made.0.1 id v free known.0 known.1 known.2 known.3

  pub enter_bot-IsSound :
      (w : World F) (g : G)
      → IsSound w
      → has (next_id w) w.snakes ≡ false
      → IsSound (enter_bot w g).0
  unfolding enter_bot create_snake_bot
  enter_bot-IsSound w g v free =
      let id = next_id w in
      let known = create_snake-enlisted w.config id w.sectors g (λ k. v.strays id k free) in
      let made = create_snake_bot w.config id w.sectors g in
      add_snake-IsSound w made.0.0 made.0.1 id v free known.0 known.1 known.2 known.3
