-- ===== src/Server/Game/Linked/Gone.antt =====
-- The end of a bot: what BroadcastUpdates and RemoveDeadSnakes make of a bot that dies.
use slitherss.Prelude.{
  ℕ, ◌≡◌, refl, sym, subst, ap, ◌∙◌, true, false, ◌⊎◌, inl, inr, List, [], ◌∷◌, none, some, arith,
  ◌==◌, if_rule, if_cases, Bool-cases, Option-cases, elem, elem-append, foldl,
}
use slitherss.Float.{Float}
use slitherss.Game.Random.{Random}
use slitherss.Game.Snake.{no_changes, Snake}
use slitherss.Game.Move.{same_changes}
use slitherss.Game.World.{find_snake, update_snake}
use slitherss.Server.Game.{Clock, Server}
use slitherss.Server.Game.Update.{put_back, tell_rotation, tell_movement}
use slitherss.Server.Game.Broadcast.{
  funeral, die, update_one, broadcast_updates, remove_from_server, remove_all, remove_dead_snakes,
}
use slitherss.Server.Game.Linked.{IsLinked}
use slitherss.Server.Game.Linked.Rounds.{find_snake-update_snake, Rounds, served}
use slitherss.Server.Game.Linked.Removed.{find_snake-remove}
use slitherss.Server.Game.Linked.Deaths.{funeral-Rounds, told-Rounds, update_one-IsLinked}

module _ {F G : Type 0} where
  remove_all-gone :
      (ids : List ℕ) (id : ℕ) (srv : Server F G)
      → (find_snake id srv.world.snakes ≡ none) ⊎ (elem id ids ≡ true)
      → find_snake id (remove_all ids srv).world.snakes ≡ none
  unfolding remove_all remove_from_server
  remove_all-gone [] id srv (inl gone) = gone
  remove_all-gone [] id srv (inr e) = absurd cc
  remove_all-gone (k ∷ ids) id srv h =
      let after = find_snake-remove k id srv.world in
      remove_all-gone ids id (remove_from_server k srv) (elim (Bool-cases (id == k)) [
        | inl here ↦ inl (ground (arith, after, here))
        | inr there ↦ elim h [
          | inl gone ↦ inl (ground (arith, after, gone))
          | inr e ↦ inr (ground (arith, e, there))
        ]
      ])

  -- What a round leaves of the snake id and of the dead: `j` is the snake of the round.
  record Leaves (j id : ℕ) (srv srv' : Server F G) : Type 0 where
    other : (j == id) ≡ false → find_snake id srv'.world.snakes ≡ find_snake id srv.world.snakes
    dead : elem id srv.world.dead ≡ true → elem id srv'.world.dead ≡ true

  put_back-Leaves :
      (j id : ℕ) (s s' : Snake F) (srv srv' : Server F G)
      → Rounds s srv s' srv'
      → Leaves j id srv (put_back j (s', srv'))
  put_back-Leaves j id s s' srv srv' r = record {
    other = λ ne.
        ap (λ l. find_snake id (update_snake j (λ _. s') l)) r.snakes
        ∙ ground (arith, ne, find_snake-update_snake j id (λ (_ : Snake F). s') srv.world.snakes);
    dead = λ e. subst (λ l. elem id l ≡ true) (sym r.dead) e;
  }

module _ {F : Type 0} ⦃float : Float F⦄ {G : Type 0} ⦃clock : Clock G⦄ ⦃random : Random G⦄ where
  die-Leaves :
      (j id : ℕ) (s : Snake F) (srv : Server F G)
      → find_snake j srv.world.snakes ≡ some s
      → IsLinked srv
      → Leaves j id srv (die j s srv)
  unfolding die
  die-Leaves j id s srv found v =
      let told = funeral j s srv in
      let r = funeral-Rounds j s srv found v in
      let back = put_back-Leaves j id s told.0 srv told.1 r in
      if_rule (Leaves j id srv) s.bot
        (record {
          other = back.other;
          dead = λ e. ground (arith, back.dead e, elem-append id told.1.world.dead (s.id ∷ []));
        })
        back

  -- The round of a bot that dies
  die-dead :
      (id : ℕ) (s : Snake F) (srv : Server F G)
      → s.id ≡ id
      → s.bot ≡ true
      → elem id (die id s srv).world.dead ≡ true
  unfolding die
  die-dead id s srv own bot =
      let told = funeral id s srv in
      rw (bot, die) (ground (arith, own, elem-append id told.1.world.dead (s.id ∷ [])))

  update_one-Leaves :
      (j id : ℕ) (srv : Server F G) → IsLinked srv → Leaves j id srv (update_one srv j)
  unfolding update_one
  update_one-Leaves j id srv v = elim (Option-cases (find_snake j srv.world.snakes)) [
    | inl gone ↦ rw (gone, update_one) (record { other = λ ne. refl; dead = λ e. e })
    | inr (s, found) ↦
        let P = Leaves j id srv in
        let same : P srv = record { other = λ ne. refl; dead = λ e. e } in
        let told = tell_movement (tell_rotation (s, srv)) in
        rw (found, update_one)
          (if_rule P s.update.dead same (
            if_rule P s.update.dying (die-Leaves j id s srv found v) (
              if_rule P (same_changes s.update no_changes) same
                (put_back-Leaves j id s told.0 srv told.1 (told-Rounds j s srv found v)))))
  ]

  update_one-dead :
      (id : ℕ) (s : Snake F) (srv : Server F G)
      → find_snake id srv.world.snakes ≡ some s
      → IsLinked srv
      → s.bot ≡ true
      → s.update.dying ≡ true
      → s.update.dead ≡ false
      → elem id (update_one srv id).world.dead ≡ true
  unfolding update_one
  update_one-dead id s srv found v bot dying alive =
      let own = (served id s srv found v).0 in
      let P : Server F G → Type 0 = λ after. elem id after.world.dead ≡ true in
      rw (found, update_one)
        (if_cases P s.update.dead (λ yes. absurd cc)
          (λ _. if_cases P s.update.dying (λ _. die-dead id s srv own bot) (λ no. absurd cc)))

  -- The bot is among the dead, or still to come.
  update_all-dead :
      (ids : List ℕ) (id : ℕ) (s : Snake F) (srv : Server F G)
      → ((i : ℕ) → elem i ids ≡ true → elem i srv.world.changes ≡ true)
      → IsLinked srv
      → s.bot ≡ true
      → s.update.dying ≡ true
      → s.update.dead ≡ false
      → (elem id srv.world.dead ≡ true)
        ⊎ ((find_snake id srv.world.snakes ≡ some s) × (elem id ids ≡ true))
      → elem id (foldl update_one srv ids).world.dead ≡ true
  update_all-dead [] id s srv known v bot dying alive (inl e) = e
  update_all-dead [] id s srv known v bot dying alive (inr (found, e)) = absurd cc
  update_all-dead (j ∷ ids) id s srv known v bot dying alive h =
      let (next, same) = update_one-IsLinked srv j (known j (ground arith)) v in
      let leaves = update_one-Leaves j id srv v in
      update_all-dead ids id s (update_one srv j)
        (λ i e. subst (λ l. elem i l ≡ true) (sym same) (known i (ground (arith, e)))) next bot
        dying alive
        (elim h [
          | inl e ↦ inl (leaves.dead e)
          | inr (found, e) ↦ elim (Bool-cases (j == id)) [
            | inl here ↦
                let it : j ≡ id = ground arith in
                inl (
                  subst (λ i. elem id (update_one srv i).world.dead ≡ true) (sym it)
                    (update_one-dead id s srv found v bot dying alive))
            | inr there ↦ inr (leaves.other there ∙ found, ground (arith, e, there))
          ]
        ])

  -- A bot of a server whose links hold, that is among the changed snakes, is dying and was not told
  -- dead yet, is gone from the world after one BroadcastUpdates and RemoveDeadSnakes.
  pub remove_dead_snakes-broadcast_updates :
      (id : ℕ) (s : Snake F) (srv : Server F G)
      → IsLinked srv
      → elem id srv.world.changes ≡ true
      → find_snake id srv.world.snakes ≡ some s
      → s.bot ≡ true
      → s.update.dying ≡ true
      → s.update.dead ≡ false
      → find_snake id (remove_dead_snakes (broadcast_updates srv)).world.snakes ≡ none
  unfolding remove_dead_snakes broadcast_updates
  remove_dead_snakes-broadcast_updates id s srv v e found bot dying alive =
      let told = foldl update_one srv srv.world.changes in
      let done : Server F G = record told { world = record told.world { changes = [] } } in
      let dead =
        update_all-dead srv.world.changes id s srv (λ i e'. e') v bot dying alive
          (inr (found, e)) in
      remove_all-gone told.world.dead id done (inr dead)
