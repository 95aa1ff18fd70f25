-- ===== src/Server/Game/Watched/Rounds.antt =====
-- All rounds of BroadcastUpdates, and what the clients know of the sectors.
use slitherss.Prelude.{
  ℕ, ◌≡◌, sym, subst, ap, ◌∙◌, Bool, true, false, inl, inr, List, [], ◌∷◌, some, arith, ◌==◌,
  if_rule, if_cases, Bool-cases, Option-cases, elem, get_elem?, foldl,
}
use slitherss.Float.{Float}
use slitherss.Game.Random.{Random}
use slitherss.Game.Sector.Sites.{sites, IsGrid}
use slitherss.Game.Snake.{Changes, no_changes, Snake}
use slitherss.Game.Death.Sites.{food_spawn-state}
use slitherss.Game.Move.{same_changes}
use slitherss.Game.World.{find_snake, update_snake}
use slitherss.Game.World.Sound.Entering.{has-find_snake}
use slitherss.Packet.Wire.{remove_snake}
use slitherss.Server.Maps.{find_key}
use slitherss.Server.Game.{Clock, Server, broadcast_binary}
use slitherss.Server.Game.Update.{put_back, send_food_update, tell_rotation, tell_movement}
use slitherss.Server.Game.Broadcast.{end_session, bury, funeral, die, update_one, broadcast_updates}
use slitherss.Server.Game.Linked.{snake_of, IsLinked, IsLike-trans, broadcast_binary-IsLike}
use slitherss.Server.Game.Linked.Told.{
  IsServed-Tells, Tells-trans, send_food-Tells, tell_rotation-Tells, tell_movement-Tells,
}
use slitherss.Server.Game.Linked.Rounds.{Rounds, find_snake-update_snake, served}
use slitherss.Server.Game.Linked.Deaths.{
  end_session-IsLike, funeral-Rounds, told-Rounds, update_one-IsLinked,
}
use slitherss.Server.Game.Replay.Shown.{shown}
use slitherss.Server.Game.Watched.{Sees, Watches}
use slitherss.Server.Game.Watched.Dead.{funeral-shown}
use slitherss.Server.Game.Watched.Round.{round-other, round-Informs}

-- A snake that is not the first of those to be told of
Sees-skip :
    {F : Type 0} (j : ℕ) (known : Bool) (id : ℕ) (ids : List ℕ) (s : Snake F)
    → (s.update.pos ≡ true → (id == s.id) ≡ false)
    → Sees j known (id ∷ ids) s
    → Sees j known ids s
Sees-skip j known id ids s other v = record {
  tells = v.tells;
  quiet = v.quiet;
  news = λ e. ground (arith, v.news e, other e);
  living = v.living;
}

module _ {F : Type 0} ⦃float : Float F⦄ {G : Type 0} ⦃clock : Clock G⦄ (j x y : ℕ) where
  module _ (id : ℕ) (ids : List ℕ) (s : Snake F) (srv : Server F G)
      (found : find_snake id srv.world.snakes ≡ some s) (v : IsLinked srv)
      (w : Watches j x y (id ∷ ids) srv) where
    -- A round that leaves the server, since its snake has no movement to be told of
    still-Watches :
        (s.update.dying ≡ false → s.update.dead ≡ false → s.update.pos ≡ false)
        → Watches j x y ids srv
    still-Watches still h i t e f alive =
        let old = w h i t e f alive in
        let own = (served i t srv f v).0 in
        Sees-skip j (shown x y h srv) id ids t
          (λ moved. elim (Bool-cases (id == t.id)) [
            | inl here ↦
                let same : s ≡ t = ground (arith, found, f, own, here) in
                let quiet =
                  still (ap (λ u. u.update.dying) same ∙ alive)
                    (ap (λ u. u.update.dead) same ∙ old.living) in
                absurd (ground (arith, ap (λ u. u.update.pos) same, quiet, moved))
            | inr there ↦ there
          ])
          old

  -- The snake goes back into the world after its round; the clients of the other snakes see them.
  module _ (id : ℕ) (ids : List ℕ) (s : Snake F) (srv : Server F G)
      (found : find_snake id srv.world.snakes ≡ some s) (v : IsLinked srv)
      (w : (h i : ℕ) (t : Snake F)
        → snake_of h srv.sessions ≡ some i
        → find_snake i srv.world.snakes ≡ some t
        → t.update.dying ≡ false
        → (id == i) ≡ false
        → Sees j (shown x y h srv) (id ∷ ids) t) where
    pub put_back-Watches :
        (s' : Snake F) (srv' : Server F G)
        → Rounds s srv s' srv'
        → ((h i : ℕ)
            → snake_of h srv.sessions ≡ some i
            → (i == id) ≡ false
            → shown x y h srv' ≡ shown x y h srv)
        → ((h : ℕ)
            → snake_of h srv.sessions ≡ some id
            → s'.update.dying ≡ false
            → Sees j (shown x y h srv') ids s')
        → Watches j x y ids (put_back id (s', srv'))
    put_back-Watches s' srv' r others own h i t e f alive =
        let e' : snake_of h srv.sessions ≡ some i = sym (r.ses h) ∙ e in
        let at = find_snake-update_snake id i (λ (_ : Snake F). s') srv.world.snakes in
        let f' : find_snake i (update_snake id (λ _. s') srv.world.snakes) ≡ some t =
          subst (λ l. find_snake i (update_snake id (λ _. s') l) ≡ some t) r.snakes f in
        elim (Bool-cases (id == i)) [
          | inl here ↦
              let it : s' ≡ t = ground (arith, at, f', here, found) in
              subst (Sees j (shown x y h srv') ids) it
                (own h (ground (arith, e', here)) (ap (λ u. u.update.dying) it ∙ alive))
          | inr there ↦
              let known : find_snake i srv.world.snakes ≡ some t = ground (arith, at, f', there) in
              let mine = (served i t srv known v).0 in
              let old = w h i t e' known alive there in
              subst (λ b. Sees j b ids t) (sym (others h i e' (ground (arith, there))))
                (Sees-skip j (shown x y h srv) id ids t (λ _. ground (arith, mine, there)) old)
        ]

unchanged : (u : Changes) → same_changes u no_changes ≡ true → u.pos ≡ false
unfolding same_changes
unchanged u e = ground (arith, e)

module _ {F : Type 0} ⦃float : Float F⦄ {G : Type 0} ⦃clock : Clock G⦄ ⦃random : Random G⦄
    (ps : List (ℕ × ℕ)) (j x y : ℕ) (grid : IsGrid ps) (here : get_elem? ps j ≡ some (x, y)) where
  -- The sectors lie where they did, and the clients see their snakes.
  abbrev pub Shows : List ℕ → Server F G → Type 0
  Shows ids srv = (sites srv.world.sectors ≡ ps) × Watches j x y ids srv

  module _ (id : ℕ) (ids : List ℕ) (s : Snake F) (srv : Server F G)
      (found : find_snake id srv.world.snakes ≡ some s) (v : IsLinked srv)
      (w : Shows (id ∷ ids) srv) where
    funeral-sites : sites (funeral id s srv).1.world.sectors ≡ ps
    unfolding funeral bury
    funeral-sites =
        let (own, serve) = served id s srv found v in
        let ended = end_session id s srv in
        let buried = bury s ended in
        let fed = send_food_update buried.0 buried.1 in
        let died = remove_snake (record { client_time = 0; snake_id = s.id; status = 1 }) in
        let left = remove_snake (record { client_time = 0; snake_id = s.id; status = 0 }) in
        let last = IsLike-trans (send_food-Tells buried.0 buried.1).like (
          IsLike-trans (broadcast_binary-IsLike died fed.1)
            (broadcast_binary-IsLike left (broadcast_binary died fed.1))) in
        ap (λ u. sites u.sectors) last.world
        ∙ ap (λ u. u.0) (food_spawn-state (s, ended.world.sectors) ended.outside)
        ∙ ap (λ u. sites u.sectors) (end_session-IsLike id s srv own serve).world
        ∙ w.0

    die-Shows : s.update.dying ≡ true → Shows ids (die id s srv)
    unfolding die
    die-Shows dying =
        let told = funeral id s srv in
        let r = funeral-Rounds id s srv found v in
        let heard = λ (h : ℕ). funeral-shown x y h id s srv in
        let back : Watches j x y ids (put_back id told) =
          put_back-Watches j x y id ids s srv found v (λ h i t e f a _. w.1 h i t e f a) told.0
            told.1 r (λ h i e ne. (heard h).0)
            (λ h e alive. absurd (ground (arith, (heard h).1, dying, alive))) in
        if_rule (Shows ids) s.bot (funeral-sites, back) (funeral-sites, back)

    told-Shows :
        s.update.dying ≡ false → Shows ids (put_back id (tell_movement (tell_rotation (s, srv))))
    told-Shows lives =
        let (own, serve) = served id s srv found v in
        let turned = tell_rotation (s, srv) in
        let told = tell_movement turned in
        let one = tell_rotation-Tells s srv in
        let both =
          Tells-trans one
            (tell_movement-Tells turned.0 turned.1 (IsServed-Tells (s, srv) turned one serve)) in
        (
          ap (λ u. sites u.sectors) both.like.world ∙ w.0,
          put_back-Watches j x y id ids s srv found v (λ h i t e f a _. w.1 h i t e f a) told.0
              told.1 (told-Rounds id s srv found v)
              (λ h i e ne. round-other x y h s srv i serve e (ap (λ k. i == k) own ∙ ne))
              (λ h e alive.
                let (c, p) = v.ses h id e in
                let player : s.bot ≡ false = ground (arith, p, found) in
                let old = w.1 h id s e found lives in
                let told =
                  round-Informs x y h ps j grid here s srv player serve (e ∙ ap some (sym own))
                    (ap (λ k. find_key k srv.connections) own ∙ c) w.0 old.tells old.quiet in
                record {
                  tells = told.tells;
                  quiet = λ _. told.told;
                  news = λ moved. absurd (ground (arith, moved, told.pos));
                  living = ap (λ f. f.1) told.same ∙ old.living;
                }),
        )

    update-Shows : Shows ids (update_one srv id)
    unfolding update_one
    update-Shows =
        let still = still-Watches j x y id ids s srv found v w.1 in
        let P = Shows ids in
        rw (found, update_one)
          (if_cases P s.update.dead
            (λ dead. (w.0, still (λ _ living. absurd (ground (arith, dead, living)))))
            (λ _. if_cases P s.update.dying die-Shows (λ lives.
              if_cases P (same_changes s.update no_changes)
                (λ same. (w.0, still (λ _ _. unchanged s.update same))) (λ _. told-Shows lives))))

  update_all-Shows :
      (ids : List ℕ) (srv : Server F G)
      → ((id : ℕ) → elem id ids ≡ true → elem id srv.world.changes ≡ true)
      → IsLinked srv
      → Shows ids srv
      → Shows [] (foldl update_one srv ids)
  update_all-Shows [] srv known v w = w
  update_all-Shows (id ∷ ids) srv known v w =
      let first = known id (ground arith) in
      let (next, same) = update_one-IsLinked srv id first v in
      elim (Option-cases (find_snake id srv.world.snakes)) [
        | inl gone ↦
            let absent = has-find_snake id srv.world.snakes gone in
            absurd (ground (arith, absent, v.sound.changed id first))
        | inr (s, found) ↦
            update_all-Shows ids (update_one srv id)
              (λ i e. subst (λ l. elem i l ≡ true) (sym same) (known i (ground (arith, e)))) next
              (update-Shows id ids s srv found v w)
      ]

  -- BroadcastUpdates tells the clients of all that their view ports noted.
  pub broadcast_updates-Shows :
      (srv : Server F G)
      → IsLinked srv
      → Shows srv.world.changes srv
      → Shows [] (broadcast_updates srv)
  unfolding broadcast_updates
  broadcast_updates-Shows srv v w = update_all-Shows srv.world.changes srv (λ id e. e) v w
