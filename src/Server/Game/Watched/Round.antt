-- ===== src/Server/Game/Watched/Round.antt =====
-- A whole round of BroadcastUpdates for a snake that lives.
use slitherss.Prelude.{
  ℕ, ◌≡◌, refl, sym, subst, ap, ◌∙◌, Bool, false, List, some, arith, ◌==◌, if_rule, if_cases,
  get_elem?,
}
use slitherss.Float.{Float}
use slitherss.Game.Sector.Sites.{sites, IsGrid}
use slitherss.Game.Snake.{Snake}
use slitherss.Game.Tick.Seen.{Tells, IsTold}
use slitherss.Game.Tick.Sight.{fate}
use slitherss.Server.Game.{Clock, Server}
use slitherss.Server.Game.Update.{tell_rotation, tell_place, tell_session, tell_own, tell_movement}
use slitherss.Server.Game.Linked.{snake_of, load_session-some}
use slitherss.Server.Game.Linked.Told.{
  IsServed, Tells-trans, IsServed-Tells, tell_rotation-Tells, tell_place-Tells, send_food-Tells,
}
use slitherss.Server.Game.Linked.Told
use slitherss.Server.Maps.{find_key}
use slitherss.Server.Game.Replay.Shown.{shown}
use slitherss.Server.Game.Watched.Told.{
  Owned, tell_rotation-Hushed, told_all, told_all-Hushed, tell_session-other, tell_session-Owned,
}

module _ {F : Type 0} ⦃float : Float F⦄ {G : Type 0} ⦃clock : Clock G⦄ (x y h : ℕ) where
  told_all-Tells : (s : Snake F) (srv : Server F G) → Told.Tells (s, srv) (told_all x y h (s, srv))
  told_all-Tells s srv =
      let begun : Snake F = record s { update = record s.update { pos = false } } in
      let placed = tell_place (begun, srv) in
      let one = tell_place-Tells begun srv in
      Tells-trans {a = (s, srv)} {b = placed} (record { same = one.same; like = one.like })
        (send_food-Tells placed.0 placed.1)

  -- The session of a player's snake is another's, for the client of another snake.
  elsewhere :
      (h' i id : ℕ) (srv : Server F G)
      → snake_of h srv.sessions ≡ some i
      → (i == id) ≡ false
      → snake_of h' srv.sessions ≡ some id
      → (h' == h) ≡ false
  elsewhere h' i id srv e ne e' = ground (arith, e, ne, e')

  tell_own-other :
      (full : Bool) (s : Snake F) (srv : Server F G) (i : ℕ)
      → IsServed (s, srv)
      → snake_of h srv.sessions ≡ some i
      → (i == s.id) ≡ false
      → shown x y h (tell_own full (s, srv)).1 ≡ shown x y h srv
  unfolding tell_own
  tell_own-other full s srv i served e ne =
      let P = λ (t : Snake F × Server F G). shown x y h t.1 ≡ shown x y h srv in
      if_cases P s.bot (λ _. refl)
        (λ player.
          let (h', c, known) = served player in
          subst (λ ses. P (tell_session ses full (s, srv)))
            (sym (load_session-some srv s.id h' c known))
            (tell_session-other x y h h' (elsewhere h' i s.id srv e ne known) full s srv))

  -- The client of another snake learns of no sector.
  pub round-other :
      (s : Snake F) (srv : Server F G) (i : ℕ)
      → IsServed (s, srv)
      → snake_of h srv.sessions ≡ some i
      → (i == s.id) ≡ false
      → shown x y h (tell_movement (tell_rotation (s, srv))).1 ≡ shown x y h srv
  unfolding tell_movement
  round-other s srv i served e ne =
      let turned = tell_rotation (s, srv) in
      let one = tell_rotation-Tells s srv in
      let quiet = tell_rotation-Hushed x y h s srv in
      let fed = told_all x y h turned in
      let two = told_all-Tells turned.0 turned.1 in
      let both = Tells-trans one two in
      let P = λ (t : Snake F × Server F G). shown x y h t.1 ≡ shown x y h srv in
      if_rule P turned.0.update.pos
        (tell_own-other turned.0.update.fullness fed.0 fed.1 i
            (IsServed-Tells (s, srv) fed both served) (both.like.ses h ∙ e)
            (ap (λ t. i == t.0) both.same ∙ ne)
          ∙ (told_all-Hushed x y h turned.0 turned.1).heard
          ∙ quiet.heard)
        quiet.heard

  -- A snake that was told of to its own client, which knows what the view port says
  pub record Informs (j : ℕ) (f : Bool × Bool) (t : Snake F × Server F G) : Type 0 where
    pub tells : Tells j (shown x y h t.1) t.0.vp
    pub told : IsTold t.0.vp
    pub pos : t.0.update.pos ≡ false
    pub same : fate t.0 ≡ f

  pub Owned-Informs :
      (j : ℕ) (s : Snake F) (srv : Server F G) (t : Snake F × Server F G)
      → Tells j (shown x y h srv) s.vp
      → s.update.pos ≡ false
      → Owned x y h j (s, srv) t
      → Informs j (fate s) t
  Owned-Informs j s srv t v still o = record {
    tells =
        subst (Tells j (shown x y h t.1)) (sym o.vp)
          (record { sorted = v.sorted; told = ground (arith, v.told, o.heard) });
    told = (ap (λ p. p.new_sectors) o.vp, ap (λ p. p.old_sectors) o.vp);
    pos = o.pos ∙ still;
    same = o.same;
  }

  module _ (ps : List (ℕ × ℕ)) (j : ℕ) (grid : IsGrid ps)
      (here : get_elem? ps j ≡ some (x, y)) where
    tell_own-Informs :
        (full : Bool) (s : Snake F) (srv : Server F G)
        → s.bot ≡ false
        → IsServed (s, srv)
        → snake_of h srv.sessions ≡ some s.id
        → find_key s.id srv.connections ≡ some h
        → sites srv.world.sectors ≡ ps
        → Tells j (shown x y h srv) s.vp
        → s.update.pos ≡ false
        → Informs j (fate s) (tell_own full (s, srv))
    unfolding tell_own
    tell_own-Informs full s srv player served mine c e v still =
        let P = Informs j (fate s) in
        if_cases P s.bot (λ bot. absurd (ground (arith, bot, player)))
          (λ _.
            subst (λ ses. P (tell_session ses full (s, srv)))
              (sym (load_session-some srv s.id h c mine))
              (Owned-Informs j s srv (tell_session (some h) full (s, srv)) v still
                (tell_session-Owned x y h ps j grid here full s srv s.id mine e)))

    -- A round for a player's snake: its client knows the sector exactly if it is in the view port.
    pub round-Informs :
        (s : Snake F) (srv : Server F G)
        → s.bot ≡ false
        → IsServed (s, srv)
        → snake_of h srv.sessions ≡ some s.id
        → find_key s.id srv.connections ≡ some h
        → sites srv.world.sectors ≡ ps
        → Tells j (shown x y h srv) s.vp
        → (s.update.pos ≡ false → IsTold s.vp)
        → Informs j (fate s) (tell_movement (tell_rotation (s, srv)))
    unfolding tell_movement
    round-Informs s srv player served mine c e v quiet =
        let turned = tell_rotation (s, srv) in
        let one = tell_rotation-Tells s srv in
        let hush = tell_rotation-Hushed x y h s srv in
        let fed = told_all x y h turned in
        let both = Tells-trans one (told_all-Tells turned.0 turned.1) in
        let hush' = told_all-Hushed x y h turned.0 turned.1 in
        let ids : fed.0.id ≡ s.id = ap (λ i. i.0) both.same in
        let known =
          λ (t : Snake F × Server F G) (q : shown x y h t.1 ≡ shown x y h srv) (p : t.0.vp ≡ s.vp).
            subst (λ b. Tells j b t.0.vp) (sym q) (subst (Tells j (shown x y h srv)) (sym p) v) in
        if_cases (Informs j (fate s)) turned.0.update.pos
          (λ moved.
            subst (λ f. Informs j f (tell_own turned.0.update.fullness fed))
              (hush'.same ∙ hush.same)
              (tell_own-Informs turned.0.update.fullness fed.0 fed.1
                (ap (λ i. i.1.0) both.same ∙ player) (IsServed-Tells (s, srv) fed both served)
                (both.like.ses h ∙ mine ∙ ap some (sym ids))
                (ap (find_key fed.0.id) both.like.connections
                  ∙ ap (λ i. find_key i srv.connections) ids
                  ∙ c)
                (ap (λ w. sites w.sectors) both.like.world ∙ e)
                (known fed (hush'.heard ∙ hush.heard) (hush'.vp ∙ hush.vp)) hush'.pos))
          (λ still. record {
            tells = known turned hush.heard hush.vp;
            told = subst IsTold (sym hush.vp) (quiet (sym hush.pos ∙ still));
            pos = still;
            same = hush.same;
          })
