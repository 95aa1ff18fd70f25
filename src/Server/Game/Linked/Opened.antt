-- ===== src/Server/Game/Linked/Opened.antt =====
-- on_open, and what ties the server together.
use slitherss.Prelude.{
  ℕ, ◌≡◌, refl, sym, subst, ◌∙◌, true, false, inl, inr, List, [], ◌∷◌, ◌++◌, Option, none, some,
  arith, ◌==◌, if◌then◌else◌, if_rule, Bool-cases, elem,
}
use slitherss.Float.{Float}
use slitherss.Game.Random.{Random}
use slitherss.Game.Snake.{Snake}
use slitherss.Game.World.{World, find_snake}
use slitherss.Game.World.Create.{next_id, enter}
use slitherss.Game.World.Sound.{has, IsSound}
use slitherss.Game.World.Sound.Entering.{find_snake-has, enter-IsSound}
use slitherss.Packet.Wire.{Packet, add_snake, init}
use slitherss.Server.Maps.{put_key, find_key-put_key}
use slitherss.Server.Game.{Clock, Session, new_session, Server, send_binary, broadcast_binary}
use slitherss.Server.Game.Update.{packet_move, put_back, send_pov_update_to}
use slitherss.Server.Game.Handlers.{introduce, connect, on_open}
use slitherss.Server.Game.Linked.{
  snake_of, is_player, IsLinked, IsLike, IsLike-refl, IsLike-trans, IsIdle, IsIdle-IsLike,
  broadcast_binary-IsLike, send_binary-IsLike,
}
use slitherss.Server.Game.Linked.Entered.{enter-found}
use slitherss.Server.Game.Linked.Told.{send_pov-Tells}
use slitherss.Server.Game.Linked.Rounds.{put_back-IsLinked, like-Rounds}

pub snake_of-put_key :
    (hdl h : ℕ) (ses : Session) (sessions : List (ℕ × Session))
    → snake_of h (put_key hdl ses sessions)
      ≡ (if hdl == h then some ses.snake_id else snake_of h sessions)
snake_of-put_key hdl h ses sessions = ground (arith, find_key-put_key hdl h ses sessions)

module _ {F G : Type 0} where
  -- A session, a connection and a player's snake that come together
  link-new :
      (hdl id : ℕ) (new : Session) (srv : Server F G) (w : World F) (g : G)
      (sent : List (ℕ × Packet F))
      → new.snake_id ≡ id
      → ((i : ℕ) → is_player i w ≡ (if id == i then true else is_player i srv.world))
      → is_player id srv.world ≡ false
      → snake_of hdl srv.sessions ≡ none
      → w.dead ≡ []
      → IsSound w
      → IsLinked srv
      → IsLinked (record srv {
        world = w;
        sessions = put_key hdl new srv.sessions;
        connections = put_key id hdl srv.connections;
        outside = g;
        sent = sent;
      })
  link-new hdl id new srv w g sent own player absent fresh alive sound v =
      let ses-at = λ (h : ℕ). snake_of-put_key hdl h new srv.sessions in
      let con-at = λ (i : ℕ). find_key-put_key id i hdl srv.connections in
      record {
        sound = sound;
        safe = v.safe;
        ses = λ h i e. elim (Bool-cases (hdl == h)) [
          | inl here ↦
              let same : id ≡ i = ground (arith, ses-at h, own, here, e) in
              (ground (arith, con-at i, same, here), ground (arith, player i, same))
          | inr there ↦
              let (c, p) = v.ses h i (ground (arith, ses-at h, there, e)) in
              let other : (id == i) ≡ false = ground (arith, p, absent) in
              (ground (arith, con-at i, other, c), ground (arith, player i, other, p))
        ];
        con = λ i h e. elim (Bool-cases (id == i)) [
          | inl here ↦ ground (arith, ses-at h, con-at i, own, here, e)
          | inr there ↦
              let known = v.con i h (ground (arith, con-at i, there, e)) in
              ground (arith, ses-at h, known, fresh)
        ];
        own = λ i p. elim (Bool-cases (id == i)) [
          | inl here ↦ (hdl, ground (arith, con-at i, here))
          | inr there ↦
              let (h, c) = v.own i (ground (arith, player i, there, p)) in
              (h, ground (arith, con-at i, there, c))
        ];
        dead = λ i e. absurd (ground (arith, subst (λ l. elem i l ≡ true) alive e));
      }

module _ {F : Type 0} ⦃float : Float F⦄ {G : Type 0} ⦃clock : Clock G⦄ where
  pub introduce-IsLike :
      (h id me : ℕ) (snakes : List (ℕ × Snake F)) (srv : Server F G)
      → snake_of h srv.sessions ≡ some id
      → IsLike srv (introduce (some h) me snakes srv)
  unfolding introduce
  introduce-IsLike h id me [] srv e = IsLike-refl srv
  introduce-IsLike h id me ((k, s) ∷ rest) srv e =
      let p = add_snake (record { client_time = 0; s = s }) in
      let one = send_binary-IsLike h id p srv e in
      let shown = send_binary (some h) p srv in
      let two = send_binary-IsLike h id (packet_move s) shown (one.ses h ∙ e) in
      let told = send_binary (some h) (packet_move s) shown in
      let next = if k == me then srv else told in
      let step : IsLike srv next =
        if_rule (IsLike srv) (k == me) (IsLike-refl srv) (IsLike-trans one two) in
      IsLike-trans step (introduce-IsLike h id me rest next (step.ses h ∙ e))

  module _ ⦃random : Random G⦄ where
    pub connect-IsLinked :
        (hdl : ℕ) (srv : Server F G)
        → has (next_id srv.world) srv.world.snakes ≡ false
        → snake_of hdl srv.sessions ≡ none
        → srv.world.dead ≡ []
        → IsLinked srv
        → IsLinked (connect hdl srv).1
    unfolding connect
    connect-IsLinked hdl srv free fresh alive v =
        let id = next_id srv.world in
        let entered = enter srv.world srv.outside in
        let s = entered.0.0 in
        let (own, bot, found, dead) = enter-found srv.world srv.outside free in
        let time = clock.now entered.1 in
        let player : (i : ℕ)
            → is_player i entered.0.1 ≡ (if s.id == i then true else is_player i srv.world) =
          λ i. ground (arith, found i, bot, own) in
        let absent : is_player s.id srv.world ≡ false =
          ground (arith, find_snake-has id srv.world.snakes free, own) in
        link-new hdl s.id (new_session s.id time.0) srv entered.0.1 time.1
          (srv.sent ++ (hdl, init srv.init) ∷ []) refl player absent fresh (dead ∙ alive)
          (enter-IsSound srv.world srv.outside v.sound free) v

    pub connect-session :
        (hdl : ℕ) (srv : Server F G)
        → snake_of hdl (connect hdl srv).1.sessions ≡ some (connect hdl srv).0.id
    unfolding connect
    connect-session hdl srv =
        let entered = enter srv.world srv.outside in
        let new = new_session entered.0.0.id (clock.now entered.1).0 in
        ground (arith, snake_of-put_key hdl hdl new srv.sessions)

    pub connect-found :
        (hdl : ℕ) (srv : Server F G)
        → has (next_id srv.world) srv.world.snakes ≡ false
        → let connected = connect hdl srv in
          find_snake connected.0.id connected.1.world.snakes ≡ some connected.0
    unfolding connect
    connect-found hdl srv free =
        let (own, bot, found, dead) = enter-found srv.world srv.outside free in
        ground (arith, found (enter srv.world srv.outside).0.0.id, own)

    pub on_open-IsIdle :
        (hdl : ℕ) (srv : Server F G)
        → has (next_id srv.world) srv.world.snakes ≡ false
        → snake_of hdl srv.sessions ≡ none
        → IsIdle srv
        → IsIdle (on_open hdl srv)
    unfolding on_open
    on_open-IsIdle hdl srv free fresh v =
        let connected = connect hdl srv in
        let s = connected.0 in
        let linked = connect-IsLinked hdl srv free fresh v.alive v.linked in
        let (own, bot, found, dead) = enter-found srv.world srv.outside free in
        let mine = connect-session hdl srv in
        let p = add_snake (record { client_time = 0; s = s }) in
        let one = broadcast_binary-IsLike p connected.1 in
        let shown = broadcast_binary p connected.1 in
        let two = IsLike-trans one (broadcast_binary-IsLike (packet_move s) shown) in
        let placed = broadcast_binary (packet_move s) shown in
        let seen = send_pov-Tells hdl s.id s placed (two.ses hdl ∙ mine) in
        let after = send_pov_update_to (some hdl) s placed in
        let r = like-Rounds s after.0 connected.1 after.1 seen.same (IsLike-trans two seen.like) in
        let here : find_snake s.id connected.1.world.snakes ≡ some s = connect-found hdl srv free in
        let back = put_back-IsLinked s.id s after.0 connected.1 after.1 here r linked in
        let kept : Option (Snake F) → Server F G =
          λ o. elim o [ none ↦ put_back s.id after | some _ ↦ after.1 ] in
        let absent : find_snake s.id srv.world.snakes ≡ none =
          subst (λ i. find_snake i srv.world.snakes ≡ none) (sym own)
            (find_snake-has (next_id srv.world) srv.world.snakes free) in
        subst (λ o. IsIdle (introduce (some hdl) s.id (kept o).world.snakes (kept o))) (sym absent)
          (IsIdle-IsLike
            (introduce-IsLike hdl s.id s.id (put_back s.id after).world.snakes (put_back s.id after)
              (r.ses hdl ∙ mine))
            (record { linked = back; alive = r.dead ∙ dead ∙ v.alive }))
