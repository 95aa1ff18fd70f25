-- ===== src/Server/Game/Linked/Deaths.antt =====
-- Dying snakes, all rounds of BroadcastUpdates, and what ties the server together.
use slitherss.Prelude.{
  ℕ, ◌≡◌, refl, sym, subst, ap, ◌∙◌, true, false, inl, inr, List, [], ◌∷◌, ◌++◌, Option, none, some,
  arith, if_rule, if_cases, Bool-cases, Option-cases, elem, elem-append, foldl,
}
use slitherss.Float.{Float}
use slitherss.Game.Random.{Random}
use slitherss.Game.Snake.{no_changes, Snake}
use slitherss.Game.Move.{same_changes}
use slitherss.Game.Death.Kept.{food_spawn-Feeds}
use slitherss.Game.World.{find_snake}
use slitherss.Game.World.Sound.Entering.{has-find_snake}
use slitherss.Packet.Wire.{end, remove_snake}
use slitherss.Server.Game.{Clock, Server, load_session_iter, send_binary, broadcast_binary}
use slitherss.Server.Game.Update.{put_back, send_food_update, tell_rotation, tell_movement}
use slitherss.Server.Game.Broadcast.{end_session, bury, funeral, die, update_one, broadcast_updates}
use slitherss.Server.Game.Linked.{
  is_player, IsLinked, IsLike, IsLike-refl, IsLike-trans, broadcast_binary-IsLike,
  send_binary-IsLike, load_session-some,
}
use slitherss.Server.Game.Linked.Told.{
  IsServed-Tells, Tells-trans, IsServed, send_food-Tells, tell_rotation-Tells, tell_movement-Tells,
}
use slitherss.Server.Game.Linked.Rounds.{
  Rounds, put_back-player, put_back-IsLinked, like-Rounds, Rounds-trans, served,
}

module _ {F G : Type 0} where
  -- A snake that is no player's joins the dead.
  dead-IsLinked :
      (id : ℕ) (srv : Server F G)
      → is_player id srv.world ≡ false
      → IsLinked srv
      → IsLinked (record srv { world = record srv.world { dead = srv.world.dead ++ id ∷ [] } })
  dead-IsLinked id srv bot v = record {
    sound = record {
      own = v.sound.own;
      unique = v.sound.unique;
      strays = v.sound.strays;
      changed = v.sound.changed;
    };
    safe = v.safe;
    ses = v.ses;
    con = v.con;
    own = v.own;
    dead = λ i e. elim (Bool-cases (elem i srv.world.dead)) [
      | inl old ↦ v.dead i old
      | inr new ↦
          let same : id ≡ i = ground (arith, elem-append i srv.world.dead (id ∷ [])) in
          subst (λ j. is_player j srv.world ≡ false) same bot
    ];
  }

module _ {F : Type 0} ⦃float : Float F⦄ {G : Type 0} ⦃clock : Clock G⦄ ⦃random : Random G⦄ where
  pub end_session-IsLike :
      (id : ℕ) (s : Snake F) (srv : Server F G)
      → s.id ≡ id
      → IsServed (s, srv)
      → IsLike srv (end_session id s srv)
  unfolding end_session
  end_session-IsLike id s srv own serve =
      if_cases (IsLike srv) s.bot (λ _. IsLike-refl srv)
        (λ player.
          let (h, c, known) = serve player in
          let over = end (record { client_time = 0; status = 0 }) in
          let loaded = load_session-some srv s.id h c known in
          subst
            (λ (ses : Option ℕ).
              IsLike srv (elim ses [ none ↦ srv | some h ↦ send_binary (some h) over srv ]))
            (sym loaded ∙ ap (λ i. load_session_iter i srv) own)
            (send_binary-IsLike h s.id over srv known))

  bury-Rounds : (s : Snake F) (srv : Server F G) → Rounds s srv (bury s srv).0 (bury s srv).1
  unfolding bury
  bury-Rounds s srv =
      let feeds = food_spawn-Feeds (s, srv.world.sectors) srv.outside in
      record {
        same = feeds.same;
        snakes = refl;
        changes = refl;
        dead = refl;
        lists = feeds.lists;
        connections = refl;
        ses = λ h. refl;
        safe = refl;
      }

  pub funeral-Rounds :
      (id : ℕ) (s : Snake F) (srv : Server F G)
      → find_snake id srv.world.snakes ≡ some s
      → IsLinked srv
      → let told = funeral id s srv in Rounds s srv told.0 told.1
  unfolding funeral
  funeral-Rounds id s srv found v =
      let (own, serve) = served id s srv found v in
      let ended = end_session id s srv in
      let one = like-Rounds s s srv ended refl (end_session-IsLike id s srv own serve) in
      let buried = bury s ended in
      let two = Rounds-trans one (bury-Rounds s ended) in
      let fed = send_food_update buried.0 buried.1 in
      let fed-told = send_food-Tells buried.0 buried.1 in
      let died = remove_snake (record { client_time = 0; snake_id = s.id; status = 1 }) in
      let left = remove_snake (record { client_time = 0; snake_id = s.id; status = 0 }) in
      let last = IsLike-trans fed-told.like (
        IsLike-trans (broadcast_binary-IsLike died fed.1)
          (broadcast_binary-IsLike left (broadcast_binary died fed.1))) in
      let told = broadcast_binary left (broadcast_binary died fed.1) in
      let gone : Snake F = record fed.0 { update = record fed.0.update { dead = true } } in
      Rounds-trans two (like-Rounds buried.0 gone buried.1 told fed-told.same last)

  die-IsLinked :
      (id : ℕ) (s : Snake F) (srv : Server F G)
      → find_snake id srv.world.snakes ≡ some s
      → IsLinked srv
      → IsLinked (die id s srv) × ((die id s srv).world.changes ≡ srv.world.changes)
  unfolding die
  die-IsLinked id s srv found v =
      let own = (served id s srv found v).0 in
      let told = funeral id s srv in
      let r = funeral-Rounds id s srv found v in
      let back = put_back-IsLinked id s told.0 srv told.1 found r v in
      if_cases (λ (after : Server F G). IsLinked after × (after.world.changes ≡ srv.world.changes))
        s.bot
        (λ bot.
          let here : is_player s.id srv.world ≡ false = ground (arith, own, found, bot) in
          let after = put_back-player id s told.0 srv told.1 found r s.id ∙ here in
          (dead-IsLinked s.id (put_back id told) after back, r.changes))
        (λ _. (back, r.changes))

  pub told-Rounds :
      (id : ℕ) (s : Snake F) (srv : Server F G)
      → find_snake id srv.world.snakes ≡ some s
      → IsLinked srv
      → let told = tell_movement (tell_rotation (s, srv)) in Rounds s srv told.0 told.1
  told-Rounds id s srv found v =
      let serve = (served id s srv found v).1 in
      let turned = tell_rotation (s, srv) in
      let one = tell_rotation-Tells s srv in
      let two = tell_movement-Tells turned.0 turned.1 (IsServed-Tells (s, srv) turned one serve) in
      let told = tell_movement turned in
      let both = Tells-trans one two in like-Rounds s told.0 srv told.1 both.same both.like

  pub update_one-IsLinked :
      (srv : Server F G) (id : ℕ)
      → elem id srv.world.changes ≡ true
      → IsLinked srv
      → IsLinked (update_one srv id) × ((update_one srv id).world.changes ≡ srv.world.changes)
  unfolding update_one
  update_one-IsLinked srv id known v = elim (Option-cases (find_snake id srv.world.snakes)) [
    | inl gone ↦
        let absent = has-find_snake id srv.world.snakes gone in
        absurd (ground (arith, absent, v.sound.changed id known))
    | inr (s, found) ↦
        let P : Server F G → Type 0 =
          λ after. IsLinked after × (after.world.changes ≡ srv.world.changes) in
        let told = tell_movement (tell_rotation (s, srv)) in
        let r = told-Rounds id s srv found v in
        rw (found, update_one)
          (if_rule P s.update.dead (v, refl)
            (if_rule P s.update.dying (die-IsLinked id s srv found v) (
              if_rule P (same_changes s.update no_changes) (v, refl)
                (put_back-IsLinked id s told.0 srv told.1 found r v, r.changes))))
  ]

  update_all-IsLinked :
      (ids : List ℕ) (srv : Server F G)
      → ((id : ℕ) → elem id ids ≡ true → elem id srv.world.changes ≡ true)
      → IsLinked srv
      → IsLinked (foldl update_one srv ids)
  update_all-IsLinked [] srv known v = v
  update_all-IsLinked (id ∷ ids) srv known v =
      let (next, same) = update_one-IsLinked srv id (known id (ground arith)) v in
      update_all-IsLinked ids (update_one srv id)
        (λ i e. subst (λ l. elem i l ≡ true) (sym same) (known i (ground (arith, e)))) next

  pub broadcast_updates-IsLinked :
      (srv : Server F G) → IsLinked srv → IsLinked (broadcast_updates srv)
  unfolding broadcast_updates
  broadcast_updates-IsLinked srv v =
      let told = update_all-IsLinked srv.world.changes srv (λ id e. e) v in
      record {
        sound = record {
          own = told.sound.own;
          unique = told.sound.unique;
          strays = told.sound.strays;
          changed = λ id e. absurd cc;
        };
        safe = told.safe;
        ses = told.ses;
        con = told.con;
        own = told.own;
        dead = told.dead;
      }
