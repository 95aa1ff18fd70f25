-- ===== src/Server/Game/Linked/Steps.antt =====
-- The timer, and the rounds of BroadcastUpdates, as steps of the world.
use slitherss.Prelude.{
  ℕ, ◌-◌, ◌≡◌, sym, subst, ap, ◌∙◌, Bool, true, inl, inr, List, [], ◌∷◌, ◌++◌, some, arith, if_rule,
  Option-cases, elem, foldl,
}
use slitherss.Float.{Float}
use slitherss.Game.Random.{Random}
use slitherss.Game.Snake.{no_changes, Snake}
use slitherss.Game.Death.Kept.{self}
use slitherss.Game.Move.{same_changes}
use slitherss.Game.World.{find_snake}
use slitherss.Game.World.Frame.{world_tick}
use slitherss.Game.World.Sound.Entering.{has-find_snake}
use slitherss.Game.World.Sound.Reached.{Reached, next, time, leave, touch, feed, bury, tell}
use slitherss.Packet.Wire.{remove_snake}
use slitherss.Server.Game.{Clock, Server, broadcast_binary}
use slitherss.Server.Game.Broadcast as Broadcast
use slitherss.Server.Game.Broadcast.{
  end_session, funeral, die, update_one, broadcast_updates, remove_from_server, remove_all,
  remove_dead_snakes,
}
use slitherss.Server.Game.Draw.{broadcast_drawing}
use slitherss.Server.Game.Handlers.{on_timer, next_tick}
use slitherss.Server.Game.Update.{put_back, send_food_update, tell_rotation, tell_movement}
use slitherss.Server.Game.Linked.{IsLinked, IsIdle, IsLike-trans, broadcast_binary-IsLike}
use slitherss.Server.Game.Linked.Told.{
  IsServed-Tells, Tells-trans, send_food-Tells, tell_rotation-Tells, tell_movement-Tells,
}
use slitherss.Server.Game.Linked.Rounds.{served}
use slitherss.Server.Game.Linked.Deaths.{end_session-IsLike, funeral-Rounds, update_one-IsLinked}
use slitherss.Server.Game.Linked.Drawn.{broadcast_drawing-IsLinked}
use slitherss.Server.Game.Linked.Ticked.{world_tick-IsLinked}
use slitherss.Server.Game.Watched.Drawn.{broadcast_drawing-IsCalm}

module _ {F : Type 0} ⦃float : Float F⦄ {G : Type 0} ⦃random : Random G⦄ where
  -- The world of the server is one that the steps come to.
  abbrev pub Comes : Server F G → Type 0
  Comes srv = Reached {F = F} G srv.world

  -- The snake goes back into the world after its round.
  pub put_back-Reached :
      (id : ℕ) (s s' : Snake F) (srv srv' : Server F G)
      → find_snake id srv.world.snakes ≡ some s
      → self s' ≡ self s
      → srv'.world.snakes ≡ srv.world.snakes
      → Comes srv'
      → Comes (put_back id (s', srv'))
  put_back-Reached id s s' srv srv' found same snakes r = next r (
      touch srv'.world id (λ _. s')
        (λ t e.
          let it : s ≡ t = ground (arith, found, e, snakes) in
          (ap (λ i. i.0) same ∙ ap (λ i. i.id) it, ap (λ i. i.1.1) same ∙ ap (λ i. i.sbb) it)))

  module _ ⦃clock : Clock G⦄ (id : ℕ) (s : Snake F) (srv : Server F G)
      (found : find_snake id srv.world.snakes ≡ some s) (v : IsLinked srv) (r : Comes srv) where
    funeral-Reached : Comes (funeral id s srv).1
    unfolding funeral Broadcast.bury
    funeral-Reached =
        let (own, serve) = served id s srv found v in
        let ended = end_session id s srv in
        let buried = Broadcast.bury s ended in
        let fed = send_food_update buried.0 buried.1 in
        let died = remove_snake (record { client_time = 0; snake_id = s.id; status = 1 }) in
        let left = remove_snake (record { client_time = 0; snake_id = s.id; status = 0 }) in
        let last = IsLike-trans (send_food-Tells buried.0 buried.1).like (
          IsLike-trans (broadcast_binary-IsLike died fed.1)
            (broadcast_binary-IsLike left (broadcast_binary died fed.1))) in
        let over : Comes ended =
          subst (Reached {F = F} G) (sym (end_session-IsLike id s srv own serve).world) r in
        subst (Reached {F = F} G) (sym last.world) (next over (feed s ended.world ended.outside))

    die-Reached : Comes (die id s srv)
    unfolding die
    die-Reached =
        let told = funeral id s srv in
        let rounds = funeral-Rounds id s srv found v in
        let back =
          put_back-Reached id s told.0 srv told.1 found rounds.same rounds.snakes funeral-Reached in
        let w = (put_back id told).world in
        if_rule Comes s.bot (next back (bury (w.dead ++ s.id ∷ []) w)) back

    told-Reached : Comes (put_back id (tell_movement (tell_rotation (s, srv))))
    told-Reached =
        let (own, serve) = served id s srv found v in
        let turned = tell_rotation (s, srv) in
        let one = tell_rotation-Tells s srv in
        let told = tell_movement turned in
        let both =
          Tells-trans one
            (tell_movement-Tells turned.0 turned.1 (IsServed-Tells (s, srv) turned one serve)) in
        put_back-Reached id s told.0 srv told.1 found both.same (ap (λ w. w.snakes) both.like.world)
          (subst (Reached {F = F} G) (sym both.like.world) r)

  module _ ⦃clock : Clock G⦄ where
    update_one-Reached :
        (srv : Server F G) (id : ℕ)
        → elem id srv.world.changes ≡ true
        → IsLinked srv
        → Comes srv
        → Comes (update_one srv id)
    unfolding update_one
    update_one-Reached srv id known v r = elim (Option-cases (find_snake id srv.world.snakes)) [
      | inl gone ↦
          let absent = has-find_snake id srv.world.snakes gone in
          absurd (ground (arith, absent, v.sound.changed id known))
      | inr (s, found) ↦
          rw (found, update_one)
            (if_rule Comes s.update.dead r (
              if_rule Comes s.update.dying (die-Reached id s srv found v r) (
                if_rule Comes (same_changes s.update no_changes) r
                  (told-Reached id s srv found v r))))
    ]

    update_all-Reached :
        (ids : List ℕ) (srv : Server F G)
        → ((id : ℕ) → elem id ids ≡ true → elem id srv.world.changes ≡ true)
        → IsLinked srv
        → Comes srv
        → Comes (foldl update_one srv ids)
    update_all-Reached [] srv known v r = r
    update_all-Reached (id ∷ ids) srv known v r =
        let first = known id (ground arith) in
        let (linked, same) = update_one-IsLinked srv id first v in
        update_all-Reached ids (update_one srv id)
          (λ i e. subst (λ l. elem i l ≡ true) (sym same) (known i (ground (arith, e)))) linked
          (update_one-Reached srv id first v r)

    broadcast_updates-Reached :
        (srv : Server F G) → IsLinked srv → Comes srv → Comes (broadcast_updates srv)
    unfolding broadcast_updates
    broadcast_updates-Reached srv v r =
        let told = foldl update_one srv srv.world.changes in
        next (update_all-Reached srv.world.changes srv (λ id e. e) v r) (tell told.world)

    remove_all-Reached : (ids : List ℕ) (srv : Server F G) → Comes srv → Comes (remove_all ids srv)
    unfolding remove_all remove_from_server
    remove_all-Reached [] srv r = r
    remove_all-Reached (id ∷ ids) srv r =
        remove_all-Reached ids (remove_from_server id srv) (next r (leave id srv.world))

    remove_dead-Reached : (srv : Server F G) → Comes srv → Comes (remove_dead_snakes srv)
    unfolding remove_dead_snakes
    remove_dead-Reached srv r =
        next (remove_all-Reached srv.world.dead srv r)
          (bury [] (remove_all srv.world.dead srv).world)

    pub on_timer-Reached :
        (failed : Bool) (srv : Server F G) → IsIdle srv → Comes srv → Comes (on_timer failed srv)
    unfolding on_timer next_tick
    on_timer-Reached failed srv v r =
        let now = clock.now srv.outside in
        let dt = now.0 - srv.last_time_point in
        let begun : Server F G = record srv { world = world_tick dt srv.world; outside = now.1 } in
        let drawn = broadcast_drawing begun in
        let linked = broadcast_drawing-IsLinked begun (world_tick-IsLinked dt srv now.1 v.linked) in
        let shown : Comes drawn =
          subst (Reached {F = F} G) (sym (broadcast_drawing-IsCalm 0 0 0 begun).world)
            (next r (time dt srv.world)) in
        if_rule Comes failed r (
          remove_dead-Reached (broadcast_updates drawn)
            (broadcast_updates-Reached drawn linked shown))
