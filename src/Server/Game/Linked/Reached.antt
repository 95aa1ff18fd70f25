-- ===== src/Server/Game/Linked/Reached.antt =====
-- The worlds of the servers that Run and the handlers come to, as steps of the world.
use slitherss.Prelude.{
  ℕ, ◌≡◌, refl, sym, subst, ap, Bool, true, false, ◌&&◌, inl, inr, List, [], ◌∷◌, some, arith, ltb,
  leb, ◌==◌, if_rule, Option-cases, length,
}
use slitherss.Float.{Float}
use slitherss.Game.Random.{Random}
use slitherss.Game.Snake.{Snake}
use slitherss.Game.Death.Kept.{self}
use slitherss.Game.World.{find_snake}
use slitherss.Game.World.Create.{next_id}
use slitherss.Game.World.Sound.{has}
use slitherss.Game.World.Sound.Reached.{Reached, init, next, first, come, leave}
use slitherss.Packet.Wire.{pong}
use slitherss.Server.Maps.{find_key}
use slitherss.Server.Game.{Clock, Session, Server}
use slitherss.Server.Game.Broadcast.{remove_from_server}
use slitherss.Server.Game.Handlers.{
  do_snake, on_username, on_packet, on_message, on_close, on_open, connect, next_tick, run,
}
use slitherss.Server.Game.Update.{send_pov_update_to}
use slitherss.Server.Game.Linked.{send_binary-IsLike}
use slitherss.Server.Game.Linked.Opened.{connect-found}
use slitherss.Server.Game.Linked.Served.{
  Serves, started, timed, opened, told, closed, Serves-IsIdle,
}
use slitherss.Server.Game.Watched.Arrived.{placed, told-Tells, introduced}
use slitherss.Server.Game.Linked.Steps.{Comes, put_back-Reached, on_timer-Reached}

module _ {F : Type 0} ⦃float : Float F⦄ {G : Type 0} ⦃clock : Clock G⦄ ⦃random : Random G⦄ where
  do_snake-Reached :
      (id : ℕ) (f : Snake F → Snake F) (srv : Server F G)
      → ((s : Snake F) → self (f s) ≡ self s)
      → Comes srv
      → Comes (do_snake id f srv)
  unfolding do_snake
  do_snake-Reached id f srv same r = elim (Option-cases (find_snake id srv.world.snakes)) [
    | inl gone ↦ rw (gone, do_snake) (if_rule Comes (ltb 0 id) r r)
    | inr (s, found) ↦
        rw (found, do_snake)
          (if_rule Comes (ltb 0 id) (put_back-Reached id s (f s) srv srv found (same s) refl r) r)
  ]

  on_packet-Reached :
      (hdl : ℕ) (ses : Session) (type : ℕ) (rest : List ℕ) (srv : Server F G)
      → find_key hdl srv.sessions ≡ some ses
      → Comes srv
      → Comes (on_packet hdl ses type rest srv)
  unfolding on_packet on_username
  on_packet-Reached hdl ses type rest srv found r =
      let p = pong (record { client_time = 0 }) in
      let like = send_binary-IsLike hdl ses.snake_id p srv (ground (arith, found)) in
      let done = λ (f : Snake F → Snake F) (same : (s : Snake F) → self (f s) ≡ self s).
        do_snake-Reached ses.snake_id f srv same r in
      if_rule Comes (type == 251) (subst (Reached {F = F} G) (sym like.world) r) (
        if_rule Comes (type == b's') (do_snake-Reached ses.snake_id _ _ (λ s. refl) r) (
          if_rule Comes (type == 253) (done (λ s. record s { acceleration = true }) (λ s. refl)) (
            if_rule Comes (type == 254) (done (λ s. record s { acceleration = false }) (λ s. refl))
              r)))

  on_message-Reached :
      (hdl : ℕ) (is_binary : Bool) (payload : List ℕ) (srv : Server F G)
      → Comes srv
      → Comes (on_message hdl is_binary payload srv)
  unfolding on_message
  on_message-Reached hdl is_binary payload srv r =
      let type : ℕ = elim payload [ [] ↦ 0 | b ∷ _ ↦ b ] in
      let rest : List ℕ = elim payload [ [] ↦ [] | _ ∷ bs ↦ bs ] in
      let len = length payload in
      elim (Option-cases (find_key hdl srv.sessions)) [
        | inl gone ↦
            rw (gone, on_message) (if_rule Comes is_binary (if_rule Comes (ltb 255 len) r r) r)
        | inr (ses, found) ↦
            rw (found, on_message)
              (if_rule Comes is_binary
                (if_rule Comes (ltb 255 len) r (
                  if_rule Comes (leb type 250 && len == 1)
                    (do_snake-Reached ses.snake_id _ srv (λ s. refl) r)
                    (on_packet-Reached hdl ses type rest srv found r)))
                r)
      ]

  on_close-Reached : (hdl : ℕ) (srv : Server F G) → Comes srv → Comes (on_close hdl srv)
  unfolding on_close remove_from_server
  on_close-Reached hdl srv r = elim (Option-cases (find_key hdl srv.sessions)) [
    | inl gone ↦ rw (gone, on_close) r
    | inr (ses, found) ↦ rw (found, on_close) (next r (leave ses.snake_id srv.world))
  ]

  on_open-Reached :
      (hdl : ℕ) (srv : Server F G)
      → has (next_id srv.world) srv.world.snakes ≡ false
      → Comes srv
      → Comes (on_open hdl srv)
  unfolding connect send_pov_update_to
  on_open-Reached hdl srv free r =
      let connected = connect hdl srv in
      let s = connected.0 in
      let after = send_pov_update_to (some hdl) s (placed s connected.1) in
      let told = told-Tells hdl srv free in
      let entered : Comes connected.1 = next r (come srv.world srv.outside free) in
      subst (Reached {F = F} G) (sym (introduced hdl srv free).world) (
        put_back-Reached s.id s after.0 connected.1 after.1 (connect-found hdl srv free) refl
          (ap (λ w. w.snakes) told.world) (subst (Reached {F = F} G) (sym told.world) entered))

  -- For a server that was just made, after Run with fewer than 65536 bots and any events, where
  -- connections open under handles that have no session and while the next id is not in use: its
  -- world comes from World::Init by steps of the world, of which each is a tick, a snake that
  -- comes or leaves, a change of a snake that keeps its id and box, the food of a dead snake, or
  -- what is noted of dead bots and of changes.
  pub Serves-Reached : {srv : Server F G} → Serves srv → Reached {F = F} G srv.world
  unfolding run next_tick
  Serves-Reached (started config debug srv n few) =
      init (first config srv.world srv.outside n.snakes n.changes n.last_snake_id few)
  Serves-Reached (timed failed srv s) =
      on_timer-Reached failed srv (Serves-IsIdle s) (Serves-Reached s)
  Serves-Reached (opened hdl srv free fresh s) = on_open-Reached hdl srv free (Serves-Reached s)
  Serves-Reached (told hdl is_binary payload srv s) =
      on_message-Reached hdl is_binary payload srv (Serves-Reached s)
  Serves-Reached (closed hdl srv s) = on_close-Reached hdl srv (Serves-Reached s)
