-- ===== src/Server/Game/Replay.antt =====
-- A client as a function of the packets that came to its connection.
pub mod Counted
pub mod Shown
use slitherss.Prelude.{
  ℕ, zero, suc, ◌+◌, ◌-◌, ◌≡◌, refl, sym, subst, ap, ◌∙◌, Bool, true, false, ◌&&◌, ◌||◌, inl, inr,
  List, [], ◌∷◌, ◌++◌, Option, none, some, arith, ltb, ◌==◌, if◌then◌else◌, if_rule, if_cases,
  Bool-cases, Option-cases, get_elem?, length,
}
use slitherss.Float.{Float}
use slitherss.Game.Sector.{Food, Sector}
use slitherss.Game.Snake.{Snake}
use slitherss.Packet.Body.{packet_add_sector, packet_remove_sector}
use slitherss.Packet.Wire.{Packet, inc, remove_part, sector, set_food, spawn_food, eat_food}
use slitherss.Server.Maps.{find_key}
use slitherss.Server.Game.{
  Clock, Session, Server, set_client_time, interval, tell_all, load_session_iter, send_binary,
  broadcast_binary,
}
use slitherss.Server.Game.Update.{
  send_new, send_old, send_pov_update_to, tell_eaten, tell_spawn, send_food_update, tell_rotation,
  tell_place, tell_session, tell_own, tell_movement, packet_move, packet_inc, packet_remove_part,
  packet_fullness, rotation_of,
}

-- How many sessions have the handle: one in a map that has it
abbrev pub sessions_of : ℕ → List (ℕ × Session) → ℕ
sessions_of h [] = 0
sessions_of h ((h', ses) ∷ rest) = (if h' == h then 1 else 0) + sessions_of h rest

module _ {F V : Type 0} (react : Packet F → V → V) where
  -- What the connection `h` makes of all that was sent, by its reaction to a packet
  abbrev pub replay : ℕ → List (ℕ × Packet F) → V → V
  replay h [] v = v
  replay h ((h', p) ∷ rest) v = replay h rest (if h' == h then react p v else v)

  -- A packet that is reacted to as g, whatever its time
  abbrev pub Reacts : Packet F → (V → V) → Type 0
  Reacts p g = (t : ℕ) (v : V) → react (set_client_time t p) v ≡ g v

  pub replay-append :
      (h : ℕ) (xs ys : List (ℕ × Packet F)) (v : V)
      → replay h (xs ++ ys) v ≡ replay h ys (replay h xs v)
  replay-append h [] ys v = refl
  replay-append h ((h', p) ∷ xs) ys v = replay-append h xs ys (if h' == h then react p v else v)

  module _ (h now : ℕ) (p : Packet F) where
    replay-quiet :
        (sessions : List (ℕ × Session)) (v : V)
        → Reacts p (λ m. m)
        → replay h (tell_all now p sessions).1 v ≡ v
    unfolding tell_all
    replay-quiet [] v c = refl
    replay-quiet ((h', ses) ∷ rest) v c =
        let t = interval now ses.last_packet_time in
        if_rule (λ m. replay h (tell_all now p rest).1 m ≡ v) (h' == h)
          (replay-quiet rest (react (set_client_time t p) v) c ∙ c t v) (replay-quiet rest v c)

    replay-absent :
        (sessions : List (ℕ × Session)) (v : V)
        → sessions_of h sessions ≡ 0
        → replay h (tell_all now p sessions).1 v ≡ v
    unfolding tell_all
    replay-absent [] v e = refl
    replay-absent ((h', ses) ∷ rest) v e =
        if_cases (λ m. replay h (tell_all now p rest).1 m ≡ v) (h' == h)
          (λ here. absurd (ground (arith, here, e)))
          (λ there. replay-absent rest v (ground (arith, there, e)))

    replay-once :
        (g : V → V) (sessions : List (ℕ × Session)) (v : V)
        → Reacts p g
        → sessions_of h sessions ≡ 1
        → replay h (tell_all now p sessions).1 v ≡ g v
    unfolding tell_all
    replay-once g [] v c e = absurd (ground (arith, e))
    replay-once g ((h', ses) ∷ rest) v c e =
        let t = interval now ses.last_packet_time in
        if_cases (λ m. replay h (tell_all now p rest).1 m ≡ g v) (h' == h)
          (λ here.
            replay-absent rest (react (set_client_time t p) v) (ground (arith, here, e)) ∙ c t v)
          (λ there. replay-once g rest v c (ground (arith, there, e)))

module _ {F : Type 0} ⦃float : Float F⦄ {G : Type 0} ⦃clock : Clock G⦄ {V : Type 0}
    (react : Packet F → V → V) (h : ℕ) (v : V) where
  -- What the client makes of all that a server sent
  abbrev pub replayed : Server F G → V
  replayed srv = replay react h srv.sent v

  pub broadcast-quiet :
      (p : Packet F) (srv : Server F G)
      → Reacts react p (λ m. m)
      → replayed (broadcast_binary p srv) ≡ replayed srv
  unfolding broadcast_binary
  broadcast-quiet p srv c =
      let now = (clock.now srv.outside).0 in
      replay-append react h srv.sent (tell_all now p srv.sessions).1 v
      ∙ replay-quiet react h now p srv.sessions (replayed srv) c

  pub broadcast-once :
      (g : V → V) (p : Packet F) (srv : Server F G)
      → Reacts react p g
      → sessions_of h srv.sessions ≡ 1
      → replayed (broadcast_binary p srv) ≡ g (replayed srv)
  unfolding broadcast_binary
  broadcast-once g p srv c e =
      let now = (clock.now srv.outside).0 in
      replay-append react h srv.sent (tell_all now p srv.sessions).1 v
      ∙ replay-once react h now p g srv.sessions (replayed srv) c e

  -- A packet for one session: it is reacted to if it is the client's.
  pub send-Reacts :
      (g : V → V) (h' : ℕ) (p : Packet F) (srv : Server F G) {ses : Session}
      → Reacts react p g
      → find_key h' srv.sessions ≡ some ses
      → replayed (send_binary (some h') p srv)
        ≡ (if h' == h then g (replayed srv) else replayed srv)
  unfolding send_binary
  send-Reacts g h' p srv {ses} c found =
      let t = interval (clock.now srv.outside).0 ses.last_packet_time in
      rw (found, send_binary)
        (replay-append react h srv.sent ((h', set_client_time t p) ∷ []) v
          ∙ ap (λ m. if h' == h then m else replayed srv) (c t (replayed srv)))

  -- A packet for another session is nothing to the client.
  pub send-other :
      (h' : ℕ) (p : Packet F) (srv : Server F G)
      → (h' == h) ≡ false
      → replayed (send_binary (some h') p srv) ≡ replayed srv
  unfolding send_binary
  send-other h' p srv other = elim (Option-cases (find_key h' srv.sessions)) [
    | inl gone ↦ rw (gone, send_binary) refl
    | inr (ses, found) ↦
        let t = interval (clock.now srv.outside).0 ses.last_packet_time in
        rw (found, send_binary)
          (replay-append react h srv.sent ((h', set_client_time t p) ∷ []) v
            ∙ ap (λ b. if b then react (set_client_time t p) (replayed srv) else replayed srv)
                other)
  ]

  pub send-quiet :
      (ses : Option ℕ) (p : Packet F) (srv : Server F G)
      → Reacts react p (λ m. m)
      → replayed (send_binary ses p srv) ≡ replayed srv
  unfolding send_binary
  send-quiet none p srv c = refl
  send-quiet (some h') p srv c = elim (Option-cases (find_key h' srv.sessions)) [
    | inl gone ↦ rw (gone, send_binary) refl
    | inr (ses, found) ↦
        send-Reacts (λ m. m) h' p srv c found ∙ if_rule (λ m. m ≡ replayed srv) (h' == h) refl refl
  ]

  pub tell_eaten-quiet :
      (me : ℕ) (fs : List Food) (srv : Server F G)
      → ((f : Food)
          → Reacts react
              (eat_food (record { client_time = 0; m_food = f; snake_id = me }))
              (λ m. m))
      → replayed (tell_eaten me fs srv) ≡ replayed srv
  unfolding tell_eaten
  tell_eaten-quiet me [] srv c = refl
  tell_eaten-quiet me (f ∷ fs) srv c =
      let p = eat_food (record { client_time = 0; m_food = f; snake_id = me }) in
      tell_eaten-quiet me fs (broadcast_binary p srv) c ∙ broadcast-quiet p srv (c f)

  pub tell_spawn-quiet :
      (fs : List Food) (srv : Server F G)
      → ((f : Food) → Reacts react (spawn_food (record { client_time = 0; m_food = f })) (λ m. m))
      → replayed (tell_spawn fs srv) ≡ replayed srv
  unfolding tell_spawn
  tell_spawn-quiet [] srv c = refl
  tell_spawn-quiet (f ∷ fs) srv c =
      let p = spawn_food (record { client_time = 0; m_food = f }) in
      tell_spawn-quiet fs (broadcast_binary p srv) c ∙ broadcast-quiet p srv (c f)
