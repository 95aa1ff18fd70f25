-- ===== src/Server/Game/Replay/Counted.antt =====
-- What a client counts, after BroadcastUpdates told of a snake.
use slitherss.Prelude.{
  ℕ, ◌+◌, ◌-◌, ◌≡◌, refl, ap, ◌∙◌, Bool, false, ◌||◌, inl, inr, List, [], ◌∷◌, Option, arith, ltb,
  ◌==◌, if◌then◌else◌, if_rule, Option-cases, get_elem?, length,
}
use slitherss.Float.{Float}
use slitherss.Game.Snake.{Snake}
use slitherss.Packet.Body.{packet_add_sector, packet_remove_sector}
use slitherss.Packet.Wire.{Packet, inc, remove_part, sector, set_food}
use slitherss.Server.Game.{
  Clock, Session, Server, tell_all, load_session_iter, send_binary, broadcast_binary,
}
use slitherss.Server.Game.Update.{
  send_new, send_old, send_pov_update_to, tell_eaten, send_food_update, tell_rotation, tell_place,
  tell_session, tell_own, tell_movement, packet_move, packet_inc, packet_remove_part,
  packet_fullness, rotation_of,
}
use slitherss.Server.Game.Replay.{
  sessions_of, replayed, broadcast-quiet, broadcast-once, send-quiet, tell_eaten-quiet,
  tell_spawn-quiet,
}

sessions_of-tell_all :
    {F : Type 0} (h now : ℕ) (p : Packet F) (sessions : List (ℕ × Session))
    → sessions_of h (tell_all now p sessions).0 ≡ sessions_of h sessions
unfolding tell_all
sessions_of-tell_all h now p [] = refl
sessions_of-tell_all h now p ((h', ses) ∷ rest) =
    ap (λ m. (if h' == h then 1 else 0) + m) (sessions_of-tell_all h now p rest)

module _ {F : Type 0} where
  -- What a packet makes of the count of the parts of the snake `id`
  abbrev pub count_part : ℕ → Packet F → ℕ → ℕ
  count_part id (inc p) n = if p.snake_id == id then n + 1 else n
  count_part id (remove_part p) n = if p.snake_id == id then n - 1 else n
  count_part id p n = n

module _ {F : Type 0} ⦃float : Float F⦄ {G : Type 0} ⦃clock : Clock G⦄ (h id n : ℕ) where
  -- What the client counts of all that a server sent
  abbrev pub counted : Server F G → ℕ
  counted srv = replayed (count_part id) h n srv

  send_new-quiet :
      (ses : Option ℕ) (ks : List ℕ) (srv : Server F G)
      → counted (send_new ses ks srv) ≡ counted srv
  unfolding send_new
  send_new-quiet ses [] srv = refl
  send_new-quiet ses (k ∷ ks) srv = elim (Option-cases (get_elem? srv.world.sectors k)) [
    | inl gone ↦ rw (gone, send_new) (send_new-quiet ses ks srv)
    | inr (sec, found) ↦
        let p = sector (packet_add_sector sec.x sec.y) in
        let one = send_binary ses p srv in
        let q = set_food (record { client_time = 0; food = sec.food }) in
        rw (found, send_new)
          (send_new-quiet ses ks (send_binary ses q one)
            ∙ send-quiet (count_part id) h n ses q one (λ t m. refl)
            ∙ send-quiet (count_part id) h n ses p srv (λ t m. refl))
  ]

  send_old-quiet :
      (ses : Option ℕ) (ks : List ℕ) (srv : Server F G)
      → counted (send_old ses ks srv) ≡ counted srv
  unfolding send_old
  send_old-quiet ses [] srv = refl
  send_old-quiet ses (k ∷ ks) srv = elim (Option-cases (get_elem? srv.world.sectors k)) [
    | inl gone ↦ rw (gone, send_old) (send_old-quiet ses ks srv)
    | inr (sec, found) ↦
        let p = sector (packet_remove_sector sec.x sec.y) in
        rw (found, send_old)
          (send_old-quiet ses ks (send_binary ses p srv)
            ∙ send-quiet (count_part id) h n ses p srv (λ t m. refl))
  ]

module _ {F : Type 0} ⦃float : Float F⦄ {G : Type 0} ⦃clock : Clock G⦄ (h n : ℕ) where
  -- The client of h has counted the parts that the server thinks it knows.
  abbrev pub IsCounted : Snake F × Server F G → Type 0
  IsCounted (s, srv) = counted h s.id n srv ≡ s.client_parts_index

  tell_rotation-IsCounted :
      (s : Snake F) (srv : Server F G)
      → IsCounted (s, srv)
      → sessions_of h srv.sessions ≡ 1
      → let told = tell_rotation (s, srv) in IsCounted told × (sessions_of h told.1.sessions ≡ 1)
  unfolding tell_rotation broadcast_binary
  tell_rotation-IsCounted s srv v e =
      let now = (clock.now srv.outside).0 in
      if_rule (λ (t : Snake F × Server F G). IsCounted t × (sessions_of h t.1.sessions ≡ 1))
        (s.update.angle || s.update.speed)
        (
          broadcast-quiet (count_part s.id) h n (rotation_of s) srv (λ t m. refl) ∙ v,
          sessions_of-tell_all h now (rotation_of s) srv.sessions ∙ e,
        )
        (v, e)

  tell_place-IsCounted :
      (s : Snake F) (srv : Server F G)
      → IsCounted (s, srv)
      → sessions_of h srv.sessions ≡ 1
      → IsCounted (tell_place (s, srv))
  unfolding tell_place
  tell_place-IsCounted s srv v e =
      let cut = broadcast_binary (packet_remove_part s) srv in
      if_rule IsCounted (ltb s.client_parts_index (length s.parts))
        (broadcast-once (count_part s.id) h n (λ m. m + 1) (packet_inc s) srv (λ t m. ground arith)
            e
          ∙ ap (λ m. m + 1) v)
        (if_rule IsCounted (ltb (length s.parts) s.client_parts_index)
          (broadcast-quiet (count_part s.id) h n (packet_move s) cut (λ t m. refl)
            ∙ broadcast-once (count_part s.id) h n (λ m. m - 1) (packet_remove_part s) srv
                (λ t m. ground arith) e
            ∙ ap (λ m. m - 1) v)
          (broadcast-quiet (count_part s.id) h n (packet_move s) srv (λ t m. refl) ∙ v))

  send_food-IsCounted :
      (s : Snake F) (srv : Server F G) → IsCounted (s, srv) → IsCounted (send_food_update s srv)
  unfolding send_food_update
  send_food-IsCounted s srv v =
      tell_spawn-quiet (count_part s.id) h n s.spawn (tell_eaten s.id s.eaten srv) (λ f t m. refl)
      ∙ tell_eaten-quiet (count_part s.id) h n s.id s.eaten srv (λ f t m. refl)
      ∙ v

  tell_own-IsCounted :
      (full : Bool) (s : Snake F) (srv : Server F G)
      → IsCounted (s, srv)
      → IsCounted (tell_own full (s, srv))
  unfolding tell_own tell_session send_pov_update_to
  tell_own-IsCounted full s srv v =
      let ses = load_session_iter s.id srv in
      let new = send_new ses s.vp.new_sectors srv in
      let seen = send_pov_update_to ses s srv in
      let told : counted h s.id n seen.1 ≡ s.client_parts_index =
        send_old-quiet h s.id n ses s.vp.old_sectors new
        ∙ send_new-quiet h s.id n ses s.vp.new_sectors srv
        ∙ v in
      if_rule IsCounted s.bot v (
        if_rule IsCounted full
          (send-quiet (count_part s.id) h n ses (packet_fullness s) seen.1 (λ t m. refl) ∙ told)
          told)

  tell_step-IsCounted :
      (s : Snake F) (srv : Server F G)
      → IsCounted (s, srv)
      → sessions_of h srv.sessions ≡ 1
      → IsCounted (tell_movement (s, srv))
  unfolding tell_movement
  tell_step-IsCounted s srv v e =
      let begun : Snake F = record s { update = record s.update { pos = false } } in
      let placed = tell_place (begun, srv) in
      let one = tell_place-IsCounted begun srv v e in
      let fed = send_food_update placed.0 placed.1 in
      let two = send_food-IsCounted placed.0 placed.1 one in
      if_rule IsCounted s.update.pos (tell_own-IsCounted s.update.fullness fed.0 fed.1 two) v

  -- A client that adds one for each packet_inc of a snake, and takes one off for each
  -- packet_remove_part, and that has come to the snake's clientPartsIndex, has come to the new one
  -- after a round of BroadcastUpdates told of the snake. The map of the sessions has its handle once.
  pub tell_movement-IsCounted :
      (s : Snake F) (srv : Server F G)
      → IsCounted (s, srv)
      → sessions_of h srv.sessions ≡ 1
      → IsCounted (tell_movement (tell_rotation (s, srv)))
  tell_movement-IsCounted s srv v e =
      let told = tell_rotation (s, srv) in
      let (one, once) = tell_rotation-IsCounted s srv v e in
      tell_step-IsCounted told.0 told.1 one once
