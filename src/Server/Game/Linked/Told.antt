-- ===== src/Server/Game/Linked/Told.antt =====
-- What the parts of BroadcastUpdates leave of the sessions and of the snake that they tell of.
use slitherss.Prelude.{
  ℕ, ◌≡◌, refl, sym, subst, ap, ◌∙◌, Bool, false, ◌||◌, inl, inr, List, [], ◌∷◌, some, ltb, if_rule,
  if_cases, Option-cases, get_elem?, length,
}
use slitherss.Float.{Float}
use slitherss.Game.Sector.{Food}
use slitherss.Game.Snake.{Snake}
use slitherss.Game.Death.Kept.{self}
use slitherss.Packet.Body.{packet_add_sector, packet_remove_sector}
use slitherss.Packet.Wire.{sector, set_food, spawn_food, eat_food}
use slitherss.Server.Maps.{find_key}
use slitherss.Server.Game.{Clock, Server, send_binary, broadcast_binary}
use slitherss.Server.Game.Update.{
  send_new, send_old, send_pov_update_to, tell_eaten, tell_spawn, send_food_update, tell_rotation,
  tell_place, tell_session, tell_own, tell_movement, packet_move, packet_inc, packet_remove_part,
  packet_fullness, rotation_of,
}
use slitherss.Server.Game.Linked.{
  snake_of, load_session-some, IsLike, IsLike-refl, IsLike-trans, broadcast_binary-IsLike,
  send_binary-IsLike,
}

-- A round tells of a snake and leaves who it is.
pub record Tells {F G : Type 0} (t t' : Snake F × Server F G) : Type 0 where
  pub same : self t'.0 ≡ self t.0
  pub like : IsLike t.1 t'.1

module _ {F G : Type 0} where
  -- The session of a player's snake is there.
  abbrev pub IsServed : Snake F × Server F G → Type 0
  IsServed (s, srv) =
      s.bot ≡ false
      → (h : ℕ) × (find_key s.id srv.connections ≡ some h) × (snake_of h srv.sessions ≡ some s.id)

module _ {F : Type 0} ⦃float : Float F⦄ {G : Type 0} ⦃clock : Clock G⦄ where
  pub Tells-trans : {a b c : Snake F × Server F G} → Tells a b → Tells b c → Tells a c
  Tells-trans p q = record { same = q.same ∙ p.same; like = IsLike-trans p.like q.like }

  told :
      {s s' : Snake F} {srv srv' : Server F G}
      → self s' ≡ self s
      → IsLike srv srv'
      → Tells (s, srv) (s', srv')
  told e l = record { same = e; like = l }

  pub send_new-IsLike :
      (h id : ℕ) (ks : List ℕ) (srv : Server F G)
      → snake_of h srv.sessions ≡ some id
      → IsLike srv (send_new (some h) ks srv)
  unfolding send_new
  send_new-IsLike h id [] srv e = IsLike-refl srv
  send_new-IsLike h id (k ∷ ks) srv e = elim (Option-cases (get_elem? srv.world.sectors k)) [
    | inl gone ↦ rw (gone, send_new) (send_new-IsLike h id ks srv e)
    | inr (sec, found) ↦
        let p = sector (packet_add_sector sec.x sec.y) in
        let one = send_binary-IsLike h id p srv e in
        let sent = send_binary (some h) p srv in
        let known = one.ses h ∙ e in
        let q = set_food (record { client_time = 0; food = sec.food }) in
        let two = send_binary-IsLike h id q sent known in
        let both = send_binary (some h) q sent in
        rw (found, send_new)
          (IsLike-trans one (IsLike-trans two (send_new-IsLike h id ks both (two.ses h ∙ known))))
  ]

  send_old-IsLike :
      (h id : ℕ) (ks : List ℕ) (srv : Server F G)
      → snake_of h srv.sessions ≡ some id
      → IsLike srv (send_old (some h) ks srv)
  unfolding send_old
  send_old-IsLike h id [] srv e = IsLike-refl srv
  send_old-IsLike h id (k ∷ ks) srv e = elim (Option-cases (get_elem? srv.world.sectors k)) [
    | inl gone ↦ rw (gone, send_old) (send_old-IsLike h id ks srv e)
    | inr (sec, found) ↦
        let p = sector (packet_remove_sector sec.x sec.y) in
        let one = send_binary-IsLike h id p srv e in
        let sent = send_binary (some h) p srv in
        rw (found, send_old) (IsLike-trans one (send_old-IsLike h id ks sent (one.ses h ∙ e)))
  ]

  pub send_pov-Tells :
      (h id : ℕ) (s : Snake F) (srv : Server F G)
      → snake_of h srv.sessions ≡ some id
      → Tells (s, srv) (send_pov_update_to (some h) s srv)
  unfolding send_pov_update_to
  send_pov-Tells h id s srv e =
      let one = send_new-IsLike h id s.vp.new_sectors srv e in
      let sent = send_new (some h) s.vp.new_sectors srv in
      told refl (IsLike-trans one (send_old-IsLike h id s.vp.old_sectors sent (one.ses h ∙ e)))

  tell_eaten-IsLike :
      (id : ℕ) (fs : List Food) (srv : Server F G) → IsLike srv (tell_eaten id fs srv)
  unfolding tell_eaten
  tell_eaten-IsLike id [] srv = IsLike-refl srv
  tell_eaten-IsLike id (f ∷ fs) srv =
      let p = eat_food (record { client_time = 0; m_food = f; snake_id = id }) in
      IsLike-trans (broadcast_binary-IsLike p srv)
        (tell_eaten-IsLike id fs (broadcast_binary p srv))

  tell_spawn-IsLike : (fs : List Food) (srv : Server F G) → IsLike srv (tell_spawn fs srv)
  unfolding tell_spawn
  tell_spawn-IsLike [] srv = IsLike-refl srv
  tell_spawn-IsLike (f ∷ fs) srv =
      let p = spawn_food (record { client_time = 0; m_food = f }) in
      IsLike-trans (broadcast_binary-IsLike p srv) (tell_spawn-IsLike fs (broadcast_binary p srv))

  pub send_food-Tells : (s : Snake F) (srv : Server F G) → Tells (s, srv) (send_food_update s srv)
  unfolding send_food_update
  send_food-Tells s srv = told refl (
      IsLike-trans (tell_eaten-IsLike s.id s.eaten srv)
        (tell_spawn-IsLike s.spawn (tell_eaten s.id s.eaten srv)))

  pub tell_rotation-Tells :
      (s : Snake F) (srv : Server F G) → Tells (s, srv) (tell_rotation (s, srv))
  unfolding tell_rotation
  tell_rotation-Tells s srv =
      if_rule (Tells (s, srv)) (s.update.angle || s.update.speed)
        (told refl (broadcast_binary-IsLike (rotation_of s) srv)) (told refl (IsLike-refl srv))

  pub tell_place-Tells : (s : Snake F) (srv : Server F G) → Tells (s, srv) (tell_place (s, srv))
  unfolding tell_place
  tell_place-Tells s srv =
      let cut = broadcast_binary (packet_remove_part s) srv in
      if_rule (Tells (s, srv)) (ltb s.client_parts_index (length s.parts))
        (told refl (broadcast_binary-IsLike (packet_inc s) srv))
        (if_rule (Tells (s, srv)) (ltb (length s.parts) s.client_parts_index)
          (told refl (
            IsLike-trans (broadcast_binary-IsLike (packet_remove_part s) srv)
              (broadcast_binary-IsLike (packet_move s) cut)))
          (told refl (broadcast_binary-IsLike (packet_move s) srv)))

  tell_session-Tells :
      (h : ℕ) (full : Bool) (s : Snake F) (srv : Server F G)
      → snake_of h srv.sessions ≡ some s.id
      → Tells (s, srv) (tell_session (some h) full (s, srv))
  unfolding tell_session
  tell_session-Tells h full s srv known =
      let seen = send_pov-Tells h s.id s srv known in
      let after = send_pov_update_to (some h) s srv in
      let last = send_binary-IsLike h s.id (packet_fullness s) after.1 (seen.like.ses h ∙ known) in
      if_rule (Tells (s, srv)) full (told seen.same (IsLike-trans seen.like last)) seen

  tell_own-Tells :
      (full : Bool) (s : Snake F) (srv : Server F G)
      → IsServed (s, srv)
      → Tells (s, srv) (tell_own full (s, srv))
  unfolding tell_own
  tell_own-Tells full s srv served =
      if_cases (Tells (s, srv)) s.bot (λ _. told refl (IsLike-refl srv))
        (λ player.
          let (h, found, known) = served player in
          subst (λ ses. Tells (s, srv) (tell_session ses full (s, srv)))
            (sym (load_session-some srv s.id h found known))
            (tell_session-Tells h full s srv known))

  pub IsServed-Tells : (t t' : Snake F × Server F G) → Tells t t' → IsServed t → IsServed t'
  IsServed-Tells t t' v served player =
      let ids = ap (λ i. i.0) v.same in
      let (h, c, known) = served (sym (ap (λ i. i.1.0) v.same) ∙ player) in
      (
        h,
        ap (find_key t'.0.id) v.like.connections ∙ ap (λ i. find_key i t.1.connections) ids ∙ c,
        v.like.ses h ∙ known ∙ ap some (sym ids),
      )

  pub tell_movement-Tells :
      (s : Snake F) (srv : Server F G) → IsServed (s, srv) → Tells (s, srv) (tell_movement (s, srv))
  unfolding tell_movement
  tell_movement-Tells s srv served =
      let begun : Snake F = record s { update = record s.update { pos = false } } in
      let placed = tell_place (begun, srv) in
      let one = tell_place-Tells begun srv in
      let fed = send_food_update placed.0 placed.1 in
      let two =
        Tells-trans {a = (s, srv)} (told one.same one.like) (send_food-Tells placed.0 placed.1) in
      let three =
        tell_own-Tells s.update.fullness fed.0 fed.1 (IsServed-Tells (s, srv) fed two served) in
      if_rule (Tells (s, srv)) s.update.pos (Tells-trans two three) (told refl (IsLike-refl srv))
