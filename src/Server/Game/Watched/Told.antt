-- ===== src/Server/Game/Watched/Told.antt =====
-- A round of BroadcastUpdates and the sectors that the clients know.
use slitherss.Prelude.{
  ℕ, ◌≡◌, refl, ap, ◌∙◌, Bool, false, not, ◌&&◌, ◌||◌, List, [], some, ltb, ◌==◌, if_rule, elem,
  get_elem?, length,
}
use slitherss.Float.{Float}
use slitherss.Game.Sector.Sites.{sites, IsGrid}
use slitherss.Game.Snake.{Snake}
use slitherss.Game.Tick.Sight.{fate}
use slitherss.Server.Game.{Clock, Server, broadcast_binary}
use slitherss.Server.Game.Update.{
  send_new, send_pov_update_to, tell_eaten, send_food_update, tell_rotation, tell_place,
  tell_session, packet_move, packet_inc, packet_remove_part, packet_fullness, rotation_of,
}
use slitherss.Server.Game.Linked.{snake_of}
use slitherss.Server.Game.Linked.Told.{send_new-IsLike}
use slitherss.Server.Game.Replay.{
  broadcast-quiet, send-quiet, send-other, tell_eaten-quiet, tell_spawn-quiet,
}
use slitherss.Server.Game.Replay.Shown.{
  show, shown, send_new-shown, send_old-shown, send_new-other, send_old-other,
}

module _ {F : Type 0} ⦃float : Float F⦄ {G : Type 0} ⦃clock : Clock G⦄ (x y h : ℕ) where
  -- A part of a round that tells nobody of sectors, and leaves the view port
  pub record Hushed (t t' : Snake F × Server F G) : Type 0 where
    pub heard : shown x y h t'.1 ≡ shown x y h t.1
    pub vp : t'.0.vp ≡ t.0.vp
    pub pos : t'.0.update.pos ≡ t.0.update.pos
    pub same : fate t'.0 ≡ fate t.0

  Hushed-trans : {a b c : Snake F × Server F G} → Hushed a b → Hushed b c → Hushed a c
  Hushed-trans p q = record {
    heard = q.heard ∙ p.heard;
    vp = q.vp ∙ p.vp;
    pos = q.pos ∙ p.pos;
    same = q.same ∙ p.same;
  }

  hushed :
      {s s' : Snake F} {srv srv' : Server F G}
      → shown x y h srv' ≡ shown x y h srv
      → s'.vp ≡ s.vp
      → s'.update.pos ≡ s.update.pos
      → fate s' ≡ fate s
      → Hushed (s, srv) (s', srv')
  hushed e v p f = record { heard = e; vp = v; pos = p; same = f }

  pub tell_rotation-Hushed :
      (s : Snake F) (srv : Server F G) → Hushed (s, srv) (tell_rotation (s, srv))
  unfolding tell_rotation
  tell_rotation-Hushed s srv =
      if_rule (Hushed (s, srv)) (s.update.angle || s.update.speed)
        (hushed (broadcast-quiet (show x y) h false (rotation_of s) srv (λ t b. refl)) refl refl
          refl)
        (hushed refl refl refl refl)

  tell_place-Hushed : (s : Snake F) (srv : Server F G) → Hushed (s, srv) (tell_place (s, srv))
  unfolding tell_place
  tell_place-Hushed s srv =
      let cut = broadcast_binary (packet_remove_part s) srv in
      let quiet = broadcast-quiet (show x y) h false in
      if_rule (Hushed (s, srv)) (ltb s.client_parts_index (length s.parts))
        (hushed (quiet (packet_inc s) srv (λ t b. refl)) refl refl refl)
        (if_rule (Hushed (s, srv)) (ltb (length s.parts) s.client_parts_index)
          (hushed
            (quiet (packet_move s) cut (λ t b. refl)
              ∙ quiet (packet_remove_part s) srv (λ t b. refl))
            refl refl refl)
          (hushed (quiet (packet_move s) srv (λ t b. refl)) refl refl refl))

  pub food-shown :
      (s : Snake F) (srv : Server F G) → shown x y h (send_food_update s srv).1 ≡ shown x y h srv
  unfolding send_food_update
  food-shown s srv =
      tell_spawn-quiet (show x y) h false s.spawn (tell_eaten s.id s.eaten srv) (λ f t b. refl)
      ∙ tell_eaten-quiet (show x y) h false s.id s.eaten srv (λ f t b. refl)

  -- The part that is told to all, of a snake that moved
  abbrev pub told_all : Snake F × Server F G → Snake F × Server F G
  told_all (s, srv) =
      let placed = tell_place (record s { update = record s.update { pos = false } }, srv) in
      send_food_update placed.0 placed.1

  pub told_all-Hushed :
      (s : Snake F) (srv : Server F G)
      → Hushed (record s { update = record s.update { pos = false } }, srv) (told_all (s, srv))
  unfolding send_food_update
  told_all-Hushed s srv =
      let begun : Snake F = record s { update = record s.update { pos = false } } in
      let placed = tell_place (begun, srv) in
      Hushed-trans (tell_place-Hushed begun srv)
        (hushed (food-shown placed.0 placed.1) refl refl refl)

  -- What is told to the client of another session
  module _ (h' : ℕ) (other : (h' == h) ≡ false) where
    pub tell_session-other :
        (full : Bool) (s : Snake F) (srv : Server F G)
        → shown x y h (tell_session (some h') full (s, srv)).1 ≡ shown x y h srv
    unfolding tell_session send_pov_update_to
    tell_session-other full s srv =
        let new = send_new (some h') s.vp.new_sectors srv in
        let seen = send_pov_update_to (some h') s srv in
        let pov : shown x y h seen.1 ≡ shown x y h srv =
          send_old-other x y h h' other s.vp.old_sectors new
          ∙ send_new-other x y h h' other s.vp.new_sectors srv in
        if_rule (λ (t : Snake F × Server F G). shown x y h t.1 ≡ shown x y h srv) full
          (send-other (show x y) h false h' (packet_fullness s) seen.1 other ∙ pov) pov

  -- What its own client is told: it knows the sector if it knew it or it is new, and it is not old.
  pub record Owned (j : ℕ) (t t' : Snake F × Server F G) : Type 0 where
    pub heard :
        shown x y h t'.1
        ≡ ((shown x y h t.1 || elem j t.0.vp.new_sectors) && not (elem j t.0.vp.old_sectors))
    pub vp : t'.0.vp ≡ record t.0.vp { new_sectors = []; old_sectors = [] }
    pub pos : t'.0.update.pos ≡ t.0.update.pos
    pub same : fate t'.0 ≡ fate t.0

  module _ (ps : List (ℕ × ℕ)) (j : ℕ) (grid : IsGrid ps)
      (here : get_elem? ps j ≡ some (x, y)) where
    pub send_pov-Owned :
        (s : Snake F) (srv : Server F G) (id : ℕ)
        → snake_of h srv.sessions ≡ some id
        → sites srv.world.sectors ≡ ps
        → Owned j (s, srv) (send_pov_update_to (some h) s srv)
    unfolding send_pov_update_to
    send_pov-Owned s srv id mine e =
        let new = send_new (some h) s.vp.new_sectors srv in
        let l = send_new-IsLike h id s.vp.new_sectors srv mine in
        record {
          heard =
              send_old-shown h id ps j x y grid here s.vp.old_sectors new (l.ses h ∙ mine)
                (ap (λ w. sites w.sectors) l.world ∙ e)
              ∙ ap (λ b. b && not (elem j s.vp.old_sectors))
                  (send_new-shown h id ps j x y grid here s.vp.new_sectors srv mine e);
          vp = refl;
          pos = refl;
          same = refl;
        }

    pub tell_session-Owned :
        (full : Bool) (s : Snake F) (srv : Server F G) (id : ℕ)
        → snake_of h srv.sessions ≡ some id
        → sites srv.world.sectors ≡ ps
        → Owned j (s, srv) (tell_session (some h) full (s, srv))
    unfolding tell_session
    tell_session-Owned full s srv id mine e =
        let own = send_pov-Owned s srv id mine e in
        let seen = send_pov_update_to (some h) s srv in
        if_rule (Owned j (s, srv)) full
          (record {
            heard =
                send-quiet (show x y) h false (some h) (packet_fullness s) seen.1 (λ t b. refl)
                ∙ own.heard;
            vp = own.vp;
            pos = own.pos;
            same = own.same;
          })
          own
