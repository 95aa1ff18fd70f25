-- ===== src/Server/Game/Watched/Dead.antt =====
-- A round of BroadcastUpdates for a snake that dies, and what the clients know of the sectors.
use slitherss.Prelude.{ℕ, ◌≡◌, refl, ap, ◌∙◌, false, inl, inr, some, if_rule, Option-cases}
use slitherss.Float.{Float}
use slitherss.Game.Random.{Random}
use slitherss.Game.Snake.{Snake}
use slitherss.Game.Death.Sites.{food_spawn-state}
use slitherss.Packet.Wire.{end, remove_snake}
use slitherss.Server.Game.{Clock, Server, load_session_iter, broadcast_binary}
use slitherss.Server.Game.Update.{send_food_update}
use slitherss.Server.Game.Broadcast.{end_session, bury, funeral}
use slitherss.Server.Game.Replay.{broadcast-quiet, send-quiet}
use slitherss.Server.Game.Replay.Shown.{show, shown}
use slitherss.Server.Game.Watched.Told.{food-shown}

module _ {F : Type 0} ⦃float : Float F⦄ {G : Type 0} ⦃clock : Clock G⦄ ⦃random : Random G⦄
    (x y h : ℕ) where
  end_session-shown :
      (id : ℕ) (s : Snake F) (srv : Server F G)
      → shown x y h (end_session id s srv) ≡ shown x y h srv
  unfolding end_session
  end_session-shown id s srv =
      let over = end (record { client_time = 0; status = 0 }) in
      let P = λ (after : Server F G). shown x y h after ≡ shown x y h srv in
      elim (Option-cases (load_session_iter id srv)) [
        | inl gone ↦ rw (gone, end_session) (if_rule P s.bot refl refl)
        | inr (h', found) ↦
            rw (found, end_session)
              (if_rule P s.bot refl
                (send-quiet (show x y) h false (some h') over srv (λ t b. refl)))
      ]

  pub funeral-shown :
      (id : ℕ) (s : Snake F) (srv : Server F G)
      → (shown x y h (funeral id s srv).1 ≡ shown x y h srv)
        × ((funeral id s srv).0.update.dying ≡ s.update.dying)
  unfolding funeral bury send_food_update
  funeral-shown id s srv =
      let ended = end_session id s srv in
      let buried = bury s ended in
      let fed = send_food_update buried.0 buried.1 in
      let died = remove_snake (record { client_time = 0; snake_id = s.id; status = 1 }) in
      let left = remove_snake (record { client_time = 0; snake_id = s.id; status = 0 }) in
      let quiet = broadcast-quiet (show x y) h false in
      (
        quiet left (broadcast_binary died fed.1) (λ t b. refl)
            ∙ quiet died fed.1 (λ t b. refl)
            ∙ food-shown x y h buried.0 buried.1
            ∙ end_session-shown id s srv,
        ap (λ u. u.1.dying) (food_spawn-state (s, ended.world.sectors) ended.outside),
      )
