-- ===== src/Server/Game/Linked/Handled.antt =====
-- on_message, and what ties the server together.
use slitherss.Prelude.{
  ℕ, ◌≡◌, refl, Bool, true, false, ◌&&◌, inl, inr, List, [], ◌∷◌, some, arith, ltb, leb, ◌==◌,
  if_rule, Option-cases, length,
}
use slitherss.Float.{Float}
use slitherss.Game.Snake.{Snake}
use slitherss.Game.Death.Kept.{self}
use slitherss.Game.World.{find_snake}
use slitherss.Packet.Wire.{pong}
use slitherss.Server.Maps.{find_key, update_key, find_key-update_key}
use slitherss.Server.Game.{Clock, Session, Server}
use slitherss.Server.Game.Handlers.{read_char, do_snake, on_username, on_packet, on_message}
use slitherss.Server.Game.Linked.{
  snake_of, is_player, IsLike, IsLike-refl, IsIdle, IsIdle-IsLike, send_binary-IsLike,
}
use slitherss.Server.Game.Linked.Rounds.{put_back-IsLinked, like-Rounds}

module _ {F G : Type 0} where
  do_snake-IsIdle :
      (id : ℕ) (f : Snake F → Snake F) (srv : Server F G)
      → ((s : Snake F) → self (f s) ≡ self s)
      → is_player id srv.world ≡ true
      → IsIdle srv
      → IsIdle (do_snake id f srv)
  unfolding do_snake
  do_snake-IsIdle id f srv same there v = elim (Option-cases (find_snake id srv.world.snakes)) [
    | inl gone ↦ absurd (ground (arith, gone, there))
    | inr (s, found) ↦
        rw (found, do_snake)
          (if_rule IsIdle (ltb 0 id)
            (record {
              linked =
                  put_back-IsLinked id s (f s) srv srv found
                    (like-Rounds s (f s) srv srv (same s) (IsLike-refl srv)) v.linked;
              alive = v.alive;
            })
            v)
  ]

module _ {F : Type 0} ⦃float : Float F⦄ {G : Type 0} ⦃clock : Clock G⦄ where
  on_username-IsIdle :
      (hdl : ℕ) (ses : Session) (rest : List ℕ) (srv : Server F G)
      → find_key hdl srv.sessions ≡ some ses
      → is_player ses.snake_id srv.world ≡ true
      → IsIdle srv
      → IsIdle (on_username hdl ses rest srv)
  unfolding on_username
  on_username-IsIdle hdl ses rest srv found there v =
      let version = read_char ses.protocol_version rest in
      let skin = read_char ses.skin version.1 in
      let known : Session = record ses { protocol_version = version.0; skin = skin.0 } in
      let kept : Server F G = record srv { sessions = update_key hdl (λ _. known) srv.sessions } in
      let like : IsLike srv kept = record {
        world = refl;
        connections = refl;
        ses = λ h.
            ground (arith, find_key-update_key hdl h (λ (_ : Session). known) srv.sessions, found);
        safe = refl;
      } in
      do_snake-IsIdle ses.snake_id (λ s. record s { name = known.name; skin = known.skin }) kept
        (λ s. refl) there (IsIdle-IsLike like v)

  on_packet-IsIdle :
      (hdl : ℕ) (ses : Session) (type : ℕ) (rest : List ℕ) (srv : Server F G)
      → find_key hdl srv.sessions ≡ some ses
      → is_player ses.snake_id srv.world ≡ true
      → IsIdle srv
      → IsIdle (on_packet hdl ses type rest srv)
  unfolding on_packet
  on_packet-IsIdle hdl ses type rest srv found there v =
      let mine : snake_of hdl srv.sessions ≡ some ses.snake_id = ground (arith, found) in
      let p = pong (record { client_time = 0 }) in
      if_rule IsIdle (type == 251)
        (IsIdle-IsLike (send_binary-IsLike hdl ses.snake_id p srv mine) v)
        (if_rule IsIdle (type == b's') (on_username-IsIdle hdl ses rest srv found there v) (
          if_rule IsIdle (type == 253)
            (do_snake-IsIdle ses.snake_id (λ s. record s { acceleration = true }) srv (λ s. refl)
              there v)
            (if_rule IsIdle (type == 254)
              (do_snake-IsIdle ses.snake_id (λ s. record s { acceleration = false }) srv (λ s. refl)
                there v)
              v)))

  pub on_message-IsIdle :
      (hdl : ℕ) (is_binary : Bool) (payload : List ℕ) (srv : Server F G)
      → IsIdle srv
      → IsIdle (on_message hdl is_binary payload srv)
  unfolding on_message
  on_message-IsIdle hdl is_binary payload srv v =
      let type : ℕ = elim payload [ [] ↦ 0 | b ∷ _ ↦ b ] in
      let rest : List ℕ = elim payload [ [] ↦ [] | _ ∷ bs ↦ bs ] in
      let len = length payload in
      elim (Option-cases (find_key hdl srv.sessions)) [
        | inl gone ↦
            rw (gone, on_message) (if_rule IsIdle is_binary (if_rule IsIdle (ltb 255 len) v v) v)
        | inr (ses, found) ↦
            let mine : snake_of hdl srv.sessions ≡ some ses.snake_id = ground (arith, found) in
            let there = (v.linked.ses hdl ses.snake_id mine).1 in
            rw (found, on_message)
              (if_rule IsIdle is_binary
                (if_rule IsIdle (ltb 255 len) v (
                  if_rule IsIdle (leb type 250 && len == 1)
                    (do_snake-IsIdle ses.snake_id _ srv (λ s. refl) there v)
                    (on_packet-IsIdle hdl ses type rest srv found there v)))
                v)
      ]
