-- ===== src/Server/Game/Watched/Handled.antt =====
-- on_message, on_close and RemoveDeadSnakes, and what the clients know of the sectors.
use slitherss.Prelude.{
  ℕ, ◌≡◌, refl, sym, subst, ap, ◌∙◌, Bool, true, false, ◌&&◌, inl, inr, List, [], ◌∷◌, some, arith,
  ltb, leb, ◌==◌, if_rule, Bool-cases, Option-cases, length,
}
use slitherss.Float.{Float}
use slitherss.Game.BoundBox.{ViewPort}
use slitherss.Game.Sector.Sites.{sites}
use slitherss.Game.Snake.{Snake}
use slitherss.Game.Tick.Seen.{Tells, IsTold}
use slitherss.Game.World.{find_snake}
use slitherss.Game.World.Sites.{sites-remove_from_world}
use slitherss.Packet.Wire.{pong}
use slitherss.Server.Maps.{find_key, update_key, erase_key, find_key-update_key}
use slitherss.Server.Game.{Clock, Session, Server, send_binary}
use slitherss.Server.Game.Broadcast.{remove_from_server, remove_all, remove_dead_snakes}
use slitherss.Server.Game.Handlers.{
  read_char, do_snake, on_username, on_packet, on_message, on_close,
}
use slitherss.Server.Game.Linked.{snake_of, send_binary-IsLike}
use slitherss.Server.Game.Linked.Removed.{snake_of-erase_key, find_snake-remove}
use slitherss.Server.Game.Linked.Rounds.{find_snake-update_snake}
use slitherss.Server.Game.Replay.{replay, send-quiet}
use slitherss.Server.Game.Replay.Shown.{show, shown}
use slitherss.Server.Game.Watched.{Sees, Watches, Watches-IsCalm}

-- What of a snake decides whether its client sees it
abbrev eye : {F : Type 0} → Snake F → ViewPort F × (Bool × (Bool × (Bool × ℕ)))
eye s = (s.vp, (s.update.pos, (s.update.dying, (s.update.dead, s.id))))

Sees-eye :
    {F : Type 0} (j : ℕ) (known : Bool) (s t : Snake F)
    → eye t ≡ eye s
    → Sees j known [] s
    → Sees j known [] t
Sees-eye j known s t e v =
    let pos = ap (λ i. i.1.0) e in
    record {
      tells = subst (Tells j known) (sym (ap (λ i. i.0) e)) v.tells;
      quiet = λ still. subst IsTold (sym (ap (λ i. i.0) e)) (v.quiet (sym pos ∙ still));
      news = λ moved. absurd (ground (arith, v.news (sym pos ∙ moved)));
      living = ap (λ i. i.1.1.1.0) e ∙ v.living;
    }

module _ {F : Type 0} ⦃float : Float F⦄ {G : Type 0} ⦃clock : Clock G⦄ (j x y : ℕ) where
  abbrev Keeps : Server F G → Server F G → Type 0
  Keeps srv srv' = Watches j x y [] srv' × (sites srv'.world.sectors ≡ sites srv.world.sectors)

  -- Sessions and snakes that are gone
  fewer-Watches :
      (srv srv' : Server F G)
      → ((h i : ℕ) → snake_of h srv'.sessions ≡ some i → snake_of h srv.sessions ≡ some i)
      → ((i : ℕ) (s : Snake F)
          → find_snake i srv'.world.snakes ≡ some s
          → find_snake i srv.world.snakes ≡ some s)
      → srv'.sent ≡ srv.sent
      → Watches j x y [] srv
      → Watches j x y [] srv'
  fewer-Watches srv srv' ses snakes sent w h i s e f alive =
      subst (λ b. Sees j b [] s) (sym (ap (λ ps. replay (show x y) h ps false) sent))
        (w h i s (ses h i e) (snakes i s f) alive)

  do_snake-Keeps :
      (id : ℕ) (f : Snake F → Snake F) (srv : Server F G)
      → ((s : Snake F) → eye (f s) ≡ eye s)
      → Watches j x y [] srv
      → Keeps srv (do_snake id f srv)
  unfolding do_snake
  do_snake-Keeps id f srv same w = elim (Option-cases (find_snake id srv.world.snakes)) [
    | inl gone ↦ rw (gone, do_snake) (if_rule (Keeps srv) (ltb 0 id) (w, refl) (w, refl))
    | inr (s, found) ↦
        let at = λ (i : ℕ). find_snake-update_snake id i (λ (_ : Snake F). f s) srv.world.snakes in
        rw (found, do_snake)
          (if_rule (Keeps srv) (ltb 0 id)
            (
              λ h i t e g alive. elim (Bool-cases (id == i)) [
                | inl here ↦
                    let it : f s ≡ t = ground (arith, at i, g, here, found) in
                    subst (Sees j (shown x y h srv) []) it (
                      Sees-eye j (shown x y h srv) s (f s) (same s) (
                        w h i s e (ground (arith, found, here))
                          (sym (ap (λ u. u.1.1.0) (same s)) ∙ ap (λ u. u.update.dying) it ∙ alive)))
                | inr there ↦ w h i t e (ground (arith, at i, g, there)) alive
              ],
              refl,
            )
            (w, refl))
  ]

  steer-Keeps :
      (id : ℕ) (angle : F) (srv : Server F G)
      → Watches j x y [] srv
      → let steer : Snake F → Snake F =
          λ s. record s { wangle = angle; update = record s.update { wangle = true } } in
        Keeps srv (do_snake id steer srv)
  steer-Keeps id angle srv w =
      do_snake-Keeps id
        (λ s. record s { wangle = angle; update = record s.update { wangle = true } }) srv
        (λ s. refl) w

  on_username-Keeps :
      (hdl : ℕ) (ses : Session) (rest : List ℕ) (srv : Server F G)
      → find_key hdl srv.sessions ≡ some ses
      → Watches j x y [] srv
      → Keeps srv (on_username hdl ses rest srv)
  unfolding on_username
  on_username-Keeps hdl ses rest srv found w =
      let version = read_char ses.protocol_version rest in
      let skin = read_char ses.skin version.1 in
      let known : Session = record ses { protocol_version = version.0; skin = skin.0 } in
      let kept : Server F G = record srv { sessions = update_key hdl (λ _. known) srv.sessions } in
      do_snake-Keeps ses.snake_id (λ s. record s { name = known.name; skin = known.skin }) kept
        (λ s. refl)
        (Watches-IsCalm j x y [] srv kept
          (record {
            world = refl;
            ses = λ h.
                ground
                  (arith, find_key-update_key hdl h (λ (_ : Session). known) srv.sessions, found);
            heard = λ h. refl;
          })
          w)

  on_packet-Keeps :
      (hdl : ℕ) (ses : Session) (type : ℕ) (rest : List ℕ) (srv : Server F G)
      → find_key hdl srv.sessions ≡ some ses
      → Watches j x y [] srv
      → Keeps srv (on_packet hdl ses type rest srv)
  unfolding on_packet
  on_packet-Keeps hdl ses type rest srv found w =
      let p = pong (record { client_time = 0 }) in
      let like = send_binary-IsLike hdl ses.snake_id p srv (ground (arith, found)) in
      let P = Keeps srv in
      if_rule P (type == 251)
        (
          Watches-IsCalm j x y [] srv (send_binary (some hdl) p srv)
              (record {
                world = like.world;
                ses = like.ses;
                heard = λ h. send-quiet (show x y) h false (some hdl) p srv (λ t b. refl);
              })
              w,
          ap (λ u. sites u.sectors) like.world,
        )
        (if_rule P (type == b's') (on_username-Keeps hdl ses rest srv found w) (
          if_rule P (type == 253)
            (do_snake-Keeps ses.snake_id (λ s. record s { acceleration = true }) srv (λ s. refl) w)
            (if_rule P (type == 254)
              (do_snake-Keeps ses.snake_id (λ s. record s { acceleration = false }) srv (λ s. refl)
                w)
              (w, refl))))

  pub on_message-Keeps :
      (hdl : ℕ) (is_binary : Bool) (payload : List ℕ) (srv : Server F G)
      → Watches j x y [] srv
      → Keeps srv (on_message hdl is_binary payload srv)
  unfolding on_message
  on_message-Keeps hdl is_binary payload srv w =
      let type : ℕ = elim payload [ [] ↦ 0 | b ∷ _ ↦ b ] in
      let rest : List ℕ = elim payload [ [] ↦ [] | _ ∷ bs ↦ bs ] in
      let len = length payload in
      let P = Keeps srv in
      let same : P srv = (w, refl) in
      elim (Option-cases (find_key hdl srv.sessions)) [
        | inl gone ↦
            rw (gone, on_message) (if_rule P is_binary (if_rule P (ltb 255 len) same same) same)
        | inr (ses, found) ↦
            rw (found, on_message)
              (if_rule P is_binary
                (if_rule P (ltb 255 len) same (
                  if_rule P (leb type 250 && len == 1) (steer-Keeps ses.snake_id _ srv w)
                    (on_packet-Keeps hdl ses type rest srv found w)))
                same)
      ]

  pub on_close-Keeps :
      (hdl : ℕ) (srv : Server F G) → Watches j x y [] srv → Keeps srv (on_close hdl srv)
  unfolding on_close remove_from_server
  on_close-Keeps hdl srv w = elim (Option-cases (find_key hdl srv.sessions)) [
    | inl gone ↦ rw (gone, on_close) (w, refl)
    | inr (ses, found) ↦
        let id = ses.snake_id in
        rw (found, on_close)
          (
            fewer-Watches srv
                (remove_from_server id (record srv { sessions = erase_key hdl srv.sessions }))
                (λ h i e. ground (arith, snake_of-erase_key hdl h srv.sessions, e))
                (λ i s e. ground (arith, find_snake-remove id i srv.world, e)) refl w,
            sites-remove_from_world id srv.world,
          )
  ]

  remove_all-Keeps :
      (ids : List ℕ) (srv : Server F G) → Watches j x y [] srv → Keeps srv (remove_all ids srv)
  unfolding remove_all remove_from_server
  remove_all-Keeps [] srv w = (w, refl)
  remove_all-Keeps (id ∷ ids) srv w =
      let first =
        fewer-Watches srv (remove_from_server id srv) (λ h i e. e)
          (λ i s e. ground (arith, find_snake-remove id i srv.world, e)) refl w in
      let later = remove_all-Keeps ids (remove_from_server id srv) first in
      (later.0, later.1 ∙ sites-remove_from_world id srv.world)

  pub remove_dead-Keeps :
      (srv : Server F G) → Watches j x y [] srv → Keeps srv (remove_dead_snakes srv)
  unfolding remove_dead_snakes
  remove_dead-Keeps srv w = remove_all-Keeps srv.world.dead srv w
