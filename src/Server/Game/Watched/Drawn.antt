-- ===== src/Server/Game/Watched/Drawn.antt =====
-- World::Tick, the places of the sectors, and BroadcastDebug.
use slitherss.Prelude.{
  ℕ, ◌+◌, ◌*◌, ◌/◌, ◌≡◌, refl, ◌∙◌, Bool, true, false, List, [], ◌∷◌, Option, none, some, ltb, ◌==◌,
  if_rule, map,
}
use slitherss.Float.{Float}
use slitherss.Game.Sector.Sites.{sites}
use slitherss.Game.World.{World}
use slitherss.Game.World.Clock.{check_changes-view}
use slitherss.Game.World.Frame.{tick_each, tick_snakes, world_tick}
use slitherss.Packet.Debug.{DrawCircle, PacketDebugDraw}
use slitherss.Packet.Wire.{Packet, debug_draw}
use slitherss.Server.Game.{Clock, Session, Server}
use slitherss.Server.Game.Draw.{draw_changes, broadcast_debug, broadcast_drawing}
use slitherss.Server.Game.Replay.{replay, replay-append}
use slitherss.Server.Game.Replay.Shown.{show, shown}
use slitherss.Server.Game.Watched.{IsCalm}
use slitherss.Server.Game.Watched.Ticked.{sites-tick_all}

draws-quiet :
    (F : Type 0) (x y h : ℕ) (p : PacketDebugDraw) (sessions : List (ℕ × Session)) (b : Bool)
    → let one : ℕ × Session → ℕ × Packet F = λ t. (t.0, debug_draw p) in
      replay (show {F = F} x y) h (map one sessions) b ≡ b
draws-quiet F x y h p [] b = refl
draws-quiet F x y h p ((h', ses) ∷ rest) b =
    let one : ℕ × Session → ℕ × Packet F = λ t. (t.0, debug_draw p) in
    if_rule (λ b'. replay (show {F = F} x y) h (map one rest) b' ≡ b) (h' == h) {x = b} {y = b}
      (draws-quiet F x y h p rest b) (draws-quiet F x y h p rest b)

module _ {F : Type 0} ⦃float : Float F⦄ where
  pub sites-world_tick : (dt : ℕ) (w : World F) → sites (world_tick dt w).sectors ≡ sites w.sectors
  unfolding world_tick tick_snakes
  sites-world_tick dt w =
      let ticks = w.ticks + dt in
      let t = ticks / 8 * 8 in
      let each = tick_each t (record w { ticks = ticks }) in
      if_rule (λ (w' : World F). sites w'.sectors ≡ sites w.sectors) (ltb 0 (ticks / 8))
        (check_changes-view {F = F} (λ w'. sites w'.sectors) (λ w' s. refl) each.changes each
          ∙ sites-tick_all t w.snakes w.sectors)
        refl

module _ {F : Type 0} ⦃float : Float F⦄ {G : Type 0} ⦃clock : Clock G⦄ (j x y : ℕ) where
  -- BroadcastDebug tells nobody of sectors.
  pub broadcast_drawing-IsCalm : (srv : Server F G) → IsCalm j x y srv (broadcast_drawing srv)
  unfolding broadcast_drawing broadcast_debug
  broadcast_drawing-IsCalm srv =
      let none_drawn : IsCalm j x y srv srv = record {
        world = refl;
        ses = λ h. refl;
        heard = λ h. refl;
      } in
      if_rule (IsCalm j x y srv) srv.debug (drawn (draw_changes srv.world srv.world.changes))
        none_drawn
    where
      drawn :
          (o : Option (List DrawCircle))
          → IsCalm j x y srv (elim o [
            | none ↦ record srv { is_lost = true }
            | some [] ↦ srv
            | some (c ∷ cs) ↦
                broadcast_debug
                  (record {
                    client_time = 0;
                    dots = [];
                    segments = [];
                    rects = [];
                    circles = c ∷ cs;
                  })
                  srv
          ])
      drawn none = record { world = refl; ses = λ h. refl; heard = λ h. refl }
      drawn (some []) = record { world = refl; ses = λ h. refl; heard = λ h. refl }
      drawn (some (c ∷ cs)) =
          let p : PacketDebugDraw = record {
            client_time = 0;
            dots = [];
            segments = [];
            rects = [];
            circles = c ∷ cs;
          } in
          record {
            world = refl;
            ses = λ h. refl;
            heard = λ h.
                replay-append (show x y) h srv.sent _ false
                ∙ draws-quiet F x y h p srv.sessions (shown x y h srv);
          }
