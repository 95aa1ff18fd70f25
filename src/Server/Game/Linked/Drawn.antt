-- ===== src/Server/Game/Linked/Drawn.antt =====
-- BroadcastDebug, and what ties the server together.
use slitherss.Prelude.{
  ℕ, ◌≡◌, refl, true, inl, inr, List, [], ◌∷◌, ◌++◌, some, arith, if_rule, Option-cases, elem,
}
use slitherss.Float.{Float}
use slitherss.Game.World.{World, find_snake}
use slitherss.Game.World.Sound.{has}
use slitherss.Game.World.Sound.Entering.{has-find_snake}
use slitherss.Packet.Debug.{DrawCircle}
use slitherss.Server.Game.{Server}
use slitherss.Server.Game.Draw.{
  draw_snake_circles, draw_changes, broadcast_debug, broadcast_drawing,
}
use slitherss.Server.Game.Linked.{IsLinked, IsLike, IsLike-refl, IsLinked-IsLike}

module _ {F : Type 0} ⦃float : Float F⦄ where
  draw_changes-some :
      (w : World F) (ids : List ℕ)
      → ((id : ℕ) → elem id ids ≡ true → has id w.snakes ≡ true)
      → (cs : List DrawCircle) × (draw_changes w ids ≡ some cs)
  unfolding draw_changes
  draw_changes-some w [] known = ([], refl)
  draw_changes-some w (id ∷ ids) known =
      let (cs, rest) = draw_changes-some w ids (λ i e. known i (ground (arith, e))) in
      elim (Option-cases (find_snake id w.snakes)) [
        | inl gone ↦
            absurd (ground (arith, has-find_snake id w.snakes gone, known id (ground arith)))
        | inr (s, found) ↦ (draw_snake_circles w.sectors s ++ cs, ground (arith, found, rest))
      ]

  pub broadcast_drawing-IsLinked :
      {G : Type 0} (srv : Server F G) → IsLinked srv → IsLinked (broadcast_drawing srv)
  unfolding broadcast_drawing broadcast_debug
  broadcast_drawing-IsLinked srv v =
      let (cs, e) = draw_changes-some srv.world srv.world.changes v.sound.changed in
      IsLinked-IsLike (draws cs e) v
    where
      draws :
          (cs : List DrawCircle)
          → draw_changes srv.world srv.world.changes ≡ some cs
          → IsLike srv (broadcast_drawing srv)
      draws [] e =
          rw (e, broadcast_drawing)
            (if_rule (IsLike srv) srv.debug (IsLike-refl srv) (IsLike-refl srv))
      draws (c ∷ cs) e =
          rw (e, broadcast_drawing)
            (if_rule (IsLike srv) srv.debug
              (record { world = refl; connections = refl; ses = λ h. refl; safe = refl })
              (IsLike-refl srv))
