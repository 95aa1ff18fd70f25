-- ===== src/Server/Game/Draw.antt =====
-- Of src/server/game.cc: BroadcastDebug, the circles that it draws for the changed snakes. A snake has
-- at least two parts.
use slitherss.Prelude.{
  ℕ, zero, suc, ◌+◌, ◌*◌, ◌/◌, ◌%◌, ◌^◌, List, [], ◌∷◌, ◌++◌, Option, none, some, leb,
  if◌then◌else◌, pos, length, get_elem?, back, map,
}
use slitherss.Float.{Float}
use slitherss.Game.Config.{sector_size, move_step_distance}
use slitherss.Game.Sector.{Sector}
use slitherss.Game.Snake.{Body, Snake}
use slitherss.Game.Move.{head_of, tail_step}
use slitherss.Game.Collide.{head_size}
use slitherss.Game.World.{World, find_snake}
use slitherss.Packet.Debug.{DrawCircle, PacketDebugDraw}
use slitherss.Packet.Wire.{debug_draw}
use slitherss.Server.Game.{Session, Server, lose}

-- `sis++` of each circle, in 16 bits
unfoldable pub number : ℕ → List DrawCircle → List DrawCircle
number sis [] = []
number sis (c ∷ cs) = record c { id = sis } ∷ number ((sis + 1) % 2 ^ 16) cs

module _ {F : Type 0} ⦃float : Float F⦄ where
  open float use {ratio, of_int, add, sub, div, to_unsigned}

  -- d_draw_circle, with the number still to come
  abbrev circle : F → F → F → ℕ → DrawCircle
  circle x y r color = record {
    id = 0;
    v = record { x = to_unsigned 16 x; y = to_unsigned 16 y };
    r = to_unsigned 16 r;
    color = color;
  }

  abbrev around : ℕ → ℕ → Body F → DrawCircle
  around r color p = circle p.x p.y (of_int (pos r)) color

  -- The part at an index
  abbrev part_at : List (Body F) → ℕ → Body F
  part_at ps i = elim (get_elem? ps i) [ none ↦ head_of ps | some p ↦ p ]

  -- The loop over the sectors
  unfoldable pub draw_sectors : List (Sector F) → List ℕ → List DrawCircle
  draw_sectors ss [] = []
  draw_sectors ss (k ∷ ks) =
      let rest = draw_sectors ss ks in
      elim (get_elem? ss k) [
        | none ↦ rest
        | some sec ↦ circle sec.box.x sec.box.y sec.box.r 0x511883 ∷ rest
      ]

  -- The loop over the tail. With a step of 1 at least, the number of the parts is fuel enough.
  unfoldable pub draw_tail : ℕ → ℕ → List (Body F) → List DrawCircle
  unfolding tail_step
  draw_tail zero i ps = []
  draw_tail (suc fuel) i ps =
      let rest = draw_tail fuel (i + tail_step F) ps in
      elim (get_elem? ps i) [ none ↦ [] | some p ↦ around (sector_size / 2) 0x848484 p ∷ rest ]

  -- The body of the loop of GameServer::BroadcastDebug
  unfoldable pub draw_snake_circles : List (Sector F) → Snake F → List DrawCircle
  unfolding number draw_sectors draw_tail tail_step
  draw_snake_circles ss s =
      let ps = s.parts in
      let head = head_of ps in
      let sec = part_at ps 1 in
      let end = back head ps in
      let len = length ps in
      let half = ratio 2 1 in
      let r1 = s.sbpr in
      let far =
        around (sector_size / 2) 0x848484 (part_at ps 3)
        ∷ around move_step_distance 0x646464 (part_at ps 0)
        ∷ around move_step_distance 0x646464 (part_at ps 8)
        ∷ draw_tail len (7 + tail_step F / 2) ps in
      let shape =
        if leb len (head_size + tail_step F)
        then map (around move_step_distance 0x646464) ps
        else far in
      number (s.id * 1000 % 2 ^ 16) (
        circle s.sbb.at.x s.sbb.at.y s.sbb.at.r 0xc8c8c8
          ∷ circle head.x head.y r1 0xc80000
          ∷ circle sec.x sec.y r1 0x3c3c3c
          ∷ circle (add sec.x (div (sub head.x sec.x) half))
              (add sec.y (div (sub head.y sec.y) half)) r1 0x646464
          ∷ circle end.x end.y r1 0x646464
          ∷ draw_sectors ss s.sbb.sectors
        ++ shape)

  -- The loop: `none` for a pointer to a snake that is gone
  unfoldable pub draw_changes : World F → List ℕ → Option (List DrawCircle)
  unfolding find_snake draw_snake_circles
  draw_changes w [] = some []
  draw_changes w (id ∷ ids) =
      let rest = draw_changes w ids in
      elim (find_snake id w.snakes) [
        | none ↦ none
        | some s ↦ elim rest [ none ↦ none | some cs ↦ some (draw_snake_circles w.sectors s ++ cs) ]
      ]

  module _ {G : Type 0} where
    -- GameServer::broadcast_debug
    unfoldable pub broadcast_debug : PacketDebugDraw → Server F G → Server F G
    broadcast_debug p srv =
        let one : ℕ × Session → ℕ × _ = λ t. (t.0, debug_draw p) in
        record srv { sent = srv.sent ++ map one srv.sessions }

    -- GameServer::BroadcastDebug
    unfoldable pub broadcast_drawing : Server F G → Server F G
    unfolding draw_changes broadcast_debug
    broadcast_drawing srv =
        let drawn : Server F G = elim (draw_changes srv.world srv.world.changes) [
          | none ↦ lose srv
          | some [] ↦ srv
          | some (c ∷ cs) ↦
              broadcast_debug
                (record { client_time = 0; dots = []; segments = []; rects = []; circles = c ∷ cs })
                srv
        ] in
        if srv.debug then drawn else srv
