-- ===== src/Packet/Debug.antt =====
-- src/packet/debug: the drawing of shapes, and the reset of the drawing.
use slitherss.Prelude.{ℕ, List, [], ◌∷◌, ◌++◌}
use slitherss.Packet.Format.{put_uint8, put_uint16, put_uint24}
use slitherss.Packet.Body.{head}

pub record DrawPoint : Type 0 where
  pub x : ℕ
  pub y : ℕ

pub record DrawDot : Type 0 where
  pub id : ℕ
  pub p : DrawPoint
  pub color : ℕ

-- d_draw_segment, and d_draw_rect with the same fields
pub record DrawSegment : Type 0 where
  pub id : ℕ
  pub v : DrawPoint
  pub w : DrawPoint
  pub color : ℕ

pub record DrawRect : Type 0 where
  pub id : ℕ
  pub v : DrawPoint
  pub w : DrawPoint
  pub color : ℕ

pub record DrawCircle : Type 0 where
  pub id : ℕ
  pub v : DrawPoint
  pub r : ℕ
  pub color : ℕ

pub record PacketDebugDraw : Type 0 where
  pub client_time : ℕ
  pub dots : List DrawDot
  pub segments : List DrawSegment
  pub rects : List DrawRect
  pub circles : List DrawCircle

pub record PacketDebugReset : Type 0 where
  pub client_time : ℕ

abbrev put_point : DrawPoint → List ℕ
put_point p = put_uint16 p.x ++ put_uint16 p.y

abbrev pub put_dots : List DrawDot → List ℕ
put_dots [] = []
put_dots (d ∷ ds) =
    put_uint8 b'.' ++ put_uint24 d.id ++ put_point d.p ++ put_uint24 d.color ++ put_dots ds

abbrev pub put_segments : List DrawSegment → List ℕ
put_segments [] = []
put_segments (d ∷ ds) =
    put_uint8 b'_'
    ++ put_uint24 d.id
    ++ put_point d.v
    ++ put_point d.w
    ++ put_uint24 d.color
    ++ put_segments ds

abbrev pub put_rects : List DrawRect → List ℕ
put_rects [] = []
put_rects (d ∷ ds) =
    put_uint8 b'#'
    ++ put_uint24 d.id
    ++ put_point d.v
    ++ put_point d.w
    ++ put_uint24 d.color
    ++ put_rects ds

abbrev pub put_circles : List DrawCircle → List ℕ
put_circles [] = []
put_circles (d ∷ ds) =
    put_uint8 b'o'
    ++ put_uint24 d.id
    ++ put_point d.v
    ++ put_uint16 d.r
    ++ put_uint24 d.color
    ++ put_circles ds

unfoldable pub put_debug_draw : PacketDebugDraw → List ℕ
put_debug_draw p =
    head p.client_time b'!'
    ++ put_dots p.dots
    ++ put_segments p.segments
    ++ put_rects p.rects
    ++ put_circles p.circles

unfoldable pub put_debug_reset : PacketDebugReset → List ℕ
put_debug_reset p = head p.client_time b'0'
