-- ===== src/Packet/Wire/Fits.antt =====
-- src/packet: the number of bytes that the operators << put, against get_size.
use mathlib.Core.List.{reverse, reverse_aux}
use slitherss.Prelude.{
  ◌+◌, ◌*◌, ◌-◌, ◌≤◌, ◌≡◌, List, [], ◌∷◌, ◌++◌, length, length-append, pop_back, length-pop_back,
  arith,
}
use slitherss.Float.{Float}
use slitherss.Game.Sector.{Food}
use slitherss.Game.Snake.{Snake, Body}
use slitherss.Packet.Format.{put_string}
use slitherss.Packet.Body.{
  put_end, put_kill, put_move, put_move_rel, put_sector, put_minimap, put_pong, put_remove_snake,
  put_inc, put_inc_rel, put_fullness, put_remove_part,
}
use slitherss.Packet.Rotation.{put_rotation}
use slitherss.Packet.Food.{put_foods, put_set_food, put_spawn_food, put_add_food, put_eat_food}
use slitherss.Packet.Entry.{
  put_trail, put_parts, put_head, put_lines, put_line, put_init, put_add_snake, put_leaderboard,
  put_highscore,
}
use slitherss.Packet.Debug.{
  DrawDot, DrawSegment, DrawRect, DrawCircle, put_dots, put_segments, put_rects, put_circles,
  put_debug_draw, put_debug_reset, PacketDebugDraw,
}
use slitherss.Packet.Wire.{
  Packet, end, kill, move, move_rel, sector, minimap, pong, remove_snake, inc, inc_rel, fullness,
  remove_part, set_food, spawn_food, add_food, eat_food, init, add_snake, leaderboard, highscore,
  rotation, debug_draw, debug_reset, get_size, encode, names_size,
}

length-put_foods : (fs : List Food) → length (put_foods fs) ≡ length fs * 6
length-put_foods [] = omega arith
length-put_foods (f ∷ fs) = ground (arith, length-put_foods fs)

length-put_dots : (ds : List DrawDot) → length (put_dots ds) ≡ length ds * 11
length-put_dots [] = omega arith
length-put_dots (d ∷ ds) = ground (arith, length-put_dots ds)

length-put_segments : (ds : List DrawSegment) → length (put_segments ds) ≡ length ds * 15
length-put_segments [] = omega arith
length-put_segments (d ∷ ds) = ground (arith, length-put_segments ds)

length-put_rects : (ds : List DrawRect) → length (put_rects ds) ≡ length ds * 15
length-put_rects [] = omega arith
length-put_rects (d ∷ ds) = ground (arith, length-put_rects ds)

length-put_circles : (ds : List DrawCircle) → length (put_circles ds) ≡ length ds * 13
length-put_circles [] = omega arith
length-put_circles (d ∷ ds) = ground (arith, length-put_circles ds)

length-reverse_aux : {A : Type 0} (xs r : List A) → length (reverse_aux xs r) ≡ length xs + length r
length-reverse_aux [] r = omega arith
length-reverse_aux (x ∷ xs) r = omega (arith, length-reverse_aux xs (x ∷ r))

length-put_shapes :
    (p : PacketDebugDraw)
    → length
        (put_dots p.dots ++ put_segments p.segments ++ put_rects p.rects ++ put_circles p.circles)
      ≡ length p.dots * 11 + length p.segments * 15 + length p.rects * 15 + length p.circles * 13
length-put_shapes p =
    let lines = put_dots p.dots ++ put_segments p.segments in
    omega (
      arith,
      length-append (lines ++ put_rects p.rects) (put_circles p.circles),
      length-append lines (put_rects p.rects),
      length-append (put_dots p.dots) (put_segments p.segments),
      length-put_dots p.dots,
      length-put_segments p.segments,
      length-put_rects p.rects,
      length-put_circles p.circles,
    )

module _ {F : Type 0} ⦃float : Float F⦄ where
  length-put_trail : (hx hy : F) (ps : List (Body F)) → length (put_trail hx hy ps) ≡ length ps * 2
  unfolding put_trail
  length-put_trail hx hy [] = omega arith
  length-put_trail hx hy (p ∷ ps) = omega (
    arith,
    length-put_trail (float.add hx (float.sub p.x hx)) (float.add hy (float.sub p.y hy)) ps,
  )

  length-put_lines : (ss : List (Snake F)) → length (put_lines ss) ≡ names_size ss
  unfolding put_lines put_line
  length-put_lines [] = omega arith
  length-put_lines (s ∷ ss) =
      ground (arith, length-put_lines ss, length-append s.name (put_lines ss))

  length-put_parts : (ps : List (Body F)) → length (put_parts ps) ≤ 6 + (length ps - 1) * 2
  unfolding put_parts
  length-put_parts [] = omega arith
  length-put_parts (p ∷ ps) =
      omega (arith, length-put_trail p.x p.y (pop_back ps), length-pop_back ps)

  length-put_head : (ps : List (Body F)) → length (put_head ps) ≡ 6
  length-put_head [] = omega arith
  length-put_head (p ∷ ps) = omega arith

  -- No packet is longer than its get_size says.
  pub length-encode-le : (p : Packet F) → length (encode p) ≤ get_size p
  unfolding encode get_size put_end put_kill put_move put_move_rel put_sector put_minimap put_pong
      put_remove_snake put_inc put_inc_rel put_fullness put_remove_part put_set_food put_spawn_food
      put_add_food put_eat_food put_init put_add_snake put_leaderboard put_highscore put_rotation
      put_debug_draw put_debug_reset
  length-encode-le (end p) = omega arith
  length-encode-le (kill p) = omega arith
  length-encode-le (move p) = omega arith
  length-encode-le (move_rel p) = omega arith
  length-encode-le (sector p) = omega arith
  length-encode-le (minimap p) = omega arith
  length-encode-le (pong p) = omega arith
  length-encode-le (remove_snake p) = omega arith
  length-encode-le (inc p) = omega arith
  length-encode-le (inc_rel p) = omega arith
  length-encode-le (fullness p) = omega arith
  length-encode-le (remove_part p) = ground arith
  length-encode-le (set_food p) = omega (arith, length-put_foods p.food)
  length-encode-le (spawn_food p) = omega arith
  length-encode-le (add_food p) = omega arith
  length-encode-le (eat_food p) = ground arith
  length-encode-le (init p) = omega arith
  length-encode-le (add_snake p) =
      let rest = put_parts (reverse p.s.parts) in
      omega (
        arith,
        length-append (put_head p.s.parts ++ put_string p.s.name) rest,
        length-append (put_head p.s.parts) (put_string p.s.name),
        length-put_head p.s.parts,
        length-put_parts (reverse p.s.parts),
        length-reverse_aux p.s.parts [],
      )
  length-encode-le (leaderboard p) = omega (arith, length-put_lines p.top)
  length-encode-le (highscore p) = omega (arith, length-append p.winner.name p.message)
  length-encode-le (rotation p) = ground arith
  length-encode-le (debug_draw p) = omega (arith, length-put_shapes p)
  length-encode-le (debug_reset p) = omega arith
