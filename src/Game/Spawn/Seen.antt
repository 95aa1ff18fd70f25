-- ===== src/Game/Spawn/Seen.antt =====
-- What the client of a new snake has to be told, and the places of the sectors.
use slitherss.Prelude.{
  ℕ, zero, suc, ◌+◌, ◌≡◌, refl, sym, subst, ◌∙◌, false, inl, inr, List, [], arith, Option-cases,
  pos, length, get_elem?,
}
use slitherss.Prelude.Order.{IsAscending}
use slitherss.Float.{Float}
use slitherss.Game.Config.{WorldConfig}
use slitherss.Game.Random.{Random}
use slitherss.Game.Sector.{Sector}
use slitherss.Game.Sector.Sites.{sites}
use slitherss.Game.BoundBox.{BoundBox, ViewPort, sbb_update_new, vp_update_new}
use slitherss.Game.BoundBox.View.{found-IsAscending, elem-found, found-old}
use slitherss.Game.Snake.{no_changes, Body, update_snake_consts}
use slitherss.Game.Move.{tail_step, head_of}
use slitherss.Game.Tick.Seen.{Tells}
use slitherss.Game.Tick.Sites.{sites-update_new}
use slitherss.Game.Spawn.{
  init_tail, init_box_new_sectors, update_box_center, update_box_radius, get_new_box, new_snake,
  draw_snake, create_snake,
}

module _ {F : Type 0} ⦃float : Float F⦄ where
  sites-init_tail :
      (fuel i : ℕ) (parts : List (Body F)) (bb : BoundBox F) (ss : List (Sector F))
      → sites (init_tail fuel i parts bb ss).1 ≡ sites ss
  unfolding init_tail
  sites-init_tail zero i parts bb ss = refl
  sites-init_tail (suc fuel) i parts bb ss = elim (Option-cases (get_elem? parts i)) [
    | inl e ↦ rw (e, init_tail) refl
    | inr (pt, e) ↦
        let z = float.ratio 0 1 in
        rw (e, init_tail)
          (sites-init_tail fuel (i + tail_step F) parts _ _
            ∙ sites-update_new bb ss (float.of_int (pos 150)) pt.x pt.y z z)
  ]

  -- A view port that looks round for the first time
  first-Tells :
      (j : ℕ) (ss : List (Sector F)) (vp : ViewPort F) (x y x' y' : F)
      → vp.sectors ≡ []
      → vp.new_sectors ≡ []
      → vp.old_sectors ≡ []
      → Tells j false (vp_update_new vp ss x y x' y')
  first-Tells j ss vp x y x' y' none none_new none_old =
      let asc : IsAscending vp.sectors = subst IsAscending (sym none) tt in
      record {
        sorted = found-IsAscending ss vp x y x' y' asc;
        told = ground (
          arith,
          elem-found ss vp x y x' y' asc none_new j,
          found-old ss vp x y x' y' asc,
          none,
          none_old,
        );
      }

  module _ {G : Type 0} ⦃random : Random G⦄ where
    pub sites-create_snake :
        (config : WorldConfig) (id : ℕ) (ss : List (Sector F)) (g : G)
        → sites (create_snake config id ss g).0.1 ≡ sites ss
    unfolding create_snake init_box_new_sectors
    sites-create_snake config id ss g =
        let s = (draw_snake config id g).0 in
        let head = head_of s.parts in
        let z = float.ratio 0 1 in
        sites-init_tail (length s.parts) 3 s.parts _ _
        ∙ sites-update_new s.sbb ss (float.of_int (pos 150)) head.x head.y z z

    -- World::CreateSnake: all sectors of the view port are new, and no change is noted.
    pub create_snake-Tells :
        (config : WorldConfig) (id j : ℕ) (ss : List (Sector F)) (g : G)
        → let s = (create_snake config id ss g).0.0 in Tells j false s.vp × (s.update ≡ no_changes)
    unfolding create_snake draw_snake init_box_new_sectors update_snake_consts update_box_radius
        update_box_center new_snake get_new_box
    create_snake-Tells config id j ss g =
        let s = (draw_snake config id g).0 in
        let head = head_of s.parts in
        let z = float.ratio 0 1 in
        let first = sbb_update_new s.sbb ss (float.of_int (pos 150)) head.x head.y z z in
        (first-Tells j first.1 s.vp head.x head.y z z refl refl refl, refl)
