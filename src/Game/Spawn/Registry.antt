-- ===== src/Game/Spawn/Registry.antt =====
-- InitBoxNewSectors and CreateSnake and the registry: the boxes of a new snake.
use slitherss.Prelude.{
  ℕ, zero, suc, ◌+◌, ◌≡◌, refl, inl, inr, List, Option-cases, pos, length, get_elem?, elem, ◌∷◌,
  ◌<◌,
}
use slitherss.Float.{Float}
use slitherss.Game.Config.{WorldConfig}
use slitherss.Game.Random.{Random}
use slitherss.Game.Sector.{Sector}
use slitherss.Game.BoundBox.{BoundBox}
use slitherss.Game.BoundBox.Register.{enlisted}
use slitherss.Game.BoundBox.Registry.{IsRegistered, KeepsOthers}
use slitherss.Game.Snake.{Body, Snake, update_snake_consts}
use slitherss.Game.Move.{tail_step, head_of}
use slitherss.Game.Tick.Kept.{Kept, Kept-refl, Kept-trans}
use slitherss.Game.Tick.Registry.{update_new-Kept}
use slitherss.Game.Spawn.Covered.{any_covers, each_nth, elem-init_box}
use slitherss.Game.Spawn.{
  init_tail, init_box_new_sectors, update_box_center, update_box_radius, get_new_box, new_snake,
  draw_snake, create_snake,
}

module _ {F : Type 0} ⦃float : Float F⦄ where
  init_tail-Kept :
      (fuel i : ℕ) (parts : List (Body F)) (bb : BoundBox F) (ss : List (Sector F))
      → IsRegistered bb ss
      → let done = init_tail fuel i parts bb ss in Kept bb ss done.0 done.1
  unfolding init_tail
  init_tail-Kept zero i parts bb ss v = Kept-refl bb ss v
  init_tail-Kept (suc fuel) i parts bb ss v = elim (Option-cases (get_elem? parts i)) [
    | inl e ↦ rw (e, init_tail) (Kept-refl bb ss v)
    | inr (pt, e) ↦
        let z = float.ratio 0 1 in
        let one = update_new-Kept bb ss (float.of_int (pos 150)) pt.x pt.y z z v in
        rw (e, init_tail) (Kept-trans one (init_tail-Kept fuel (i + tail_step F) parts _ _ one.reg))
  ]

  init_box-Kept :
      (s : Snake F) (ss : List (Sector F))
      → IsRegistered s.sbb ss
      → let done = init_box_new_sectors (s, ss) in Kept s.sbb ss done.0.sbb done.1
  unfolding init_box_new_sectors
  init_box-Kept s ss v =
      let head = head_of s.parts in
      let z = float.ratio 0 1 in
      let one = update_new-Kept s.sbb ss (float.of_int (pos 150)) head.x head.y z z v in
      Kept-trans one (init_tail-Kept (length s.parts) 3 s.parts _ _ one.reg)

  module _ {G : Type 0} ⦃random : Random G⦄ where
    pub create_snake-id :
        (config : WorldConfig) (id : ℕ) (ss : List (Sector F)) (g : G)
        → (create_snake config id ss g).0.0.id ≡ id
    unfolding create_snake draw_snake init_box_new_sectors update_snake_consts update_box_radius
        update_box_center new_snake
    create_snake-id config id ss g = refl

    -- A new snake, whatever the step along the tail
    pub create_snake-enlisted :
        (config : WorldConfig) (id : ℕ) (ss : List (Sector F)) (g : G)
        → ((k : ℕ) → enlisted ss id k ≡ 0)
        → let made = create_snake config id ss g in
          (made.0.0.id ≡ id)
          × (made.0.0.sbb.id ≡ id)
          × IsRegistered made.0.0.sbb made.0.1
          × KeepsOthers id ss made.0.1
    unfolding create_snake draw_snake init_box_new_sectors update_snake_consts update_box_radius
        update_box_center new_snake get_new_box
    create_snake-enlisted config id ss g free =
        let kept =
          init_box-Kept (draw_snake config id g).0 ss (record { sorted = tt; listed = free }) in
        (refl, kept.same, kept.reg, kept.others)

    -- World::CreateSnake for an id that stands in no sector, with a step of at least one part along
    -- the tail: the snake has the id, so has its box, and its box has exactly the sectors that it has
    -- to: those next to the head, or to every tail_step-th part from part 3 on, that meet the box of
    -- half a sector round that part, where a part in the sector 0, 0 counts for nothing. The snake is
    -- registered with exactly these sectors, and the entries of other snakes stay.
    pub create_snake-IsRegistered :
        (config : WorldConfig) (id : ℕ) (ss : List (Sector F)) (g : G)
        → 0 < tail_step F
        → ((k : ℕ) → enlisted ss id k ≡ 0)
        → let made = create_snake config id ss g in
          (made.0.0.id ≡ id)
          × (made.0.0.sbb.id ≡ id)
          × IsRegistered made.0.0.sbb made.0.1
          × KeepsOthers id ss made.0.1
          × ((j : ℕ)
              → elem j made.0.0.sbb.sectors
                ≡ any_covers ss j
                    (head_of made.0.0.parts ∷ each_nth (tail_step F) 3 made.0.0.parts))
    unfolding create_snake draw_snake init_box_new_sectors update_snake_consts update_box_radius
        update_box_center new_snake get_new_box
    create_snake-IsRegistered config id ss g h free =
        let (own, box, reg, others) = create_snake-enlisted config id ss g free in
        (
          own,
          box,
          reg,
          others,
          λ j.
              elem-init_box (draw_snake config id g).0 ss j h
                (record { sorted = tt; listed = free }),
        )
