-- ===== src/Game/Tick/Kept.antt =====
-- Food and the registry, the sectors of a box and the lists of the sectors.
use slitherss.Prelude.{
  ℕ, zero, suc, ◌+◌, ◌-◌, ◌/◌, ◌%◌, ◌^◌, ◌≡◌, refl, ◌∙◌, inl, inr, List, arith, ltb, if_rule,
  head_rule, Option-cases, length, modify, get_elem?-modify,
}
use slitherss.Float.{Float}
use slitherss.Game.Sector.{Food, Sector, BoundBoxPos, insert_food, get_sector, get_index}
use slitherss.Game.BoundBox.{BoundBox}
use slitherss.Game.BoundBox.Register.{enlisted}
use slitherss.Game.BoundBox.Registry.{IsRegistered, KeepsOthers}
use slitherss.Game.Snake.{
  Snake, spawn_food, update_snake_consts, increase_snake, shed, drop_part, drop_parts,
  decrease_snake, spawn_sector,
}
use slitherss.Game.Feed.{on_food_eaten, eat_around, eat_at, update_eaten_food}
use slitherss.Game.Feed.Untouched.{eat_around-view}
use slitherss.Game.Move.{Scene}

-- From a box and the sectors to those after: the same snake is registered, and no other's entries
-- changed.
pub record Kept {F : Type 0} (bb : BoundBox F) (ss : List (Sector F)) (bb' : BoundBox F)
    (ss' : List (Sector F)) : Type 0 where
  pub same : bb'.id ≡ bb.id
  pub reg : IsRegistered bb' ss'
  pub others : KeepsOthers bb.id ss ss'

module _ {F : Type 0} where
  pub Kept-refl : (bb : BoundBox F) (ss : List (Sector F)) → IsRegistered bb ss → Kept bb ss bb ss
  Kept-refl bb ss v = record { same = refl; reg = v; others = λ other k ne. refl }

  pub Kept-trans :
      {bb bb' bb'' : BoundBox F} {ss ss' ss'' : List (Sector F)}
      → Kept bb ss bb' ss'
      → Kept bb' ss' bb'' ss''
      → Kept bb ss bb'' ss''
  Kept-trans p q = record {
    same = q.same ∙ p.same;
    reg = q.reg;
    others = λ other k ne. q.others other k (λ e. ne (e ∙ p.same)) ∙ p.others other k ne;
  }

  -- The place of a box is not part of the registry.
  pub Kept-at :
      (bb : BoundBox F) (ss : List (Sector F)) (at : BoundBoxPos F)
      → IsRegistered bb ss
      → Kept bb ss (record bb { at = at }) ss
  Kept-at bb ss at v = record {
    same = refl;
    reg = record { sorted = v.sorted; listed = v.listed };
    others = λ other k ne. refl;
  }

  -- Nor is the food of a sector.
  pub enlisted-food :
      (ss : List (Sector F)) (k : ℕ) (g : List Food → List Food) (id j : ℕ)
      → enlisted (modify ss k (λ s. record s { food = g s.food })) id j ≡ enlisted ss id j
  enlisted-food ss k g id j =
      ground (arith, get_elem?-modify ss k j (λ s. record s { food = g s.food }))

  Kept-food :
      (bb : BoundBox F) (ss : List (Sector F)) (k : ℕ) (g : List Food → List Food)
      → IsRegistered bb ss
      → Kept bb ss bb (modify ss k (λ s. record s { food = g s.food }))
  Kept-food bb ss k g v = record {
    same = refl;
    reg = record { sorted = v.sorted; listed = λ j. enlisted-food ss k g bb.id j ∙ v.listed j };
    others = λ other j ne. enlisted-food ss k g other j;
  }

  spawn_food-Kept :
      (s : Snake F) (ss : List (Sector F)) (f : Food)
      → IsRegistered s.sbb ss
      → Kept s.sbb ss (spawn_food s ss f).0.sbb (spawn_food s ss f).1
  unfolding spawn_food
  spawn_food-Kept s ss f v =
      elim (Option-cases (spawn_sector ss (f.x / 300) (f.y / 300) s.sbb.sectors)) [
        | inl e ↦ rw (e, spawn_food) (Kept-refl s.sbb ss v)
        | inr (k, e) ↦ rw (e, spawn_food) (Kept-food s.sbb ss k (insert_food f) v)
      ]

module _ {F : Type 0} ⦃float : Float F⦄ where
  increase_snake-sbb : (volume : ℕ) (s : Snake F) → (increase_snake volume s).sbb ≡ s.sbb
  unfolding increase_snake update_snake_consts
  increase_snake-sbb volume s = ground arith

  on_food_eaten-sbb : (f : Food) (s : Snake F) → (on_food_eaten f s).sbb ≡ s.sbb
  unfolding on_food_eaten
  on_food_eaten-sbb f s = increase_snake-sbb f.size s

  eat_at-Kept :
      (hx hy r2 : ℕ) (s : Snake F) (ss : List (Sector F))
      → IsRegistered s.sbb ss
      → Kept s.sbb ss (eat_at hx hy r2 s ss).0.sbb (eat_at hx hy r2 s ss).1
  unfolding eat_at
  eat_at-Kept hx hy r2 s ss v = elim (Option-cases (get_sector ss (hx / 300) (hy / 300))) [
    | inl e ↦ rw (e, eat_at) (Kept-refl s.sbb ss v)
    | inr (sec, e) ↦
        rw (e, eat_at)
          (rw (eat_around-view (λ t. t.sbb) on_food_eaten-sbb hx hy r2 sec.food s) (
            Kept-food s.sbb ss (get_index (hx / 300) (hy / 300))
              (λ _. (eat_around hx hy r2 sec.food s).food) v))
  ]

  pub update_eaten_food-Kept :
      (s : Snake F) (ss : List (Sector F))
      → IsRegistered s.sbb ss
      → Kept s.sbb ss (update_eaten_food s ss).0.sbb (update_eaten_food s ss).1
  unfolding update_eaten_food
  update_eaten_food-Kept s ss v =
      head_rule (λ (t : Scene F). Kept s.sbb ss t.0.sbb t.1) s.parts (Kept-refl s.sbb ss v)
        (λ p. eat_at-Kept _ _ _ s ss v)

  drop_part-Kept :
      (s : Snake F) (ss : List (Sector F))
      → IsRegistered s.sbb ss
      → Kept s.sbb ss (drop_part (s, ss)).0.sbb (drop_part (s, ss)).1
  unfolding drop_part
  drop_part-Kept s ss v =
      if_rule (λ (t : Scene F). Kept s.sbb ss t.0.sbb t.1) (ltb 3 (length s.parts))
        (spawn_food-Kept s ss (shed s) v) (Kept-refl s.sbb ss v)

  drop_parts-Kept :
      (n : ℕ) (s : Snake F) (ss : List (Sector F))
      → IsRegistered s.sbb ss
      → Kept s.sbb ss (drop_parts n (s, ss)).0.sbb (drop_parts n (s, ss)).1
  unfolding drop_parts
  drop_parts-Kept zero s ss v = Kept-refl s.sbb ss v
  drop_parts-Kept (suc n) s ss v =
      let next = drop_part (s, ss) in
      let one = drop_part-Kept s ss v in Kept-trans one (drop_parts-Kept n next.0 next.1 one.reg)

  pub decrease_snake-Kept :
      (volume : ℕ) (s : Snake F) (ss : List (Sector F))
      → IsRegistered s.sbb ss
      → Kept s.sbb ss (decrease_snake volume (s, ss)).0.sbb (decrease_snake volume (s, ss)).1
  unfolding decrease_snake update_snake_consts
  decrease_snake-Kept volume s ss v =
      let left = volume - s.fullness in
      if_rule (λ (t : Scene F). Kept s.sbb ss t.0.sbb t.1) (ltb s.fullness volume)
        (drop_parts-Kept ((1 + left / 100) % 2 ^ 16) s ss v) (Kept-refl s.sbb ss v)
