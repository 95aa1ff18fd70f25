-- ===== src/Game/Death/Kept.antt =====
-- What the food of a dead snake leaves alone: who the snake is, and the lists of the snakes.
use slitherss.Prelude.{
  ℕ, zero, suc, ◌/◌, ◌%◌, ◌^◌, ◌≡◌, refl, ◌∙◌, Bool, ◌&&◌, List, [], ◌∷◌, ◌++◌, ltb, if◌then◌else◌,
  if_rule, pos, modify,
}
use slitherss.Float.{Float}
use slitherss.Game.Random.{Random}
use slitherss.Game.Sector.{Sector, insert_food, get_index}
use slitherss.Game.BoundBox.{BoundBox}
use slitherss.Game.BoundBox.Register.{enlisted}
use slitherss.Game.Snake.{Body, Snake}
use slitherss.Game.Move.{Scene}
use slitherss.Game.Tick.Kept.{enlisted-food}
use slitherss.Game.Death.{dead_food, dead_foods, dead_parts, on_dead_food_spawn}

-- Who a snake is, and its box
abbrev pub self : {F : Type 0} → Snake F → ℕ × (Bool × BoundBox F)
self s = (s.id, (s.bot, s.sbb))

module _ {F : Type 0} where
  -- The lists of snakes in the sectors are the same.
  abbrev pub SameLists : List (Sector F) → List (Sector F) → Type 0
  SameLists ss ss' = (id k : ℕ) → enlisted ss' id k ≡ enlisted ss id k

  -- The food of a dead snake leaves it and the lists of the snakes.
  pub record Feeds (t t' : Scene F) : Type 0 where
    pub same : self t'.0 ≡ self t.0
    pub lists : SameLists t.1 t'.1

  Feeds-trans : {a b c : Scene F} → Feeds a b → Feeds b c → Feeds a c
  Feeds-trans p q = record { same = q.same ∙ p.same; lists = λ id k. q.lists id k ∙ p.lists id k }

module _ {F : Type 0} ⦃float : Float F⦄ {G : Type 0} ⦃random : Random G⦄ where
  dead_foods-Feeds :
      (n size : ℕ) (r : F) (r2 k : ℕ) (p : Body F) (t : Scene F) (g : G)
      → Feeds t (dead_foods n size r r2 k p t g).0
  unfolding dead_foods
  dead_foods-Feeds zero size r r2 k p t g = record { same = refl; lists = λ id j. refl }
  dead_foods-Feeds (suc n) size r r2 k p t g =
      let made = dead_food size r r2 p g in
      let next : Scene F = (
        record t.0 { spawn = t.0.spawn ++ made.0 ∷ [] },
        modify t.1 k (λ sec. record sec { food = insert_food made.0 sec.food }),
      ) in
      let one : Feeds t next = record {
        same = refl;
        lists = λ id j. enlisted-food t.1 k (insert_food made.0) id j;
      } in
      Feeds-trans one (dead_foods-Feeds n size r r2 k p next made.1)

  dead_parts-Feeds :
      (n size : ℕ) (r : F) (r2 : ℕ) (ps : List (Body F)) (t : Scene F) (g : G)
      → Feeds t (dead_parts n size r r2 ps t g).0
  unfolding dead_parts
  dead_parts-Feeds n size r r2 [] t g = record { same = refl; lists = λ id j. refl }
  dead_parts-Feeds n size r r2 (p ∷ ps) t g =
      let sx = float.to_unsigned 16 (float.div p.x (float.of_int (pos 300))) in
      let sy = float.to_unsigned 16 (float.div p.y (float.of_int (pos 300))) in
      let inside = ltb 0 sx && ltb sx 143 && (ltb 0 sy && ltb sy 143) in
      let here = dead_foods n size r r2 (get_index sx sy) p t g in
      let next = if inside then here else (t, g) in
      let one : Feeds t next.0 =
        if_rule (λ (u : Scene F × G). Feeds t u.0) inside
          (dead_foods-Feeds n size r r2 (get_index sx sy) p t g)
          (record { same = refl; lists = λ id j. refl }) in
      Feeds-trans one (dead_parts-Feeds n size r r2 ps next.0 next.1)

  pub food_spawn-Feeds : (t : Scene F) (g : G) → Feeds t (on_dead_food_spawn t g).0
  unfolding on_dead_food_spawn
  food_spawn-Feeds t g =
      let count = float.to_unsigned 64 (float.mul t.0.sc (float.of_int (pos 2))) in
      let r2 = float.to_unsigned 16 (float.mul t.0.sbpr (float.of_int (pos 3))) in
      dead_parts-Feeds count (100 / count % 2 ^ 8) t.0.sbpr r2 t.0.parts t g
