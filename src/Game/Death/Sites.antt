-- ===== src/Game/Death/Sites.antt =====
-- The food of a dead snake leaves the sectors where they are, and the changes of the snake.
use slitherss.Prelude.{
  ℕ, zero, suc, ◌/◌, ◌%◌, ◌^◌, ◌≡◌, refl, ap, ◌∙◌, ◌&&◌, List, [], ◌∷◌, ltb, if◌then◌else◌, if_rule,
  pos,
}
use slitherss.Float.{Float}
use slitherss.Game.Random.{Random}
use slitherss.Game.Sector.{insert_food, get_index}
use slitherss.Game.Sector.Sites.{sites}
use slitherss.Game.Snake.{Body, Changes}
use slitherss.Game.Move.{Scene}
use slitherss.Game.Tick.Sites.{sites-food}
use slitherss.Game.Death.{dead_food, dead_foods, dead_parts, on_dead_food_spawn}

module _ {F : Type 0} where
  abbrev pub state : Scene F → List (ℕ × ℕ) × Changes
  state t = (sites t.1, t.0.update)

module _ {F : Type 0} ⦃float : Float F⦄ {G : Type 0} ⦃random : Random G⦄ where
  dead_foods-state :
      (n size : ℕ) (r : F) (r2 k : ℕ) (p : Body F) (t : Scene F) (g : G)
      → state (dead_foods n size r r2 k p t g).0 ≡ state t
  unfolding dead_foods
  dead_foods-state zero size r r2 k p t g = refl
  dead_foods-state (suc n) size r r2 k p t g =
      let made = dead_food size r r2 p g in
      dead_foods-state n size r r2 k p _ made.1
      ∙ ap (λ ps. (ps, t.0.update)) (sites-food t.1 k (insert_food made.0))

  dead_parts-state :
      (n size : ℕ) (r : F) (r2 : ℕ) (ps : List (Body F)) (t : Scene F) (g : G)
      → state (dead_parts n size r r2 ps t g).0 ≡ state t
  unfolding dead_parts
  dead_parts-state n size r r2 [] t g = refl
  dead_parts-state n size r r2 (p ∷ ps) t g =
      let sx = float.to_unsigned 16 (float.div p.x (float.of_int (pos 300))) in
      let sy = float.to_unsigned 16 (float.div p.y (float.of_int (pos 300))) in
      let inside = ltb 0 sx && ltb sx 143 && (ltb 0 sy && ltb sy 143) in
      let here = dead_foods n size r r2 (get_index sx sy) p t g in
      let next = if inside then here else (t, g) in
      dead_parts-state n size r r2 ps next.0 next.1
      ∙ if_rule (λ (u : Scene F × G). state u.0 ≡ state t) inside
          (dead_foods-state n size r r2 (get_index sx sy) p t g) refl

  pub food_spawn-state : (t : Scene F) (g : G) → state (on_dead_food_spawn t g).0 ≡ state t
  unfolding on_dead_food_spawn
  food_spawn-state t g =
      let count = float.to_unsigned 64 (float.mul t.0.sc (float.of_int (pos 2))) in
      let r2 = float.to_unsigned 16 (float.mul t.0.sbpr (float.of_int (pos 3))) in
      dead_parts-state count (100 / count % 2 ^ 8) t.0.sbpr r2 t.0.parts t g
