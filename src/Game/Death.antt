-- ===== src/Game/Death.antt =====
-- Of src/game/snake.cc: the food that a dead snake leaves, and the score. A snake has parts, and its
-- scale `sc` is at least a half.
pub mod Kept
pub mod Sites
use slitherss.Prelude.{
  ℕ, zero, suc, ◌+◌, ◌-◌, ◌*◌, ◌/◌, ◌%◌, ◌^◌, ◌&&◌, List, [], ◌∷◌, ◌++◌, ltb, leb, if◌then◌else◌,
  pos, length, modify,
}
use slitherss.Float.{Float}
use slitherss.Game.Config.{sector_size, sector_count_along_edge, max_snake_parts}
use slitherss.Game.Random.{Random, next_randomf}
use slitherss.Game.Sector.{Food, Sector, insert_food, get_index}
use slitherss.Game.Snake.{Body, Snake}
use slitherss.Game.Move.{Scene}

module _ {F : Type 0} ⦃float : Float F⦄ where
  open float use {ratio, of_int, add, sub, mul, div, pow, to_unsigned}

  module _ {G : Type 0} ⦃random : Random G⦄ where
    -- A piece of food round a part
    unfoldable pub dead_food : ℕ → F → ℕ → Body F → G → Food × G
    unfolding next_randomf
    dead_food size r r2 p g =
        let dx = next_randomf {F = F} g in
        let dy = next_randomf {F = F} dx.1 in
        let hue = next_randomf {F = F} dy.1 in
        let reach = of_int (pos r2) in
        (
          record {
            x = to_unsigned 16 (sub (add p.x r) (mul dx.0 reach));
            y = to_unsigned 16 (sub (add p.y r) (mul dy.0 reach));
            size = size;
            color = to_unsigned 8 (mul (of_int (pos 29)) hue.0);
          },
          hue.1,
        )

    -- The inner loop, for the sector k
    unfoldable pub dead_foods : ℕ → ℕ → F → ℕ → ℕ → Body F → Scene F → G → Scene F × G
    unfolding dead_food insert_food
    dead_foods zero size r r2 k p t g = (t, g)
    dead_foods (suc n) size r r2 k p t g =
        let made = dead_food size r r2 p g in
        dead_foods n size r r2 k p
          (
            record t.0 { spawn = t.0.spawn ++ made.0 ∷ [] },
            modify t.1 k (λ sec. record sec { food = insert_food made.0 sec.food }),
          )
          made.1

    -- The loop over the parts
    unfoldable pub dead_parts : ℕ → ℕ → F → ℕ → List (Body F) → Scene F → G → Scene F × G
    unfolding dead_foods get_index
    dead_parts n size r r2 [] t g = (t, g)
    dead_parts n size r r2 (p ∷ ps) t g =
        let edge = of_int (pos sector_size) in
        let sx = to_unsigned 16 (div p.x edge) in
        let sy = to_unsigned 16 (div p.y edge) in
        let last = sector_count_along_edge - 1 in
        let inside = ltb 0 sx && ltb sx last && (ltb 0 sy && ltb sy last) in
        let here = dead_foods n size r r2 (get_index sx sy) p t g in
        let next = if inside then here else (t, g) in dead_parts n size r r2 ps next.0 next.1

    -- Snake::on_dead_food_spawn
    unfoldable pub on_dead_food_spawn : Scene F → G → Scene F × G
    unfolding dead_parts
    on_dead_food_spawn t g =
        let count = to_unsigned 64 (mul t.0.sc (of_int (pos 2))) in
        let r2 = to_unsigned 16 (mul t.0.sbpr (of_int (pos 3))) in
        dead_parts count (100 / count % 2 ^ 8) t.0.sbpr r2 t.0.parts t g

  -- get_fmlts, at i
  unfoldable pub fmlt : ℕ → F
  fmlt i =
      pow (sub (ratio 1 1) (div (mul (ratio 1 1) (of_int (pos i))) (of_int (pos max_snake_parts))))
        (ratio 225 100)

  -- get_fpsls, at i
  unfoldable pub fpsl : ℕ → F
  unfolding fmlt
  fpsl zero = ratio 0 1
  fpsl (suc i) = add (fpsl i) (div (ratio 1 1) (fmlt i))

  -- Snake::get_snake_score
  unfoldable pub get_snake_score : Snake F → ℕ
  unfolding fpsl fmlt
  get_snake_score s =
      let sct = length s.parts - 1 in
      let top = if leb max_snake_parts sct then max_snake_parts - 1 else sct in
      let full = div (div (of_int (pos s.fullness)) (ratio 100 1)) (fmlt top) in
      to_unsigned 16
        (sub (mul (ratio 15 1) (sub (add (fpsl top) full) (of_int (pos 1)))) (of_int (pos 5)))
