-- ===== src/Game/Feed/Eating.antt =====
-- What UpdateEatenFood takes from the sector and gives to the snake.
use mathlib.Core.List.{Perm, append_assoc, append-nil}
use mathlib.Core.List.Perm
use slitherss.Prelude.{
  ℕ, zero, suc, ◌+◌, ◌-◌, ◌≤◌, ◌≡◌, sym, ap, ◌∙◌, true, inl, inr, List, [], ◌∷◌, ◌++◌, some, arith,
  Bool-cases, Option-cases, length, get_elem?, All, All-append,
}
use slitherss.Float.{Float}
use slitherss.Game.Sector.{Food, remove_food, find_closest_food}
use slitherss.Game.Snake.{Snake}
use slitherss.Game.Snake.Growth.{mass, increase_snake-mass, increase_snake-eaten}
use slitherss.Game.Feed.{in_reach, on_food_eaten, eat_left, eat_right, eat_around}
use slitherss.Game.Feed.Pieces.{
  total_size, total_size-append, IsLarder, IsHungry, remove_food-perm, remove_food-IsLarder,
}

module _ {F : Type 0} ⦃float : Float F⦄ where
  on_food_eaten-eaten : (f : Food) (s : Snake F) → (on_food_eaten f s).eaten ≡ s.eaten ++ f ∷ []
  unfolding on_food_eaten
  on_food_eaten-eaten f s = ap (λ fs. fs ++ f ∷ []) (increase_snake-eaten f.size s)

  on_food_eaten-mass :
      (f : Food) (s : Snake F)
      → f.size ≤ 100
      → IsHungry s
      → IsHungry (on_food_eaten f s) × (mass (on_food_eaten f s) ≡ mass s + f.size)
  unfolding on_food_eaten
  on_food_eaten-mass f s h v = ground (arith, increase_snake-mass f.size s h v.0 v.1)

  module _ (hx hy r2 : ℕ) where
    -- From the food and the snake before to those after: the pieces `es` went from the one to the
    -- other, all of them in reach, and count in full.
    pub record Ate (food : List Food) (s : Snake F) (food' : List Food) (s' : Snake F)
        : Type 0 where
      pub es : List Food
      pub logged : s'.eaten ≡ s.eaten ++ es
      pub moved : Perm food (es ++ food')
      pub near : All (λ f. in_reach hx hy r2 f ≡ true) es
      pub hungry : IsHungry s'
      pub grown : mass s' ≡ mass s + total_size es
      pub larder : IsLarder food'

    Ate-none : (food : List Food) (s : Snake F) → IsLarder food → IsHungry s → Ate food s food s
    Ate-none food s a h = record {
      es = [];
      logged = sym (append-nil s.eaten);
      moved = Perm.refl food;
      near = tt;
      hungry = h;
      grown = omega arith;
      larder = a;
    }

    Ate-next :
        (i : ℕ) (food : List Food) (f : Food) (s : Snake F) (food' : List Food) (s' : Snake F)
        → get_elem? food i ≡ some f
        → in_reach hx hy r2 f ≡ true
        → IsLarder food
        → IsHungry s
        → (IsLarder (remove_food i food)
            → IsHungry (on_food_eaten f s)
            → Ate (remove_food i food) (on_food_eaten f s) food' s')
        → Ate food s food' s'
    Ate-next i food f s food' s' e n a h next =
        let larder = remove_food-IsLarder i food e a in
        let grew = on_food_eaten-mass f s larder.0 h in
        let rest = next larder.1 grew.0 in
        record {
          es = f ∷ rest.es;
          logged =
              rest.logged
              ∙ ap (λ fs. fs ++ rest.es) (on_food_eaten-eaten f s)
              ∙ append_assoc s.eaten (f ∷ []) rest.es;
          moved = Perm.trans (remove_food-perm i food e) (Perm.cons f rest.moved);
          near = (n, rest.near);
          hungry = rest.hungry;
          grown = omega (arith, rest.grown, grew.1);
          larder = rest.larder;
        }

    eat_left-Ate :
        (i : ℕ) (food : List Food) (s : Snake F)
        → IsLarder food
        → IsHungry s
        → Ate food s (eat_left hx hy r2 i food s).food (eat_left hx hy r2 i food s).snake
    unfolding eat_left
    eat_left-Ate zero food s a h = Ate-none food s a h
    eat_left-Ate (suc i) food s a h = elim (Option-cases (get_elem? food i)) [
      | inl e ↦ rw (e, eat_left) (Ate-none food s a h)
      | inr (f, e) ↦ elim (Bool-cases (in_reach hx hy r2 f)) [
        | inl n ↦
            rw (e, eat_left)
              (rw (n, eat_left)
                (Ate-next i food f s _ _ e n a h
                  (eat_left-Ate i (remove_food i food) (on_food_eaten f s))))
        | inr n ↦ rw (e, eat_left) (rw (n, eat_left) (Ate-none food s a h))
      ]
    ]

    eat_right-Ate :
        (n i : ℕ) (food : List Food) (s : Snake F)
        → IsLarder food
        → IsHungry s
        → Ate food s (eat_right hx hy r2 n i food s).food (eat_right hx hy r2 n i food s).snake
    unfolding eat_right
    eat_right-Ate zero i food s a h = Ate-none food s a h
    eat_right-Ate (suc n) i food s a h = elim (Option-cases (get_elem? food i)) [
      | inl e ↦ rw (e, eat_right) (Ate-none food s a h)
      | inr (f, e) ↦ elim (Bool-cases (in_reach hx hy r2 f)) [
        | inl near ↦
            rw (e, eat_right)
              (rw (near, eat_right)
                (Ate-next i food f s _ _ e near a h
                  (eat_right-Ate n i (remove_food i food) (on_food_eaten f s))))
        | inr far ↦ rw (e, eat_right) (rw (far, eat_right) (Ate-none food s a h))
      ]
    ]

    Ate-trans :
        {food food' food'' : List Food} {s s' s'' : Snake F}
        → Ate food s food' s'
        → Ate food' s' food'' s''
        → Ate food s food'' s''
    Ate-trans {s} p q = record {
      es = p.es ++ q.es;
      logged = q.logged ∙ ap (λ fs. fs ++ q.es) p.logged ∙ append_assoc s.eaten p.es q.es;
      moved =
          Perm.trans p.moved (rw (append_assoc p.es q.es _) (Perm.append (Perm.refl p.es) q.moved));
      near = All-append _ p.es q.es p.near q.near;
      hungry = q.hungry;
      grown = omega (arith, p.grown, q.grown, total_size-append p.es q.es);
      larder = q.larder;
    }

    pub eat_around-Ate :
        (food : List Food) (s : Snake F)
        → IsLarder food
        → IsHungry s
        → Ate food s (eat_around hx hy r2 food s).food (eat_around hx hy r2 food s).snake
    unfolding eat_around
    eat_around-Ate food s a h =
        let left = eat_left hx hy r2 (find_closest_food hx food) food s in
        let first = eat_left-Ate (find_closest_food hx food) food s a h in
        Ate-trans first (
          eat_right-Ate (length left.food - left.i) left.i left.food left.snake first.larder
            first.hungry)
