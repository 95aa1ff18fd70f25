-- ===== src/Game/World/Sound/Ticks.antt =====
-- A step of time, and what holds of the world.
use slitherss.Prelude.{
  ℕ, ◌+◌, ◌*◌, ◌/◌, ◌≡◌, refl, sym, subst, ap, ◌∙◌, Bool, true, false, inl, inr, List, [], ◌∷◌,
  none, some, arith, ltb, ◌==◌, if◌then◌else◌, if_rule, Bool-cases, Option-cases, elem, elem-append,
  All,
}
use slitherss.Float.{Float}
use slitherss.Game.Sector.{Sector}
use slitherss.Game.BoundBox.Register.{enlisted}
use slitherss.Game.BoundBox.Registry.{IsRegistered, KeepsOthers}
use slitherss.Game.Snake.{Snake}
use slitherss.Game.Tick.{tick}
use slitherss.Game.Tick.Identity.{tick-identity}
use slitherss.Game.Tick.Registry.{tick-IsRegistered}
use slitherss.Game.World.{World, find_snake, update_snake}
use slitherss.Game.World.Frame.{
  tick_all, tick_each, is_dying, check_snake_bounds, check_changes, tick_snakes, world_tick,
}
use slitherss.Game.World.Sound.{has, IsOwn, IsUnique, IsSound, IsOwn-others, All-IsOwn}

module _ {F : Type 0} where
  -- A change of a snake through its pointer that leaves its id and its registry
  module _ (ss : List (Sector F)) (id : ℕ) (f : Snake F → Snake F) where
    pub has-update_snake :
        (k : ℕ) (snakes : List (ℕ × Snake F)) → has k (update_snake id f snakes) ≡ has k snakes
    unfolding update_snake
    has-update_snake k [] = refl
    has-update_snake k ((k', s) ∷ rest) = ground (arith, has-update_snake k rest)

    IsOwn-update :
        (k : ℕ) (s : Snake F)
        → ((f s).id ≡ s.id) × ((f s).sbb ≡ s.sbb)
        → IsOwn ss (k, s)
        → IsOwn ss (k, f s)
    IsOwn-update k s same o = record {
      id = same.0 ∙ o.id;
      box = ap (λ b. b.id) same.1 ∙ o.box;
      reg = subst (λ b. IsRegistered b ss) (sym same.1) o.reg;
    }

    update_snake-IsOwn :
        (snakes : List (ℕ × Snake F))
        → ((s : Snake F) → find_snake id snakes ≡ some s → ((f s).id ≡ s.id) × ((f s).sbb ≡ s.sbb))
        → All (IsOwn ss) snakes
        → IsUnique snakes
        → All (IsOwn ss) (update_snake id f snakes) × IsUnique (update_snake id f snakes)
    unfolding update_snake find_snake
    update_snake-IsOwn [] same own u = (tt, tt)
    update_snake-IsOwn ((k, s) ∷ rest) same (o, own) (fresh, u) = elim (Bool-cases (k == id)) [
      | inl here ↦ rw here ((IsOwn-update k s (same s (ground arith)) o, own), (fresh, u))
      | inr there ↦
          let later = update_snake-IsOwn rest (λ t e. same t (ground (arith, e))) own u in
          rw there ((o, later.0), (has-update_snake k rest ∙ fresh, later.1))
    ]

  pub update_snake-IsSound :
      (w : World F) (id : ℕ) (f : Snake F → Snake F)
      → ((s : Snake F) → find_snake id w.snakes ≡ some s → ((f s).id ≡ s.id) × ((f s).sbb ≡ s.sbb))
      → IsSound w
      → IsSound (record w { snakes = update_snake id f w.snakes })
  update_snake-IsSound w id f same v =
      let kept = update_snake-IsOwn w.sectors id f w.snakes same v.own v.unique in
      let has' = λ (k : ℕ). has-update_snake w.sectors id f k w.snakes in
      record {
        own = kept.0;
        unique = kept.1;
        strays = λ i k h. v.strays i k (sym (has' i) ∙ h);
        changed = λ i h. has' i ∙ v.changed i h;
      }

module _ {F : Type 0} ⦃float : Float F⦄ where
  -- The first loop of World::TickSnakes
  record Ticks (snakes : List (ℕ × Snake F)) (ss : List (Sector F)) (snakes' : List (ℕ × Snake F))
      (ss' : List (Sector F)) (changed : List ℕ) : Type 0 where
    own : All (IsOwn ss') snakes'
    unique : IsUnique snakes'
    keys : (id : ℕ) → has id snakes' ≡ has id snakes
    others : (id k : ℕ) → has id snakes ≡ false → enlisted ss' id k ≡ enlisted ss id k
    told : (id : ℕ) → elem id changed ≡ true → has id snakes ≡ true

  tick_all-Ticks :
      (dt : ℕ) (snakes : List (ℕ × Snake F)) (ss : List (Sector F))
      → All (IsOwn ss) snakes
      → IsUnique snakes
      → let after = tick_all dt snakes ss in
        Ticks snakes ss after.snakes after.sectors after.changed
  unfolding tick_all
  tick_all-Ticks dt [] ss own u = record {
    own = tt;
    unique = tt;
    keys = λ id. refl;
    others = λ id k h. refl;
    told = λ id h. absurd cc;
  }
  tick_all-Ticks dt ((k, s) ∷ rest) ss (o, own) (fresh, u) =
      let ticked = tick dt (s, ss) in
      let known = tick-IsRegistered dt s ss o.reg in
      let same = ap (λ t. t.0) (tick-identity dt s ss) in
      let keeps : KeepsOthers k ss ticked.1.1 =
        λ other j ne. known.2 other j (λ e. ne (e ∙ o.box)) in
      let later =
        tick_all-Ticks dt rest ticked.1.1 (All-IsOwn ss ticked.1.1 k rest keeps fresh own) u in
      let here : IsOwn ticked.1.1 (k, ticked.1.0) = record {
        id = same ∙ o.id;
        box = known.0 ∙ o.box;
        reg = known.1;
      } in
      record {
        own = (IsOwn-others (λ j. later.others k j fresh) here, later.own);
        unique = (later.keys k ∙ fresh, later.unique);
        keys = λ id. ground (arith, later.keys id);
        others =
            λ id j h. later.others id j (ground arith) ∙ keeps id j (λ e. absurd (ground arith));
        told = λ id h. ground (arith, later.told id, o.id);
      }

  check_snake_bounds-IsSound :
      (id : ℕ) (w : World F) → IsSound w → IsSound (check_snake_bounds id w)
  unfolding check_snake_bounds
  check_snake_bounds-IsSound id w v = elim (Option-cases (find_snake id w.snakes)) [
    | inl e ↦ rw (e, check_snake_bounds) v
    | inr (s, e) ↦
        rw (e, check_snake_bounds)
          (if_rule IsSound (is_dying w s) (update_snake-IsSound w id _ (λ s' e'. (refl, refl)) v) v)
  ]

  check_changes-IsSound : (ids : List ℕ) (w : World F) → IsSound w → IsSound (check_changes ids w)
  unfolding check_changes
  check_changes-IsSound [] w v = v
  check_changes-IsSound (id ∷ ids) w v =
      let checked = check_snake_bounds id w in
      let moved : Bool = elim (find_snake id w.snakes) [ none ↦ false | some s ↦ s.update.pos ] in
      check_changes-IsSound ids (if moved then checked else w)
        (if_rule IsSound moved (check_snake_bounds-IsSound id w v) v)

  tick_each-IsSound : (dt : ℕ) (w : World F) → IsSound w → IsSound (tick_each dt w)
  tick_each-IsSound dt w v =
      let all = tick_all-Ticks dt w.snakes w.sectors v.own v.unique in
      record {
        own = all.own;
        unique = all.unique;
        strays =
            λ i k h. all.others i k (sym (all.keys i) ∙ h) ∙ v.strays i k (sym (all.keys i) ∙ h);
        changed = λ i h. ground (
          arith,
          all.keys i,
          all.told i,
          v.changed i,
          elem-append i w.changes (tick_all dt w.snakes w.sectors).changed,
        );
      }

  tick_snakes-IsSound : (dt : ℕ) (w : World F) → IsSound w → IsSound (tick_snakes dt w)
  unfolding tick_snakes
  tick_snakes-IsSound dt w v =
      check_changes-IsSound (tick_each dt w).changes (tick_each dt w) (tick_each-IsSound dt w v)

  -- The record of a sound world, at other times
  pub world_tick-IsSound : (dt : ℕ) (w : World F) → IsSound w → IsSound (world_tick dt w)
  unfolding world_tick
  world_tick-IsSound dt w v =
      let ticks = w.ticks + dt in
      let begun : World F = record w { ticks = ticks } in
      let same : IsSound begun = record {
        own = v.own;
        unique = v.unique;
        strays = v.strays;
        changed = v.changed;
      } in
      let done = tick_snakes-IsSound (ticks / 8 * 8) begun same in
      if_rule IsSound (ltb 0 (ticks / 8))
        (record {
          own = done.own;
          unique = done.unique;
          strays = done.strays;
          changed = done.changed;
        })
        same
