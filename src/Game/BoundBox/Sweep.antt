-- ===== src/Game/BoundBox/Sweep.antt =====
-- The loop of UpdateBoxOldSectors against the filter that it stands for.
use mathlib.Core.List.{append-nil, append_assoc}
use slitherss.Prelude.{
  ℕ, zero, suc, ◌+◌, ◌≤◌, ◌≡◌, refl, ◌∙◌, Bool, true, false, inl, inr, List, [], ◌∷◌, ◌++◌, arith,
  ◌==◌, if◌then◌else◌, Bool-cases, length, length-append, length-pop_back, get_or-append, back,
  pop_back, pop_back-append, pop_back-set-back, count, count-append, count-pop_back, elem,
  elem-count,
}
use slitherss.Game.BoundBox.{remove_unsorted, sweep}

-- What remove_unsorted does at the end of the part `pre` that the loop has passed.
remove_unsorted_last :
    (pre : List ℕ) (x : ℕ) → remove_unsorted (length pre) (pre ++ x ∷ []) ≡ (pre, false)
unfolding remove_unsorted
remove_unsorted_last pre x = ground (arith, length-append pre (x ∷ []), pop_back-append pre x)

remove_unsorted_inner :
    (pre : List ℕ) (x y : ℕ) (zs : List ℕ)
    → remove_unsorted (length pre) (pre ++ x ∷ y ∷ zs)
      ≡ (pre ++ back y zs ∷ pop_back (y ∷ zs), true)
unfolding remove_unsorted
remove_unsorted_inner pre x y zs =
    ground (arith, length-append pre (x ∷ y ∷ zs), pop_back-set-back 0 pre x y zs)

module _ {S : Type 0} (keep : ℕ → S → Bool) (forget : ℕ → S → S) where
  -- One round of the loop, by what stands at the index.
  sweep_end :
      (fuel : ℕ) (pre : List ℕ) (s : S)
      → sweep keep forget fuel (length pre) (pre ++ []) s ≡ (pre, s)
  unfolding sweep
  sweep_end zero pre s = rw append-nil
  sweep_end (suc fuel) pre s = rw append-nil (ground arith)

  module _ (fuel : ℕ) (pre : List ℕ) (x : ℕ) (s : S) where
    sweep-keep :
        (ys : List ℕ)
        → keep x s ≡ true
        → sweep keep forget (suc fuel) (length pre) (pre ++ x ∷ ys) s
          ≡ sweep keep forget fuel (length (pre ++ x ∷ [])) ((pre ++ x ∷ []) ++ ys) s
    unfolding sweep
    sweep-keep ys k = ground (
      arith,
      get_or-append pre x ys 0,
      length-append pre (x ∷ ys),
      length-append pre (x ∷ []),
      append_assoc pre (x ∷ []) ys,
    )

    sweep_drop_last :
        keep x s ≡ false
        → sweep keep forget (suc fuel) (length pre) (pre ++ x ∷ []) s ≡ (pre, forget x s)
    unfolding sweep
    sweep_drop_last k =
        ground
          (arith, get_or-append pre x [] 0, remove_unsorted_last pre x, length-append pre (x ∷ []))

    sweep_drop :
        (y : ℕ) (zs : List ℕ)
        → keep x s ≡ false
        → sweep keep forget (suc fuel) (length pre) (pre ++ x ∷ y ∷ zs) s
          ≡ sweep keep forget fuel (length pre) (pre ++ back y zs ∷ pop_back (y ∷ zs)) (forget x s)
    unfolding sweep
    sweep_drop y zs k = ground (
      arith,
      get_or-append pre x (y ∷ zs) 0,
      remove_unsorted_inner pre x y zs,
      length-append pre (x ∷ y ∷ zs),
    )

  -- Induction along the loop, from the part passed, the rest, the state and the result. The rest is
  -- measured by n, since a drop moves its last element to the front.
  module _ (P : List ℕ → List ℕ → S → List ℕ × S → Type 0)
      (ended : (pre : List ℕ) (s : S) → P pre [] s (pre, s))
      (kept : (pre : List ℕ) (x : ℕ) (ys : List ℕ) (s : S) (r : List ℕ × S)
        → keep x s ≡ true
        → P (pre ++ x ∷ []) ys s r
        → P pre (x ∷ ys) s r)
      (last : (pre : List ℕ) (x : ℕ) (s : S)
        → keep x s ≡ false
        → P pre (x ∷ []) s (pre, forget x s))
      (moved : (pre : List ℕ) (x y : ℕ) (zs : List ℕ) (s : S) (r : List ℕ × S)
        → keep x s ≡ false
        → P pre (back y zs ∷ pop_back (y ∷ zs)) (forget x s) r
        → P pre (x ∷ y ∷ zs) s r) where
    sweep_rule :
        (n fuel : ℕ) (pre rest : List ℕ) (s : S)
        → length rest ≡ n
        → n ≤ fuel
        → P pre rest s (sweep keep forget fuel (length pre) (pre ++ rest) s)
    sweep_rule n fuel pre [] s e h = rw (sweep_end fuel pre s) (ended pre s)
    sweep_rule zero fuel pre (x ∷ ys) s e h = absurd (omega arith)
    sweep_rule (suc n) zero pre (x ∷ ys) s e h = absurd (omega arith)
    sweep_rule (suc n) (suc fuel) pre (x ∷ []) s e h = elim (Bool-cases (keep x s)) [
      | inl k ↦
          rw (sweep-keep fuel pre x s [] k) (
            kept pre x [] s _ k
              (sweep_rule n fuel (pre ++ x ∷ []) [] s (omega arith) (omega arith)))
      | inr k ↦ rw (sweep_drop_last fuel pre x s k) (last pre x s k)
    ]
    sweep_rule (suc n) (suc fuel) pre (x ∷ y ∷ zs) s e h = elim (Bool-cases (keep x s)) [
      | inl k ↦ rw (sweep-keep fuel pre x s (y ∷ zs) k) (
          kept pre x (y ∷ zs) s _ k
            (sweep_rule n fuel (pre ++ x ∷ []) (y ∷ zs) s (omega arith) (omega arith)))
      | inr k ↦ rw (sweep_drop fuel pre x s y zs k) (
          moved pre x y zs s _ k (
            sweep_rule n fuel pre (back y zs ∷ pop_back (y ∷ zs)) (forget x s)
              (omega (arith, length-pop_back (y ∷ zs))) (omega arith)))
    ]

  -- The loop shortens the vector unless it keeps every element, and then leaves it as it is.
  pub sweep-eq_of_length :
      (fuel : ℕ) (xs : List ℕ) (s : S)
      → length xs ≤ fuel
      → length xs ≡ length (sweep keep forget fuel 0 xs s).0
      → (sweep keep forget fuel 0 xs s).0 ≡ xs
  sweep-eq_of_length fuel xs s h e =
      (sweep_rule
          (λ pre rest s r.
            (length r.0 ≤ length pre + length rest)
            × (length pre + length rest ≡ length r.0 → r.0 ≡ pre ++ rest))
          (λ pre s. (omega arith, λ _. rw append-nil))
          (λ pre x ys s r k ih. (
            omega (arith, ih.0, length-append pre (x ∷ [])),
            λ e'. ih.1 (omega (arith, length-append pre (x ∷ []))) ∙ append_assoc pre (x ∷ []) ys,
          ))
          (λ pre x s k. (omega arith, λ e'. absurd (omega arith)))
          (λ pre x y zs s r k ih. (
            omega (arith, ih.0, length-pop_back (y ∷ zs)),
            λ e'. absurd (omega (arith, ih.0, length-pop_back (y ∷ zs))),
          ))
          (length xs) fuel [] xs s refl h).1
        (omega arith)

  module _ (stable : (k j : ℕ) (s : S) → keep k (forget j s) ≡ keep k s) where
    -- How often each number is left: what is not kept is gone, and the rest is all there.
    pub count-sweep :
        (a fuel : ℕ) (xs : List ℕ) (s : S)
        → length xs ≤ fuel
        → count a (sweep keep forget fuel 0 xs s).0 ≡ (if keep a s then count a xs else 0)
    count-sweep a fuel xs s h = ground (
      arith,
      sweep_rule
          (λ pre rest s r. count a r.0 ≡ count a pre + (if keep a s then count a rest else 0))
          (λ pre s. ground arith)
          (λ pre x ys s r k ih. ground (arith, ih, count-append a pre (x ∷ [])))
          (λ pre x s k. ground arith)
          (λ pre x y zs s r k ih. ground (arith, ih, stable a x s, count-pop_back a y zs))
          (length xs) fuel [] xs s refl h,
    )

    -- What the loop does to a part `view` of the state that `forget j` alone changes, to `g` of it.
    pub view-sweep :
        {V : Type 0} (view : S → V) (j : ℕ) (g : V → V)
        → ((k : ℕ) (s : S) → view (forget k s) ≡ (if k == j then g (view s) else view s))
        → ((v : V) → g (g v) ≡ g v)
        → (fuel : ℕ) (xs : List ℕ) (s : S) → length xs ≤ fuel
        → view (sweep keep forget fuel 0 xs s).1
          ≡ (if keep j s then view s else if elem j xs then g (view s) else view s)
    view-sweep view j g changes idem fuel xs s h =
        sweep_rule
          (λ pre rest s r.
            view r.1 ≡ (if keep j s then view s else if elem j rest then g (view s) else view s))
          (λ pre s. ground arith) (λ pre x ys s r k ih. ground (arith, ih))
          (λ pre x s k. ground (arith, changes x s))
          (λ pre x y zs s r k ih. ground (
            arith,
            ih,
            stable j x s,
            changes x s,
            idem (view s),
            elem-count j (back y zs ∷ pop_back (y ∷ zs)),
            elem-count j (y ∷ zs),
            count-pop_back j y zs,
          ))
          (length xs) fuel [] xs s refl h
