-- ===== src/Game/BoundBox/Refresh.antt =====
-- UpdateBoxOldSectors on a sorted vector: the swap-and-pop loop with its sort, against a filter.
use slitherss.Prelude.{
  ℕ, ◌≡◌, sym, ◌∙◌, Bool, inl, inr, List, arith, ◌==◌, if◌then◌else◌, Bool-cases, length, count,
  count-select, select, elem,
}
use slitherss.Prelude.Order.{
  count-sort, sort-Rises, Rises-count_ext, Ascends-Rises, IsAscending, select-IsAscending,
}
use slitherss.Game.BoundBox.{sweep, update_old}
use slitherss.Game.BoundBox.Sweep.{count-sweep, sweep-eq_of_length, view-sweep}

module _ {S : Type 0} (keep : ℕ → S → Bool) (forget : ℕ → S → S)
    (stable : (k j : ℕ) (s : S) → keep k (forget j s) ≡ keep k s) where
  -- The loop of UpdateBoxOldSectors with its swaps, and the sort after it, leave of a sorted vector
  -- exactly the elements that the test keeps, in their order, if forgetting one element does not
  -- change the test on another.
  pub update_old-eq-select :
      (xs : List ℕ) (s : S)
      → IsAscending xs
      → (update_old keep forget xs s).0 ≡ select (λ k. keep k s) xs
  unfolding update_old
  update_old-eq-select xs s v = elim (Bool-cases (length xs == length swept)) [
    | inl same ↦ rw same (
        let whole = sweep-eq_of_length keep forget (length xs) xs s (omega arith) (ground arith) in
        Rises-count_ext 0 0 _ _ (rw whole (Ascends-Rises 0 xs v))
          (Ascends-Rises 0 _ (select-IsAscending (λ k. keep k s) xs v))
          (λ a. counts a ∙ sym (count-select (λ k. keep k s) a xs)))
    | inr shorter ↦ rw shorter (
        Rises-count_ext 0 0 _ _ (sort-Rises swept)
          (Ascends-Rises 0 _ (select-IsAscending (λ k. keep k s) xs v))
          (λ a. count-sort a swept ∙ counts a ∙ sym (count-select (λ k. keep k s) a xs)))
  ]
    where
      swept : List ℕ
      swept = (sweep keep forget (length xs) 0 xs s).0

      counts : (a : ℕ) → count a swept ≡ (if keep a s then count a xs else 0)
      counts a = count-sweep keep forget stable a (length xs) xs s (omega arith)

  -- A part of the state that only `forget j` changes, and twice as once, is changed exactly if j was
  -- in the vector and is not kept.
  pub view-update_old :
      {V : Type 0} (view : S → V) (j : ℕ) (g : V → V)
      → ((k : ℕ) (s : S) → view (forget k s) ≡ (if k == j then g (view s) else view s))
      → ((v : V) → g (g v) ≡ g v)
      → (xs : List ℕ) (s : S)
      → view (update_old keep forget xs s).1
        ≡ (if keep j s then view s else if elem j xs then g (view s) else view s)
  unfolding update_old
  view-update_old view j g changes idem xs s =
      ground
        (arith, view-sweep keep forget stable view j g changes idem (length xs) xs s (omega arith))
