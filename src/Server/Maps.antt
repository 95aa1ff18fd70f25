-- ===== src/Server/Maps.antt =====
-- `std::map` and `std::unordered_map` by keys that are numbers, as lists of pairs with one pair for a
-- key.
use slitherss.Prelude.{ℕ, ◌≡◌, List, [], ◌∷◌, Option, none, some, arith, ltb, ◌==◌, if◌then◌else◌}

module _ {V : Type 0} where
  unfoldable pub find_key : ℕ → List (ℕ × V) → Option V
  find_key k [] = none
  find_key k ((k', v) ∷ rest) = let later = find_key k rest in if k' == k then some v else later

  -- `map[k] = v`, in the order of the keys
  unfoldable pub put_key : ℕ → V → List (ℕ × V) → List (ℕ × V)
  put_key k v [] = (k, v) ∷ []
  put_key k v ((k', v') ∷ rest) =
      let later = put_key k v rest in
      if k' == k
      then (k, v) ∷ rest
      else if ltb k k'
      then (k, v) ∷ (k', v') ∷ rest
      else (k', v') ∷ later

  unfoldable pub erase_key : ℕ → List (ℕ × V) → List (ℕ × V)
  erase_key k [] = []
  erase_key k ((k', v) ∷ rest) =
      let left = erase_key k rest in if k' == k then left else (k', v) ∷ left

  -- A change of a value through an iterator
  unfoldable pub update_key : ℕ → (V → V) → List (ℕ × V) → List (ℕ × V)
  update_key k f [] = []
  update_key k f ((k', v) ∷ rest) =
      let later = update_key k f rest in if k' == k then (k', f v) ∷ rest else (k', v) ∷ later

  pub find_key-put_key :
      (k j : ℕ) (v : V) (m : List (ℕ × V))
      → find_key j (put_key k v m) ≡ (if k == j then some v else find_key j m)
  unfolding find_key put_key
  find_key-put_key k j v [] = ground arith
  find_key-put_key k j v ((k', v') ∷ rest) = ground (arith, find_key-put_key k j v rest)

  pub find_key-erase_key :
      (k j : ℕ) (m : List (ℕ × V))
      → find_key j (erase_key k m) ≡ (if k == j then none else find_key j m)
  unfolding find_key erase_key
  find_key-erase_key k j [] = ground arith
  find_key-erase_key k j ((k', v') ∷ rest) = ground (arith, find_key-erase_key k j rest)

  pub find_key-update_key :
      (k j : ℕ) (f : V → V) (m : List (ℕ × V))
      → find_key j (update_key k f m) ≡ (
          if k == j
          then elim (find_key j m) [ none ↦ none | some v ↦ some (f v) ]
          else find_key j m)
  unfolding find_key update_key
  find_key-update_key k j f [] = ground arith
  find_key-update_key k j f ((k', v') ∷ rest) = ground (arith, find_key-update_key k j f rest)
