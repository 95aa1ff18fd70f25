-- ===== src/Game/Sector/Sites.antt =====
-- The coordinates of the sectors, which nothing changes after InitSectors.
use slitherss.Prelude.{
  ℕ, zero, suc, ◌+◌, ◌*◌, ◌/◌, ◌%◌, ◌^◌, ◌<◌, ◌≡◌, refl, sym, ap, ◌∙◌, List, [], ◌∷◌, Option, none,
  some, arith, map, modify, get_elem?, ◌==◌, ◌&&◌, false,
}
use slitherss.Float.{Float}
use slitherss.Game.Sector.{Sector, new_sector, sectors_from, init_sectors, remove_snake}

module _ {F : Type 0} where
  abbrev pub site : Sector F → ℕ × ℕ
  site s = (s.x, s.y)

  abbrev pub sites : List (Sector F) → List (ℕ × ℕ)
  sites ss = map site ss

  pub sites-modify :
      (ss : List (Sector F)) (k : ℕ) (f : Sector F → Sector F)
      → ((s : Sector F) → site (f s) ≡ site s)
      → sites (modify ss k f) ≡ sites ss
  sites-modify [] k f keeps = refl
  sites-modify (s ∷ ss) zero f keeps = ap (λ p. p ∷ sites ss) (keeps s)
  sites-modify (s ∷ ss) (suc k) f keeps = ap (λ ps. site s ∷ ps) (sites-modify ss k f keeps)

  pub site-remove_snake : (id : ℕ) (s : Sector F) → site (remove_snake id s) ≡ site s
  unfolding remove_snake
  site-remove_snake id s = refl

-- The k-th sector of the map lies at x, y with k = 144 y + x.
abbrev pub IsGrid : List (ℕ × ℕ) → Type 0
IsGrid ps = (k x y : ℕ) → get_elem? ps k ≡ some (x, y) → y * 144 + x ≡ k

module _ (F : Type 0) ⦃float : Float F⦄ where
  sites_from-IsGrid :
      (n i k x y : ℕ)
      → i + n < 20737
      → get_elem? (sites (sectors_from {F = F} n i)) k ≡ some (x, y)
      → y * 144 + x ≡ i + k
  unfolding sectors_from new_sector
  sites_from-IsGrid zero i k x y h e = absurd (ground (arith, e))
  sites_from-IsGrid (suc n) i zero x y h e =
      let known : ◌≡◌ {A = Option (ℕ × ℕ)} (some (i % 144 % 2 ^ 8, i / 144 % 2 ^ 8)) (some (x, y)) =
        e in
      let ex : i % 144 % 2 ^ 8 ≡ x = ground (arith, known) in
      let ey : i / 144 % 2 ^ 8 ≡ y = ground (arith, known) in omega arith
  sites_from-IsGrid (suc n) i (suc k) x y h e =
      omega (arith, sites_from-IsGrid n (suc i) k x y (omega arith) e)

  pub init_sectors-IsGrid : IsGrid (sites (init_sectors {F = F}))
  unfolding init_sectors
  init_sectors-IsGrid k x y e = omega (arith, sites_from-IsGrid 20736 0 k x y (omega arith) e)

module _ {F : Type 0} where
  abbrev pub site_of : Option (Sector F) → Option (ℕ × ℕ)
  site_of none = none
  site_of (some s) = some (site s)

  pub get_elem?-sites :
      (ss : List (Sector F)) (k : ℕ) → get_elem? (sites ss) k ≡ site_of (get_elem? ss k)
  get_elem?-sites [] k = refl
  get_elem?-sites (s ∷ ss) zero = refl
  get_elem?-sites (s ∷ ss) (suc k) = get_elem?-sites ss k

  module _ (ss : List (Sector F)) (ps : List (ℕ × ℕ)) (e : sites ss ≡ ps) (k : ℕ) where
    pub site-get_elem? : (o : Option (Sector F)) → get_elem? ss k ≡ o → get_elem? ps k ≡ site_of o
    site-get_elem? o found =
        ap (λ qs. get_elem? qs k) (sym e) ∙ get_elem?-sites ss k ∙ ap site_of found

    module _ (j x y : ℕ) (here : get_elem? ps j ≡ some (x, y)) where
      -- There is no sector where a pointer leads past the vector.
      pub site-none : get_elem? ss k ≡ none → (k == j) ≡ false
      site-none gone = ground (arith, site-get_elem? none gone, here)

      -- A sector lies at the place of another only if it is that.
      pub site-some :
          (s : Sector F) → IsGrid ps → get_elem? ss k ≡ some s → (s.x == x && s.y == y) ≡ (k == j)
      site-some s grid found =
          let at = site-get_elem? (some s) found in
          ground (arith, grid k s.x s.y at, grid j x y here, at, here)
