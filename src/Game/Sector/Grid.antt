-- ===== src/Game/Sector/Grid.antt =====
-- The grid that InitSectors builds, and get_sector on it.
use slitherss.Prelude.{
  ℕ, zero, suc, ◌+◌, ◌*◌, ◌/◌, ◌%◌, ◌^◌, ◌<◌, ◌≡◌, some, get_elem?, length, arith, refl, ap, ap₂,
  [], pos, ◌∙◌,
}
use slitherss.Float.{Float}
use slitherss.Game.Config.{sector_diag_size}
use slitherss.Game.Sector.{Sector, new_sector, sectors_from, init_sectors, get_sector}

module _ (F : Type 0) ⦃float : Float F⦄ where
  abbrev cell_at : ℕ → Sector F
  cell_at k = new_sector (k % 144 % 2 ^ 8) (k / 144 % 2 ^ 8)

  get_elem?-sectors_from :
      (n i k m : ℕ) → k < n → i + k ≡ m → get_elem? (sectors_from {F = F} n i) k ≡ some (cell_at m)
  unfolding sectors_from
  get_elem?-sectors_from zero i k m h e = absurd (omega arith)
  get_elem?-sectors_from (suc n) i zero m h e =
      let e' : i ≡ m = omega arith in ap (λ t. some (cell_at t)) e'
  get_elem?-sectors_from (suc n) i (suc k) m h e =
      get_elem?-sectors_from n (suc i) k m (omega arith) (omega arith)

  length-sectors_from : (n i : ℕ) → length (sectors_from {F = F} n i) ≡ n
  unfolding sectors_from
  length-sectors_from zero i = refl
  length-sectors_from (suc n) i = ap suc (length-sectors_from n (suc i))

  pub length-init_sectors : length (init_sectors {F = F}) ≡ 20736
  unfolding init_sectors
  length-init_sectors = length-sectors_from 20736 0

  -- At every cell x, y of the 144 by 144 map, `get_sector` finds in the initial grid a sector with the
  -- coordinates x and y, whose box has its centre at 300 x + 150, 300 y + 150 and half the diagonal as
  -- its radius, and in which there are no snakes and no food.
  pub get_sector-init_sectors :
      (x y : ℕ)
      → x < 144
      → y < 144
      → get_sector (init_sectors {F = F}) x y
        ≡ some (record {
          x = x;
          y = y;
          box = record {
            x = float.mul (float.ratio 1 1) (float.of_int (pos (300 * x + 150)));
            y = float.mul (float.ratio 1 1) (float.of_int (pos (300 * y + 150)));
            r = float.div (float.of_int (pos sector_diag_size)) (float.ratio 2 1);
          };
          snakes = [];
          food = [];
        })
  unfolding get_sector init_sectors new_sector
  get_sector-init_sectors x y hx hy =
      let k = y * 144 + x in
      let ex : k % 144 % 2 ^ 8 ≡ x = omega arith in
      let ey : k / 144 % 2 ^ 8 ≡ y = omega arith in
      get_elem?-sectors_from 20736 0 k k (omega arith) (omega arith)
      ∙ ap₂ (λ a b. some (new_sector a b)) ex ey
