-- ===== src/Stats/Indices.antt =====
-- instruments_stats.cpp, `sort_indices` of integer measurements: the comparison that it gives to the sort, and
-- the values in the order of the indices.
use hwcpipe.Common.{
  arith, ℕ, zero, suc, ◌+◌, ◌≤◌, ◌<◌, ◌≡◌, refl, sym, ap, subst, ◌∙◌, true, false, List, [], ◌∷◌,
  map, some, All, get_elem?, length,
}
use mathlib.Core.List.{Permᴰ, Memᴰ}
use hwcpipe.Common.Int.{ℤ, pos, ltb_ℤ, ◌≤ℤ◌}
use hwcpipe.Common.Perms.{All-of_Memᴰ, All-Permᴰ, Permᴰ-map}
use hwcpipe.Measurement.{Measurement}
use hwcpipe.Measurement.Values.{Floating, less_than}
use hwcpipe.Stats.{iota, less_at, sort_indices}
use hwcpipe.Stats.StdSort.{Sorting, StrictWeak, Ascending}
use hwcpipe.Stats.Ranks.{Ordered}

abbrev pub Integers : List Measurement → Type 0
Integers ms = All (λ m. m.value.is_floating_point ≡ false) ms

abbrev pub cell : Measurement → ℤ
cell m = m.value.cell

abbrev pub cell_at : List Measurement → ℕ → ℤ
cell_at [] i = pos 0
cell_at (m ∷ ms) zero = cell m
cell_at (m ∷ ms) (suc i) = cell_at ms i

cell_at_lem :
    (ms : List Measurement) (i : ℕ)
    → Integers ms
    → i < length ms
    → (m : Measurement) × (get_elem? ms i ≡ some m)
      × (m.value.is_floating_point ≡ false)
      × (cell_at ms i ≡ cell m)
cell_at_lem [] i h l = absurd (omega arith)
cell_at_lem (m ∷ ms) zero h l = (m, refl, h.0, refl)
cell_at_lem (m ∷ ms) (suc i) h l = cell_at_lem ms i h.1 (omega arith)

pub cell_at-get_elem? :
    (ms : List Measurement) (i : ℕ) (m : Measurement)
    → get_elem? ms i ≡ some m
    → cell_at ms i ≡ cell m
cell_at-get_elem? [] i m e = absurd (cc)
cell_at-get_elem? (x ∷ ms) zero m e = let same : x ≡ m = cc in cc
cell_at-get_elem? (x ∷ ms) (suc i) m e = cell_at-get_elem? ms i m e

iota-Memᴰ : (n first a : ℕ) → Memᴰ a (iota n first) → (first ≤ a) × (a < first + n)
unfolding iota
iota-Memᴰ zero first a m = elim m [ ]
iota-Memᴰ (suc n) first a (Memᴰ.head e) = omega (arith, e)
iota-Memᴰ (suc n) first a (Memᴰ.tail m) = omega (arith, iota-Memᴰ n (suc first) a m)

module _ (fl : Floating) (ms : List Measurement) (integers : Integers ms) where
  less_at-ltb_ℤ :
      (i j : ℕ)
      → i < length ms
      → j < length ms
      → less_at fl ms i j ≡ ltb_ℤ (cell_at ms i) (cell_at ms j)
  unfolding less_than
  less_at-ltb_ℤ i j hi hj =
      let (a, ea, fa, ca) = cell_at_lem ms i integers hi in
      let (b, eb, fb, cb) = cell_at_lem ms j integers hj in rw (ea, eb, fa, ca, cb) refl

  pub less_at-StrictWeak : StrictWeak (less_at fl ms) (iota (length ms) 0)
  less_at-StrictWeak a b c ma mb mc =
      let la : a < length ms = omega (arith, iota-Memᴰ (length ms) 0 a ma) in
      let lb : b < length ms = omega (arith, iota-Memᴰ (length ms) 0 b mb) in
      let lc : c < length ms = omega (arith, iota-Memᴰ (length ms) 0 c mc) in
      let aa = less_at-ltb_ℤ a a la la in
      let ab = less_at-ltb_ℤ a b la lb in
      let bc = less_at-ltb_ℤ b c lb lc in
      let ac = less_at-ltb_ℤ a c la lc in
      (
        aa ∙ irreflexive (cell_at ms a),
        (λ h k.
            ac ∙ transitive (cell_at ms a) (cell_at ms b) (cell_at ms c) (sym ab ∙ h) (sym bc ∙ k)),
        (λ h k.
            ac ∙ negative (cell_at ms a) (cell_at ms b) (cell_at ms c) (sym ab ∙ h) (sym bc ∙ k)),
      )
    where
      irreflexive : (x : ℤ) → ltb_ℤ x x ≡ false
      irreflexive x = ground arith

      transitive : (x y z : ℤ) → ltb_ℤ x y ≡ true → ltb_ℤ y z ≡ true → ltb_ℤ x z ≡ true
      transitive x y z h k = ground arith

      negative : (x y z : ℤ) → ltb_ℤ x y ≡ false → ltb_ℤ y z ≡ false → ltb_ℤ x z ≡ false
      negative x y z h k = ground arith

  not_less : (x y : ℤ) → ltb_ℤ y x ≡ false → x ≤ℤ y
  not_less x y h = ground arith

  above_first :
      (i : ℕ) (is : List ℕ)
      → i < length ms
      → All (λ j. j < length ms) is
      → All (λ j. less_at fl ms j i ≡ false) is
      → All (λ y. cell_at ms i ≤ℤ y) (map (cell_at ms) is)
  above_first i [] li ls h = tt
  above_first i (j ∷ is) li ls h = (
    not_less (cell_at ms i) (cell_at ms j) (sym (less_at-ltb_ℤ j i ls.0 li) ∙ h.0),
    above_first i is li ls.1 h.1,
  )

  Ascending-Ordered :
      (is : List ℕ)
      → All (λ j. j < length ms) is
      → Ascending (less_at fl ms) is
      → Ordered (map (cell_at ms) is)
  Ascending-Ordered [] ls h = tt
  Ascending-Ordered (i ∷ is) ls h = (above_first i is ls.0 ls.1 h.0, Ascending-Ordered is ls.1 h.1)

cells_of_iota :
    (m : Measurement) (ms : List Measurement) (n first : ℕ)
    → map (cell_at (m ∷ ms)) (iota n (suc first)) ≡ map (cell_at ms) (iota n first)
unfolding iota
cells_of_iota m ms zero first = refl
cells_of_iota m ms (suc n) first = rw (cells_of_iota m ms n (suc first)) refl

map-cell_at-iota : (ms : List Measurement) → map (cell_at ms) (iota (length ms) 0) ≡ map cell ms
unfolding iota
map-cell_at-iota [] = refl
map-cell_at-iota (m ∷ ms) =
    ap (λ cs. cell m ∷ cs) (cells_of_iota m ms (length ms) 0 ∙ map-cell_at-iota ms)

module _ (fl : Floating) (std : Sorting) (ms : List Measurement) (integers : Integers ms) where
  pub sort_indices-Permᴰ : Permᴰ (sort_indices fl std ms) (iota (length ms) 0)
  sort_indices-Permᴰ =
      std.sort-Permᴰ (less_at fl ms) (iota (length ms) 0) (less_at-StrictWeak fl ms integers)

  -- Every index is one of the vector.
  pub sort_indices-bound : All (λ i. i < length ms) (sort_indices fl std ms)
  sort_indices-bound =
      All-Permᴰ (λ i. i < length ms) sort_indices-Permᴰ
        (All-of_Memᴰ (λ i. i < length ms) (iota (length ms) 0)
          (λ i m. omega (arith, iota-Memᴰ (length ms) 0 i m)))

  -- The values in the order of the indices are those of the vector, and ascend.
  pub sorted_cells-Permᴰ : Permᴰ (map (cell_at ms) (sort_indices fl std ms)) (map cell ms)
  sorted_cells-Permᴰ =
      subst (Permᴰ (map (cell_at ms) (sort_indices fl std ms))) (map-cell_at-iota ms)
        (Permᴰ-map (cell_at ms) sort_indices-Permᴰ)

  pub sorted_cells-Ordered : Ordered (map (cell_at ms) (sort_indices fl std ms))
  sorted_cells-Ordered =
      Ascending-Ordered fl ms integers (sort_indices fl std ms) sort_indices-bound (
        std.sort-Ascending (less_at fl ms) (iota (length ms) 0) (less_at-StrictWeak fl ms integers))
