-- ===== src/Stats/Constructed.antt =====
-- instruments_stats.cpp, the constructor, at integer measurements: what it leaves in the object.
use hwcpipe.Common.{
  arith, ℕ, zero, suc, ◌-◌, ◌/◌, ◌<◌, ◌^◌, ◌≡◌, refl, ap, subst, false, List, [], ◌∷◌, map, some,
  length-map, get_elem?, get_elem?-lt, get_elem?-All, length,
}
use hwcpipe.Common.Int.{ℤ, pos, ◌+ℤ◌, ◌-ℤ◌, ◌*ℤ◌, wrap64, quot_ℤ, signed32, eq_ℤ}
use hwcpipe.Common.Perms.{length-Permᴰ}
use hwcpipe.Measurement.{Measurement}
use hwcpipe.Measurement.Values.{
  Floating, Value, plus, minus, times, over, relative_standard_deviation,
}
use hwcpipe.Stats.{
  iota, sort_indices, accumulate, inner_product, InstrumentsStats, instruments_stats,
}
use hwcpipe.Stats.StdSort.{Sorting}
use hwcpipe.Stats.Ranks.{HasRank, HasRank-Permᴰ, Ordered-HasRank}
use hwcpipe.Stats.Indices.{
  Integers, cell, cell_at, cell_at-get_elem?, sort_indices-Permᴰ, sort_indices-bound,
  sorted_cells-Permᴰ, sorted_cells-Ordered,
}

abbrev pub integer : ℤ → Value
integer c = record { cell = c; is_floating_point = false }

-- The sums that the machine's 64 bits hold.
unfoldable pub wrapped_sum : ℤ → List ℤ → ℤ
wrapped_sum a [] = a
wrapped_sum a (c ∷ cs) = wrapped_sum (wrap64 (c +ℤ a)) cs

unfoldable pub wrapped_squares : ℤ → List ℤ → ℤ
wrapped_squares a [] = a
wrapped_squares a (d ∷ ds) = wrapped_squares (wrap64 (wrap64 (d *ℤ d) +ℤ a)) ds

unfoldable pub mean_cell : List ℤ → ℤ
mean_cell cs = wrap64 (quot_ℤ (wrapped_sum (pos 0) cs) (pos (length cs)))

-- The differences from the mean.
abbrev pub diffs : List ℤ → List ℤ
diffs cs = map (λ c. wrap64 (mean_cell cs -ℤ c)) cs

unfoldable pub variance_cell : List ℤ → ℤ
variance_cell cs = wrap64 (quot_ℤ (wrapped_squares (pos 0) (diffs cs)) (pos (length cs)))

module _ (fl : Floating) where
  accumulate-wrapped_sum :
      (c : ℤ) (ms : List Measurement)
      → Integers ms
      → accumulate fl (integer c) ms ≡ integer (wrapped_sum c (map cell ms))
  unfolding accumulate plus wrapped_sum
  accumulate-wrapped_sum c [] h = refl
  accumulate-wrapped_sum c (m ∷ ms) h =
      rw (h.0) (accumulate-wrapped_sum (wrap64 (cell m +ℤ c)) ms h.1)

  inner_product-wrapped_squares :
      (c : ℤ) (ds : List ℤ)
      → inner_product fl (integer c) (map integer ds) ≡ integer (wrapped_squares c ds)
  unfolding inner_product plus times wrapped_squares
  inner_product-wrapped_squares c [] = refl
  inner_product-wrapped_squares c (d ∷ ds) =
      inner_product-wrapped_squares (wrap64 (wrap64 (d *ℤ d) +ℤ c)) ds

  map-minus :
      (mean : ℤ) (ms : List Measurement)
      → Integers ms
      → map (λ (x : Measurement). minus fl x.value (integer mean)) ms
        ≡ map integer (map (λ c. wrap64 (mean -ℤ c)) (map cell ms))
  unfolding minus
  map-minus mean [] h = refl
  map-minus mean (m ∷ ms) h = rw (h.0, map-minus mean ms h.1) refl

  over-integer :
      (c : ℤ) (n : ℕ)
      → 0 < n
      → n < 2 ^ 31
      → over fl (integer c) (signed32 n) ≡ some (integer (wrap64 (quot_ℤ c (pos n))))
  unfolding over
  over-integer c n l u =
      let narrow : signed32 n ≡ pos n = ground arith in
      let nonzero : eq_ℤ (pos n) (pos 0) ≡ false = ground arith in rw (narrow, nonzero) refl

-- What stands at a position of the sorted indices.
abbrev pub IndexAt : Floating → Sorting → List Measurement → ℕ → ℕ → Type 0
IndexAt fl std ms k i = get_elem? (sort_indices fl std ms) k ≡ some i

-- The object that the constructor makes of the indices it found.
abbrev pub object : (fl : Floating) → List Measurement → (lo hi mid : ℕ) → InstrumentsStats fl
object fl ms lo hi mid = record {
  min = lo;
  max = hi;
  median = mid;
  mean = integer (mean_cell (map cell ms));
  relative_standard_deviation =
      relative_standard_deviation fl (integer (variance_cell (map cell ms)))
        (integer (mean_cell (map cell ms)));
}

module _ (fl : Floating) (std : Sorting) (ms : List Measurement) (integers : Integers ms)
    (nonempty : 0 < length ms) (fits : length ms < 2 ^ 31) where
  index_exists : (k : ℕ) → k < length ms → (i : ℕ) × IndexAt fl std ms k i
  unfolding iota
  index_exists k h = get_elem?-lt (sort_indices fl std ms) k (
      omega
        (arith, length-Permᴰ (sort_indices-Permᴰ fl std ms integers), length-iota (length ms) 0))
    where
      length-iota : (n first : ℕ) → length (iota n first) ≡ n
      length-iota zero first = refl
      length-iota (suc n) first = ap suc (length-iota n (suc first))

  element_exists : (k i : ℕ) → IndexAt fl std ms k i → (m : Measurement) × (get_elem? ms i ≡ some m)
  element_exists k i e = get_elem?-lt ms i (
      get_elem?-All (λ i. i < length ms) (sort_indices fl std ms) k i e
        (sort_indices-bound fl std ms integers))

  get_elem?-map :
      (is : List ℕ) (k i : ℕ)
      → get_elem? is k ≡ some i
      → get_elem? (map (cell_at ms) is) k ≡ some (cell_at ms i)
  get_elem?-map [] k i e = absurd (cc)
  get_elem?-map (j ∷ is) zero i e = let same : j ≡ i = cc in cc
  get_elem?-map (j ∷ is) (suc k) i e = get_elem?-map is k i e

  ranked :
      (k i : ℕ) (m : Measurement)
      → IndexAt fl std ms k i
      → get_elem? ms i ≡ some m
      → HasRank (map cell ms) k (cell m)
  ranked k i m e f =
      let cells = map (cell_at ms) (sort_indices fl std ms) in
      let p = sorted_cells-Permᴰ fl std ms integers in
      let at : get_elem? cells k ≡ some (cell_at ms i) =
        get_elem?-map (sort_indices fl std ms) k i e in
      let rank =
        Ordered-HasRank cells k (cell_at ms i) (sorted_cells-Ordered fl std ms integers) at in
      HasRank-Permᴰ (cell m) k p (subst (HasRank cells k) (cell_at-get_elem? ms i m f) rank)

  instruments_stats-object :
      (lo hi mid : ℕ) (m : Measurement)
      → IndexAt fl std ms 0 lo
      → IndexAt fl std ms (length ms - 1) hi
      → IndexAt fl std ms (length ms / 2) mid
      → get_elem? ms lo ≡ some m
      → instruments_stats fl std ms ≡ some (object fl ms lo hi mid)
  unfolding instruments_stats mean_cell variance_cell
  instruments_stats-object lo hi mid m el eh em e =
      let flag : m.value.is_floating_point ≡ false =
        get_elem?-All (λ m. m.value.is_floating_point ≡ false) ms lo m e integers in
      let len = length-map ms cell in
      let total = wrapped_sum (pos 0) (map cell ms) in
      let mean = wrap64 (quot_ℤ total (pos (length ms))) in
      let squares = wrapped_squares (pos 0) (map (λ c. wrap64 (mean -ℤ c)) (map cell ms)) in
      rw
        (
          el,
          eh,
          em,
          e,
          flag,
          len,
          accumulate-wrapped_sum fl (pos 0) ms integers,
          over-integer fl total (length ms) nonempty fits,
          map-minus fl mean ms integers,
          inner_product-wrapped_squares fl (pos 0),
          over-integer fl squares (length ms) nonempty fits,
        )
        refl

  -- The constructor succeeds, and its pointers are to the elements at three places of the sorted order.
  pub constructed :
      (lo hi mid : ℕ) × (a b c : Measurement) × (instruments_stats fl std ms
        ≡ some (object fl ms lo hi mid))
      × (get_elem? ms lo ≡ some a)
      × (get_elem? ms hi ≡ some b)
      × (get_elem? ms mid ≡ some c)
      × HasRank (map cell ms) 0 (cell a)
      × HasRank (map cell ms) (length ms - 1) (cell b)
      × HasRank (map cell ms) (length ms / 2) (cell c)
  constructed =
      let (lo, el) = index_exists 0 nonempty in
      let (hi, eh) = index_exists (length ms - 1) (omega arith) in
      let (mid, em) = index_exists (length ms / 2) (omega arith) in
      let (a, ea) = element_exists 0 lo el in
      let (b, eb) = element_exists (length ms - 1) hi eh in
      let (c, ec) = element_exists (length ms / 2) mid em in
      (
        lo,
        hi,
        mid,
        a,
        b,
        c,
        instruments_stats-object lo hi mid a el eh em ea,
        ea,
        eb,
        ec,
        ranked 0 lo a el ea,
        ranked (length ms - 1) hi b eh eb,
        ranked (length ms / 2) mid c em ec,
      )
