-- ===== src/Stats/Mean.antt =====
-- instruments_stats.cpp: the mean and the relative standard deviation of integer measurements.
use hwcpipe.Common.{
  arith, ℕ, zero, suc, ◌-◌, ◌*◌, ◌≤◌, ◌<◌, ◌^◌, ◌≡◌, refl, sym, ap, ◌∙◌, subst, List, [], ◌∷◌, map,
  some, All-map, length, length-map,
}
use hwcpipe.Common.Int.{ℤ, pos, ◌+ℤ◌, ◌-ℤ◌, ◌≤ℤ◌, int_laws, wrap64, quot_ℤ}
use mathlib.Core.Path.{ap₂}
use native.Mathlib.Nat.{mul-le-mul_left, mul-le-mul_right}
use hwcpipe.Measurement.{Measurement}
use hwcpipe.Measurement.Values.{Floating, relative_standard_deviation}
use hwcpipe.Stats.{InstrumentsStats, instruments_stats, least, greatest}
use hwcpipe.Stats.StdSort.{Sorting}
use hwcpipe.Stats.Ranks.{HasRank, HasRank-extremes}
use hwcpipe.Stats.Indices.{Integers, cell}
use hwcpipe.Stats.Constructed.{integer, constructed, object, mean_cell, variance_cell, wrapped_sum}
use hwcpipe.Stats.Sums.{
  magnitude, Within, sum, sum_of_squares, wrapped_sum-sum, wrapped_squares-sum, magnitude-sum,
  magnitude-sum_of_squares, magnitude_sub, magnitude_quot, wrap64_of_magnitude, quot_ℤ-ge,
  quot_ℤ-le, sum-ge, sum-le,
}

-- The mean of integers, rounded towards 0.
abbrev pub exact_mean : List ℤ → ℤ
exact_mean cs = quot_ℤ (sum cs) (pos (length cs))

-- The mean square of the differences from that mean, rounded too.
abbrev pub exact_variance : List ℤ → ℤ
exact_variance cs = quot_ℤ (sum_of_squares (map (λ c. exact_mean cs -ℤ c) cs)) (pos (length cs))

zero_add : (z : ℤ) → pos 0 +ℤ z ≡ z
zero_add z = omega int_laws

-- The differences from a mean are at most twice as large as the values.
module _ (bound : ℕ) (mean : ℤ) (small : magnitude mean ≤ bound) where
  diffs-Within : (ds : List ℤ) → Within bound ds → Within (2 * bound) (map (λ c. mean -ℤ c) ds)
  diffs-Within [] h = tt
  diffs-Within (d ∷ ds) h = (omega (arith, magnitude_sub mean d, small, h.0), diffs-Within ds h.1)

  diffs_exact :
      2 * bound < 2 ^ 63
      → (ds : List ℤ) → Within bound ds
      → map (λ c. wrap64 (mean -ℤ c)) ds ≡ map (λ c. mean -ℤ c) ds
  diffs_exact room [] h = refl
  diffs_exact room (d ∷ ds) h =
      let exact =
        wrap64_of_magnitude (mean -ℤ d) (omega (arith, magnitude_sub mean d, small, h.0)) in
      rw (exact, diffs_exact room ds h.1) refl

-- Room for the squares is room for what is smaller.
square_ge : (bound : ℕ) → 2 * bound ≤ 2 * bound * (2 * bound)
square_ge zero = omega arith
square_ge (suc b) =
    let more : 2 * suc b * 1 ≤ 2 * suc b * (2 * suc b) =
      mul-le-mul_left (2 * suc b) (omega arith) in
    omega (arith, more)

module _ (bound : ℕ) (cs : List ℤ) (within : Within bound cs) (nonempty : 0 < length cs) where
  magnitude_mean : magnitude (exact_mean cs) ≤ bound
  magnitude_mean =
      magnitude_quot (length cs) nonempty bound (sum cs) (magnitude-sum bound cs within)

  bound_once : length cs * bound < 2 ^ 63 → bound < 2 ^ 63
  bound_once h = omega (arith, mul-le-mul_right bound nonempty, h)

  mean_cell-exact : length cs * bound < 2 ^ 63 → mean_cell cs ≡ exact_mean cs
  unfolding mean_cell
  mean_cell-exact h =
      let total : wrapped_sum (pos 0) cs ≡ sum cs =
        wrapped_sum-sum bound (pos 0) cs within (omega (arith, h)) ∙ zero_add (sum cs) in
      rw total (wrap64_of_magnitude (exact_mean cs) (omega (arith, magnitude_mean, bound_once h)))

  module _ (room : length cs * (2 * bound * (2 * bound)) < 2 ^ 63) where
    room_for_sum : length cs * bound < 2 ^ 63
    room_for_sum =
        let less : bound ≤ 2 * bound * (2 * bound) = omega (arith, square_ge bound) in
        omega (arith, mul-le-mul_left (length cs) less, room)

    room_for_diffs : 2 * bound < 2 ^ 63
    room_for_diffs =
        omega (arith, square_ge bound, mul-le-mul_right (2 * bound * (2 * bound)) nonempty, room)

    room_for_variance : 2 * bound * (2 * bound) < 2 ^ 63
    room_for_variance = omega (arith, mul-le-mul_right (2 * bound * (2 * bound)) nonempty, room)

    variance_cell-exact : variance_cell cs ≡ exact_variance cs
    unfolding variance_cell
    variance_cell-exact =
        let mean = exact_mean cs in
        let ds = map (λ c. mean -ℤ c) cs in
        let within_ds = diffs-Within bound mean magnitude_mean cs within in
        let size = ap (λ n. n * (2 * bound * (2 * bound))) (length-map cs (λ c. mean -ℤ c)) in
        let total =
          wrapped_squares-sum (2 * bound) (pos 0) ds within_ds (omega (arith, size, room)) in
        let squares = magnitude-sum_of_squares (2 * bound) ds within_ds in
        let small =
          magnitude_quot (length cs) nonempty (2 * bound * (2 * bound)) (sum_of_squares ds)
            (omega (arith, size, squares)) in
        rw
          (
            mean_cell-exact room_for_sum,
            diffs_exact bound mean magnitude_mean room_for_diffs cs within,
            total,
            zero_add (sum_of_squares ds),
          )
          (wrap64_of_magnitude (exact_variance cs) (omega (arith, small, room_for_variance)))

-- For at least one and fewer than 2^31 integer measurements of magnitudes up to a bound whose multiple by
-- their number fits in a `long long`, no sum wraps: `mean()` is the integer mean rounded towards 0, and
-- lies between the values of `min()` and `max()`.
pub mean-between :
    (fl : Floating) (std : Sorting) (ms : List Measurement) (bound : ℕ)
    → Integers ms
    → 0 < length ms
    → length ms < 2 ^ 31
    → Within bound (map cell ms)
    → length ms * bound < 2 ^ 63
    → (s : InstrumentsStats fl) × (lo hi : Measurement) × (instruments_stats fl std ms ≡ some s)
      × (least ms s ≡ some lo)
      × (greatest ms s ≡ some hi)
      × (s.mean ≡ integer (exact_mean (map cell ms)))
      × (cell lo ≤ℤ s.mean.cell)
      × (s.mean.cell ≤ℤ cell hi)
mean-between fl std ms bound integers nonempty fits within room =
    let (i, j, k, lo, hi, mid, e, el, eh, em, rl, rh, rm) =
      constructed fl std ms integers nonempty fits in
    let cs = map cell ms in
    let size = length-map ms cell in
    let some_cell : 0 < length cs = omega (arith, size, nonempty) in
    let exact =
      mean_cell-exact bound cs within some_cell (subst (λ n. n * bound < 2 ^ 63) (sym size) room) in
    let last = subst (λ n. HasRank cs (n - 1) (cell hi)) (sym size) rh in
    let extremes = HasRank-extremes cs (cell lo) (cell hi) rl last in
    let low =
      quot_ℤ-ge (length cs) some_cell (sum cs) (cell lo)
        (sum-ge (cell lo) cs (All-map (λ c h. h.0) cs extremes)) in
    let high =
      quot_ℤ-le (length cs) some_cell (sum cs) (cell hi)
        (sum-le (cell hi) cs (All-map (λ c h. h.1) cs extremes)) in
    (
      object fl ms i j k,
      lo,
      hi,
      e,
      el,
      eh,
      ap integer exact,
      subst (λ c. cell lo ≤ℤ c) (sym exact) low,
      subst (λ c. c ≤ℤ cell hi) (sym exact) high,
    )

-- With room for the squares of twice the bound too, `relative_standard_deviation()` is the one of the exact
-- mean and of the exact mean square of the differences from it, both rounded to integers.
pub deviation-exact :
    (fl : Floating) (std : Sorting) (ms : List Measurement) (bound : ℕ)
    → Integers ms
    → 0 < length ms
    → length ms < 2 ^ 31
    → Within bound (map cell ms)
    → length ms * (2 * bound * (2 * bound)) < 2 ^ 63
    → (s : InstrumentsStats fl) × (instruments_stats fl std ms ≡ some s)
      × (s.relative_standard_deviation
          ≡ relative_standard_deviation fl
              (integer (exact_variance (map cell ms)))
              (integer (exact_mean (map cell ms))))
deviation-exact fl std ms bound integers nonempty fits within room =
    let (i, j, k, lo, hi, mid, e, el, eh, em, rl, rh, rm) =
      constructed fl std ms integers nonempty fits in
    let cs = map cell ms in
    let size = length-map ms cell in
    let some_cell : 0 < length cs = omega (arith, size, nonempty) in
    let enough = subst (λ n. n * (2 * bound * (2 * bound)) < 2 ^ 63) (sym size) room in
    let mean =
      mean_cell-exact bound cs within some_cell (room_for_sum bound cs within some_cell enough) in
    let variance = variance_cell-exact bound cs within some_cell enough in
    (
      object fl ms i j k,
      e,
      ap₂ (λ v m. relative_standard_deviation fl (integer v) (integer m)) variance mean,
    )
