-- ===== src/Stats/Order.antt =====
-- instruments_stats.h: what the accessors of the least, the greatest and the median measurement return.
use hwcpipe.Common.{
  ◌-◌, ◌/◌, ◌<◌, ◌^◌, ◌≡◌, refl, sym, subst, List, [], ◌∷◌, map, Option, some, All, length,
  length-map,
}
use hwcpipe.Common.Int.{ℤ, ◌≤ℤ◌}
use hwcpipe.Common.Options.{◌>>=◌}
use hwcpipe.Measurement.{Measurement}
use hwcpipe.Measurement.Values.{Floating, Value}
use hwcpipe.Stats.{InstrumentsStats, instruments_stats, least, greatest, middle}
use hwcpipe.Stats.StdSort.{Sorting}
use hwcpipe.Stats.Ranks.{HasRank, HasRank-unique, HasRank-extremes}
use hwcpipe.Stats.Indices.{Integers, cell}
use hwcpipe.Stats.Constructed.{constructed, object}

All-cell : (P : ℤ → Type 0) (ms : List Measurement) → All P (map cell ms) → All (λ m. P (cell m)) ms
All-cell P [] h = tt
All-cell P (m ∷ ms) h = (h.0, All-cell P ms h.1)

-- For at least one and fewer than 2^31 integer measurements the constructor succeeds. `min()` and `max()`
-- are measurements of the vector, and every value is between theirs; `median()` is one too, at most n / 2
-- values are smaller than its, and the values that are larger fit behind position n / 2.
pub extremes_and_median :
    (fl : Floating) (std : Sorting) (ms : List Measurement)
    → Integers ms
    → 0 < length ms
    → length ms < 2 ^ 31
    → (s : InstrumentsStats fl) × (lo hi mid : Measurement) × (instruments_stats fl std ms ≡ some s)
      × (least ms s ≡ some lo)
      × (greatest ms s ≡ some hi)
      × (middle ms s ≡ some mid)
      × All (λ m. (cell lo ≤ℤ cell m) × (cell m ≤ℤ cell hi)) ms
      × HasRank (map cell ms) (length ms / 2) (cell mid)
extremes_and_median fl std ms integers nonempty fits =
    let (lo, hi, mid, a, b, c, e, ea, eb, ec, ra, rb, rc) =
      constructed fl std ms integers nonempty fits in
    let last = subst (λ n. HasRank (map cell ms) (n - 1) (cell b)) (sym (length-map ms cell)) rb in
    (
      object fl ms lo hi mid,
      a,
      b,
      c,
      e,
      ea,
      eb,
      ec,
      All-cell (λ v. (cell a ≤ℤ v) × (v ≤ℤ cell b)) ms
          (HasRank-extremes (map cell ms) (cell a) (cell b) ra last),
      rc,
    )

-- What a caller sees of an object, apart from which of the measurements of equal value it points to.
pub record View (fl : Floating) : Type 0 where
  pub min : ℤ
  pub max : ℤ
  pub median : ℤ
  pub mean : Value
  pub relative_standard_deviation : fl.Double

abbrev pub view : {fl : Floating} → List Measurement → InstrumentsStats fl → Option (View fl)
view ms s = do
  lo ← least ms s
  hi ← greatest ms s
  mid ← middle ms s
  some record {
    min = cell lo;
    max = cell hi;
    median = cell mid;
    mean = s.mean;
    relative_standard_deviation = s.relative_standard_deviation;
  }

view_of : (fl : Floating) → List Measurement → ℤ → ℤ → ℤ → View fl
view_of fl ms lo hi mid =
    let o = object fl ms 0 0 0 in
    record {
      min = lo;
      max = hi;
      median = mid;
      mean = o.mean;
      relative_standard_deviation = o.relative_standard_deviation;
    }

viewed :
    (fl : Floating) (std : Sorting) (ms : List Measurement)
    → Integers ms
    → 0 < length ms
    → length ms < 2 ^ 31
    → (a b c : ℤ) × ((instruments_stats fl std ms >>= view ms) ≡ some (view_of fl ms a b c))
      × HasRank (map cell ms) 0 a
      × HasRank (map cell ms) (length ms - 1) b
      × HasRank (map cell ms) (length ms / 2) c
unfolding view_of
viewed fl std ms integers nonempty fits =
    let (lo, hi, mid, a, b, c, e, ea, eb, ec, ra, rb, rc) =
      constructed fl std ms integers nonempty fits in
    (cell a, cell b, cell c, rw (e, ea, eb, ec) refl, ra, rb, rc)

-- The order in which `std::sort` leaves equal measurements does not matter: for at least one and fewer than
-- 2^31 integer measurements, any two sorts that do what the standard asks make objects of one view.
pub sorts_agree :
    (fl : Floating) (std std' : Sorting) (ms : List Measurement)
    → Integers ms
    → 0 < length ms
    → length ms < 2 ^ 31
    → (v : View fl) × ((instruments_stats fl std ms >>= view ms) ≡ some v)
      × ((instruments_stats fl std' ms >>= view ms) ≡ some v)
sorts_agree fl std std' ms integers nonempty fits =
    let (a, b, c, e, ra, rb, rc) = viewed fl std ms integers nonempty fits in
    let (a', b', c', e', ra', rb', rc') = viewed fl std' ms integers nonempty fits in
    let ua = HasRank-unique (map cell ms) 0 a a' ra ra' in
    let ub = HasRank-unique (map cell ms) (length ms - 1) b b' rb rb' in
    let uc = HasRank-unique (map cell ms) (length ms / 2) c c' rc rc' in
    (view_of fl ms a b c, e, rw (ua, ub, uc) e')
