-- ===== src/Stats.antt =====
-- instruments_stats.cpp and instruments_stats.h: statistics of a vector of measurements. What the object
-- keeps as pointers into the vector are positions in it here.
pub mod StdSort
pub mod Ranks
pub mod Indices
pub mod Constructed
pub mod Order
pub mod Sums
pub mod Mean
pub mod Insertion
use hwcpipe.Common.{
  ℕ, zero, suc, ◌-◌, ◌/◌, Bool, false, List, [], ◌∷◌, map, Option, none, some, get_elem?, length,
}
use hwcpipe.Common.Int.{ℤ, signed32}
use hwcpipe.Common.Options.{◌>>=◌}
use hwcpipe.Measurement.{Measurement, measurement_less}
use hwcpipe.Measurement.Values.{
  Floating, Value, new_value, plus, minus, times, over, less_than, relative_standard_deviation,
}
use hwcpipe.Stats.StdSort.{Sorting}

-- `std::iota` over `count` entries.
unfoldable pub iota : (count first : ℕ) → List ℕ
iota zero first = []
iota (suc count) first = first ∷ iota count (suc first)

module _ (fl : Floating) where
  open fl use {Double}

  -- An element outside of the vector, for which the code's behaviour is undefined, is not less here;
  -- `std::sort` compares indices of the vector only.
  abbrev less_of : Option Measurement → Option Measurement → Bool
  less_of none b = false
  less_of (some a) none = false
  less_of (some a) (some b) = measurement_less fl a b

  -- The comparison of two indices by what stands at them.
  abbrev pub less_at : List Measurement → ℕ → ℕ → Bool
  less_at v i1 i2 = less_of (get_elem? v i1) (get_elem? v i2)

  abbrev pub sort_indices : Sorting → List Measurement → List ℕ
  sort_indices std v = std.sort (less_at v) (iota (length v) 0)

  -- `std::accumulate` with `add_measurements`.
  unfoldable pub accumulate : Value → List Measurement → Value
  accumulate a [] = a
  accumulate a (b ∷ ms) = accumulate (plus fl a b.value) ms

  -- `std::inner_product` of a vector with itself.
  unfoldable pub inner_product : Value → List Value → Value
  inner_product a [] = a
  inner_product a (d ∷ diff) = inner_product (plus fl a (times fl d d)) diff

  pub record InstrumentsStats : Type 0 where
    pub min : ℕ
    pub max : ℕ
    pub median : ℕ
    pub mean : Value
    pub relative_standard_deviation : Double

  -- The constructor. `none` is a read outside of the vector, which an empty one leads to; its length is
  -- narrowed to an `int` where it divides.
  unfoldable pub instruments_stats : Sorting → List Measurement → Option InstrumentsStats
  unfolding accumulate inner_product
  instruments_stats std measurements =
      let n = length measurements in
      let indices = sort_indices std measurements in
      do
        median ← get_elem? indices (n / 2)
        min ← get_elem? indices 0
        max ← get_elem? indices (n - 1)
        least ← get_elem? measurements min
        let zero_value = new_value least.value.is_floating_point
        let sum_values = accumulate zero_value measurements
        mean ← over fl sum_values (signed32 n)
        let diff = map (λ (x : Measurement). minus fl x.value mean) measurements
        let sq_sum = inner_product zero_value diff
        variance ← over fl sq_sum (signed32 n)
        some record {
          min = min;
          max = max;
          median = median;
          mean = mean;
          relative_standard_deviation = relative_standard_deviation fl variance mean;
        }

-- `min()`, `max()` and `median()` follow the pointers.
module _ {fl : Floating} (measurements : List Measurement) (s : InstrumentsStats fl) where
  abbrev pub least : Option Measurement
  least = get_elem? measurements s.min

  abbrev pub greatest : Option Measurement
  greatest = get_elem? measurements s.max

  abbrev pub middle : Option Measurement
  middle = get_elem? measurements s.median
