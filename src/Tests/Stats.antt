-- ===== src/Tests/Stats.antt =====
-- Statistics of concrete measurements.
use hwcpipe.Common.{arith, ◌≡◌, refl, List, [], ◌∷◌, some, none, All, ◌/◌, length, map}
use hwcpipe.Common.Int.{ℤ, pos, negsuc, quot_ℤ, ◌+ℤ◌, ◌≤ℤ◌}
use hwcpipe.Common.Options.{◌>>=◌}
use hwcpipe.Measurement.{Measurement}
use hwcpipe.Measurement.Values.{less_than, over, plus, times, minus, relative_standard_deviation}
use hwcpipe.Stats.{iota, InstrumentsStats, instruments_stats, least, greatest, middle}
use hwcpipe.Stats.Ranks.{HasRank}
use hwcpipe.Stats.Indices.{Integers, cell}
use hwcpipe.Stats.Sums.{Within}
use hwcpipe.Stats.Constructed.{integer}
use hwcpipe.Stats.StdSort.{Sorting}
use hwcpipe.Stats.Insertion.{
  insertion_sorting, insertion_sort, insertion_sort-Permᴰ, insertion_sort-Ascending,
}
use hwcpipe.Common.Perms.{All-Permᴰ, All-of_Memᴰ}
use mathlib.Core.List.{Permᴰ, Memᴰ, reverse}
use mathlib.Core.List.Permᴰ
use hwcpipe.Stats.Order.{View, view, extremes_and_median, sorts_agree}
use hwcpipe.Stats.Mean.{exact_mean, exact_variance, mean-between, deviation-exact}
use hwcpipe.Tests.{floating}

abbrev cycles : ℤ → Measurement
cycles n = record { unit = "cycles"; raw_data = []; value = integer n }

abbrev four : List Measurement
four = cycles (pos 7) ∷ cycles (negsuc 2) ∷ cycles (pos 7) ∷ cycles (pos 12) ∷ []

four-Integers : Integers four
four-Integers = (refl, (refl, (refl, (refl, tt))))

four-Within : Within 12 (map cell four)
four-Within = (omega arith, (omega arith, (omega arith, (omega arith, tt))))

-- Another sort, which leaves equal entries the other way around.
backwards : Sorting
backwards = record {
  sort = λ less xs. insertion_sort less (reverse xs);
  sort-Permᴰ =
      λ less xs order. Permᴰ.trans (insertion_sort-Permᴰ less (reverse xs)) (Permᴰ.reverse xs);
  sort-Ascending = λ less xs order.
      insertion_sort-Ascending less xs order (reverse xs) (
        All-Permᴰ (λ z. Memᴰ z xs) (Permᴰ.reverse xs) (All-of_Memᴰ (λ z. Memᴰ z xs) xs (λ z m. m)));
}

-- The two point to different measurements of the median value.
medians :
    ((instruments_stats floating insertion_sorting four >>= λ s. some s.median) ≡ some 0)
    × ((instruments_stats floating backwards four >>= λ s. some s.median) ≡ some 2)
unfolding instruments_stats insertion_sorting backwards iota less_than over plus times minus
medians = (refl, refl)

-- (7 - 3 + 7 + 12) / 4, rounded towards 0.
mean_of_four :
    (instruments_stats floating insertion_sorting four >>= λ s. some s.mean)
    ≡ some (integer (pos 5))
unfolding instruments_stats insertion_sorting iota less_than over plus times minus quot_ℤ ◌+ℤ◌
mean_of_four = refl

-- The constructor reads the first of an empty vector's measurements.
no_measurements : instruments_stats floating insertion_sorting [] ≡ none
unfolding instruments_stats insertion_sorting iota
no_measurements = refl

extremes_and_median_example :
    (s : InstrumentsStats floating) × (lo hi mid : Measurement) × (instruments_stats floating
        insertion_sorting four
      ≡ some s)
    × (least four s ≡ some lo)
    × (greatest four s ≡ some hi)
    × (middle four s ≡ some mid)
    × All (λ m. (cell lo ≤ℤ cell m) × (cell m ≤ℤ cell hi)) four
    × HasRank (map cell four) (length four / 2) (cell mid)
extremes_and_median_example =
    extremes_and_median floating insertion_sorting four four-Integers (omega arith) (omega arith)

sorts_agree_example :
    (v : View floating) × ((instruments_stats floating insertion_sorting four >>= view four)
      ≡ some v)
    × ((instruments_stats floating backwards four >>= view four) ≡ some v)
sorts_agree_example =
    sorts_agree floating insertion_sorting backwards four four-Integers (omega arith) (omega arith)

mean-between_example :
    (s : InstrumentsStats floating) × (lo hi : Measurement) × (instruments_stats floating
        insertion_sorting four
      ≡ some s)
    × (least four s ≡ some lo)
    × (greatest four s ≡ some hi)
    × (s.mean ≡ integer (exact_mean (map cell four)))
    × (cell lo ≤ℤ s.mean.cell)
    × (s.mean.cell ≤ℤ cell hi)
mean-between_example =
    mean-between floating insertion_sorting four 12 four-Integers (omega arith) (omega arith)
      four-Within (omega arith)

deviation-exact_example :
    (s : InstrumentsStats floating) × (instruments_stats floating insertion_sorting four ≡ some s)
    × (s.relative_standard_deviation
        ≡ relative_standard_deviation floating
            (integer (exact_variance (map cell four)))
            (integer (exact_mean (map cell four))))
deviation-exact_example =
    deviation-exact floating insertion_sorting four 12 four-Integers (omega arith) (omega arith)
      four-Within (omega arith)
