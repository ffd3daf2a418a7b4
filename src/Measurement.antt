-- ===== src/Measurement.antt =====
-- measurement.h: a measurement with its unit, whose value is a `double` or a `long long`.
pub mod Values
pub mod Decimal
pub mod Arithmetic
use hwcpipe.Common.{◌++◌, Bool, String, List, [], ◌∷◌, ℕ, true, false, if◌then◌else◌}
use hwcpipe.Common.Int.{ℤ}
use hwcpipe.Measurement.Values.{
  Value, Floating, new_value, set_floating_point, set_integer, less_than,
}
use hwcpipe.Common.Text.{codes}
use hwcpipe.Measurement.Decimal.{show_integer}

pub record Measurement : Type 0 where
  pub unit : String
  pub raw_data : List (List ℕ)
  pub value : Value

-- The raw data that is given, or else the text of the value.
abbrev raw_or_text : List (List ℕ) → List ℕ → List (List ℕ)
raw_or_text [] text = text ∷ []
raw_or_text (r ∷ raw) text = r ∷ raw

-- The constructor for an integral type. The flag is `false`, so `to_string` takes the branch for an integer.
unfoldable pub measure_integer_raw : ℤ → String → List (List ℕ) → Measurement
unfolding show_integer
measure_integer_raw v unit raw = record {
  unit = unit;
  raw_data = raw_or_text raw (show_integer v);
  value = set_integer v (new_value false);
}

-- With no raw data given.
unfoldable pub measure_integer : ℤ → String → Measurement
unfolding measure_integer_raw
measure_integer v unit = measure_integer_raw v unit []

module _ (fl : Floating) where
  open fl use {Double, show_fixed4, of_bits}

  -- `to_string`: four digits behind the point for a floating point value.
  unfoldable pub to_string : Value → List ℕ
  unfolding show_integer
  to_string v = if v.is_floating_point then show_fixed4 (of_bits v.cell) else show_integer v.cell

  -- The constructor for a floating point type.
  unfoldable pub measure_floating_raw : Double → String → List (List ℕ) → Measurement
  unfolding to_string
  measure_floating_raw v unit raw =
      let value = set_floating_point fl v (new_value true) in
      record { unit = unit; raw_data = raw_or_text raw (to_string value); value = value }

  unfoldable pub measure_floating : Double → String → Measurement
  unfolding measure_floating_raw
  measure_floating v unit = measure_floating_raw v unit []

  -- `operator<`, on the values.
  abbrev pub measurement_less : Measurement → Measurement → Bool
  measurement_less a b = less_than fl a.value b.value

  -- What `operator<<` writes: the value, a space and the unit.
  unfoldable pub print : Measurement → List ℕ
  unfolding to_string
  print m = to_string m.value ++ b' ' ∷ codes m.unit
