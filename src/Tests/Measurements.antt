-- ===== src/Tests/Measurements.antt =====
-- Measurements of concrete values.
use hwcpipe.Measurement.{print, measure_integer, measure_integer_raw}
use hwcpipe.Common.{[], ◌∷◌, ◌≡◌, refl, false}
use hwcpipe.Common.Text.{codes}
use hwcpipe.Common.Int.{pos, negsuc}
use hwcpipe.Measurement.Decimal.{show_integer}
use hwcpipe.Measurement.Values.{Value, minus, minus_assign}
use hwcpipe.Measurement.Arithmetic.{minus-minus_assign}
use hwcpipe.Tests.{floating}

abbrev seven : Value
seven = record { cell = pos 7; is_floating_point = false }

abbrev nine : Value
nine = record { cell = pos 9; is_floating_point = false }

abbrev large : Value
large = record { cell = pos 9223372036854775807; is_floating_point = false }

show_integer_minus_42 : show_integer (negsuc 41) ≡ codes "-42"
unfolding show_integer
show_integer_minus_42 = refl

minus-minus_assign_example : minus floating seven large ≡ minus_assign floating large seven
minus-minus_assign_example = minus-minus_assign floating seven large refl

printed : print floating (measure_integer (negsuc 41) "cycles") ≡ codes "-42 cycles"
unfolding print measure_integer show_integer
printed = refl

-- Raw data that is given is kept.
raw_kept :
    (measure_integer_raw (pos 7) "ns" (codes "a" ∷ codes "b" ∷ [])).raw_data
    ≡ codes "a" ∷ codes "b" ∷ []
unfolding measure_integer_raw
raw_kept = refl
