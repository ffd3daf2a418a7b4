-- ===== src/Measurement/Arithmetic.antt =====
-- measurement.h: how the operators on values are related.
use hwcpipe.Common.{◌≡◌, refl}
use hwcpipe.Measurement.Values.{Floating, Value, minus, minus_assign}

-- `a - b` is what `b -= a` leaves in `b`, when both values are of one kind: the left operand is taken from
-- the right one.
pub minus-minus_assign :
    (fl : Floating) (a b : Value)
    → a.is_floating_point ≡ b.is_floating_point
    → minus fl a b ≡ minus_assign fl b a
unfolding minus minus_assign
minus-minus_assign fl a b e = rw e refl
