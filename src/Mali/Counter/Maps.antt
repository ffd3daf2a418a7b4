-- ===== src/Mali/Counter/Maps.antt =====
-- The laws of the map of counters.
use text.Mathlib.TextEquality.{eq_iff}
use hwcpipe.Common.{◌≡◌, ◌≢◌, refl, String, [], ◌∷◌, some, arith}
use hwcpipe.Measurement.{Measurement}
use hwcpipe.Mali.Counter.{MeasurementsMap, lookup, assign}

-- A key that is there is given the new entry, and the others keep theirs.
pub lookup-assign_self :
    (key : String) (m old : Measurement) (counters : MeasurementsMap)
    → lookup key counters ≡ some old
    → lookup key (assign key m counters) ≡ some m
unfolding lookup assign
lookup-assign_self key m old [] h = absurd (cc)
lookup-assign_self key m old ((name, x) ∷ rest) h =
    ground (arith, eq_iff name key, lookup-assign_self key m old rest)

pub lookup-assign_ne :
    (key other : String) (m : Measurement) (counters : MeasurementsMap)
    → key ≢ other
    → lookup other (assign key m counters) ≡ lookup other counters
unfolding lookup assign
lookup-assign_ne key other m [] h = refl
lookup-assign_ne key other m ((name, x) ∷ rest) h =
    ground (arith, eq_iff name key, eq_iff name other, lookup-assign_ne key other m rest)
