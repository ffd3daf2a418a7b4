-- ===== src/Mali/Counter/Entries.antt =====
-- The entries of the map of counters: an assignment keeps them, and the constructor makes one for each name.
use text.Mathlib.Text.{◌==◌ as str_eq}
use text.Mathlib.TextEquality.{eq_iff}
use hwcpipe.Common.{
  ◌≡◌, refl, ap, subst, ◌∙◌, String, List, [], ◌∷◌, some, arith, All, All-map, Bool-cases, inl, inr,
}
use hwcpipe.Common.Int.{pos}
use hwcpipe.Measurement.{Measurement, measure_integer}
use hwcpipe.Names.Lookup.{jm_counter_names, mmu_counter_names}
use hwcpipe.Mali.Counter.{MeasurementsMap, lookup, assign, emplace, emplace_all}
use hwcpipe.Mali.Counter.Maps.{lookup-assign_self, lookup-assign_ne}

-- The map has an entry of that name.
abbrev pub HasEntry : MeasurementsMap → String → Type 0
HasEntry m name = (old : Measurement) × (lookup name m ≡ some old)

pub assign-HasEntry :
    (name key : String) (x : Measurement) (m : MeasurementsMap)
    → HasEntry m key
    → HasEntry (assign name x m) key
assign-HasEntry name key x m (old, e) = elim (Bool-cases (str_eq name key)) [
  | inl same ↦
      subst (HasEntry (assign name x m)) ((eq_iff name key).0 same)
        (x, lookup-assign_self name x old m (ap (λ k. lookup k m) ((eq_iff name key).0 same) ∙ e))
  | inr other ↦ (old, lookup-assign_ne name key x m (λ p. cc ((eq_iff name key).1 p, other)) ∙ e)
]

emplace_self :
    (key : String) (x : Measurement) (m : MeasurementsMap) → HasEntry (emplace key x m) key
unfolding emplace lookup
emplace_self key x [] = (x, ground (arith, eq_iff key key))
emplace_self key x ((name, old) ∷ rest) = elim (Bool-cases (str_eq name key)) [
  | inl same ↦ (old, rw (same, same) refl)
  | inr other ↦ let (y, e) = emplace_self key x rest in (y, rw (other, other) e)
]

emplace_keeps :
    (key k : String) (x : Measurement) (m : MeasurementsMap)
    → HasEntry m k
    → HasEntry (emplace key x m) k
unfolding emplace lookup
emplace_keeps key k x [] (y, e) = absurd (cc)
emplace_keeps key k x ((name, old) ∷ rest) (y, e) = elim (Bool-cases (str_eq name key)) [
  | inl same ↦ (y, rw same e)
  | inr other ↦ elim (Bool-cases (str_eq name k)) [
    | inl here ↦ (old, rw (other, here) refl)
    | inr past ↦
        let (z, f) = emplace_keeps key k x rest (y, ground arith) in (z, rw (other, past) f)
  ]
]

emplace_all_keeps :
    (names : List (String × String)) (m : MeasurementsMap) (k : String)
    → HasEntry m k
    → HasEntry (emplace_all names m) k
unfolding emplace_all
emplace_all_keeps [] m k h = h
emplace_all_keeps ((name, unit) ∷ names) m k h =
    emplace_all_keeps names (emplace name (measure_integer (pos 0) unit) m) k
      (emplace_keeps name k (measure_integer (pos 0) unit) m h)

pub emplace_all-HasEntry :
    (names : List (String × String)) (m : MeasurementsMap)
    → All (λ n. HasEntry (emplace_all names m) n.0) names
unfolding emplace_all
emplace_all-HasEntry [] m = tt
emplace_all-HasEntry ((name, unit) ∷ names) m =
    let x = measure_integer (pos 0) unit in
    (
      emplace_all_keeps names (emplace name x m) name (emplace_self name x m),
      emplace_all-HasEntry names (emplace name x m),
    )

-- The map that the constructor builds, whatever it held before, has an entry for each counter of both lists.
abbrev pub constructed : MeasurementsMap → MeasurementsMap
constructed m = emplace_all mmu_counter_names (emplace_all jm_counter_names m)

pub constructed-HasEntry :
    (m : MeasurementsMap)
    → All (λ n. HasEntry (constructed m) n.0) jm_counter_names
      × All (λ n. HasEntry (constructed m) n.0) mmu_counter_names
constructed-HasEntry m = (
  All-map (λ n h. emplace_all_keeps mmu_counter_names (emplace_all jm_counter_names m) n.0 h)
      jm_counter_names (emplace_all-HasEntry jm_counter_names m),
  emplace_all-HasEntry mmu_counter_names (emplace_all jm_counter_names m),
)
