-- ===== src/Mali/Counter/Measured.antt =====
-- `measurements` hands out the map of counters under the names of its own.
use hwcpipe.Common.Int.{ℤ, signed64, sub_ℕ}
use hwcpipe.Common.{
  ◌<◌, ◌+◌, ◌-◌, ◌%◌, ◌^◌, ◌≤◌, ◌⊎◌, ℕ, ◌≡◌, refl, String, List, [], ◌∷◌, some, arith, All,
}
use hwcpipe.Common.Outcome.{returns}
use hwcpipe.Names.Lookup.{jm_counter_names, mmu_counter_names}
use hwcpipe.Measurement.{measure_integer}
use hwcpipe.Mali.State.{Machine}
use hwcpipe.Mali.Counter.{MeasurementsMap, lookup, measured, measurements, timespan}
use hwcpipe.Mali.Counter.Entries.{HasEntry}

-- The label of each counter.
abbrev pub labels : List (String × String)
labels =
    ("GPU cycles", "GPU_ACTIVE")
    ∷ ("Fragment jobs", "JS0_JOBS")
    ∷ ("Vertex/compute jobs", "JS1_JOBS")
    ∷ ("L2 cache read lookups", "L2_READ_LOOKUP")
    ∷ ("L2 cache external reads", "L2_EXT_READ")
    ∷ ("L2 cache external read stalls", "L2_EXT_AR_STALL")
    ∷ ("L2 cache write lookups", "L2_WRITE_LOOKUP")
    ∷ ("L2 cache external writes", "L2_EXT_WRITE")
    ∷ ("L2 cache external write stalls", "L2_EXT_W_STALL")
    ∷ ("L2 cache external read beats", "L2_EXT_READ_BEATS")
    ∷ ("L2 cache external write beats", "L2_EXT_WRITE_BEATS")
    ∷ []

-- The time from `t` to `u` is `z`, if it is in the range of a `long long`: positive when `u` is later.
abbrev pub Elapsed : ℕ → ℕ → ℤ → Type 0
Elapsed t u z =
    ((u < t + 2 ^ 63) × (t ≤ u + 2 ^ 63) × (z ≡ sub_ℕ u t)) ⊎ (t + 2 ^ 63 ≤ u) ⊎ (u + 2 ^ 63 < t)

Elapsed-signed64 : (t u : ℕ) → t < 2 ^ 64 → u < 2 ^ 64 → Elapsed t u (signed64 (u + 2 ^ 64 - t))
Elapsed-signed64 t u h k = ground arith

-- For each pair of a label and a name, in order, the measurement under the label is the counter's of that name.
abbrev pub Labelled : List (String × String) → MeasurementsMap → MeasurementsMap → Type 0
Labelled [] counters [] = Unit {0}
Labelled [] counters (m ∷ ms) = ⊥
Labelled (n ∷ names) counters [] = ⊥
Labelled ((label, name) ∷ names) counters ((key, m) ∷ ms) =
    (key ≡ label) × (lookup name counters ≡ some m) × Labelled names counters ms

measured-Labelled :
    (names : List (String × String)) (counters : MeasurementsMap) (s : Machine)
    → All (λ n. HasEntry counters n.1) names
    → (ms : MeasurementsMap) × (measured names counters s ≡ returns ms s)
      × Labelled names counters ms
unfolding measured
measured-Labelled [] counters s h = ([], refl, tt)
measured-Labelled ((label, name) ∷ names) counters s ((m, e), h) =
    let (ms, f, l) = measured-Labelled names counters s h in
    ((label, m) ∷ ms, ground arith, (refl, e, l))

-- When the map has all entries, `measurements` returns, changes nothing, and hands out the time from start to
-- stop, of the 64 bits that each of them has, if it is in the range of a `long long`, then each counter
-- under its label.
pub measurements-Labelled :
    (s : Machine)
    → All (λ n. HasEntry s.counter.counters n.0) jm_counter_names
    → All (λ n. HasEntry s.counter.counters n.0) mmu_counter_names
    → (z : ℤ) × (ms : MeasurementsMap) × Elapsed
        (s.counter.start_time % 2 ^ 64)
        (s.counter.stop_time % 2 ^ 64)
        z
      × (measurements s ≡ returns (("Timespan", measure_integer z "ns") ∷ ms) s)
      × Labelled labels s.counter.counters ms
unfolding measurements
measurements-Labelled s (active, (js0, (js1, _)))
      (
        lookups,
        (reads, (stalls, (writes, (ext_writes, (write_stalls, (read_beats, (write_beats, _))))))),
      ) =
    let (ms, e, l) = measured-Labelled labels s.counter.counters s (
      active,
      (
        js0,
        (
          js1,
          (
            lookups,
            (
              reads,
              (stalls, (writes, (ext_writes, (write_stalls, (read_beats, (write_beats, tt)))))),
            ),
          ),
        ),
      ),
    ) in
    let t = s.counter.start_time % 2 ^ 64 in
    let u = s.counter.stop_time % 2 ^ 64 in
    (timespan s.counter, ms, Elapsed-signed64 t u (omega arith) (omega arith), rw e refl, l)
