-- ===== src/Pmu/Counter/Readings.antt =====
-- What `start` and `stop` do with the six counters, as loops over their descriptors.
use hwcpipe.Common.{◌≡◌, refl, List, [], ◌∷◌, Bool-cases, inl, inr, if◌then◌else◌}
use hwcpipe.Common.Int.{ℤ, pos}
use hwcpipe.Common.Outcome.{returns}
use hwcpipe.Pmu.{Perf, PerfHistory, perf_requested, perf_read, reset, Pmu, failed}
use hwcpipe.Pmu.Counter.{PmuCounter, CpuMachine, read_or_zero, start, stop}

abbrev pub pmus : PmuCounter → List Pmu
pmus c =
    c.pmu_cycles ∷ c.pmu_instructions ∷ c.pmu_cache_references ∷ c.pmu_cache_misses
    ∷ c.pmu_branch_instructions ∷ c.pmu_branch_misses ∷ []

abbrev pub values : PmuCounter → List ℤ
values c =
    c.cycles ∷ c.instructions ∷ c.cache_references ∷ c.cache_misses ∷ c.branch_instructions
    ∷ c.branch_misses ∷ []

-- The value of a counter, 0 if it cannot be read.
abbrev pub reading : Perf → ℤ → PerfHistory → ℤ
reading k fd h = if failed (k.read h fd).result then pos 0 else (k.read h fd).value

-- The calls for one counter: a read, and a reset if the read succeeded.
abbrev pub after : Perf → ℤ → PerfHistory → PerfHistory
after k fd h =
    if failed (k.read h fd).result
    then perf_read fd ∷ h
    else perf_requested fd reset ∷ perf_read fd ∷ h

-- The counters, read one after the other.
abbrev pub readings : Perf → List Pmu → PerfHistory → List ℤ
readings k [] h = []
readings k (p ∷ ps) h = reading k p.fd h ∷ readings k ps (after k p.fd h)

abbrev pub resets : List Pmu → PerfHistory → PerfHistory
resets [] h = h
resets (p ∷ ps) h = resets ps (perf_requested p.fd reset ∷ h)

read_or_zero_lem :
    (k : Perf) (fd : ℤ) (h : PerfHistory)
    → read_or_zero k fd h ≡ returns (reading k fd h) (after k fd h)
unfolding read_or_zero
read_or_zero_lem k fd h = elim (Bool-cases (failed (k.read h fd).result)) [
  | inl bad ↦ rw bad refl
  | inr ok ↦ rw ok refl
]

-- `start` returns, changes no member, and has reset each of the six counters once, in their order.
pub start-resets :
    (k : Perf) (s : CpuMachine)
    → start k s ≡ returns tt (record s { history = resets (pmus s.counter) s.history })
unfolding start
start-resets k s = refl

-- The calls for all of them.
abbrev pub afters : Perf → List Pmu → PerfHistory → PerfHistory
afters k [] h = h
afters k (p ∷ ps) h = afters k ps (after k p.fd h)

-- What `stop` does to the members and which calls it makes.
pub stop-afters :
    (k : Perf) (s : CpuMachine)
    → (t : CpuMachine) × (stop k s ≡ returns tt t)
      × (values t.counter ≡ readings k (pmus s.counter) s.history)
      × (pmus t.counter ≡ pmus s.counter)
      × (t.history ≡ afters k (pmus s.counter) s.history)
unfolding stop
stop-afters k s =
    let c = s.counter in
    let h1 = after k c.pmu_cycles.fd s.history in
    let h2 = after k c.pmu_instructions.fd h1 in
    let h3 = after k c.pmu_cache_references.fd h2 in
    let h4 = after k c.pmu_cache_misses.fd h3 in
    let h5 = after k c.pmu_branch_instructions.fd h4 in
    let h6 = after k c.pmu_branch_misses.fd h5 in
    (
      record {
        counter = record c {
          cycles = reading k c.pmu_cycles.fd s.history;
          instructions = reading k c.pmu_instructions.fd h1;
          cache_references = reading k c.pmu_cache_references.fd h2;
          cache_misses = reading k c.pmu_cache_misses.fd h3;
          branch_instructions = reading k c.pmu_branch_instructions.fd h4;
          branch_misses = reading k c.pmu_branch_misses.fd h5;
        };
        history = h6;
      },
      rw
          (
            read_or_zero_lem k c.pmu_cycles.fd s.history,
            read_or_zero_lem k c.pmu_instructions.fd h1,
            read_or_zero_lem k c.pmu_cache_references.fd h2,
            read_or_zero_lem k c.pmu_cache_misses.fd h3,
            read_or_zero_lem k c.pmu_branch_instructions.fd h4,
            read_or_zero_lem k c.pmu_branch_misses.fd h5,
          )
          refl,
      refl,
      refl,
      refl,
    )

-- Whatever the kernel answers, `stop` returns: each of the six values is what a read of its counter gave, one
-- after the other, or 0 if that read failed, and the counters stay the same.
pub stop-readings :
    (k : Perf) (s : CpuMachine)
    → (t : CpuMachine) × (stop k s ≡ returns tt t)
      × (values t.counter ≡ readings k (pmus s.counter) s.history)
      × (pmus t.counter ≡ pmus s.counter)
stop-readings k s = let (t, e, v, p, h) = stop-afters k s in (t, e, v, p)
