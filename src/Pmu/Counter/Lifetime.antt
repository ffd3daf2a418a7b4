-- ===== src/Pmu/Counter/Lifetime.antt =====
-- A `PMUCounter` from its construction to its destruction, with one test between.
use hwcpipe.Common.{
  ℕ, ◌≡◌, refl, sym, ap, ◌∙◌, List, [], ◌∷◌, ◌++◌, Bool-cases, inl, inr, if◌then◌else◌,
}
use hwcpipe.Common.Int.{ℤ, pos, negsuc, eq_ℤ, eq_ℤ_refl}
use hwcpipe.Common.Outcome.{returns}
use hwcpipe.Instrument.{session}
use hwcpipe.Measurement.Values.{Floating}
use hwcpipe.Pmu.{
  Perf, PerfHistory, perf_opened, perf_requested, perf_closed, PerfEventAttr, Pmu, enable, reset,
  new_pmu, open_config, open_attr, construct, close, failed,
}
use hwcpipe.Pmu.Lifecycle.{event_fds}
use hwcpipe.Pmu.Counter.{
  PmuCounter, CpuMachine, construct_counter, destroy_counter, measurements, pmu_instrument,
}
use hwcpipe.Pmu.Counter.Readings.{
  pmus, values, readings, after, afters, resets, start-resets, stop-afters,
}

-- The descriptors of the counters that were opened, the latest first.
abbrev pub held : List Pmu → List ℤ
held [] = []
held (p ∷ ps) = if eq_ℤ p.fd (negsuc 0) then held ps else p.fd ∷ held ps

construct-held :
    (k : Perf) (config : ℕ) (h : PerfHistory) (ps : List Pmu) (rest : List ℤ)
    → event_fds h ≡ held ps ++ rest
    → (q : Pmu) × (u : PerfHistory) × (construct k config h ≡ returns q u)
      × (event_fds u ≡ held (q ∷ ps) ++ rest)
unfolding construct open_config open_attr
construct-held k config h ps rest e =
    let attr : PerfEventAttr = record (new_pmu k).perf_config { config = config } in
    let fd = k.open_event h attr in
    (
      record { perf_config = attr; fd = fd },
      perf_requested fd enable ∷ perf_opened fd ∷ h,
      refl,
      elim (Bool-cases (eq_ℤ fd (negsuc 0))) [
        | inl failed ↦ rw failed e
        | inr ok ↦ rw ok (ap (λ fds. fd ∷ fds) e)
      ],
    )

close-held :
    (p : Pmu) (h : PerfHistory) (ps : List Pmu) (rest : List ℤ)
    → event_fds h ≡ held (p ∷ ps) ++ rest
    → (q : Pmu) × (u : PerfHistory) × (close p h ≡ returns q u) × (event_fds u ≡ held ps ++ rest)
unfolding close
close-held p h ps rest e = elim (Bool-cases (eq_ℤ p.fd (negsuc 0))) [
  | inl shut ↦ (record p { fd = negsuc 0 }, h, rw shut refl, rw shut at e)
  | inr ok ↦
      let opened : event_fds h ≡ p.fd ∷ (held ps ++ rest) = rw ok at e in
      (
        record p { fd = negsuc 0 },
        perf_closed p.fd ∷ h,
        rw ok refl,
        rw (opened, eq_ℤ_refl p.fd) refl,
      )
]

-- Reads and resets open and close nothing.
event_fds-after : (k : Perf) (fd : ℤ) (h : PerfHistory) → event_fds (after k fd h) ≡ event_fds h
event_fds-after k fd h = elim (Bool-cases (failed (k.read h fd).result)) [
  | inl bad ↦ rw bad refl
  | inr ok ↦ rw ok refl
]

event_fds-resets : (ps : List Pmu) (h : PerfHistory) → event_fds (resets ps h) ≡ event_fds h
event_fds-resets [] h = refl
event_fds-resets (p ∷ ps) h = event_fds-resets ps (perf_requested p.fd reset ∷ h)

event_fds-afters :
    (k : Perf) (ps : List Pmu) (h : PerfHistory) → event_fds (afters k ps h) ≡ event_fds h
event_fds-afters k [] h = refl
event_fds-afters k (p ∷ ps) h = event_fds-afters k ps (after k p.fd h) ∙ event_fds-after k p.fd h

-- The counters in the order of their construction, the latest first.
abbrev latest_first : PmuCounter → List Pmu
latest_first c =
    c.pmu_branch_misses ∷ c.pmu_branch_instructions ∷ c.pmu_cache_misses ∷ c.pmu_cache_references
    ∷ c.pmu_instructions ∷ c.pmu_cycles ∷ []

construct_counter-held :
    (k : Perf) (h : PerfHistory)
    → (c : PmuCounter) × (u : PerfHistory) × (construct_counter k h ≡ returns c u)
      × (event_fds u ≡ held (latest_first c) ++ event_fds h)
unfolding construct_counter
construct_counter-held k h =
    let fds = event_fds h in
    let (p1, h1, e1, f1) = construct-held k k.cpu_cycles h [] fds refl in
    let (p2, h2, e2, f2) = construct-held k k.instructions h1 (p1 ∷ []) fds f1 in
    let (p3, h3, e3, f3) = construct-held k k.cache_references h2 (p2 ∷ p1 ∷ []) fds f2 in
    let (p4, h4, e4, f4) = construct-held k k.cache_misses h3 (p3 ∷ p2 ∷ p1 ∷ []) fds f3 in
    let (p5, h5, e5, f5) =
      construct-held k k.branch_instructions h4 (p4 ∷ p3 ∷ p2 ∷ p1 ∷ []) fds f4 in
    let (p6, h6, e6, f6) =
      construct-held k k.branch_misses h5 (p5 ∷ p4 ∷ p3 ∷ p2 ∷ p1 ∷ []) fds f5 in
    (
      record {
        pmu_cycles = p1;
        pmu_instructions = p2;
        pmu_cache_references = p3;
        pmu_cache_misses = p4;
        pmu_branch_instructions = p5;
        pmu_branch_misses = p6;
        cycles = pos 0;
        instructions = pos 0;
        cache_references = pos 0;
        cache_misses = pos 0;
        branch_instructions = pos 0;
        branch_misses = pos 0;
      },
      h6,
      rw (e1, e2, e3, e4, e5, e6) refl,
      f6,
    )

destroy_counter-held :
    (c : PmuCounter) (h : PerfHistory) (rest : List ℤ)
    → event_fds h ≡ held (latest_first c) ++ rest
    → (u : PerfHistory) × (destroy_counter c h ≡ returns tt u) × (event_fds u ≡ rest)
unfolding destroy_counter
destroy_counter-held c h rest e =
    let (q6, h6, e6, f6) =
      close-held c.pmu_branch_misses h
        (c.pmu_branch_instructions ∷ c.pmu_cache_misses ∷ c.pmu_cache_references
          ∷ c.pmu_instructions ∷ c.pmu_cycles ∷ [])
        rest e in
    let (q5, h5, e5, f5) =
      close-held c.pmu_branch_instructions h6
        (c.pmu_cache_misses ∷ c.pmu_cache_references ∷ c.pmu_instructions ∷ c.pmu_cycles ∷ []) rest
        f6 in
    let (q4, h4, e4, f4) =
      close-held c.pmu_cache_misses h5
        (c.pmu_cache_references ∷ c.pmu_instructions ∷ c.pmu_cycles ∷ []) rest f5 in
    let (q3, h3, e3, f3) =
      close-held c.pmu_cache_references h4 (c.pmu_instructions ∷ c.pmu_cycles ∷ []) rest f4 in
    let (q2, h2, e2, f2) = close-held c.pmu_instructions h3 (c.pmu_cycles ∷ []) rest f3 in
    let (q1, h1, e1, f1) = close-held c.pmu_cycles h2 [] rest f2 in
    (h1, rw (e6, e5, e4, e3, e2, e1) refl, f1)

-- A test on a counter: it returns the measurements of the values that it reads after the resets, and no
-- descriptor is opened or closed.
tested :
    (k : Perf) (fl : Floating) (s : CpuMachine)
    → (t : CpuMachine) × (session (pmu_instrument k fl) s
        ≡ returns (measurements fl t.counter, []) t)
      × (values t.counter ≡ readings k (pmus s.counter) (resets (pmus s.counter) s.history))
      × (pmus t.counter ≡ pmus s.counter)
      × (event_fds t.history ≡ event_fds s.history)
tested k fl s =
    let ps = pmus s.counter in
    let (t, e, v, p, h) = stop-afters k (record s { history = resets ps s.history }) in
    (
      t,
      rw (start-resets k s, e) refl,
      v,
      p,
      ap event_fds h ∙ event_fds-afters k ps (resets ps s.history) ∙ event_fds-resets ps s.history,
    )

-- Whatever the kernel answers, a counter that is constructed, used for a test and destroyed never throws. It
-- measures what a read of each of its six counters gave after the resets, 0 for one that could not be read,
-- and leaves the descriptors of the process as they were.
pub cpu_lifetime :
    (k : Perf) (fl : Floating) (h : PerfHistory)
    → (c : PmuCounter) × (u : PerfHistory) × (t : CpuMachine) × (v : PerfHistory)
      × (construct_counter k h ≡ returns c u)
      × (session (pmu_instrument k fl) (record { counter = c; history = u })
          ≡ returns (measurements fl t.counter, []) t)
      × (destroy_counter t.counter t.history ≡ returns tt v)
      × (values t.counter ≡ readings k (pmus c) (resets (pmus c) u))
      × (event_fds v ≡ event_fds h)
cpu_lifetime k fl h =
    let (c, u, made, opened) = construct_counter-held k h in
    let (t, ran, measured, same, kept) = tested k fl (record { counter = c; history = u }) in
    let open_fds : event_fds t.history ≡ held (reversed (pmus t.counter)) ++ event_fds h =
      kept ∙ opened ∙ ap (λ ps. held (reversed ps) ++ event_fds h) (sym same) in
    let (v, gone, closed) = destroy_counter-held t.counter t.history (event_fds h) open_fds in
    (c, u, t, v, made, ran, gone, measured, closed)
  where
    reversed : List Pmu → List Pmu
    reversed (a ∷ b ∷ c ∷ d ∷ e ∷ f ∷ []) = f ∷ e ∷ d ∷ c ∷ b ∷ a ∷ []
    reversed ps = ps
