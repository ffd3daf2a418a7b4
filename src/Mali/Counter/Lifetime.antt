-- ===== src/Mali/Counter/Lifetime.antt =====
-- A `MaliCounter` from its construction on, with one test, on a device that grants every request.
use hwcpipe.Common.{
  ℕ, ◌+◌, ◌*◌, ◌^◌, ◌%◌, ◌≤◌, ◌<◌, ◌≡◌, ◌≢◌, refl, sym, ap, subst, ◌∙◌, String, List, [], ◌∷◌, some,
  All, All-map, length,
}
use hwcpipe.Common.Int.{ℤ}
use hwcpipe.Common.Outcome.{Outcome, returns, throws, faults, Post-mono, return, ◌>>=◌, ◌>>◌}
use hwcpipe.Instrument.{MeasurementsMap, session}
use hwcpipe.Measurement.{measure_integer}
use hwcpipe.Names.Products.{CounterMapping, find_product, t72x}
use hwcpipe.Names.Lookup.{jm_counter_names, mmu_counter_names}
use hwcpipe.Mali.GpuProps.{GpuProps, zero_props}
use hwcpipe.Mali.GpuProps.Encode.{Property, IsValid, store_all}
use hwcpipe.Mali.HwInfo.Dumped.{Dumps}
use hwcpipe.Mali.Init.Newer.{dumps-Starts}
use hwcpipe.Mali.Init.Starts.{Surely, Starts}
use hwcpipe.Mali.Init.Succeeds.{Cooperates, coop-Starts}
use hwcpipe.Mali.Kernel.{Kernel, BaseGpuProps, History}
use hwcpipe.Mali.State.{MaliCounter, new_mali_counter, Machine, Mali}
use hwcpipe.Mali.Counter.{construct, start, stop, measurements, mali_instrument}
use hwcpipe.Mali.Counter.Entries.{HasEntry}
use hwcpipe.Mali.Counter.Measured.{labels, Elapsed, Labelled, measurements-Labelled}
use hwcpipe.Mali.Counter.Prepared.{SampleSize}
use hwcpipe.Mali.Counter.Stopped.{delivered, start-Delivers}
use hwcpipe.Mali.Counter.Sampled.{Entered, Sampled, Holds, JmWord, MmuSum, stop-Sampled}
use hwcpipe.Mali.Counter.Usable.{
  Samples, Serves, coop-Serves, Usable, always-Delivers, delivered-Usable, construct-Usable,
}

-- What a test on an object reports: started in the state `a` and stopped in the state `b`, the time between
-- the two samples, and under each label the entry that the second sample has given to the counter.
abbrev pub Reported :
    Kernel → CounterMapping → ℕ → Machine → Machine → MeasurementsMap × MeasurementsMap → Type 0
Reported k cm slices a b result =
    (z : ℤ) × (rest m : MeasurementsMap) × Elapsed ((delivered k a).timestamp % 2 ^ 64)
      ((delivered k b).timestamp % 2 ^ 64) z
    × (result ≡ (("Timespan", measure_integer z "ns") ∷ rest, []))
    × Labelled labels m rest
    × Entered (delivered k b) cm.names_lut slices m

-- A test on the object in the state `a` returns: its `start` leaves the state `b`, the `stop` in that state
-- returns, and the report is of the samples that the two of them take.
abbrev pub Tested :
    Kernel
    → CounterMapping
    → ℕ
    → Mali (MeasurementsMap × MeasurementsMap)
    → Machine
    → Machine
    → Type 0
Tested k cm slices run s a =
    (b t : Machine) × (result : MeasurementsMap × MeasurementsMap) × (start k a ≡ returns tt b)
    × (stop k b ≡ returns tt t)
    × (run s ≡ returns result t)
    × Reported k cm slices a b result

-- A new object is constructed, in the state `a`, and a test on it returns.
abbrev pub Lived : Kernel → CounterMapping → ℕ → History → Type 0
Lived k cm slices h =
    let s : Machine = record { counter = new_mali_counter; history = h } in
    (a : Machine) × (construct k s ≡ returns tt a)
    × Tested k cm slices (construct k >> session (mali_instrument k)) s a

Elapsed-ap : (t t' u u' : ℕ) (z : ℤ) → t ≡ t' → u ≡ u' → Elapsed t u z → Elapsed t' u' z
Elapsed-ap t t' u u' z e f h = subst (λ u. Elapsed t' u z) f (subst (λ t. Elapsed t u z) e h)

returned :
    {A : Type 0} {P : A → Machine → Type 0} (o : Outcome Machine A)
    → Surely P o
    → (x : A) × (t : Machine) × (o ≡ returns x t) × P x t
returned (returns x t) h = (x, t, refl, h)
returned (throws e t) h = absurd h
returned faults h = absurd h

module _ (k : Kernel) (serves : Serves k) (samples : Samples k) (g : ℕ) (cm : CounterMapping)
    (slices : ℕ) (known : find_product g ≡ some cm) (other : cm.product_id ≢ t72x.product_id) where
  abbrev Started : Machine → MaliCounter → Type 0
  Started a c = Usable cm slices c × (c.start_time ≡ (delivered k a).timestamp)

  start-Started :
      (s : Machine) → Usable cm slices s.counter → Surely (λ _ t. Started s t.counter) (start k s)
  start-Started s usable =
      Post-mono (start k s)
        (λ _ t e. subst (Started s) (sym e) (timed s (delivered-Usable k s cm slices usable), refl))
        (λ _ _ h. h) (λ h. h)
        (start-Delivers k s (always-Delivers k serves samples s usable.2) usable.0)
    where
      timed :
          (s : Machine)
          → Usable cm slices (delivered k s)
          → Usable cm slices (record (delivered k s) { start_time = (delivered k s).timestamp })
      timed s (a, b, e) = (
        record { holds_mapping = a.holds_mapping; size = a.size },
        record {
          names = b.names;
          l2_slices = b.l2_slices;
          all_blocks = b.all_blocks;
          offsets_fit = b.offsets_fit;
          jm_entries = b.jm_entries;
          mmu_entries = b.mmu_entries;
        },
        e,
      )

  stop-Entered :
      (s : Machine)
      → Usable cm slices s.counter
      → Surely (λ _ t. Sampled (delivered k s) cm.names_lut slices t.counter) (stop k s)
  stop-Entered s usable =
      stop-Sampled k s g cm slices (always-Delivers k serves samples s usable.2) usable.0 known
        other usable.1

  Holds-HasEntry :
      (P : String → ℕ → Type 0) (m : MeasurementsMap) (names : List (String × String))
      → All (λ n. Holds (P n.0) m n.0) names
      → All (λ n. HasEntry m n.0) names
  Holds-HasEntry P m names h = All-map (λ n r. (_, r.3)) names h

  measurements-Reported :
      (a b t : Machine)
      → Started a b.counter
      → Sampled (delivered k b) cm.names_lut slices t.counter
      → (result : MeasurementsMap × MeasurementsMap) × ((do ms ← measurements; return (ms, [])) t
          ≡ returns result t)
        × Reported k cm slices a b result
  measurements-Reported a b t started sampled =
      let raw = (delivered k b).raw_counter_buffer in
      let m = t.counter.counters in
      let (z, ms, elapsed, e, l) =
        measurements-Labelled t
          (Holds-HasEntry (JmWord raw cm.names_lut) m jm_counter_names sampled.1.0)
          (Holds-HasEntry (MmuSum raw cm.names_lut slices) m mmu_counter_names sampled.1.1) in
      let first =
        ap (λ (c : MaliCounter). c.start_time % 2 ^ 64) sampled.0
        ∙ ap (λ n. n % 2 ^ 64) started.1 in
      let last = ap (λ (c : MaliCounter). c.stop_time % 2 ^ 64) sampled.0 in
      (
        (("Timespan", measure_integer z "ns") ∷ ms, []),
        rw e refl,
        (z, ms, m, Elapsed-ap _ _ _ _ z first last elapsed, refl, l, sampled.1),
      )

  -- The parts of a test in a row.
  session_runs :
      (s a b t : Machine) (result : MeasurementsMap × MeasurementsMap)
      → construct k s ≡ returns tt a
      → start k a ≡ returns tt b
      → stop k b ≡ returns tt t
      → (do ms ← measurements; return (ms, [])) t ≡ returns result t
      → (construct k >> session (mali_instrument k)) s ≡ returns result t
  session_runs s a b t result made begins ends e = rw (made, begins, ends) e

  session-Tested :
      (s a : Machine)
      → Usable cm slices a.counter
      → construct k s ≡ returns tt a
      → Tested k cm slices (construct k >> session (mali_instrument k)) s a
  session-Tested s a usable made =
      let (_, b, begins, started) = returned (start k a) (start-Started a usable) in
      let (_, t, ends, sampled) = returned (stop k b) (stop-Entered b started.0) in
      let (result, e, reported) = measurements-Reported a b t started sampled in
      (b, t, result, begins, ends, session_runs s a b t result made begins ends e, reported)

-- On a device that lets `init` return.
lifetime-Starts :
    (k : Kernel) (id slices : ℕ) (cm : CounterMapping) (words : ℕ) (h : History)
    → Starts k id slices
    → Serves k
    → Samples k
    → SampleSize k (4 * words)
    → find_product id ≡ some cm
    → cm.product_id ≢ t72x.product_id
    → words < 2 ^ 30
    → 64 * (2 + slices) ≤ words
    → Lived k cm slices h
lifetime-Starts k id slices cm words h starts serves samples sized known other few room =
    let s : Machine = record { counter = new_mali_counter; history = h } in
    let (_, a, made, usable) =
      returned (construct k s)
        (construct-Usable k id slices cm words h starts sized known few room) in
    (a, made, session-Tested k serves samples id cm slices known other s a usable made)

-- On a device of a known product other than the T72x with the older interface, which opens, maps and grants
-- every request, reports supported versions and no more core groups than it has masks, and takes and hands
-- out a sample, of a fixed size below 2 ^ 30 words that has the blocks of all slices, whenever it is asked, a
-- new object is constructed and then used for a test without an exception. What is measured is the time from
-- the sample that `start` takes to the one that `stop` takes, if it is in the range of a `long long`, and
-- under the label of each counter what the sample of `stop` has for it: the word of the job manager's block,
-- or the sum over the slices' blocks in 32 bits, at the first name of the table's block that contains the
-- counter's own.
pub mali_lifetime :
    (k : Kernel) (p : BaseGpuProps) (cm : CounterMapping) (words : ℕ) (h : History)
    → Cooperates k p
    → Samples k
    → SampleSize k (4 * words)
    → p.num_core_groups ≤ length p.group_core_mask
    → find_product p.product_id ≡ some cm
    → cm.product_id ≢ t72x.product_id
    → words < 2 ^ 30
    → 64 * (2 + p.num_l2_slices) ≤ words
    → Lived k cm p.num_l2_slices h
mali_lifetime k p cm words h coop samples sized groups known other few room =
    lifetime-Starts k p.product_id p.num_l2_slices cm words h (coop-Starts k p coop groups)
      (coop-Serves k p coop) samples sized known other few room

-- On a device that has only the newer interface, opens, maps, grants its requests with the supported versions
-- and dumps a list of properties in the format, which names a known product other than the T72x and no more
-- core groups than there are masks, and which takes and hands out a sample, of a fixed size below 2 ^ 30 words
-- that has the blocks of all slices, whenever it is asked, a new object is constructed and then used for a
-- test without an exception. What is measured is what is measured on the older interface: the time from the
-- sample of `start` to the one of `stop`, and under the label of each counter the word, or the sum over the
-- slices, that the sample of `stop` has at the first name that contains the counter's own.
pub dumped_lifetime :
    (k : Kernel) (xs : List Property) (q : GpuProps) (cm : CounterMapping) (words : ℕ) (h : History)
    → Dumps k xs
    → Serves k
    → Samples k
    → SampleSize k (4 * words)
    → All IsValid xs
    → store_all xs zero_props ≡ some q
    → q.num_core_groups ≤ length q.core_mask
    → find_product q.product_id ≡ some cm
    → cm.product_id ≢ t72x.product_id
    → words < 2 ^ 30
    → 64 * (2 + q.l2_slices) ≤ words
    → Lived k cm q.l2_slices h
dumped_lifetime k xs q cm words h dumps serves samples sized v e groups known other few room =
    lifetime-Starts k q.product_id q.l2_slices cm words h (dumps-Starts k xs dumps q v e groups)
      serves samples sized known other few room
