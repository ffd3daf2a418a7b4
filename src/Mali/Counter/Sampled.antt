-- ===== src/Mali/Counter/Sampled.antt =====
-- What `stop` leaves, said of the words of the sample and of the table of names, without the code's own search.
use hwcpipe.Common.{
  true, ℕ, zero, suc, ◌+◌, ◌*◌, ◌%◌, ◌^◌, ◌≤◌, ◌<◌, ◌≡◌, ◌≢◌, refl, sym, ap, subst, ◌∙◌, String,
  List, [], ◌∷◌, Option, some, arith, All, length, drop, get_elem?, Option-cases, inl, inr,
  all_of-All, all_of, ◌==◌, ==_iff,
}
use hwcpipe.Common.Int.{ℤ, pos}
use hwcpipe.Common.Outcome.{Post, Post-mono}
use hwcpipe.Common.Options.{◌>>=◌ as bind}
use hwcpipe.Names.Block.{MaliCounterBlockName, block_number, jm, mmu}
use hwcpipe.Names.Products.{CounterMapping, products, find_product, t72x}
use hwcpipe.Names.T60x
use hwcpipe.Names.T62x
use hwcpipe.Names.T72x
use hwcpipe.Names.T76x
use hwcpipe.Names.T82x
use hwcpipe.Names.T83x
use hwcpipe.Names.T86x
use hwcpipe.Names.T88x
use hwcpipe.Names.Tmix
use hwcpipe.Names.Thex
use hwcpipe.Names.Tsix
use hwcpipe.Names.Tnox
use hwcpipe.Names.Products.Found.{find_product-All}
use hwcpipe.Names.Lookup.{find_counter_index_by_name, jm_counter_names, mmu_counter_names}
use hwcpipe.Names.Lookup.First.{Answer, MatchesAt, NoneBelow, find_counter_index_by_name-Answer}
use hwcpipe.Names.Lookup.Gpus.{Exact, jm_counters-Exact}
use hwcpipe.Names.Lookup.Present.{Found, mmu_counters-Found}
use hwcpipe.Measurement.{measure_integer}
use hwcpipe.Mali.Kernel.{Kernel}
use hwcpipe.Mali.State.{MaliCounter, Machine}
use hwcpipe.Mali.Sampling.{counter_at}
use hwcpipe.Mali.Counter.{MeasurementsMap, lookup, stop}
use hwcpipe.Mali.Counter.Values.{counter_value, slices_value}
use hwcpipe.Mali.Counter.Recording.{Recorded}
use hwcpipe.Mali.Counter.Stop.{jm_value, mmu_value, slice_offsets}
use hwcpipe.Mali.Counter.Returns.{both}
use hwcpipe.Mali.Counter.Stopped.{Delivers, CanSample, CanRecord, delivered, stop-Stopped}

-- Of the 64 names of the block, the one at `i` contains `name`, and none before it does.
abbrev pub FirstNamed : List String → MaliCounterBlockName → String → ℕ → Type 0
FirstNamed lut block name i =
    (i < 64)
    × MatchesAt (drop (64 * block_number block) lut) name i
    × NoneBelow (drop (64 * block_number block) lut) name i

Answer-FirstNamed :
    (lut : List String) (block : MaliCounterBlockName) (name : String) (i : ℕ) (r : Option ℤ)
    → Answer (drop (64 * block_number block) lut) 64 0 name r
    → r ≡ some (pos i)
    → FirstNamed lut block name i
Answer-FirstNamed lut block name i r (inl (e, none_below)) f = absurd (cc)
Answer-FirstNamed lut block name i r (inr (k, lt, e, m, none_below)) f =
    let same : k ≡ i = ground arith in subst (FirstNamed lut block name) same (lt, m, none_below)

full_tables : all_of (λ cm. length cm.names_lut == 256) products ≡ true
unfolding T60x.hardware_counters T62x.hardware_counters T72x.hardware_counters
    T76x.hardware_counters T82x.hardware_counters T83x.hardware_counters T86x.hardware_counters
    T88x.hardware_counters Tmix.hardware_counters Thex.hardware_counters Tsix.hardware_counters
    Tnox.hardware_counters
full_tables = refl

length-names_lut :
    (g : ℕ) (cm : CounterMapping) → find_product g ≡ some cm → length cm.names_lut ≡ 256
length-names_lut g cm e =
    find_product-All (λ cm. length cm.names_lut ≡ 256) g cm e
      (all_of-All (λ cm. length cm.names_lut ≡ 256) (λ cm. length cm.names_lut == 256)
        (λ cm h. ground (arith, ==_iff (length cm.names_lut) 256)) products full_tables)

-- The words at index `i` of the blocks of the slices from `j` on.
abbrev pub Column : List ℕ → ℕ → ℕ → List ℕ → Type 0
Column raw i j [] = Unit {0}
Column raw i j (w ∷ ws) = (get_elem? raw (64 * (2 + j) + i) ≡ some w) × Column raw i (j + 1) ws

abbrev pub total : List ℕ → ℕ
total [] = 0
total (w ∷ ws) = w + total ws

-- The word of the first block at the first name that contains `name`.
abbrev pub JmWord : List ℕ → List String → String → ℕ → Type 0
JmWord raw lut name v = (i : ℕ) × FirstNamed lut jm name i × (get_elem? raw i ≡ some v)

-- The sum, in 32 bits, of the words of the slices' blocks at the first name that contains `name`.
abbrev pub MmuSum : List ℕ → List String → ℕ → String → ℕ → Type 0
MmuSum raw lut slices name v =
    (i : ℕ) × FirstNamed lut mmu name i
    × (ws : List ℕ) × (length ws ≡ slices)
    × Column raw i 0 ws
    × (v ≡ total ws % 2 ^ 32)

-- The entry of `name` is an integer with `P`.
abbrev pub Holds : (ℕ → Type 0) → MeasurementsMap → String → Type 0
Holds P m name =
    (v : ℕ) × (unit : String) × P v × (lookup name m ≡ some (measure_integer (pos v) unit))

-- The entries of the map are those of the sample in `c`, on a GPU with the names `lut` and so many slices.
abbrev pub Entered : MaliCounter → List String → ℕ → MeasurementsMap → Type 0
Entered c lut slices m =
    All (λ n. Holds (JmWord c.raw_counter_buffer lut n.0) m n.0) jm_counter_names
    × All (λ n. Holds (MmuSum c.raw_counter_buffer lut slices n.0) m n.0) mmu_counter_names

slices_value-Column :
    (c : MaliCounter) (lut : List String) (name : String) (i left j acc v : ℕ)
    → c.names_lut ≡ some lut
    → find_counter_index_by_name lut mmu name ≡ some (pos i)
    → acc < 2 ^ 32
    → slices_value c name (slice_offsets left j) acc ≡ some v
    → (ws : List ℕ) × (length ws ≡ left)
      × Column c.raw_counter_buffer i j ws
      × (v ≡ (acc + total ws) % 2 ^ 32)
unfolding counter_at
slices_value-Column c lut name i zero j acc v e f small h = ([], refl, tt, ground arith)
slices_value-Column c lut name i (suc left) j acc v e f small h =
    let offset = 64 * (2 + j) in
    let rest = λ (w : ℕ). slices_value c name (slice_offsets left (j + 1)) ((acc + w) % 2 ^ 32) in
    let at : counter_value c mmu name offset ≡ get_elem? c.raw_counter_buffer (offset + i) =
      rw (e, f) refl in
    elim (Option-cases (get_elem? c.raw_counter_buffer (offset + i))) [
      | inl past ↦ let stuck = sym (ap (λ o. bind o rest) (at ∙ past)) ∙ h in absurd (cc)
      | inr (w, here) ↦
          let (ws, count, column, sum) =
            slices_value-Column c lut name i left (j + 1) ((acc + w) % 2 ^ 32) v e f (omega arith)
              (sym (ap (λ o. bind o rest) (at ∙ here)) ∙ h) in
          (w ∷ ws, ap suc count, (here, column), omega arith)
    ]

module _ (g : ℕ) (cm : CounterMapping) (slices : ℕ) (c : MaliCounter) (m : MeasurementsMap)
    (known : find_product g ≡ some cm) (lut : c.names_lut ≡ some cm.names_lut) where
  first :
      (block : MaliCounterBlockName) (name : String) (i : ℕ)
      → 64 * block_number block + 64 ≤ 256
      → find_counter_index_by_name cm.names_lut block name ≡ some (pos i)
      → FirstNamed cm.names_lut block name i
  first block name i h e =
      Answer-FirstNamed cm.names_lut block name i _
        (find_counter_index_by_name-Answer cm.names_lut block name
          (omega (arith, h, length-names_lut g cm known)))
        e

  jm-Holds :
      (name : String)
      → Exact jm cm name
      → Recorded (jm_value c) m name
      → Holds (JmWord c.raw_counter_buffer cm.names_lut name) m name
  unfolding counter_at
  jm-Holds name (i, lt, e, _, _, _) (v, unit, f, entry) =
      let from_start : 0 + i ≡ i = omega arith in
      let at : counter_value c jm name 0 ≡ get_elem? c.raw_counter_buffer i =
        rw (lut, e) (ap (get_elem? c.raw_counter_buffer) from_start) in
      (v, unit, (i, first jm name i (omega arith) e, sym at ∙ f), entry)

  mmu-Holds :
      (name : String)
      → Found cm.names_lut mmu name
      → Recorded (mmu_value c slices) m name
      → Holds (MmuSum c.raw_counter_buffer cm.names_lut slices name) m name
  mmu-Holds name (i, lt, e) (v, unit, f, entry) =
      let (ws, count, column, sum) =
        slices_value-Column c cm.names_lut name i slices 0 0 v lut e (omega arith) f in
      (v, unit, (i, first mmu name i (omega arith) e, ws, count, column, omega (arith, sum)), entry)

  pub Stopped-Entered :
      cm.product_id ≢ t72x.product_id
      → All (λ n. Recorded (jm_value c) m n.0) jm_counter_names
      → All (λ n. Recorded (mmu_value c slices) m n.0) mmu_counter_names
      → Entered c cm.names_lut slices m
  Stopped-Entered other jms mmus = (
    both (Exact jm cm) (Recorded (jm_value c) m)
        (λ name. Holds (JmWord c.raw_counter_buffer cm.names_lut name) m name) jm-Holds
        jm_counter_names (jm_counters-Exact g cm known) jms,
    both (Found cm.names_lut mmu) (Recorded (mmu_value c slices) m)
        (λ name. Holds (MmuSum c.raw_counter_buffer cm.names_lut slices name) m name) mmu-Holds
        mmu_counter_names (mmu_counters-Found g cm known other) mmus,
  )

-- The members are those of `c` but for the stop time, which is the sample's, and for the map.
abbrev pub Sampled : MaliCounter → List String → ℕ → MaliCounter → Type 0
Sampled c lut slices d =
    (d ≡ record c { counters = d.counters; stop_time = c.timestamp })
    × Entered c lut slices d.counters

-- On a known GPU other than the T72x, with a device that delivers its sample, on an object with a mapping, a
-- buffer of the size of a sample that has the blocks of all slices at offsets that fit in an `int`, and a map
-- that has all entries, `stop` returns. Each counter of the job manager then holds the word of the sample's
-- first block at the first name of the table's block that contains its own, each counter of the memory
-- system the sum, in 32 bits, of the words of the blocks 2, 3, … of all slices at the first name that contains
-- its own, the stop time is that of the sample, and no other member has changed but the counter buffer and
-- the time, which are the sample's.
pub stop-Sampled :
    (k : Kernel) (s : Machine) (g : ℕ) (cm : CounterMapping) (slices : ℕ)
    → Delivers k s
    → CanSample s.counter
    → find_product g ≡ some cm
    → cm.product_id ≢ t72x.product_id
    → CanRecord cm slices s.counter
    → Post (λ _ t. Sampled (delivered k s) cm.names_lut slices t.counter) (λ _ _. ⊥) ⊥ (stop k s)
stop-Sampled k s g cm slices d c known other r =
    Post-mono (stop k s)
      (λ _ t h. (
        h.0,
        Stopped-Entered g cm slices (delivered k s) t.counter.counters known r.names other h.1 h.2,
      ))
      (λ _ _ h. h) (λ h. h) (stop-Stopped k s g cm slices d c known other r)
