-- ===== src/Mali/Counter.antt =====
-- mali_counter.cpp: the constructor and destructor of `MaliCounter`, `start`, `stop` and `measurements`.
pub mod Maps
pub mod Entries
pub mod Values
pub mod Recording
pub mod Stop
pub mod Returns
pub mod Stopped
pub mod Sampled
pub mod Stale
pub mod Measured
pub mod Constructed
pub mod Shadowed
pub mod Prepared
pub mod Usable
pub mod Lifetime
use text.Mathlib.Text.{◌==◌ as str_eq}
use hwcpipe.Common.{
  ℕ, zero, suc, ◌+◌, ◌*◌, ◌-◌, ◌^◌, ◌%◌, String, List, [], ◌∷◌, ◌++◌, Option, none, some,
  if◌then◌else◌,
}
use hwcpipe.Common.Int.{ℤ, pos, negsuc, pos_part, signed64}
use hwcpipe.Common.Outcome.{◌>>=◌, ◌>>◌, return, throw, when, defined}
use hwcpipe.Names.Block.{MaliCounterBlockName, jm, mmu}
use hwcpipe.Names.Lookup.{find_counter_index_by_name, jm_counter_names, mmu_counter_names}
use hwcpipe.Measurement.{Measurement, measure_integer}
pub use hwcpipe.Instrument.{MeasurementsMap}
use hwcpipe.Instrument.{Instrument, base}
use hwcpipe.Mali.Init.{term, init}
use hwcpipe.Mali.Kernel.{Kernel}
use hwcpipe.Mali.Sampling.{sample_counters, wait_next_event, get_counters, counter_at}
use hwcpipe.Mali.State.{MaliCounter, new_mali_counter, Machine, Mali, modify, members}

unfoldable pub lookup : String → MeasurementsMap → Option Measurement
lookup key [] = none
lookup key ((name, m) ∷ rest) = if str_eq name key then some m else lookup key rest

-- `emplace`: a key that is there keeps its value.
unfoldable pub emplace : String → Measurement → MeasurementsMap → MeasurementsMap
emplace key m [] = (key, m) ∷ []
emplace key m ((name, old) ∷ rest) =
    if str_eq name key then (name, old) ∷ rest else (name, old) ∷ emplace key m rest

-- The assignment to an entry that is there.
unfoldable pub assign : String → Measurement → MeasurementsMap → MeasurementsMap
assign key m [] = []
assign key m ((name, old) ∷ rest) =
    if str_eq name key then (name, m) ∷ rest else (name, old) ∷ assign key m rest

-- `_counters.at(key)`.
abbrev at : String → MeasurementsMap → Mali Measurement
at key counters = elim (lookup key counters) [ none ↦ throw "map::at" | some m ↦ return m ]

unfoldable pub emplace_all : List (String × String) → MeasurementsMap → MeasurementsMap
emplace_all [] counters = counters
emplace_all ((name, unit) ∷ names) counters =
    emplace_all names (emplace name (measure_integer (pos 0) unit) counters)

-- `_counters.at(name) = Measurement(value, _counters.at(name).unit())`.
unfoldable pub record_value : String → ℕ → Mali (Unit {0})
record_value name value = do
  c ← members
  old ← at name c.counters
  modify
      (λ c. record c { counters = assign name (measure_integer (pos value) old.unit) c.counters })

-- `counters[find_counter_index_by_name(block, name)]`.
unfoldable pub read_counter : MaliCounterBlockName → String → ℕ → Mali ℕ
read_counter block name offset = do
  c ← members
  names_lut ← defined c.names_lut
  i ← defined (find_counter_index_by_name names_lut block name)
  defined (counter_at c.raw_counter_buffer offset i)

unfoldable pub record_jm : ℕ → List (String × String) → Mali (Unit {0})
record_jm offset [] = return tt
record_jm offset ((name, unit) ∷ names) = do
  value ← read_counter jm name offset
  record_value name value
  record_jm offset names

-- The pointers to the `left` slices from `i` on.
unfoldable pub slice_pointers : ℕ → ℕ → Mali (List ℕ)
slice_pointers zero i = return []
slice_pointers (suc left) i = do
  c ← members
  offset ← get_counters c mmu (pos i)
  offsets ← slice_pointers left (i + 1)
  return (offset ∷ offsets)

-- `mmu_counter_value += counters[i]` over the slices, in 32 bits.
unfoldable pub sum_slices : String → List ℕ → ℕ → Mali ℕ
sum_slices name [] acc = return acc
sum_slices name (offset ∷ offsets) acc = do
  value ← read_counter mmu name offset
  sum_slices name offsets ((acc + value) % 2 ^ 32)

unfoldable pub record_mmu : List ℕ → List (String × String) → Mali (Unit {0})
record_mmu offsets [] = return tt
record_mmu offsets ((name, unit) ∷ names) = do
  value ← sum_slices name offsets 0
  record_value name value
  record_mmu offsets names

-- The part of `stop` between the sample and the time.
unfoldable pub record_sample : Mali (Unit {0})
record_sample = do
  c ← members
  offset ← get_counters c jm (negsuc 0)
  record_jm offset jm_counter_names
  offsets ← slice_pointers (pos_part c.num_l2_slices) 0
  record_mmu offsets mmu_counter_names

module _ (k : Kernel) where
  unfoldable pub construct : Mali (Unit {0})
  construct = do
    modify (λ c. record c {
      counters = emplace_all mmu_counter_names (emplace_all jm_counter_names c.counters);
    })
    init k

  unfoldable pub destroy : Mali (Unit {0})
  destroy = term

  unfoldable pub start : Mali (Unit {0})
  start = do
    sample_counters k
    wait_next_event k
    modify (λ c. record c { start_time = c.timestamp })

  unfoldable pub stop : Mali (Unit {0})
  stop = do
    sample_counters k
    wait_next_event k
    record_sample
    modify (λ c. record c { stop_time = c.timestamp })

-- What `measurements` calls each counter, in the order of the code.
abbrev pub measured_names : List (String × String)
measured_names =
    ("GPU cycles", "GPU_ACTIVE")
    ∷ ("Fragment jobs", "JS0_JOBS")
    ∷ ("Vertex/compute jobs", "JS1_JOBS")
    ∷ ("L2 cache read lookups", "L2_READ_LOOKUP")
    ∷ ("L2 cache external reads", "L2_EXT_READ")
    ∷ ("L2 cache external read stalls", "L2_EXT_AR_STALL")
    ∷ ("L2 cache write lookups", "L2_WRITE_LOOKUP")
    ∷ ("L2 cache external writes", "L2_EXT_WRITE")
    ∷ ("L2 cache external write stalls", "L2_EXT_W_STALL")
    ∷ ("L2 cache external read beats", "L2_EXT_READ_BEATS")
    ∷ ("L2 cache external write beats", "L2_EXT_WRITE_BEATS")
    ∷ []

unfoldable pub measured : List (String × String) → MeasurementsMap → Mali MeasurementsMap
unfolding lookup
measured [] counters = return []
measured ((label, name) ∷ names) counters = do
  m ← at name counters
  rest ← measured names counters
  return ((label, m) ∷ rest)

-- The difference of two times is one of 64 bits, read as signed.
abbrev pub timespan : MaliCounter → ℤ
timespan c = signed64 (c.stop_time % 2 ^ 64 + 2 ^ 64 - c.start_time % 2 ^ 64)

unfoldable pub measurements : Mali MeasurementsMap
measurements = do
  c ← members
  rest ← measured measured_names c.counters
  return (("Timespan", measure_integer (timespan c) "ns") ∷ rest)

-- The class as an instrument; the other operations are those of the base.
abbrev pub mali_instrument : Kernel → Instrument Machine
mali_instrument k = record (base "Mali Counter") {
  start = start k;
  stop = stop k;
  measurements = measurements;
}
