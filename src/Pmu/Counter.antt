-- ===== src/Pmu/Counter.antt =====
-- pmu_counter.h, pmu_counter.cpp: the instrument with six counters of the CPU.
pub mod Readings
pub mod Lifetime
use hwcpipe.Common.{ℕ, Bool, String, List, [], ◌∷◌}
use hwcpipe.Common.Int.{ℤ, pos}
use hwcpipe.Common.Outcome.{Outcome, returns, throws, faults, M, ◌>>=◌, ◌>>◌, return}
use hwcpipe.Measurement.{Measurement, measure_integer, measure_floating}
use hwcpipe.Measurement.Values.{Floating}
use hwcpipe.Instrument.{Instrument, MeasurementsMap, base}
use hwcpipe.Pmu.{Perf, PerfHistory, Pmu, Calls, construct, close, reset_counter, get_value}

pub record PmuCounter : Type 0 where
  pub pmu_cycles : Pmu
  pub pmu_instructions : Pmu
  pub pmu_cache_references : Pmu
  pub pmu_cache_misses : Pmu
  pub pmu_branch_instructions : Pmu
  pub pmu_branch_misses : Pmu
  pub cycles : ℤ
  pub instructions : ℤ
  pub cache_references : ℤ
  pub cache_misses : ℤ
  pub branch_instructions : ℤ
  pub branch_misses : ℤ

-- The object, and the calls made so far.
pub record CpuMachine : Type 0 where
  pub counter : PmuCounter
  pub history : PerfHistory

abbrev with_calls : {A : Type 0} → PmuCounter → Outcome PerfHistory A → Outcome CpuMachine A
with_calls c (returns a h) = returns a (record { counter = c; history = h })
with_calls c (throws e h) = throws e (record { counter = c; history = h })
with_calls c faults = faults

-- The calls of one counter, made on the object.
abbrev calls : {A : Type 0} → Calls A → M CpuMachine A
calls m s = with_calls s.counter (m s.history)

abbrev members : M CpuMachine PmuCounter
members s = returns s.counter s

abbrev modify : (PmuCounter → PmuCounter) → M CpuMachine (Unit {0})
modify f s = returns tt (record s { counter = f s.counter })

-- A `catch` of the error that `get_value` throws: 0 in place of the value.
abbrev or_zero : Outcome PerfHistory ℤ → Outcome PerfHistory ℤ
or_zero (returns v h) = returns v h
or_zero (throws e h) = returns (pos 0) h
or_zero faults = faults

module _ (k : Perf) where
  -- One `try` block of `stop`.
  unfoldable pub read_or_zero : ℤ → Calls ℤ
  unfolding get_value reset_counter
  read_or_zero fd h = or_zero ((do value ← get_value k fd; r ← reset_counter k fd; return value) h)

  -- The members' initialisers, in the order of their declarations.
  unfoldable pub construct_counter : Calls PmuCounter
  construct_counter = do
    cycles ← construct k k.cpu_cycles
    instructions ← construct k k.instructions
    references ← construct k k.cache_references
    misses ← construct k k.cache_misses
    branches ← construct k k.branch_instructions
    branch_misses ← construct k k.branch_misses
    return (record {
      pmu_cycles = cycles;
      pmu_instructions = instructions;
      pmu_cache_references = references;
      pmu_cache_misses = misses;
      pmu_branch_instructions = branches;
      pmu_branch_misses = branch_misses;
      cycles = pos 0;
      instructions = pos 0;
      cache_references = pos 0;
      cache_misses = pos 0;
      branch_instructions = pos 0;
      branch_misses = pos 0;
    })

  unfoldable pub start : M CpuMachine (Unit {0})
  unfolding reset_counter
  start = do
    c ← members
    a ← calls (reset_counter k c.pmu_cycles.fd)
    b ← calls (reset_counter k c.pmu_instructions.fd)
    d ← calls (reset_counter k c.pmu_cache_references.fd)
    e ← calls (reset_counter k c.pmu_cache_misses.fd)
    f ← calls (reset_counter k c.pmu_branch_instructions.fd)
    g ← calls (reset_counter k c.pmu_branch_misses.fd)
    return tt

  unfoldable pub stop : M CpuMachine (Unit {0})
  stop = do
    c ← members
    cycles ← calls (read_or_zero c.pmu_cycles.fd)
    modify (λ c. record c { cycles = cycles })
    instructions ← calls (read_or_zero c.pmu_instructions.fd)
    modify (λ c. record c { instructions = instructions })
    references ← calls (read_or_zero c.pmu_cache_references.fd)
    modify (λ c. record c { cache_references = references })
    misses ← calls (read_or_zero c.pmu_cache_misses.fd)
    modify (λ c. record c { cache_misses = misses })
    branches ← calls (read_or_zero c.pmu_branch_instructions.fd)
    modify (λ c. record c { branch_instructions = branches })
    branch_misses ← calls (read_or_zero c.pmu_branch_misses.fd)
    modify (λ c. record c { branch_misses = branch_misses })

module _ (fl : Floating) where
  open fl use {of_integer, div}

  unfoldable pub measurements : PmuCounter → MeasurementsMap
  unfolding measure_floating
  measurements c =
      ("CPU cycles", measure_integer c.cycles "cycles")
      ∷ ("CPU instructions", measure_integer c.instructions "instructions")
      ∷ (
        "Cache miss ratio",
        measure_floating fl (div (of_integer c.cache_misses) (of_integer c.cache_references)) "",
      )
      ∷ (
        "Branch miss ratio",
        measure_floating fl (div (of_integer c.branch_misses) (of_integer c.branch_instructions))
            "",
      )
      ∷ []

-- The members are destroyed in the reverse order.
unfoldable pub destroy_counter : PmuCounter → Calls (Unit {0})
destroy_counter c = do
  a ← close c.pmu_branch_misses
  b ← close c.pmu_branch_instructions
  d ← close c.pmu_cache_misses
  e ← close c.pmu_cache_references
  f ← close c.pmu_instructions
  g ← close c.pmu_cycles
  return tt

-- The class as an instrument; the other operations are those of the base.
abbrev pub pmu_instrument : Perf → Floating → Instrument CpuMachine
pmu_instrument k fl = record (base "PMU Counter") {
  start = start k;
  stop = stop k;
  measurements = λ s. returns (measurements fl s.counter) s;
}
