-- ===== src/Tests/Cpu.antt =====
-- The counters of the CPU on a kernel of which one counter cannot be read.
use hwcpipe.Common.{some, inl, inr, arith, ◌+◌, ◌≡◌, refl, [], ◌∷◌, length, ◌⊎◌, if◌then◌else◌}
use hwcpipe.Common.Int.{ℤ, pos, negsuc, eq_ℤ}
use hwcpipe.Common.Outcome.{returns, ◌>>=◌}
use hwcpipe.Common.Text.{codes}
use hwcpipe.Instrument.{session}
use hwcpipe.Pmu.Config.{PerfIds, config_to_str}
use hwcpipe.Pmu.Config.Identifies.{read_config, read_config-config_to_str}
use hwcpipe.Pmu.Counter.Lifetime.{cpu_lifetime}
use hwcpipe.Tests.{floating}
use hwcpipe.Pmu.{PerfEventAttr, Perf, PerfHistory, Pmu, new_pmu, construct, close, open_config}
use hwcpipe.Pmu.Lifecycle.{event_fds, close-construct, open_config_keeps}
use hwcpipe.Pmu.Counter.{
  PmuCounter, CpuMachine, construct_counter, destroy_counter, measurements, pmu_instrument, stop,
}
use hwcpipe.Pmu.Counter.Readings.{pmus, values, readings, resets, stop-readings}

-- The descriptor 12 cannot be read; the others hold 100 more than their number of calls.
abbrev perf : Perf
perf = record {
  open_event = λ h attr. pos (10 + length h);
  ioctl = λ h fd r. pos 0;
  read = λ h fd.
      if eq_ℤ fd (pos 12)
      then record { result = negsuc 0; value = pos 0 }
      else record { result = pos 8; value = pos (100 + length h) };
  type_hardware = 0;
  sizeof_perf_event_attr = 112;
  cpu_cycles = 0;
  instructions = 1;
  cache_references = 2;
  cache_misses = 3;
  branch_instructions = 4;
  branch_misses = 5;
}

abbrev pmu : ℤ → Pmu
pmu fd = record (new_pmu perf) { fd = fd }

abbrev cpu : CpuMachine
cpu = record {
  counter = record {
    pmu_cycles = pmu (pos 10);
    pmu_instructions = pmu (pos 11);
    pmu_cache_references = pmu (pos 12);
    pmu_cache_misses = pmu (pos 13);
    pmu_branch_instructions = pmu (pos 14);
    pmu_branch_misses = pmu (pos 15);
    cycles = pos 7;
    instructions = pos 7;
    cache_references = pos 7;
    cache_misses = pos 7;
    branch_instructions = pos 7;
    branch_misses = pos 7;
  };
  history = [];
}

close-construct_example :
    (q : Pmu) × (u : PerfHistory) × ((construct perf 3 >>= close) [] ≡ returns q u)
    × (event_fds u ≡ [])
    × (close q u ≡ returns q u)
close-construct_example = close-construct perf 3 []

open_config_keeps_example :
    (q : Pmu) × (u : PerfHistory) × (open_config perf 3 (pmu (pos 11)) [] ≡ returns q u)
    × (((q.fd ≡ negsuc 0) × (event_fds u ≡ [])) ⊎ (event_fds u ≡ q.fd ∷ []))
open_config_keeps_example = open_config_keeps perf 3 (pmu (pos 11)) []

stop-readings_example :
    (t : CpuMachine) × (stop perf cpu ≡ returns tt t)
    × (values t.counter ≡ readings perf (pmus cpu.counter) [])
    × (pmus t.counter ≡ pmus cpu.counter)
stop-readings_example = stop-readings perf cpu

-- The value of the third counter is 0.
readings_of_cpu :
    readings perf (pmus cpu.counter) []
    ≡ pos 100 ∷ pos 102 ∷ pos 0 ∷ pos 105 ∷ pos 107 ∷ pos 109 ∷ []
readings_of_cpu = refl

-- The numbers of Linux.
abbrev ids : PerfIds
ids = record {
  type_hardware = 0;
  type_software = 1;
  hw_cpu_cycles = 0;
  hw_instructions = 1;
  hw_cache_references = 2;
  hw_cache_misses = 3;
  hw_branch_instructions = 4;
  hw_branch_misses = 5;
  hw_bus_cycles = 6;
  hw_stalled_cycles_frontend = 7;
  hw_stalled_cycles_backend = 8;
  hw_ref_cpu_cycles = 9;
  sw_cpu_clock = 0;
  sw_task_clock = 1;
  sw_page_faults = 2;
  sw_context_switches = 3;
  sw_cpu_migrations = 4;
  sw_page_faults_min = 5;
  sw_page_faults_maj = 6;
  sw_alignment_faults = 7;
  sw_emulation_faults = 8;
  sw_dummy = 9;
}

-- A software counter.
abbrev task_clock : PerfEventAttr
task_clock = record (new_pmu perf).perf_config { type = 1; config = 1 }

read_config-config_to_str_example : read_config ids (config_to_str ids task_clock) ≡ some (1, 1)
read_config-config_to_str_example =
    read_config-config_to_str ids task_clock (λ e. absurd (omega (arith, e)))
      (inr (refl, inr (inl refl)))

task_clock_text : config_to_str ids task_clock ≡ codes "PERF_COUNT_SW_TASK_CLOCK"
unfolding config_to_str
task_clock_text = refl

cpu_lifetime_example :
    (c : PmuCounter) × (u : PerfHistory) × (t : CpuMachine) × (v : PerfHistory) × (construct_counter
        perf []
      ≡ returns c u)
    × (session (pmu_instrument perf floating) (record { counter = c; history = u })
        ≡ returns (measurements floating t.counter, []) t)
    × (destroy_counter t.counter t.history ≡ returns tt v)
    × (values t.counter ≡ readings perf (pmus c) (resets (pmus c) u))
    × (event_fds v ≡ [])
cpu_lifetime_example = cpu_lifetime perf floating []
