-- ===== src/Pmu/Config.antt =====
-- pmu.cpp, `PMU::config_to_str`: the text for a configuration, which is logged when the kernel opens no counter
-- for it. The identifiers are constants of the kernel's header.
pub mod Identifies
use hwcpipe.Common.{
  arith, ℕ, ◌≡◌, ◌≢◌, ◌⊎◌, inl, inr, refl, sym, ap, subst, ◌∙◌, Bool, true, false, not, ◌&&◌,
  String, List, [], ◌∷◌, Option, none, some, All, all_of, all_of-All, list_eq, ◌==◌, ==_iff,
  if◌then◌else◌, Bool-cases,
}
use hwcpipe.Common.Text.{codes}
use hwcpipe.Measurement.Decimal.{show_nat}
use hwcpipe.Pmu.{PerfEventAttr}

pub record PerfIds : Type 0 where
  pub type_hardware : ℕ
  pub type_software : ℕ
  pub hw_cpu_cycles : ℕ
  pub hw_instructions : ℕ
  pub hw_cache_references : ℕ
  pub hw_cache_misses : ℕ
  pub hw_branch_instructions : ℕ
  pub hw_branch_misses : ℕ
  pub hw_bus_cycles : ℕ
  pub hw_stalled_cycles_frontend : ℕ
  pub hw_stalled_cycles_backend : ℕ
  pub hw_ref_cpu_cycles : ℕ
  pub sw_cpu_clock : ℕ
  pub sw_task_clock : ℕ
  pub sw_page_faults : ℕ
  pub sw_context_switches : ℕ
  pub sw_cpu_migrations : ℕ
  pub sw_page_faults_min : ℕ
  pub sw_page_faults_maj : ℕ
  pub sw_alignment_faults : ℕ
  pub sw_emulation_faults : ℕ
  pub sw_dummy : ℕ

-- A `case` of a `switch`: a value, and the text that it returns.
abbrev pub Cases : Type 0
Cases = List (ℕ × String)

module _ (ids : PerfIds) where
  abbrev pub hardware_cases : Cases
  hardware_cases =
      (ids.hw_cpu_cycles, "PERF_COUNT_HW_CPU_CYCLES")
      ∷ (ids.hw_instructions, "PERF_COUNT_HW_INSTRUCTIONS")
      ∷ (ids.hw_cache_references, "PERF_COUNT_HW_CACHE_REFERENCES")
      ∷ (ids.hw_cache_misses, "PERF_COUNT_HW_CACHE_MISSES")
      ∷ (ids.hw_branch_instructions, "PERF_COUNT_HW_BRANCH_INSTRUCTIONS")
      ∷ (ids.hw_branch_misses, "PERF_COUNT_HW_BRANCH_MISSES")
      ∷ (ids.hw_bus_cycles, "PERF_COUNT_HW_BUS_CYCLES")
      ∷ (ids.hw_stalled_cycles_frontend, "PERF_COUNT_HW_STALLED_CYCLES_FRONTEND")
      ∷ (ids.hw_stalled_cycles_backend, "PERF_COUNT_HW_STALLED_CYCLES_BACKEND")
      ∷ (ids.hw_ref_cpu_cycles, "PERF_COUNT_HW_REF_CPU_CYCLES")
      ∷ []

  abbrev pub software_cases : Cases
  software_cases =
      (ids.sw_cpu_clock, "PERF_COUNT_SW_CPU_CLOCK")
      ∷ (ids.sw_task_clock, "PERF_COUNT_SW_TASK_CLOCK")
      ∷ (ids.sw_page_faults, "PERF_COUNT_SW_PAGE_FAULTS")
      ∷ (ids.sw_context_switches, "PERF_COUNT_SW_CONTEXT_SWITCHES")
      ∷ (ids.sw_cpu_migrations, "PERF_COUNT_SW_CPU_MIGRATIONS")
      ∷ (ids.sw_page_faults_min, "PERF_COUNT_SW_PAGE_FAULTS_MIN")
      ∷ (ids.sw_page_faults_maj, "PERF_COUNT_SW_PAGE_FAULTS_MAJ")
      ∷ (ids.sw_alignment_faults, "PERF_COUNT_SW_ALIGNMENT_FAULTS")
      ∷ (ids.sw_emulation_faults, "PERF_COUNT_SW_EMULATION_FAULTS")
      ∷ (ids.sw_dummy, "PERF_COUNT_SW_DUMMY")
      ∷ []

-- A `switch` over such cases, with its default.
unfoldable pub switch : Cases → ℕ → String → String
switch [] config default = default
switch ((id, name) ∷ cases) config default =
    if id == config then name else switch cases config default

-- Of a type that is neither, the number is written.
unfoldable pub config_to_str : PerfIds → PerfEventAttr → List ℕ
unfolding switch
config_to_str ids a =
    if a.type == ids.type_hardware
    then codes (switch (hardware_cases ids) a.config "UNKNOWN HARDWARE COUNTER")
    else if a.type == ids.type_software
    then codes (switch (software_cases ids) a.config "UNKNOWN SOFTWARE COUNTER")
    else show_nat a.config
