-- ===== src/Pmu.antt =====
-- pmu.h, pmu.cpp: a counter of the CPU, behind a descriptor of the kernel's perf events. What the code logs
-- is left out.
pub mod Lifecycle
pub mod Counter
pub mod Config
use hwcpipe.Common.{ℕ, Bool, String, List, ◌∷◌, not, if◌then◌else◌}
use hwcpipe.Common.Int.{ℤ, pos, negsuc, eq_ℤ}
use hwcpipe.Common.Outcome.{Outcome, returns, throws, M, ◌>>=◌, ◌>>◌, return, throw, when}

-- The members of `perf_event_attr` that the code sets.
pub record PerfEventAttr : Type 0 where
  pub type : ℕ
  pub size : ℕ
  pub config : ℕ
  pub disabled : ℕ
  pub inherit : ℕ
  pub inherit_stat : ℕ

pub data PerfRequest : Type 0 where
  enable reset : PerfRequest

-- A call that has been made; of an opening, also its result.
pub data PerfEvent : Type 0 where
  perf_opened : ℤ → PerfEvent
  perf_requested : ℤ → PerfRequest → PerfEvent
  perf_read : ℤ → PerfEvent
  perf_closed : ℤ → PerfEvent

-- The latest call first.
abbrev pub PerfHistory : Type 0
PerfHistory = List PerfEvent

-- What `read` returns, and what the zeroed `value` holds then.
pub record ReadReply : Type 0 where
  pub result : ℤ
  pub value : ℤ

-- The kernel and the constants of its header, with the size that its structure has. Each answer may depend on all calls before it.
pub record Perf : Type 0 where
  pub open_event : PerfHistory → PerfEventAttr → ℤ
  pub ioctl : PerfHistory → ℤ → PerfRequest → ℤ
  pub read : PerfHistory → ℤ → ReadReply
  pub type_hardware : ℕ
  pub sizeof_perf_event_attr : ℕ
  pub cpu_cycles : ℕ
  pub instructions : ℕ
  pub cache_references : ℕ
  pub cache_misses : ℕ
  pub branch_instructions : ℕ
  pub branch_misses : ℕ

pub record Pmu : Type 0 where
  pub perf_config : PerfEventAttr
  pub fd : ℤ

abbrev pub Calls : Type 0 → Type 0
Calls A = M PerfHistory A

abbrev log : PerfEvent → Calls (Unit {0})
log e h = returns tt (e ∷ h)

-- The kernel's -1.
abbrev pub failed : ℤ → Bool
failed r = eq_ℤ r (negsuc 0)

unfoldable pub close : Pmu → Calls Pmu
close p = do when (not (failed p.fd)) (log (perf_closed p.fd)); return (record p { fd = negsuc 0 })

module _ (k : Perf) where
  -- `PMU()`.
  abbrev pub new_pmu : Pmu
  new_pmu = record {
    perf_config = record {
      type = k.type_hardware;
      size = k.sizeof_perf_event_attr;
      config = 0;
      disabled = 1;
      inherit = 1;
      inherit_stat = 1;
    };
    fd = negsuc 0;
  }

  abbrev pub request : ℤ → PerfRequest → Calls ℤ
  request fd r h = returns (k.ioctl h fd r) (perf_requested fd r ∷ h)

  -- `open` with a configuration: the counter is enabled whether the opening succeeded or not.
  unfoldable pub open_attr : PerfEventAttr → Pmu → Calls Pmu
  open_attr attr p h =
      let fd = k.open_event h attr in
      (do r ← request fd enable; return (record p { fd = fd })) (perf_opened fd ∷ h)

  -- `open` with an identifier, which stays in the configuration.
  unfoldable pub open_config : ℕ → Pmu → Calls Pmu
  unfolding open_attr
  open_config config p =
      let attr : PerfEventAttr = record p.perf_config { config = config } in
      open_attr attr (record p { perf_config = attr })

  -- `PMU(config)`.
  unfoldable pub construct : ℕ → Calls Pmu
  unfolding open_config
  construct config = open_config config new_pmu

  unfoldable pub reset_counter : ℤ → Calls Bool
  reset_counter fd = do r ← request fd reset; return (not (failed r))

  -- The number of the error, which the text ends with, is left out.
  unfoldable pub get_value : ℤ → Calls ℤ
  get_value fd h =
      let reply = k.read h fd in
      (if failed reply.result then throw "Can't get PMU counter value: " else return reply.value)
        (perf_read fd ∷ h)
