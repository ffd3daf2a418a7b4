-- ===== src/Mali/State.antt =====
-- mali_counter.h: the members of `MaliCounter`; and the system calls, made on the object together with
-- the calls made so far.
use hwcpipe.Common.{ℕ, String, List, [], ◌∷◌, Option, none}
use hwcpipe.Common.Int.{ℤ, pos, negsuc}
use hwcpipe.Common.Outcome.{M, returns}
use hwcpipe.Measurement.{Measurement}
use hwcpipe.Mali.Kernel.{
  Event, opened, requested, polled, closed, History, Kernel, Request, Reply, PollReply,
}

-- `_sample_data`: null, MAP_FAILED, or the address of the mapping.
pub data SampleData : Type 0 where
  null_pointer map_failed mapping : SampleData

-- `_num_l2_slices` is a signed number; `_names_lut` is null until `init` has chosen a table.
pub record MaliCounter : Type 0 where
  pub counters : List (String × Measurement)
  pub start_time : ℕ
  pub stop_time : ℕ
  pub num_cores : ℤ
  pub num_l2_slices : ℤ
  pub hw_ver : ℕ
  pub buffer_count : ℕ
  pub buffer_size : ℕ
  pub sample_data : SampleData
  pub timestamp : ℕ
  pub names_lut : Option (List String)
  pub raw_counter_buffer : List ℕ
  pub core_index_remap : List ℕ
  pub fd : ℤ
  pub hwc_fd : ℤ

-- The members' initialisers.
abbrev pub new_mali_counter : MaliCounter
new_mali_counter = record {
  counters = [];
  start_time = 0;
  stop_time = 0;
  num_cores = pos 0;
  num_l2_slices = pos 0;
  hw_ver = 0;
  buffer_count = 16;
  buffer_size = 0;
  sample_data = null_pointer;
  timestamp = 0;
  names_lut = none;
  raw_counter_buffer = [];
  core_index_remap = [];
  fd = negsuc 0;
  hwc_fd = negsuc 0;
}

pub record Machine : Type 0 where
  pub counter : MaliCounter
  pub history : History

abbrev pub Mali : Type 0 → Type 0
Mali A = M Machine A

-- A change of the members.
abbrev pub modify : (MaliCounter → MaliCounter) → Mali (Unit {0})
modify f s = returns tt (record s { counter = f s.counter })

abbrev pub members : Mali MaliCounter
members s = returns s.counter s

abbrev pub log : Event → Mali (Unit {0})
log e s = returns tt (record s { history = e ∷ s.history })

abbrev pub close : ℤ → Mali (Unit {0})
close fd = log (closed fd)

module _ (k : Kernel) where
  abbrev pub open_device : Mali ℤ
  open_device s =
      let fd = k.open_device s.history in returns fd (record s { history = opened fd ∷ s.history })

  abbrev pub ioctl : ℤ → (r : Request) → Mali (Reply r)
  ioctl fd r s =
      returns (k.ioctl s.history fd r) (record s { history = requested fd r ∷ s.history })

  abbrev pub poll : ℤ → Mali PollReply
  poll fd s = returns (k.poll s.history) (record s { history = polled fd ∷ s.history })
