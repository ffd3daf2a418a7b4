-- ===== src/Tests.antt =====
-- Devices and objects that the tests use.
pub mod Names
pub mod Measurements
pub mod Mali
pub mod Counters
pub mod Samples
pub mod Cpu
pub mod Stats
pub mod Layout
pub mod Dumped
use hwcpipe.Common.{
  ℕ, ◌+◌, ◌*◌, ◌%◌, List, [], ◌∷◌, some, replicate, length, true, false, refl, arith, String,
}
use hwcpipe.Common.Int.{ℤ, pos, negsuc}
use hwcpipe.Measurement.Values.{Floating}
use hwcpipe.Measurement.Decimal.{show_integer}
use hwcpipe.Names.Products.{t60x, tmix}
use hwcpipe.Names.Lookup.{jm_counter_names, mmu_counter_names}
use hwcpipe.Mali.Kernel.{
  Kernel, Request, Out, Reply, BaseGpuProps, Metadata, PollReply, History, uk_check_version,
  check_version, uk_set_flags, set_flags, uk_gpu_props, get_gpuprops, uk_reader_setup, reader_setup,
  get_api_version, get_buffer_size, get_hwver, dump, get_buffer, put_buffer,
}
use hwcpipe.Mali.State.{MaliCounter, new_mali_counter, Machine, mapping}
use hwcpipe.Mali.Counter.{MeasurementsMap, emplace_all}

-- A TMIx with the cores 0, 1 and 3 and two slices.
abbrev pub gpu : BaseGpuProps
gpu = record {
  product_id = 0x6000;
  major_revision = 0;
  minor_revision = 1;
  num_l2_slices = 2;
  num_core_groups = 1;
  group_core_mask = 11 ∷ replicate 15 0;
}

-- What the device writes.
abbrev pub written : (r : Request) → Out r
written (uk_check_version major minor) = 10
written (check_version major minor) = tt
written (uk_set_flags flags) = tt
written (set_flags flags) = tt
written uk_gpu_props = gpu
written (get_gpuprops size) = []
written (uk_reader_setup n jm shader tiler mmu) = pos 4
written (reader_setup n jm shader tiler mmu) = tt
written (get_api_version version) = 1
written get_buffer_size = 2048
written get_hwver = 5
written dump = tt
written get_buffer = record { timestamp = 1000; event_id = 0; buffer_idx = 3 }
written (put_buffer meta) = tt

-- A device that grants every request, and whose samples hold the byte 1 everywhere.
abbrev pub device : Kernel
device = record {
  open_device = λ h. pos 3;
  ioctl = λ h fd r. record { ret = pos 0; header_ret = 0; out = written r };
  mmap = λ h. true;
  poll = λ h. record { count = pos 1; pollin = true; pollhup = false };
  sample_byte = λ h i. 1;
}

-- A device whose `poll` reports an error of the descriptor.
abbrev pub quiet_device : Kernel
quiet_device = record device {
  poll = λ h. record { count = pos 1; pollin = false; pollhup = false };
}

-- A counter on that device, as `init` leaves it.
abbrev pub counter : MaliCounter
counter = record new_mali_counter {
  num_cores = pos 3;
  num_l2_slices = pos 2;
  hw_ver = 5;
  buffer_size = 2048;
  sample_data = mapping;
  names_lut = some tmix.names_lut;
  raw_counter_buffer = replicate 512 7;
  core_index_remap = 0 ∷ 1 ∷ 3 ∷ [];
  fd = pos 3;
  hwc_fd = pos 4;
}

abbrev pub machine : Machine
machine = record { counter = counter; history = [] }

abbrev pub new_machine : Machine
new_machine = record { counter = new_mali_counter; history = [] }

-- A counter on a T60x of one slice, with the entries that the constructor makes.
abbrev pub old_machine : Machine
old_machine = record {
  counter = record counter {
    counters = emplace_all mmu_counter_names (emplace_all jm_counter_names []);
    num_l2_slices = pos 1;
    names_lut = some t60x.names_lut;
  };
  history = [];
}

-- The counter on the TMIx with the entries that the constructor makes.
abbrev pub full_machine : Machine
full_machine = record {
  counter = record counter { counters = old_machine.counter.counters };
  history = [];
}

-- Integers in place of floating point numbers.
abbrev pub floating : Floating
floating = record {
  Double = ℤ;
  bits = λ d. d;
  of_bits = λ n. n;
  add = λ a b. a;
  sub = λ a b. a;
  mul = λ a b. a;
  div = λ a b. a;
  less = λ a b. false;
  of_integer = λ n. n;
  sqrt = λ d. d;
  show_fixed4 = λ d. [];
  of_bits-bits = λ d. refl;
  bits-zero = refl;
}
