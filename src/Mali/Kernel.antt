-- ===== src/Mali/Kernel.antt =====
-- The system calls of mali_counter.cpp. The kernel is a parameter: what it answers to a call may depend
-- on all the calls before it. hwc.hpp defines the requests and their parameters.
use hwcpipe.Common.{ℕ, Bool, ltb, List, if◌then◌else◌}
use hwcpipe.Common.Int.{ℤ, pos, negsuc, is_nonzero}

-- `kbase_hwcnt_reader_metadata`.
pub record Metadata : Type 0 where
  pub timestamp : ℕ
  pub event_id : ℕ
  pub buffer_idx : ℕ

-- What `mali_counter.cpp` reads of `mali_base_gpu_props`: members of `core_props`, `l2_props` and
-- `coherency_info`.
pub record BaseGpuProps : Type 0 where
  pub product_id : ℕ
  pub major_revision : ℕ
  pub minor_revision : ℕ
  pub num_l2_slices : ℕ
  pub num_core_groups : ℕ
  pub group_core_mask : List ℕ

-- The requests, with what goes into the kernel. Those whose name begins with `uk` go through
-- `mali_ioctl`, and have a header.
pub data Request : Type 0 where
  uk_check_version : ℕ → ℕ → Request
  check_version : ℕ → ℕ → Request
  uk_set_flags : ℕ → Request
  set_flags : ℕ → Request
  uk_gpu_props : Request
  get_gpuprops : ℕ → Request
  uk_reader_setup : ℕ → ℕ → ℕ → ℕ → ℕ → Request
  reader_setup : ℕ → ℕ → ℕ → ℕ → ℕ → Request
  get_api_version : ℕ → Request
  get_buffer_size get_hwver dump get_buffer : Request
  put_buffer : Metadata → Request

-- What comes out of the kernel in the argument of a request: the major version, the properties, the
-- bytes written to the buffer, a descriptor, a number, or the description of a sample.
abbrev pub Out : Request → Type 0
Out (uk_check_version major minor) = ℕ
Out (check_version major minor) = Unit
Out (uk_set_flags flags) = Unit
Out (set_flags flags) = Unit
Out uk_gpu_props = BaseGpuProps
Out (get_gpuprops size) = List ℕ
Out (uk_reader_setup n jm shader tiler mmu) = ℤ
Out (reader_setup n jm shader tiler mmu) = Unit
Out (get_api_version version) = ℕ
Out get_buffer_size = ℕ
Out get_hwver = ℕ
Out dump = Unit
Out get_buffer = Metadata
Out (put_buffer meta) = Unit

-- What `ioctl` returns, what the kernel leaves in the header's `ret`, and what it writes.
pub record Reply (r : Request) : Type 0 where
  pub ret : ℤ
  pub header_ret : ℕ
  pub out : Out r

pub record PollReply : Type 0 where
  pub count : ℤ
  pub pollin : Bool
  pub pollhup : Bool

-- A call that has been made; of the opening of the device, also its result.
pub data Event : Type 0 where
  opened : ℤ → Event
  requested : ℤ → Request → Event
  mapped : ℕ → ℤ → Event
  unmapped : ℕ → Event
  polled : ℤ → Event
  closed : ℤ → Event

-- The latest call first.
abbrev pub History : Type 0
History = List Event

-- `sample_byte` is the memory that the kernel shares through the mapping; a map call may fail.
pub record Kernel : Type 0 where
  pub open_device : History → ℤ
  pub ioctl : History → ℤ → (r : Request) → Reply r
  pub mmap : History → Bool
  pub poll : History → PollReply
  pub sample_byte : History → ℕ → ℕ

-- `mali_ioctl`: 0 if the call and the function that it calls both succeed.
abbrev pub mali_ioctl : {r : Request} → Reply r → ℤ
mali_ioctl a = if is_nonzero a.ret then negsuc 0 else if ltb 0 a.header_ret then negsuc 0 else pos 0
