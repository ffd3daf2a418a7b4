-- ===== src/Mali/Init.antt =====
-- mali_counter.cpp, `MaliCounter::term` and `MaliCounter::init`.
pub mod Term
pub mod Ready
pub mod Starts
pub mod Newer
pub mod Succeeds
use hwcpipe.Common.{
  ◌%◌, ℕ, ◌*◌, ◌/◌, ◌-◌, ◌^◌, Bool, true, false, ◌∷◌, Option, none, some, [], ltb, ◌==◌, not,
  if◌then◌else◌,
}
use hwcpipe.Common.Int.{ℤ, negsuc, is_neg, is_nonzero, signed32}
use hwcpipe.Common.Outcome.{◌>>=◌, ◌>>◌, throw, when, defined, returns}
use hwcpipe.Names.Products.{CounterMapping, find_product}
use hwcpipe.Mali.Cores.{core_index_remap}
use hwcpipe.Mali.HwInfo.{MaliHwInfo, get_mali_hw_info, filled}
use hwcpipe.Mali.Kernel.{
  Kernel, uk_check_version, check_version, uk_set_flags, set_flags, uk_reader_setup, reader_setup,
  get_api_version, get_buffer_size, get_hwver, mapped, unmapped, mali_ioctl,
}
use hwcpipe.Mali.State.{
  SampleData, null_pointer, map_failed, mapping, Mali, modify, members, log, close, open_device,
  ioctl,
}

abbrev pub is_mapped : SampleData → Bool
is_mapped null_pointer = false
is_mapped map_failed = true
is_mapped mapping = true

-- The mapping, then the reader, then the device, each only if it is held.
unfoldable pub term : Mali (Unit {0})
term = do
  c ← members
  when (is_mapped c.sample_data) (do
    log (unmapped (c.buffer_count * c.buffer_size))
    modify (λ c. record c { sample_data = null_pointer }))
  when (not (is_neg c.hwc_fd)) (do close c.hwc_fd; modify (λ c. record c { hwc_fd = negsuc 0 }))
  when (not (is_neg c.fd)) (do close c.fd; modify (λ c. record c { fd = negsuc 0 }))

-- `-1` as a mask of 32 bits, and the complement of HWCNT_READER_API.
abbrev all_counters : ℕ
all_counters = 2 ^ 32 - 1

abbrev hwcnt_reader_api : ℕ
hwcnt_reader_api = 1

module _ (k : Kernel) where
  unfoldable pub init_device : MaliHwInfo → Mali (Unit {0})
  init_device hw_info = do
    modify (λ c. record c {
      num_cores = signed32 hw_info.mp_count;
      num_l2_slices = signed32 hw_info.l2_slices;
    })
    fd ← open_device k
    modify (λ c. record c { fd = fd })
    when (is_neg fd) (throw "Failed to open /dev/mali0.")

  unfoldable pub init_abi : Mali (Unit {0})
  init_abi = do
    c ← members
    a ← ioctl k c.fd (uk_check_version 0 0)
    if is_nonzero (mali_ioctl a)
        then (do
          b ← ioctl k c.fd (check_version 0 0)
          when (is_neg b.ret) (throw "Failed to get ABI version."))
        else when (ltb (a.out % 2 ^ 16) 10) (throw "Unsupported ABI version 10.")

  unfoldable pub init_flags : Mali (Unit {0})
  init_flags = do
    c ← members
    a ← ioctl k c.fd (uk_set_flags 2)
    when (is_nonzero (mali_ioctl a)) (do
      b ← ioctl k c.fd (set_flags 2)
      when (is_neg b.ret) (throw "Failed settings flags ioctl."))

  unfoldable pub init_reader : Mali (Unit {0})
  init_reader = do
    c ← members
    a ←
        ioctl k c.fd
          (uk_reader_setup c.buffer_count all_counters all_counters all_counters all_counters)
    if is_nonzero (mali_ioctl a)
        then (do
          b ←
              ioctl k c.fd
                (reader_setup c.buffer_count all_counters all_counters all_counters all_counters)
          when (is_neg b.ret) (throw "Failed setting hwcnt reader ioctl.")
          modify (λ c. record c { hwc_fd = b.ret }))
        else modify (λ c. record c { hwc_fd = a.out })

  unfoldable pub init_api : Mali (Unit {0})
  init_api = do
    c ← members
    a ← ioctl k c.hwc_fd (get_api_version (2 ^ 32 - 1 - hwcnt_reader_api))
    when (is_nonzero a.ret) (throw "Could not determine hwcnt reader API.")
    when (not (a.out % 2 ^ 32 == hwcnt_reader_api)) (throw "Invalid API version.")

  unfoldable pub init_sizes : Mali (Unit {0})
  init_sizes = do
    c ← members
    a ← ioctl k c.hwc_fd get_buffer_size
    when (is_nonzero a.ret) (throw "Failed to get buffer size.")
    modify (λ c. record c { buffer_size = a.out % 2 ^ 32 })
    b ← ioctl k c.hwc_fd get_hwver
    when (is_nonzero b.ret) (throw "Could not determine HW version.")
    modify (λ c. record c { hw_ver = b.out % 2 ^ 32 })
    when (ltb (b.out % 2 ^ 32) 5) (throw "Unsupported HW version.")

  abbrev mmap : ℕ → ℤ → Mali Bool
  mmap n fd s = returns (k.mmap s.history) (record s { history = mapped n fd ∷ s.history })

  unfoldable pub init_mapping : Mali (Unit {0})
  init_mapping = do
    c ← members
    ok ← mmap (c.buffer_count * c.buffer_size) c.hwc_fd
    modify (λ c. record c { sample_data = if ok then mapping else map_failed })
    when (not ok) (throw "Failed to map sample data.")

abbrev choose_names : Option CounterMapping → Mali (Unit {0})
choose_names none = throw "Could not identify GPU."
choose_names (some product) = modify (λ c. record c { names_lut = some product.names_lut })

unfoldable pub init_product : MaliHwInfo → Mali (Unit {0})
init_product hw_info = choose_names (find_product hw_info.gpu_id)

-- The buffer is resized to `_buffer_size` bytes, and the remap table is built anew.
unfoldable pub init_buffers : MaliHwInfo → Mali (Unit {0})
init_buffers hw_info = do
  modify (λ c. record c {
    raw_counter_buffer = filled (c.buffer_size / 4) c.raw_counter_buffer;
    core_index_remap = [];
  })
  remap ← defined (core_index_remap hw_info.core_mask)
  modify (λ c. record c { core_index_remap = remap })

module _ (k : Kernel) where
  -- What follows the question what the GPU is.
  unfoldable pub init_for : MaliHwInfo → Mali (Unit {0})
  init_for hw_info = do
    init_device k hw_info
    init_abi k
    init_flags k
    init_reader k
    init_api k
    init_sizes k
    init_mapping k
    init_product hw_info
    init_buffers hw_info

  unfoldable pub init : Mali (Unit {0})
  init = do term; hw_info ← get_mali_hw_info k; init_for hw_info
