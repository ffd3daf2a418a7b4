-- ===== src/Mali/Requests.antt =====
-- hwc.hpp: the numbers under which the requests go to the kernel. `_IOC`, which packs direction, type, number
-- and size, is a macro of the kernel's header and a parameter; `_IOR`, `_IOW` and `_IOWR` are `_IOC` with a
-- direction.
pub mod Numbers
use hwcpipe.Common.{ℕ, ◌+◌}
use hwcpipe.Mali.Kernel.{
  Request, uk_check_version, check_version, uk_set_flags, set_flags, uk_gpu_props, get_gpuprops,
  uk_reader_setup, reader_setup, get_api_version, get_buffer_size, get_hwver, dump, get_buffer,
  put_buffer,
}
use hwcpipe.Mali.Layout.Types.{CType, sizeof, uint32_t}
use hwcpipe.Mali.Layout.Structures.{
  kbase_uk_hwcnt_reader_version_check_args, kbase_ioctl_version_check,
  kbase_uk_hwcnt_reader_set_flags, kbase_ioctl_set_flags, kbase_uk_gpuprops,
  kbase_ioctl_get_gpuprops, kbase_uk_hwcnt_reader_setup, kbase_ioctl_hwcnt_reader_setup,
  kbase_hwcnt_reader_metadata,
}

-- From a direction, a type, a number and a size.
abbrev pub Ioc : Type 0
Ioc = ℕ → ℕ → ℕ → ℕ → ℕ

-- `_IOC_WRITE` and `_IOC_READ`.
abbrev write : ℕ
write = 1

abbrev read : ℕ
read = 2

abbrev kbase_ioctl_type : ℕ
kbase_ioctl_type = 0x80

abbrev linux_uk_base_magic : ℕ
linux_uk_base_magic = 0x80

abbrev kbase_hwcnt_reader : ℕ
kbase_hwcnt_reader = 0xbe

-- The numbers of the functions that go through `mali_ioctl`.
abbrev ukp_func_id_check_version : ℕ
ukp_func_id_check_version = 0

abbrev kbase_func_hwcnt_uk_func_id : ℕ
kbase_func_hwcnt_uk_func_id = 512

abbrev kbase_func_gpu_props_reg_dump : ℕ
kbase_func_gpu_props_reg_dump = kbase_func_hwcnt_uk_func_id + 14

abbrev kbase_func_hwcnt_reader_setup : ℕ
kbase_func_hwcnt_reader_setup = kbase_func_hwcnt_uk_func_id + 36

abbrev kbase_func_set_flags : ℕ
kbase_func_set_flags = kbase_func_hwcnt_uk_func_id + 18

module _ (ioc : Ioc) where
  abbrev mali_ior : ℕ → ℕ → CType → ℕ
  mali_ior type nr t = ioc read type nr (sizeof t)

  abbrev mali_iow : ℕ → ℕ → CType → ℕ
  mali_iow type nr t = ioc write type nr (sizeof t)

  -- The command of `mali_ioctl` for a header's identifier and the type of the argument.
  abbrev mali_ioctl_command : ℕ → CType → ℕ
  mali_ioctl_command id t = ioc (read + write) linux_uk_base_magic id (sizeof t)

  unfoldable pub request_number : Request → ℕ
  request_number (uk_check_version major minor) =
      mali_ioctl_command ukp_func_id_check_version kbase_uk_hwcnt_reader_version_check_args
  request_number (check_version major minor) =
      ioc (read + write) kbase_ioctl_type 0 (sizeof kbase_ioctl_version_check)
  request_number (uk_set_flags flags) =
      mali_ioctl_command kbase_func_set_flags kbase_uk_hwcnt_reader_set_flags
  request_number (set_flags flags) = mali_iow kbase_ioctl_type 1 kbase_ioctl_set_flags
  request_number uk_gpu_props = mali_ioctl_command kbase_func_gpu_props_reg_dump kbase_uk_gpuprops
  request_number (get_gpuprops size) = mali_iow kbase_ioctl_type 3 kbase_ioctl_get_gpuprops
  request_number (uk_reader_setup n jm shader tiler mmu) =
      mali_ioctl_command kbase_func_hwcnt_reader_setup kbase_uk_hwcnt_reader_setup
  request_number (reader_setup n jm shader tiler mmu) =
      mali_iow kbase_ioctl_type 8 kbase_ioctl_hwcnt_reader_setup
  request_number (get_api_version version) = mali_iow kbase_hwcnt_reader 0xff uint32_t
  request_number get_buffer_size = mali_ior kbase_hwcnt_reader 0x01 uint32_t
  request_number get_hwver = mali_ior kbase_hwcnt_reader 0x00 uint32_t
  request_number dump = mali_iow kbase_hwcnt_reader 0x10 uint32_t
  request_number get_buffer = mali_ior kbase_hwcnt_reader 0x20 kbase_hwcnt_reader_metadata
  request_number (put_buffer meta) = mali_iow kbase_hwcnt_reader 0x21 kbase_hwcnt_reader_metadata
