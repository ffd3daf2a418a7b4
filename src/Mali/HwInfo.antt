-- ===== src/Mali/HwInfo.antt =====
-- mali_counter.cpp, `get_mali_hw_info`: what the GPU is, asked through a descriptor of its own.
pub mod Descriptors
pub mod Masks
pub mod Dumped
pub mod Reported
use hwcpipe.Common.{
  ℕ, zero, suc, ◌+◌, ◌^◌, ◌%◌, List, [], ◌∷◌, ◌++◌, Option, none, some, bit_or, take, replicate,
  if◌then◌else◌,
}
use hwcpipe.Common.Int.{ℤ, pos, negsuc, pos_part, is_neg, is_nonzero}
use hwcpipe.Common.Outcome.{◌>>=◌, ◌>>◌, return, throw, when, defined, faults}
use hwcpipe.Mali.Cores.{mp_count}
use hwcpipe.Mali.GpuProps.{GpuProps}
use hwcpipe.Mali.GpuProps.Decode.{Decoded, props, invalid_size, overread, no_fuel, decode_props}
use hwcpipe.Mali.Kernel.{
  Kernel, Request, BaseGpuProps, uk_check_version, check_version, uk_set_flags, set_flags,
  uk_gpu_props, get_gpuprops, mali_ioctl,
}
use hwcpipe.Mali.State.{Machine, Mali, open_device, ioctl, close}

pub record MaliHwInfo : Type 0 where
  pub mp_count : ℕ
  pub gpu_id : ℕ
  pub r_value : ℕ
  pub p_value : ℕ
  pub core_mask : ℕ
  pub l2_slices : ℕ

-- `for (i < n) core_mask |= masks[i]`, the mask of a group cut to `unsigned`. `none` is a read past the
-- sixteen groups.
unfoldable pub or_masks : ℕ → List ℕ → ℕ → Option ℕ
or_masks zero masks acc = some acc
or_masks (suc n) [] acc = none
or_masks (suc n) (m ∷ masks) acc = or_masks n masks (bit_or acc m % 2 ^ 32)

-- The bytes that the kernel writes over a buffer of `n` zeroes.
abbrev pub filled : ℕ → List ℕ → List ℕ
filled n bytes = take n (bytes ++ replicate n 0)

abbrev pub hw_info_of_mask : ℕ → ℕ → ℕ → ℕ → ℕ → MaliHwInfo
hw_info_of_mask id r p slices mask = record {
  mp_count = mp_count mask;
  gpu_id = id;
  r_value = r;
  p_value = p;
  core_mask = mask;
  l2_slices = slices;
}

abbrev pub base_hw_info : BaseGpuProps → Mali MaliHwInfo
base_hw_info p = do
  mask ← defined (or_masks p.num_core_groups p.group_core_mask 0)
  return (hw_info_of_mask p.product_id p.major_revision p.minor_revision p.num_l2_slices mask)

abbrev pub props_hw_info : GpuProps → Mali MaliHwInfo
props_hw_info p = do
  mask ← defined (or_masks p.num_core_groups p.core_mask 0)
  return (hw_info_of_mask p.product_id p.major_revision p.minor_revision p.l2_slices mask)

abbrev pub decoded_hw_info : Decoded → Mali MaliHwInfo
decoded_hw_info (props p) = props_hw_info p
decoded_hw_info invalid_size = throw "Invalid property size."
decoded_hw_info overread = λ _. faults
decoded_hw_info no_fuel = λ _. faults

module _ (k : Kernel) where
  unfoldable pub check_abi : ℤ → Mali (Unit {0})
  check_abi fd = do
    a ← ioctl k fd (uk_check_version 10 2)
    when (is_nonzero (mali_ioctl a)) (do
      b ← ioctl k fd (check_version 0 0)
      when (is_neg b.ret) (do close fd; throw "Failed to check version."))

  unfoldable pub create_context : ℤ → Mali (Unit {0})
  create_context fd = do
    a ← ioctl k fd (uk_set_flags 2)
    when (is_nonzero (mali_ioctl a)) (do
      b ← ioctl k fd (set_flags 2)
      when (is_neg b.ret) (do close fd; throw "Failed settings flags ioctl."))

  -- The properties of a newer driver, in a buffer whose size the first call gives.
  unfoldable pub props_from_buffer : ℤ → Mali MaliHwInfo
  props_from_buffer fd = do
    a ← ioctl k fd (get_gpuprops 0)
    when (is_neg a.ret) (throw "Failed getting GPU properties.")
    b ← ioctl k fd (get_gpuprops (pos_part a.ret))
    when (is_neg b.ret) (throw "Failed getting GPU properties.")
    hw_info ← decoded_hw_info (decode_props (filled (pos_part a.ret) b.out) (pos_part b.ret))
    close fd
    return hw_info

  unfoldable pub props_from_registers : ℤ → BaseGpuProps → Mali MaliHwInfo
  props_from_registers fd p = do hw_info ← base_hw_info p; close fd; return hw_info

  unfoldable pub gpu_properties : ℤ → Mali MaliHwInfo
  unfolding props_from_buffer props_from_registers
  gpu_properties fd = do
    a ← ioctl k fd uk_gpu_props
    if is_nonzero (mali_ioctl a) then props_from_buffer fd else props_from_registers fd a.out

  unfoldable pub get_mali_hw_info : Mali MaliHwInfo
  unfolding check_abi create_context gpu_properties
  get_mali_hw_info = do
    fd ← open_device k
    when (is_neg fd) (throw "Failed to get HW info.")
    check_abi fd
    create_context fd
    gpu_properties fd
