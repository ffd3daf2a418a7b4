-- ===== src/Mali/Layout/Structures.antt =====
-- hwc.hpp: the structures of the requests, as they stand in memory.
use hwcpipe.Common.{[], ◌∷◌}
use hwcpipe.Mali.Layout.Types.{
  CType, Fields, array, struct, union, fields, uint8_t, uint16_t, uint32_t, uint64_t, int32_t,
  void_pointer,
}

abbrev pub uk_header : CType
uk_header = union (fields (("id", uint32_t) ∷ ("ret", uint32_t) ∷ ("sizer", uint64_t) ∷ []))

abbrev pub mali_base_gpu_core_props : CType
mali_base_gpu_core_props = struct (
    fields (
      ("product_id", uint32_t)
      ∷ ("version_status", uint16_t)
      ∷ ("minor_revision", uint16_t)
      ∷ ("major_revision", uint16_t)
      ∷ ("padding", uint16_t)
      ∷ ("gpu_speed_mhz", uint32_t)
      ∷ ("gpu_freq_khz_max", uint32_t)
      ∷ ("gpu_freq_khz_min", uint32_t)
      ∷ ("log2_program_counter_size", uint32_t)
      ∷ ("texture_features", (array 3 uint32_t))
      ∷ ("gpu_available_memory_size", uint64_t)
      ∷ []))

abbrev pub mali_base_gpu_l2_cache_props : CType
mali_base_gpu_l2_cache_props = struct (
    fields (
      ("log2_line_size", uint8_t)
      ∷ ("log2_cache_size", uint8_t)
      ∷ ("num_l2_slices", uint8_t)
      ∷ ("padding", (array 5 uint8_t))
      ∷ []))

abbrev pub mali_base_gpu_tiler_props : CType
mali_base_gpu_tiler_props =
    struct (fields (("bin_size_bytes", uint32_t) ∷ ("max_active_levels", uint32_t) ∷ []))

abbrev pub mali_base_gpu_thread_props : CType
mali_base_gpu_thread_props = struct (
    fields (
      ("max_threads", uint32_t)
      ∷ ("max_workgroup_size", uint32_t)
      ∷ ("max_barrier_size", uint32_t)
      ∷ ("max_registers", uint16_t)
      ∷ ("max_task_queue", uint8_t)
      ∷ ("max_thread_group_split", uint8_t)
      ∷ ("impl_tech", uint8_t)
      ∷ ("padding", (array 7 uint8_t))
      ∷ []))

abbrev pub mali_base_gpu_coherent_group : CType
mali_base_gpu_coherent_group = struct (
    fields
      (("core_mask", uint64_t) ∷ ("num_cores", uint16_t) ∷ ("padding", (array 3 uint16_t)) ∷ []))

abbrev pub mali_base_gpu_coherent_group_info : CType
mali_base_gpu_coherent_group_info = struct (
    fields (
      ("num_groups", uint32_t)
      ∷ ("num_core_groups", uint32_t)
      ∷ ("coherency", uint32_t)
      ∷ ("padding", uint32_t)
      ∷ ("group", (array 16 mali_base_gpu_coherent_group))
      ∷ []))

abbrev pub gpu_raw_gpu_props : CType
gpu_raw_gpu_props = struct (
    fields (
      ("shader_present", uint64_t)
      ∷ ("tiler_present", uint64_t)
      ∷ ("l2_present", uint64_t)
      ∷ ("unused_1", uint64_t)
      ∷ ("l2_features", uint32_t)
      ∷ ("suspend_size", uint32_t)
      ∷ ("mem_features", uint32_t)
      ∷ ("mmu_features", uint32_t)
      ∷ ("as_present", uint32_t)
      ∷ ("js_present", uint32_t)
      ∷ ("js_features", (array 16 uint32_t))
      ∷ ("tiler_features", uint32_t)
      ∷ ("texture_features", (array 3 uint32_t))
      ∷ ("gpu_id", uint32_t)
      ∷ ("thread_max_threads", uint32_t)
      ∷ ("thread_max_workgroup_size", uint32_t)
      ∷ ("thread_max_barrier_size", uint32_t)
      ∷ ("thread_features", uint32_t)
      ∷ ("coherency_mode", uint32_t)
      ∷ []))

abbrev pub mali_base_gpu_props : CType
mali_base_gpu_props = struct (
    fields (
      ("core_props", mali_base_gpu_core_props)
      ∷ ("l2_props", mali_base_gpu_l2_cache_props)
      ∷ ("unused", uint64_t)
      ∷ ("tiler_props", mali_base_gpu_tiler_props)
      ∷ ("thread_props", mali_base_gpu_thread_props)
      ∷ ("raw_props", gpu_raw_gpu_props)
      ∷ ("coherency_info", mali_base_gpu_coherent_group_info)
      ∷ []))

abbrev pub kbase_uk_gpuprops : CType
kbase_uk_gpuprops = struct (fields (("header", uk_header) ∷ ("props", mali_base_gpu_props) ∷ []))

-- `struct gpu_props`, which the kernel does not see.
abbrev pub gpu_props_fields : Fields
gpu_props_fields = fields (
    ("product_id", uint32_t)
    ∷ ("minor_revision", uint16_t)
    ∷ ("major_revision", uint16_t)
    ∷ ("num_groups", uint32_t)
    ∷ ("num_core_groups", uint32_t)
    ∷ ("core_mask", (array 16 uint64_t))
    ∷ ("l2_slices", uint32_t)
    ∷ [])

abbrev pub gpu_props : CType
gpu_props = struct gpu_props_fields

abbrev pub kbase_hwcnt_reader_metadata : CType
kbase_hwcnt_reader_metadata =
    struct
      (fields (("timestamp", uint64_t) ∷ ("event_id", uint32_t) ∷ ("buffer_idx", uint32_t) ∷ []))

abbrev pub kbase_uk_hwcnt_header : CType
kbase_uk_hwcnt_header =
    union (fields (("id", uint32_t) ∷ ("ret", uint32_t) ∷ ("sizer", uint64_t) ∷ []))

abbrev pub kbase_uk_hwcnt_reader_version_check_args : CType
kbase_uk_hwcnt_reader_version_check_args = struct (
    fields (
      ("header", kbase_uk_hwcnt_header)
      ∷ ("major", uint16_t)
      ∷ ("minor", uint16_t)
      ∷ ("padding", (array 4 uint8_t))
      ∷ []))

abbrev pub kbase_pointer : CType
kbase_pointer =
    union (fields (("value", void_pointer) ∷ ("compat_value", uint32_t) ∷ ("sizer", uint64_t) ∷ []))

abbrev pub kbase_ioctl_get_gpuprops : CType
kbase_ioctl_get_gpuprops =
    struct (fields (("buffer", kbase_pointer) ∷ ("size", uint32_t) ∷ ("flags", uint32_t) ∷ []))

abbrev pub kbase_ioctl_version_check : CType
kbase_ioctl_version_check = struct (fields (("major", uint16_t) ∷ ("minor", uint16_t) ∷ []))

abbrev pub kbase_ioctl_set_flags : CType
kbase_ioctl_set_flags = struct (fields (("create_flags", uint32_t) ∷ []))

abbrev pub kbase_ioctl_hwcnt_reader_setup : CType
kbase_ioctl_hwcnt_reader_setup = struct (
    fields (
      ("buffer_count", uint32_t)
      ∷ ("jm_bm", uint32_t)
      ∷ ("shader_bm", uint32_t)
      ∷ ("tiler_bm", uint32_t)
      ∷ ("mmu_l2_bm", uint32_t)
      ∷ []))

abbrev pub kbase_uk_hwcnt_reader_set_flags : CType
kbase_uk_hwcnt_reader_set_flags = struct (
    fields
      (("header", kbase_uk_hwcnt_header) ∷ ("create_flags", uint32_t) ∷ ("padding", uint32_t) ∷ []))

abbrev pub kbase_uk_hwcnt_reader_setup : CType
kbase_uk_hwcnt_reader_setup = struct (
    fields (
      ("header", kbase_uk_hwcnt_header)
      ∷ ("buffer_count", uint32_t)
      ∷ ("jm_bm", uint32_t)
      ∷ ("shader_bm", uint32_t)
      ∷ ("tiler_bm", uint32_t)
      ∷ ("mmu_l2_bm", uint32_t)
      ∷ ("fd", int32_t)
      ∷ []))

abbrev pub uku_version_check_args : CType
uku_version_check_args = struct (
    fields (
      ("header", uk_header)
      ∷ ("major", uint16_t)
      ∷ ("minor", uint16_t)
      ∷ ("padding", (array 4 uint8_t))
      ∷ []))
