-- ===== src/Mali/GpuProps/Types.antt =====
-- hwc.hpp: the types of the properties, and of their values.
use hwcpipe.Common.{ℕ, ◌+◌}

abbrev pub kbase_gpuprop_value_size_u8 : ℕ
kbase_gpuprop_value_size_u8 = 0

abbrev pub kbase_gpuprop_value_size_u16 : ℕ
kbase_gpuprop_value_size_u16 = 1

abbrev pub kbase_gpuprop_value_size_u32 : ℕ
kbase_gpuprop_value_size_u32 = 2

abbrev pub kbase_gpuprop_product_id : ℕ
kbase_gpuprop_product_id = 1

abbrev pub kbase_gpuprop_minor_revision : ℕ
kbase_gpuprop_minor_revision = 3

abbrev pub kbase_gpuprop_major_revision : ℕ
kbase_gpuprop_major_revision = 4

abbrev pub kbase_gpuprop_coherency_num_groups : ℕ
kbase_gpuprop_coherency_num_groups = 61

abbrev pub kbase_gpuprop_coherency_num_core_groups : ℕ
kbase_gpuprop_coherency_num_core_groups = 62

-- The sixteen `KBASE_GPUPROP_COHERENCY_GROUP_0` to `KBASE_GPUPROP_COHERENCY_GROUP_15`.
abbrev pub kbase_gpuprop_coherency_group : ℕ → ℕ
kbase_gpuprop_coherency_group i = 64 + i

abbrev pub kbase_gpuprop_l2_num_l2_slices : ℕ
kbase_gpuprop_l2_num_l2_slices = 15
