-- ===== src/Mali/GpuProps.antt =====
-- hwc.hpp and mali_counter.cpp: the properties of a GPU, and how `get_mali_hw_info` decodes the buffer
-- in which `KBASE_IOCTL_GET_GPUPROPS` returns them.
pub mod Types
pub mod Reads
pub mod Decode
pub mod Encode
pub mod Stores
pub mod Ends
pub mod RoundTrip
pub mod Truncated
pub mod Said
use hwcpipe.Common.{
  ℕ, ◌^◌, ◌%◌, List, [], ◌∷◌, Option, none, some, set, replicate, ◌==◌, if◌then◌else◌,
}
use hwcpipe.Mali.GpuProps.Types.{
  kbase_gpuprop_product_id, kbase_gpuprop_minor_revision, kbase_gpuprop_major_revision,
  kbase_gpuprop_coherency_num_groups, kbase_gpuprop_coherency_num_core_groups,
  kbase_gpuprop_l2_num_l2_slices, kbase_gpuprop_coherency_group,
}

-- `struct gpu_props`.
pub record GpuProps : Type 0 where
  pub product_id : ℕ
  pub minor_revision : ℕ
  pub major_revision : ℕ
  pub num_groups : ℕ
  pub num_core_groups : ℕ
  pub core_mask : List ℕ
  pub l2_slices : ℕ

-- `mali_userspace::gpu_props props = {}`.
abbrev pub zero_props : GpuProps
zero_props = record {
  product_id = 0;
  minor_revision = 0;
  major_revision = 0;
  num_groups = 0;
  num_core_groups = 0;
  core_mask = replicate 16 0;
  l2_slices = 0;
}

-- The members of the structure, in place of their offsets.
pub data Member : Type 0 where
  product_id minor_revision major_revision num_groups num_core_groups : Member
  core_mask : ℕ → Member
  l2_slices : Member

-- An entry of `gpu_property_mapping`; the size is in bytes.
pub record Mapping : Type 0 where
  pub prop_type : ℕ
  pub member : Member
  pub size : ℕ

abbrev pub prop : ℕ → Member → ℕ → Mapping
prop t m n = record { prop_type = t; member = m; size = n }

-- The entries before the one of type 0, which ends the table.
abbrev pub gpu_property_mapping : List Mapping
gpu_property_mapping =
    prop kbase_gpuprop_product_id Member.product_id 4
    ∷ prop kbase_gpuprop_minor_revision Member.minor_revision 2
    ∷ prop kbase_gpuprop_major_revision Member.major_revision 2
    ∷ prop kbase_gpuprop_coherency_num_groups Member.num_groups 4
    ∷ prop kbase_gpuprop_coherency_num_core_groups Member.num_core_groups 4
    ∷ prop (kbase_gpuprop_coherency_group 0) (Member.core_mask 0) 8
    ∷ prop (kbase_gpuprop_coherency_group 1) (Member.core_mask 1) 8
    ∷ prop (kbase_gpuprop_coherency_group 2) (Member.core_mask 2) 8
    ∷ prop (kbase_gpuprop_coherency_group 3) (Member.core_mask 3) 8
    ∷ prop (kbase_gpuprop_coherency_group 4) (Member.core_mask 4) 8
    ∷ prop (kbase_gpuprop_coherency_group 5) (Member.core_mask 5) 8
    ∷ prop (kbase_gpuprop_coherency_group 6) (Member.core_mask 6) 8
    ∷ prop (kbase_gpuprop_coherency_group 7) (Member.core_mask 7) 8
    ∷ prop (kbase_gpuprop_coherency_group 8) (Member.core_mask 8) 8
    ∷ prop (kbase_gpuprop_coherency_group 9) (Member.core_mask 9) 8
    ∷ prop (kbase_gpuprop_coherency_group 10) (Member.core_mask 10) 8
    ∷ prop (kbase_gpuprop_coherency_group 11) (Member.core_mask 11) 8
    ∷ prop (kbase_gpuprop_coherency_group 12) (Member.core_mask 12) 8
    ∷ prop (kbase_gpuprop_coherency_group 13) (Member.core_mask 13) 8
    ∷ prop (kbase_gpuprop_coherency_group 14) (Member.core_mask 14) 8
    ∷ prop (kbase_gpuprop_coherency_group 15) (Member.core_mask 15) 8
    ∷ prop kbase_gpuprop_l2_num_l2_slices Member.l2_slices 4
    ∷ []

-- A write of `value` to a member.
abbrev pub store_member : Member → ℕ → GpuProps → GpuProps
store_member Member.product_id v p = record p { product_id = v }
store_member Member.minor_revision v p = record p { minor_revision = v }
store_member Member.major_revision v p = record p { major_revision = v }
store_member Member.num_groups v p = record p { num_groups = v }
store_member Member.num_core_groups v p = record p { num_core_groups = v }
store_member (Member.core_mask i) v p = record p { core_mask = set p.core_mask i v }
store_member Member.l2_slices v p = record p { l2_slices = v }

-- The `switch` on the size of the member: the value is cut to it. `none` is the exception
-- "Invalid property size.".
unfoldable pub store : Mapping → ℕ → GpuProps → Option GpuProps
store m value p =
    if m.size == 1
    then some (store_member m.member (value % 2 ^ 8) p)
    else if m.size == 2
    then some (store_member m.member (value % 2 ^ 16) p)
    else if m.size == 4
    then some (store_member m.member (value % 2 ^ 32) p)
    else if m.size == 8
    then some (store_member m.member (value % 2 ^ 64) p)
    else none

-- The loop over the table: the first entry of the type is stored, and a type that is not there is
-- passed over.
unfoldable pub store_in : List Mapping → ℕ → ℕ → GpuProps → Option GpuProps
store_in [] t value p = some p
store_in (m ∷ ms) t value p = if m.prop_type == t then store m value p else store_in ms t value p

unfoldable pub store_property : ℕ → ℕ → GpuProps → Option GpuProps
unfolding store_in store
store_property t value p = store_in gpu_property_mapping t value p
