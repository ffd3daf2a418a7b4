-- ===== src/Mali/Layout.antt =====
-- hwc.hpp and mali_counter.cpp: the table `gpu_property_mapping` with its offsets into `gpu_props`, and the
-- stores of `get_mali_hw_info` through a pointer into the bytes of that structure.
pub mod Types
pub mod Structures
pub mod Memory
pub mod Views
pub mod Refines
pub mod Loop
pub mod Filled
use hwcpipe.Common.{
  ℕ, ◌+◌, ◌*◌, ◌^◌, ◌%◌, ◌==◌, List, [], ◌∷◌, ◌++◌, map, Option, none, some, if◌then◌else◌,
}
use hwcpipe.Mali.GpuProps.{Member, Mapping, gpu_property_mapping}
use hwcpipe.Mali.Layout.Types.{Place, place, sizeof, uint64_t}
use hwcpipe.Mali.Layout.Structures.{gpu_props_fields}
use hwcpipe.Mali.Layout.Memory.{put}

-- `offsetof` and `sizeof` in the macro `PROP`.
abbrev pub member_place : Member → Place
member_place Member.product_id = place gpu_props_fields "product_id"
member_place Member.minor_revision = place gpu_props_fields "minor_revision"
member_place Member.major_revision = place gpu_props_fields "major_revision"
member_place Member.num_groups = place gpu_props_fields "num_groups"
member_place Member.num_core_groups = place gpu_props_fields "num_core_groups"
member_place (Member.core_mask i) =
    let masks = place gpu_props_fields "core_mask" in
    record { offset = masks.offset + i * sizeof uint64_t; size = sizeof uint64_t }
member_place Member.l2_slices = place gpu_props_fields "l2_slices"

pub record Entry : Type 0 where
  pub type : ℕ
  pub offset : ℕ
  pub size : ℕ

abbrev pub entry_of : Mapping → Entry
entry_of m =
    let p = member_place m.member in record { type = m.prop_type; offset = p.offset; size = p.size }

abbrev pub last_entry : Entry
last_entry = record { type = 0; offset = 0; size = 0 }

-- The table as the loop sees it, with the entry that ends it.
abbrev pub offset_table : List Entry
offset_table = map entry_of gpu_property_mapping ++ last_entry ∷ []

-- The `switch`: the value is converted to the type of the pointer. `none` is the exception "Invalid
-- property size.".
unfoldable pub store_number : Entry → ℕ → List ℕ → Option (List ℕ)
store_number e value props =
    if e.size == 1
    then some (put 1 e.offset (value % 2 ^ 8) props)
    else if e.size == 2
    then some (put 2 e.offset (value % 2 ^ 16) props)
    else if e.size == 4
    then some (put 4 e.offset (value % 2 ^ 32) props)
    else if e.size == 8
    then some (put 8 e.offset (value % 2 ^ 64) props)
    else none

-- The loop over the table, up to an entry of type 0.
unfoldable pub store_entries : List Entry → ℕ → ℕ → List ℕ → Option (List ℕ)
unfolding store_number
store_entries [] t value props = some props
store_entries (e ∷ es) t value props =
    let rest = store_entries es t value props in
    if e.type == 0 then some props else if e.type == t then store_number e value props else rest

unfoldable pub store_at : ℕ → ℕ → List ℕ → Option (List ℕ)
unfolding store_entries
store_at t value props = store_entries offset_table t value props
