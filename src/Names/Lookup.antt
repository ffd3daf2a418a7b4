-- ===== src/Names/Lookup.antt =====
-- mali_counter.cpp, `MaliCounter::find_counter_index_by_name`, and the names that mali_counter.h asks
-- for.
pub mod First
pub mod Gpus
pub mod Shared
pub mod Present
use hwcpipe.Common.{
  ℕ, zero, suc, ◌+◌, ◌*◌, String, List, [], ◌∷◌, Option, none, some, drop, if◌then◌else◌,
}
use hwcpipe.Common.Int.{ℤ, pos, negsuc}
use hwcpipe.Common.Text.{codes, strstr}
use hwcpipe.Names.Block.{MaliCounterBlockName, block_number, mali_name_block_size}

-- The loop at index `i`, with `left` rounds to go, over the names from `names[i]` on. `none` is a read
-- past the end of the table; -1 says that no name fits.
pub find_from : List String → ℕ → ℕ → String → Option ℤ
find_from names zero i name = some (negsuc 0)
find_from [] (suc left) i name = none
find_from (n ∷ names) (suc left) i name =
    let rest = find_from names left (i + 1) name in
    if strstr (codes n) (codes name) then some (pos i) else rest

unfoldable pub find_counter_index_by_name : List String → MaliCounterBlockName → String → Option ℤ
unfolding find_from strstr
find_counter_index_by_name names_lut block name =
    find_from (drop (mali_name_block_size * block_number block) names_lut) mali_name_block_size 0
      name

abbrev pub jm_counter_names : List (String × String)
jm_counter_names = ("GPU_ACTIVE", "cycles") ∷ ("JS0_JOBS", "jobs") ∷ ("JS1_JOBS", "jobs") ∷ []

abbrev pub mmu_counter_names : List (String × String)
mmu_counter_names =
    ("L2_READ_LOOKUP", "cache lookups")
    ∷ ("L2_EXT_READ", "transactions")
    ∷ ("L2_EXT_AR_STALL", "stall cycles")
    ∷ ("L2_WRITE_LOOKUP", "cache lookups")
    ∷ ("L2_EXT_WRITE", "transactions")
    ∷ ("L2_EXT_W_STALL", "stall cycles")
    ∷ ("L2_EXT_READ_BEATS", "bus cycles")
    ∷ ("L2_EXT_WRITE_BEATS", "bus cycles")
    ∷ []
