-- ===== src/Names/Block.antt =====
-- hwc_names.hpp: the four blocks of counters, and the number of counters in each.
use hwcpipe.Common.{ℕ}

pub data MaliCounterBlockName : Type 0 where
  jm tiler shader mmu : MaliCounterBlockName

-- The value of the enumerator, by which the table of names is indexed.
abbrev pub block_number : MaliCounterBlockName → ℕ
block_number jm = 0
block_number tiler = 1
block_number shader = 2
block_number mmu = 3

abbrev pub mali_name_block_size : ℕ
mali_name_block_size = 64
