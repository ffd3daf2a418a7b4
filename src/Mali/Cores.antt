-- ===== src/Mali/Cores.antt =====
-- mali_counter.cpp: the mask of the shader cores. `get_mali_hw_info` counts its bits, and
-- `MaliCounter::init` lists their positions in `_core_index_remap`.
pub mod Bits
pub mod Positions
pub mod Remap
use hwcpipe.Common.{
  ℕ, zero, suc, ◌+◌, ◌-◌, ◌/◌, ◌%◌, ◌^◌, List, [], ◌∷◌, ◌++◌, Option, none, some, bit_and, ◌==◌,
  if◌then◌else◌,
}

-- `__builtin_popcountll`: the ones among the low `w` bits.
pub popcount : ℕ → ℕ → ℕ
popcount zero m = 0
popcount (suc w) m = m % 2 + popcount w (m / 2)

-- `__builtin_ctz`: the zeros below the lowest one, of the low `w` bits.
pub ctz : ℕ → ℕ → ℕ
ctz zero m = 0
ctz (suc w) m = let above = ctz w (m / 2) in if m % 2 == 1 then 0 else suc above

-- `mask & ~(1u << bit)`, on words of `w` bits.
pub clear_bit : ℕ → ℕ → ℕ → ℕ
clear_bit w mask bit = bit_and mask (2 ^ w - 1 - 2 ^ bit)

-- The loop `while (mask != 0)` on words of `w` bits, over the vector that it appends to. `none` says
-- that the fuel ran out.
pub remap_loop : ℕ → ℕ → ℕ → List ℕ → Option (List ℕ)
unfolding clear_bit
remap_loop w zero mask remap = if mask == 0 then some remap else none
remap_loop w (suc fuel) mask remap =
    let bit = ctz w mask in
    let rest = remap_loop w fuel (clear_bit w mask bit) (remap ++ bit ∷ []) in
    if mask == 0 then some remap else rest

-- `unsigned int` has 32 bits, and each round clears one.
unfoldable pub core_index_remap : ℕ → Option (List ℕ)
unfolding remap_loop ctz
core_index_remap core_mask = remap_loop 32 32 core_mask []

unfoldable pub mp_count : ℕ → ℕ
unfolding popcount
mp_count core_mask = popcount 64 core_mask
