-- ===== src/Mali/GpuProps/Reads.antt =====
-- mali_counter.cpp: the macros READ_U8 to READ_U64. Each reads little-endian bytes from the front of
-- what is left of the buffer, `none` being a read past its end.
pub mod Laws
use hwcpipe.Common.{
  ℕ, zero, suc, ◌+◌, ◌*◌, ◌^◌, ◌%◌, List, [], ◌∷◌, Option, none, some, bit_or, get_elem?, drop,
}
use hwcpipe.Common.Options.{◌>>=◌}

unfoldable pub read_u8 : List ℕ → Option ℕ
read_u8 p = get_elem? p 0

-- `READ_U8(p) | (uint16_t(READ_U8(p + 1)) << 8)`.
unfoldable pub read_u16 : List ℕ → Option ℕ
unfolding read_u8
read_u16 p = do lo ← read_u8 p; hi ← read_u8 (drop 1 p); some (bit_or lo (hi * 2 ^ 8))

unfoldable pub read_u32 : List ℕ → Option ℕ
unfolding read_u16
read_u32 p = do lo ← read_u16 p; hi ← read_u16 (drop 2 p); some (bit_or lo (hi * 2 ^ 16))

unfoldable pub read_u64 : List ℕ → Option ℕ
unfolding read_u32
read_u64 p = do lo ← read_u32 p; hi ← read_u32 (drop 4 p); some (bit_or lo (hi * 2 ^ 32))
