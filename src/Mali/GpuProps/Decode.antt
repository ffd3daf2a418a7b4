-- ===== src/Mali/GpuProps/Decode.antt =====
-- mali_counter.cpp, `get_mali_hw_info`: the loop over the properties in the buffer.
use hwcpipe.Common.{
  ℕ, zero, suc, ◌-◌, ◌/◌, List, Option, none, some, bit_and, drop, ltb, ◌==◌, if◌then◌else◌,
}
use hwcpipe.Mali.GpuProps.{GpuProps, zero_props, store_property}
use hwcpipe.Common.Options.{◌>>=◌}
use hwcpipe.Mali.GpuProps.Types.{
  kbase_gpuprop_value_size_u8, kbase_gpuprop_value_size_u16, kbase_gpuprop_value_size_u32,
}
use hwcpipe.Mali.GpuProps.Reads.{read_u8, read_u16, read_u32, read_u64}

-- How the decoding ends: with the properties, by the exception "Invalid property size.", in a read
-- past the end of the buffer, or without an end within the fuel.
pub data Decoded : Type 0 where
  props : GpuProps → Decoded
  invalid_size overread no_fuel : Decoded

-- The value that follows a type, of one of four sizes, and the number of its bytes.
unfoldable pub read_value : ℕ → List ℕ → Option (ℕ × ℕ)
read_value value_type p =
    if value_type == kbase_gpuprop_value_size_u8
    then (do v ← read_u8 p; some (v, 1))
    else if value_type == kbase_gpuprop_value_size_u16
    then (do v ← read_u16 p; some (v, 2))
    else if value_type == kbase_gpuprop_value_size_u32
    then (do v ← read_u32 p; some (v, 4))
    else (do v ← read_u64 p; some (v, 8))

-- One round: the properties with one more stored, and what is left of the buffer and of its size.
pub data Round : Type 0 where
  stored : GpuProps → List ℕ → ℕ → Round
  bad_size past_end : Round

unfoldable pub store_round : Option GpuProps → List ℕ → ℕ → Round
store_round none ptr size = bad_size
store_round (some p) ptr size = stored p ptr size

unfoldable pub value_round : ℕ → Option (ℕ × ℕ) → List ℕ → ℕ → GpuProps → Round
unfolding store_property store_round
value_round type none ptr size p = past_end
value_round type (some (value, n)) ptr size p =
    store_round (store_property (type / 4) value p) (drop n ptr) (size - n)

unfoldable pub type_round : Option ℕ → List ℕ → ℕ → GpuProps → Round
unfolding value_round read_value
type_round none ptr size p = past_end
type_round (some type) ptr size p =
    value_round type (read_value (bit_and type 3) (drop 4 ptr)) (drop 4 ptr) (size - 4) p

unfoldable pub decode_round : List ℕ → ℕ → GpuProps → Round
unfolding type_round read_u32
decode_round ptr size p = type_round (read_u32 ptr) ptr size p

-- `while (size > 0)`. The `int` that is left may fall below 0, which ends the loop as 0 does.

unfoldable pub decode_loop : ℕ → List ℕ → ℕ → GpuProps → Decoded
decode_loop zero ptr size p = if ltb 0 size then no_fuel else props p
decode_loop (suc fuel) ptr size p =
    let rest : Decoded = elim (decode_round ptr size p) [
      | stored q ptr' size' ↦ decode_loop fuel ptr' size' q
      | bad_size ↦ invalid_size
      | past_end ↦ overread
    ] in
    if ltb 0 size then rest else props p

-- A round takes five bytes at least, so as many rounds as bytes are enough.
unfoldable pub decode_props : List ℕ → ℕ → Decoded
unfolding decode_loop decode_round read_u8 read_u16 read_u32 read_u64
decode_props buffer size = decode_loop size buffer size zero_props
