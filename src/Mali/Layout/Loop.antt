-- ===== src/Mali/Layout/Loop.antt =====
-- mali_counter.cpp, `get_mali_hw_info`: the loop over the properties in the buffer, with its stores into
-- the bytes of `gpu_props props`.
use hwcpipe.Common.{
  ℕ, zero, suc, ◌-◌, ◌/◌, List, Option, none, some, bit_and, drop, ltb, if◌then◌else◌, replicate,
}
use hwcpipe.Mali.GpuProps.Reads.{read_u8, read_u16, read_u32, read_u64}
use hwcpipe.Mali.GpuProps.Decode.{read_value}
use hwcpipe.Mali.Layout.{store_at}
use hwcpipe.Mali.Layout.Memory.{put}
use hwcpipe.Mali.Layout.Types.{sizeof}
use hwcpipe.Mali.Layout.Structures.{gpu_props}

-- How the loop ends: with the bytes of the structure, by the exception "Invalid property size.", in a
-- read past the end of the buffer, or without an end within the fuel.
pub data Ending : Type 0 where
  holds_props : List ℕ → Ending
  thrown read_past unfinished : Ending

-- One round: the bytes of the structure, and what is left of the buffer and of its size.
pub data Step : Type 0 where
  written : List ℕ → List ℕ → ℕ → Step
  throws reads_past : Step

unfoldable pub write_step : Option (List ℕ) → List ℕ → ℕ → Step
write_step none ptr size = throws
write_step (some bytes) ptr size = written bytes ptr size

unfoldable pub value_step : ℕ → Option (ℕ × ℕ) → List ℕ → ℕ → List ℕ → Step
unfolding store_at write_step
value_step type none ptr size bytes = reads_past
value_step type (some (value, n)) ptr size bytes =
    write_step (store_at (type / 4) value bytes) (drop n ptr) (size - n)

unfoldable pub type_step : Option ℕ → List ℕ → ℕ → List ℕ → Step
unfolding value_step read_value
type_step none ptr size bytes = reads_past
type_step (some type) ptr size bytes =
    value_step type (read_value (bit_and type 3) (drop 4 ptr)) (drop 4 ptr) (size - 4) bytes

-- `while (size > 0)`. The `int` that is left may fall below 0, which ends the loop as 0 does.
unfoldable pub fill_loop : ℕ → List ℕ → ℕ → List ℕ → Ending
unfolding type_step read_u32
fill_loop zero ptr size bytes = if ltb 0 size then unfinished else holds_props bytes
fill_loop (suc fuel) ptr size bytes =
    let rest : Ending = elim (type_step (read_u32 ptr) ptr size bytes) [
      | written next ptr' size' ↦ fill_loop fuel ptr' size' next
      | throws ↦ thrown
      | reads_past ↦ read_past
    ] in
    if ltb 0 size then rest else holds_props bytes

-- `props = {}`, and as many rounds as the buffer claims bytes, since a round takes five at least.
unfoldable pub fill_props : List ℕ → ℕ → Ending
unfolding fill_loop put read_u8 read_u16 read_u64
fill_props buffer size = fill_loop size buffer size (replicate (sizeof gpu_props) 0)
