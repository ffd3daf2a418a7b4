-- ===== src/Mali/Sampling.antt =====
-- mali_counter.cpp: `sample_counters`, `wait_next_event`, `get_counters`, and the reads through the
-- pointers that it returns.
pub mod Pointers
pub mod Events
use hwcpipe.Common.{
  ℕ, zero, suc, ◌+◌, ◌*◌, ◌%◌, ◌^◌, ◌-◌, ◌&&◌, ◌||◌, Option, none, some, List, [], ◌∷◌, ltb, leb,
  ◌==◌, length, get_elem?, if◌then◌else◌,
}
use hwcpipe.Common.Int.{ℤ, pos, negsuc, pos_part, neg_part, is_neg, is_nonzero, leb_ℤ}
use hwcpipe.Common.Outcome.{◌>>=◌, ◌>>◌, return, throw, when, defined, faults, returns}
use hwcpipe.Names.Block.{MaliCounterBlockName, jm, tiler, shader, mmu, mali_name_block_size}
use hwcpipe.Mali.Kernel.{Kernel, Metadata, dump, get_buffer, put_buffer}
use hwcpipe.Mali.State.{
  MaliCounter, null_pointer, map_failed, mapping, Mali, modify, members, ioctl, poll,
}

-- A little-endian word of the shared memory.
abbrev word_at : (ℕ → ℕ) → ℕ → ℕ
word_at byte i =
    byte i % 256
    + byte (i + 1) % 256 * 2 ^ 8
    + byte (i + 2) % 256 * 2 ^ 16
    + byte (i + 3) % 256 * 2 ^ 24

abbrev pub words_at : (ℕ → ℕ) → ℕ → ℕ → List ℕ
words_at byte start zero = []
words_at byte start (suc n) = word_at byte start ∷ words_at byte (start + 4) n

-- The `memcpy` of sample `idx` into the counter buffer. It is defined if the sample lies in the mapping,
-- and the buffer has just its size.
unfoldable pub copied : (ℕ → ℕ) → ℕ → MaliCounter → Option (List ℕ)
copied byte idx c = elim c.sample_data [
  | null_pointer ↦ none
  | map_failed ↦ none
  | mapping ↦
      if ltb idx c.buffer_count && c.buffer_size == 4 * length c.raw_counter_buffer
      then some (words_at byte (c.buffer_size * idx) (length c.raw_counter_buffer))
      else none
]

abbrev copy_sample : Kernel → Metadata → Mali (Unit {0})
copy_sample k meta s = elim (copied (k.sample_byte s.history) meta.buffer_idx s.counter) [
  | none ↦ faults
  | some words ↦ returns tt (record s { counter = record s.counter { raw_counter_buffer = words } })
]

module _ (k : Kernel) where
  unfoldable pub sample_counters : Mali (Unit {0})
  sample_counters = do
    c ← members
    a ← ioctl k c.hwc_fd dump
    when (is_nonzero a.ret) (throw "Could not sample hardware counters.")

  -- A sample is taken out of the reader and given back.
  unfoldable pub take_sample : Mali (Unit {0})
  take_sample = do
    c ← members
    a ← ioctl k c.hwc_fd get_buffer
    when (is_nonzero a.ret) (throw "Failed READER_GET_BUFFER.")
    copy_sample k a.out
    modify (λ c. record c { timestamp = a.out.timestamp % 2 ^ 64 })
    b ← ioctl k c.hwc_fd (put_buffer a.out)
    when (is_nonzero b.ret) (throw "Failed READER_PUT_BUFFER.")

  unfoldable pub wait_next_event : Mali (Unit {0})
  wait_next_event = do
    c ← members
    p ← poll k c.hwc_fd
    when (is_neg p.count) (throw "poll() failed.")
    if p.pollin then take_sample else when p.pollhup (throw "HWC hung up.")

-- The pointers into the buffer that `get_counters` returns, as offsets from its start. The sums of a
-- shader core's are those of `unsigned`; that of a slice's is one of `int`, and a fault where it overflows.
unfoldable pub get_counters : MaliCounter → MaliCounterBlockName → ℤ → Mali ℕ
get_counters c jm index = return (mali_name_block_size * 0)
get_counters c mmu index =
    if is_neg index || leb_ℤ c.num_l2_slices index
    then throw "Invalid slice number."
    else if leb (2 ^ 31) (mali_name_block_size * (2 + pos_part index))
    then (λ _. faults)
    else return (mali_name_block_size * (2 + pos_part index))
get_counters c tiler index = return (mali_name_block_size * 1)
get_counters c shader index =
    if is_neg index || leb_ℤ c.num_cores index then throw "Invalid core number." else (do
      core ← defined (get_elem? c.core_index_remap (pos_part index))
      return (
          mali_name_block_size
          * ((2 ^ 32 + 2 + pos_part c.num_l2_slices + core - neg_part c.num_l2_slices) % 2 ^ 32)
          % 2 ^ 32))

-- `counters[i]` for a pointer into the buffer; `none` is a read outside of the buffer.
unfoldable pub counter_at : List ℕ → ℕ → ℤ → Option ℕ
counter_at raw offset (pos i) = get_elem? raw (offset + i)
counter_at raw offset (negsuc n) = if ltb n offset then get_elem? raw (offset - suc n) else none
