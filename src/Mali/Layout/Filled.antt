-- ===== src/Mali/Layout/Filled.antt =====
-- The loop of `get_mali_hw_info` over the bytes of `gpu_props` ends as the loop over its members does.
use hwcpipe.Common.{
  ℕ, zero, suc, ◌-◌, ◌/◌, ◌≡◌, refl, sym, ap, ◌∙◌, true, List, Option, none, some, bit_and, drop,
  ltb, Bool-cases, inl, inr, replicate,
}
use hwcpipe.Mali.GpuProps.{GpuProps, store_property}
use hwcpipe.Mali.GpuProps.Reads.{read_u32}
use hwcpipe.Mali.GpuProps.Decode.{
  Decoded, props, invalid_size, overread, no_fuel, Round, stored, bad_size, past_end, read_value,
  store_round, value_round, type_round, decode_round, decode_loop, decode_props,
}
use hwcpipe.Mali.Layout.{store_at}
use hwcpipe.Mali.Layout.Types.{sizeof}
use hwcpipe.Mali.Layout.Structures.{gpu_props}
use hwcpipe.Mali.Layout.Memory.{load}
use hwcpipe.Mali.Layout.Views.{props_of, Holds}
use hwcpipe.Mali.Layout.Refines.{Refines, store_at-Refines}
use hwcpipe.Mali.Layout.Loop.{
  Ending, holds_props, thrown, read_past, unfinished, Step, written, throws, reads_past, write_step,
  value_step, type_step, fill_loop, fill_props,
}

-- The bytes of an ending, read member by member.
abbrev pub members_of : Ending → Decoded
members_of (holds_props bytes) = props (props_of bytes)
members_of thrown = invalid_size
members_of read_past = overread
members_of unfinished = no_fuel

abbrev round_of : Step → Round
round_of (written bytes ptr size) = stored (props_of bytes) ptr size
round_of throws = bad_size
round_of reads_past = past_end

-- The structure keeps its size.
abbrev Whole : Step → Type 0
Whole (written bytes ptr size) = Holds bytes
Whole throws = Unit
Whole reads_past = Unit

write_step-Same :
    (a : Option (List ℕ)) (b : Option GpuProps) (ptr : List ℕ) (size : ℕ)
    → Refines a b
    → Whole (write_step a ptr size) × (round_of (write_step a ptr size) ≡ store_round b ptr size)
unfolding write_step store_round
write_step-Same none none ptr size r = (tt, refl)
write_step-Same none (some p) ptr size r = absurd r
write_step-Same (some bytes) none ptr size r = absurd r
write_step-Same (some bytes) (some p) ptr size r = (r.0, ap (λ q. stored q ptr size) r.1)

value_step-Same :
    (type : ℕ) (v : Option (ℕ × ℕ)) (ptr : List ℕ) (size : ℕ) (bytes : List ℕ)
    → Holds bytes
    → Whole (value_step type v ptr size bytes)
      × (round_of (value_step type v ptr size bytes) ≡ value_round type v ptr size (props_of bytes))
unfolding value_step value_round
value_step-Same type none ptr size bytes h = (tt, refl)
value_step-Same type (some (value, n)) ptr size bytes h =
    write_step-Same (store_at (type / 4) value bytes)
      (store_property (type / 4) value (props_of bytes)) (drop n ptr) (size - n)
      (store_at-Refines (type / 4) value bytes h)

type_step-Same :
    (t : Option ℕ) (ptr : List ℕ) (size : ℕ) (bytes : List ℕ)
    → Holds bytes
    → Whole (type_step t ptr size bytes)
      × (round_of (type_step t ptr size bytes) ≡ type_round t ptr size (props_of bytes))
unfolding type_step type_round
type_step-Same none ptr size bytes h = (tt, refl)
type_step-Same (some type) ptr size bytes h =
    value_step-Same type (read_value (bit_and type 3) (drop 4 ptr)) (drop 4 ptr) (size - 4) bytes h

-- What is left of the loops after a round.
abbrev after_step : ℕ → Step → Ending
after_step fuel (written next ptr size) = fill_loop fuel ptr size next
after_step fuel throws = thrown
after_step fuel reads_past = read_past

abbrev after_round : ℕ → Round → Decoded
after_round fuel (stored q ptr size) = decode_loop fuel ptr size q
after_round fuel bad_size = invalid_size
after_round fuel past_end = overread

fill_loop-suc :
    (fuel : ℕ) (ptr : List ℕ) (size : ℕ) (bytes : List ℕ)
    → ltb 0 size ≡ true
    → fill_loop (suc fuel) ptr size bytes
      ≡ after_step fuel (type_step (read_u32 ptr) ptr size bytes)
unfolding fill_loop
fill_loop-suc fuel ptr size bytes more = rw more refl

decode_loop-suc :
    (fuel : ℕ) (ptr : List ℕ) (size : ℕ) (p : GpuProps)
    → ltb 0 size ≡ true
    → decode_loop (suc fuel) ptr size p ≡ after_round fuel (type_round (read_u32 ptr) ptr size p)
unfolding decode_loop decode_round
decode_loop-suc fuel ptr size p more = rw more refl

-- The loops agree on what is left after a round.
abbrev Agree : ℕ → Type 0
Agree fuel =
    (ptr : List ℕ) (size : ℕ) (bytes : List ℕ)
    → Holds bytes
    → members_of (fill_loop fuel ptr size bytes) ≡ decode_loop fuel ptr size (props_of bytes)

after_step-members :
    (fuel : ℕ) (s : Step)
    → Agree fuel
    → Whole s
    → members_of (after_step fuel s) ≡ after_round fuel (round_of s)
after_step-members fuel (written bytes ptr size) loop w = loop ptr size bytes w
after_step-members fuel throws loop w = refl
after_step-members fuel reads_past loop w = refl

fill_loop-suc-members :
    (fuel : ℕ) (ptr : List ℕ) (size : ℕ) (bytes : List ℕ)
    → Agree fuel
    → Holds bytes
    → ltb 0 size ≡ true
    → members_of (fill_loop (suc fuel) ptr size bytes)
      ≡ decode_loop (suc fuel) ptr size (props_of bytes)
fill_loop-suc-members fuel ptr size bytes loop h more =
    let (whole, same) = type_step-Same (read_u32 ptr) ptr size bytes h in
    ap members_of (fill_loop-suc fuel ptr size bytes more)
    ∙ after_step-members fuel (type_step (read_u32 ptr) ptr size bytes) loop whole
    ∙ ap (after_round fuel) same
    ∙ sym (decode_loop-suc fuel ptr size (props_of bytes) more)

fill_loop-members : (fuel : ℕ) → Agree fuel
unfolding fill_loop decode_loop
fill_loop-members zero ptr size bytes h = elim (Bool-cases (ltb 0 size)) [
  | inl more ↦ rw more refl
  | inr ends ↦ rw ends refl
]
fill_loop-members (suc fuel) ptr size bytes h = elim (Bool-cases (ltb 0 size)) [
  | inl more ↦ fill_loop-suc-members fuel ptr size bytes (fill_loop-members fuel) h more
  | inr ends ↦ rw ends refl
]

-- Whatever the buffer holds and whatever size is claimed for it: the loop that stores through pointers into
-- the bytes of the structure ends as the one that stores into the members does, in an exception, in a read
-- past the end or with a structure, and the members that its bytes then hold are the ones of the other.
pub fill_props-members :
    (buffer : List ℕ) (size : ℕ) → members_of (fill_props buffer size) ≡ decode_props buffer size
unfolding fill_props decode_props load
fill_props-members buffer size =
    fill_loop-members size buffer size (replicate (sizeof gpu_props) 0) refl
