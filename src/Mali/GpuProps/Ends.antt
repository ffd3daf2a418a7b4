-- ===== src/Mali/GpuProps/Ends.antt =====
-- The decoder ends on every buffer, with the properties or in a read past the end of the buffer.
use hwcpipe.Common.{
  ℕ, zero, suc, ◌-◌, ◌≤◌, ◌≡◌, refl, List, Option, none, some, arith, ltb, bit_and, drop, ◌⊎◌, inl,
  inr, ◌/◌, Bool-cases,
}
use hwcpipe.Mali.GpuProps.{GpuProps, zero_props}
use hwcpipe.Mali.GpuProps.Stores.{store_property-total}
use hwcpipe.Mali.GpuProps.Reads.{read_u32}
use hwcpipe.Mali.GpuProps.Decode.{
  Decoded, props, overread, Round, stored, past_end, read_value, store_round, value_round,
  type_round, decode_round, decode_loop, decode_props,
}

abbrev Ends : Decoded → Type 0
Ends r = ((q : GpuProps) × (r ≡ props q)) ⊎ (r ≡ overread)

-- A round either reads past the end or leaves a size that is less.
abbrev Shrinks : ℕ → Round → Type 0
Shrinks n r =
    (r ≡ past_end)
    ⊎ ((q : GpuProps) × (ptr : List ℕ) × (m : ℕ) × (r ≡ stored q ptr m) × (m ≤ n - 4))

value_round-Shrinks :
    (type : ℕ) (r : Option (ℕ × ℕ)) (ptr : List ℕ) (n : ℕ) (p : GpuProps)
    → Shrinks n (value_round type r ptr (n - 4) p)
unfolding value_round store_round
value_round-Shrinks type none ptr n p = inl refl
value_round-Shrinks type (some (value, k)) ptr n p =
    let (q, e) = store_property-total (type / 4) value p in
    inr (q, drop k ptr, n - 4 - k, rw e, omega arith)

decode_round-Shrinks : (ptr : List ℕ) (n : ℕ) (p : GpuProps) → Shrinks n (decode_round ptr n p)
unfolding decode_round
decode_round-Shrinks ptr n p = by_type (read_u32 ptr)
  where
    by_type : (r : Option ℕ) → Shrinks n (type_round r ptr n p)
    by_type none = inl refl
    by_type (some type) =
        value_round-Shrinks type (read_value (bit_and type 3) (drop 4 ptr)) (drop 4 ptr) n p

decode_loop-Ends :
    (fuel : ℕ) (ptr : List ℕ) (n : ℕ) (p : GpuProps) → n ≤ fuel → Ends (decode_loop fuel ptr n p)
unfolding decode_loop
decode_loop-Ends zero ptr n p enough = inl (p, ground arith)
decode_loop-Ends (suc fuel) ptr n p enough = elim (Bool-cases (ltb 0 n)) [
  | inr over ↦ inl (p, rw over)
  | inl more ↦ elim (decode_round-Shrinks ptr n p) [
    | inl past ↦ inr (rw (more, past))
    | inr (q, ptr', m, e, less) ↦ rw (more, e) (decode_loop-Ends fuel ptr' m q (ground arith))
  ]
]

-- Whatever the buffer holds and whatever size is claimed for it, the fuel is enough and no size is
-- invalid: the loop ends with the properties or in a read past the end of the buffer.
pub decode_props-Ends :
    (buffer : List ℕ) (size : ℕ)
    → ((q : GpuProps) × (decode_props buffer size ≡ props q))
      ⊎ (decode_props buffer size ≡ overread)
unfolding decode_props
decode_props-Ends buffer size = decode_loop-Ends size buffer size zero_props (omega arith)
