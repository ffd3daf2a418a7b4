-- ===== src/Mali/GpuProps/RoundTrip.antt =====
-- The decoder reads back every buffer that is in the format.
use mathlib.Core.Path.{ap₂}
use hwcpipe.Common.{
  ℕ, zero, suc, ◌+◌, ◌-◌, ◌*◌, ◌/◌, ◌^◌, ◌≤◌, ◌<◌, ◌≡◌, refl, ap, ◌∙◌, List, [], ◌∷◌, ◌++◌, Option,
  some, arith, length, length-append, All, drop, lt→ltb, bit_and,
}
use hwcpipe.Common.Bits.{bit_and_three}
use hwcpipe.Mali.GpuProps.{GpuProps, zero_props, store_property}
use hwcpipe.Mali.GpuProps.Reads.Laws.{
  read_u8-le_bytes, read_u16-le_bytes, read_u32-le_bytes, read_u64-le_bytes,
}
use hwcpipe.Mali.GpuProps.Encode.{
  Property, IsValid, width, le_bytes, encode_property, encode, store_all,
}
use hwcpipe.Mali.GpuProps.Stores.{store_property-total}
use hwcpipe.Mali.GpuProps.Decode.{
  props, stored, read_value, store_round, value_round, type_round, decode_round, decode_loop,
  decode_props,
}

read_value-le_bytes :
    (value_type value : ℕ) (rest : List ℕ)
    → value_type < 4
    → value < 2 ^ (8 * width value_type)
    → read_value value_type (le_bytes (width value_type) value ++ rest)
      ≡ some (value, width value_type)
unfolding read_value
read_value-le_bytes zero value rest h k = rw (read_u8-le_bytes value rest k)
read_value-le_bytes (suc zero) value rest h k = rw (read_u16-le_bytes value rest k)
read_value-le_bytes (suc (suc zero)) value rest h k = rw (read_u32-le_bytes value rest k)
read_value-le_bytes (suc (suc (suc zero))) value rest h k = rw (read_u64-le_bytes value rest k)
read_value-le_bytes (suc (suc (suc (suc n)))) value rest h k = absurd (omega arith)

length-le_bytes : (n v : ℕ) → length (le_bytes n v) ≡ n
length-le_bytes zero v = refl
length-le_bytes (suc n) v = ap suc (length-le_bytes n (v / 256))

drop-le_bytes : (n v : ℕ) (rest : List ℕ) → drop n (le_bytes n v ++ rest) ≡ rest
drop-le_bytes zero v rest = refl
drop-le_bytes (suc n) v rest = drop-le_bytes n (v / 256) rest

-- A property that is read is stored under its type, and taken off the buffer.
value_round-encode :
    (x : Property) (rest : List ℕ) (n type : ℕ) (p : GpuProps)
    → IsValid x
    → type ≡ x.prop_type * 4 + x.value_type
    → let bytes = le_bytes (width x.value_type) x.value ++ rest in
      value_round type (read_value (bit_and type 3) bytes) bytes n p
      ≡ store_round (store_property x.prop_type x.value p) rest (n - width x.value_type)
unfolding value_round
value_round-encode x rest n type p v e =
    let low : bit_and type 3 ≡ x.value_type = omega (arith, bit_and_three type) in
    let high : type / 4 ≡ x.prop_type = omega arith in
    rw (
      low,
      read_value-le_bytes x.value_type x.value rest v.size_known v.value_fits,
      high,
      drop-le_bytes (width x.value_type) x.value rest,
    )

pub decode_round-encode :
    (x : Property) (rest : List ℕ) (n : ℕ) (p : GpuProps)
    → IsValid x
    → decode_round (encode_property x ++ rest) n p
      ≡ store_round (store_property x.prop_type x.value p) rest (n - 4 - width x.value_type)
unfolding decode_round
decode_round-encode x rest n p v =
    let type = x.prop_type * 4 + x.value_type in
    let bytes = le_bytes (width x.value_type) x.value ++ rest in
    ap (λ (r : Option ℕ). type_round r (le_bytes 4 type ++ bytes) n p)
      (read_u32-le_bytes type bytes (omega arith))
    ∙ value_round-encode x rest (n - 4) type p v refl

length-encode :
    (x : Property) (xs : List Property)
    → length (encode (x ∷ xs)) ≡ 4 + width x.value_type + length (encode xs)
length-encode x xs = omega (
  arith,
  length-append (le_bytes (width x.value_type) x.value) (encode xs),
  length-le_bytes (width x.value_type) x.value,
)

pub decode_loop_step :
    (fuel : ℕ) (ptr : List ℕ) (n : ℕ) (p q : GpuProps) (ptr' : List ℕ) (n' : ℕ)
    → 0 < n
    → decode_round ptr n p ≡ stored q ptr' n'
    → decode_loop (suc fuel) ptr n p ≡ decode_loop fuel ptr' n' q
unfolding decode_loop
decode_loop_step fuel ptr n p q ptr' n' some_left e = rw (lt→ltb 0 n some_left, e)

decode_loop-encode :
    (xs : List Property) (fuel : ℕ) (p : GpuProps)
    → All IsValid xs
    → length (encode xs) ≤ fuel
    → (q : GpuProps) × (store_all xs p ≡ some q)
      × (decode_loop fuel (encode xs) (length (encode xs)) p ≡ props q)
unfolding decode_loop store_round
decode_loop-encode [] zero p v enough = (p, refl, refl)
decode_loop-encode [] (suc fuel) p v enough = (p, refl, refl)
decode_loop-encode (x ∷ xs) zero p v enough = absurd (omega arith)
decode_loop-encode (x ∷ xs) (suc fuel) p v enough =
    let n = length (encode (x ∷ xs)) in
    let (q, stores) = store_property-total x.prop_type x.value p in
    let (last, all_stored, ends) =
      decode_loop-encode xs fuel q v.1 (omega (arith, length-encode x xs)) in
    let left : n - 4 - width x.value_type ≡ length (encode xs) =
      omega (arith, length-encode x xs) in
    (
      last,
      rw stores all_stored,
      decode_loop_step fuel (encode (x ∷ xs)) n p q (encode xs) (length (encode xs)) (omega arith) (
            decode_round-encode x (encode xs) n p v.0
            ∙ ap₂ (λ (r : Option GpuProps) (m : ℕ). store_round r (encode xs) m) stores left)
          ∙ ends,
    )

-- The decoder reads back every list of properties that is in the format: it stores them one after the
-- other, over zeroes.
pub decode_props-encode :
    (xs : List Property)
    → All IsValid xs
    → (q : GpuProps) × (store_all xs zero_props ≡ some q)
      × (decode_props (encode xs) (length (encode xs)) ≡ props q)
unfolding decode_props
decode_props-encode xs v = decode_loop-encode xs (length (encode xs)) zero_props v (omega arith)
