-- ===== src/Mali/GpuProps/Truncated.antt =====
-- A buffer that is cut short inside of a property is read past its end.
use mathlib.Core.Path.{ap₂}
use hwcpipe.Common.{
  ℕ, zero, suc, ◌+◌, ◌-◌, ◌*◌, ◌/◌, ◌≤◌, ◌<◌, ◌≡◌, refl, ap, ◌∙◌, sym, subst, List, [], ◌∷◌, ◌++◌,
  Option, none, arith, length, append_assoc, length-append, length-take, All, take, lt→ltb, bit_and,
}
use hwcpipe.Common.Bits.{bit_and_three}
use hwcpipe.Mali.GpuProps.{GpuProps, zero_props}
use hwcpipe.Mali.GpuProps.Reads.{read_u8, read_u16, read_u32, read_u64}
use hwcpipe.Mali.GpuProps.Reads.Laws.{read_u32-le_bytes}
use hwcpipe.Mali.GpuProps.Stores.{store_property-total}
use hwcpipe.Mali.GpuProps.Encode.{Property, IsValid, width, le_bytes, encode_property, encode}
use hwcpipe.Mali.GpuProps.RoundTrip.{decode_round-encode, decode_loop_step}
use hwcpipe.Mali.GpuProps.Decode.{
  overread, past_end, read_value, store_round, value_round, type_round, decode_round, decode_loop,
  decode_props,
}

read_u16-short : (p : List ℕ) → length p < 2 → read_u16 p ≡ none
unfolding read_u16
read_u16-short [] h = refl
read_u16-short (a ∷ []) h = refl
read_u16-short (a ∷ b ∷ p) h = absurd (omega arith)

read_u32-short : (p : List ℕ) → length p < 4 → read_u32 p ≡ none
unfolding read_u32
read_u32-short [] h = refl
read_u32-short (a ∷ []) h = refl
read_u32-short (a ∷ b ∷ []) h = refl
read_u32-short (a ∷ b ∷ c ∷ []) h = refl
read_u32-short (a ∷ b ∷ c ∷ d ∷ p) h = absurd (omega arith)

read_u64-short : (p : List ℕ) → length p < 8 → read_u64 p ≡ none
unfolding read_u64
read_u64-short [] h = refl
read_u64-short (a ∷ []) h = refl
read_u64-short (a ∷ b ∷ []) h = refl
read_u64-short (a ∷ b ∷ c ∷ []) h = refl
read_u64-short (a ∷ b ∷ c ∷ d ∷ []) h = refl
read_u64-short (a ∷ b ∷ c ∷ d ∷ e ∷ []) h = refl
read_u64-short (a ∷ b ∷ c ∷ d ∷ e ∷ f ∷ []) h = refl
read_u64-short (a ∷ b ∷ c ∷ d ∷ e ∷ f ∷ g ∷ []) h = refl
read_u64-short (a ∷ b ∷ c ∷ d ∷ e ∷ f ∷ g ∷ i ∷ p) h = absurd (omega arith)

read_value-short :
    (value_type : ℕ) (p : List ℕ)
    → value_type < 4
    → length p < width value_type
    → read_value value_type p ≡ none
unfolding read_value read_u8
read_value-short zero [] h k = refl
read_value-short zero (a ∷ p) h k = absurd (omega arith)
read_value-short (suc zero) p h k = rw (read_u16-short p k)
read_value-short (suc (suc zero)) p h k = rw (read_u32-short p k)
read_value-short (suc (suc (suc zero))) p h k = rw (read_u64-short p k)
read_value-short (suc (suc (suc (suc n)))) p h k = absurd (omega arith)

length-le_bytes : (n v : ℕ) → length (le_bytes n v) ≡ n
length-le_bytes zero v = refl
length-le_bytes (suc n) v = ap suc (length-le_bytes n (v / 256))

value_round-short :
    (type value_type : ℕ) (rest : List ℕ) (n : ℕ) (p : GpuProps)
    → bit_and type 3 ≡ value_type
    → value_type < 4
    → length rest < width value_type
    → value_round type (read_value (bit_and type 3) rest) rest n p ≡ past_end
unfolding value_round
value_round-short type value_type rest n p low k h = rw (low, read_value-short value_type rest k h)

-- A round on the type of a property, behind which its value is cut short.
type_round-short :
    (x : Property) (p : GpuProps) (n : ℕ) (rest : List ℕ)
    → IsValid x
    → length rest < width x.value_type
    → decode_round (le_bytes 4 (x.prop_type * 4 + x.value_type) ++ rest) n p ≡ past_end
unfolding decode_round type_round value_round
type_round-short x p n rest v h =
    let type = x.prop_type * 4 + x.value_type in
    let low : bit_and type 3 ≡ x.value_type = omega (arith, bit_and_three type) in
    ap (λ (r : Option ℕ). type_round r (le_bytes 4 type ++ rest) n p)
      (read_u32-le_bytes type rest (omega (arith, v.type_fits, v.size_known)))
    ∙ value_round-short type x.value_type rest (n - 4) p low v.size_known h

-- The first `n` bytes of a property, and no more.
decode_round-cut :
    (x : Property) (n size : ℕ) (p : GpuProps)
    → IsValid x
    → n < length (encode_property x)
    → decode_round (take n (encode_property x)) size p ≡ past_end
unfolding decode_round type_round
decode_round-cut x zero size p v h = refl
decode_round-cut x (suc zero) size p v h = refl
decode_round-cut x (suc (suc zero)) size p v h = refl
decode_round-cut x (suc (suc (suc zero))) size p v h = refl
decode_round-cut x (suc (suc (suc (suc n)))) size p v h =
    let value = le_bytes (width x.value_type) x.value in
    type_round-short x p size (take n value) v
      (omega (arith, length-take n value, length-le_bytes (width x.value_type) x.value))

decode_loop_past :
    (fuel : ℕ) (ptr : List ℕ) (n : ℕ) (p : GpuProps)
    → 0 < n
    → decode_round ptr n p ≡ past_end
    → decode_loop (suc fuel) ptr n p ≡ overread
unfolding decode_loop
decode_loop_past fuel ptr n p some_left e = rw (lt→ltb 0 n some_left, e)

module _ (x : Property) (n : ℕ) (v : IsValid x) (some_left : 0 < n)
    (cut : n < length (encode_property x)) where
  abbrev cut_short : List Property → List ℕ
  cut_short [] = take n (encode_property x)
  cut_short (y ∷ ys) = encode_property y ++ cut_short ys

  decode_loop-cut :
      (xs : List Property) (fuel : ℕ) (p : GpuProps)
      → All IsValid xs
      → length (cut_short xs) ≤ fuel
      → decode_loop fuel (cut_short xs) (length (cut_short xs)) p ≡ overread
  unfolding store_round
  decode_loop-cut [] zero p vs enough = absurd (omega (arith, length-take n (encode_property x)))
  decode_loop-cut [] (suc fuel) p vs enough =
      decode_loop_past fuel (cut_short []) (length (cut_short [])) p
        (omega (arith, length-take n (encode_property x)))
        (decode_round-cut x n (length (cut_short [])) p v cut)
  decode_loop-cut (y ∷ ys) zero p vs enough = absurd (omega arith)
  decode_loop-cut (y ∷ ys) (suc fuel) p vs enough =
      let rest = cut_short ys in
      let size = length (cut_short (y ∷ ys)) in
      let value = le_bytes (width y.value_type) y.value in
      let (q, stores) = store_property-total y.prop_type y.value p in
      let left : size - 4 - width y.value_type ≡ length rest =
        omega (arith, length-append value rest, length-le_bytes (width y.value_type) y.value) in
      decode_loop_step fuel (cut_short (y ∷ ys)) size p q rest (length rest) (omega arith) (
        decode_round-encode y rest size p vs.0
        ∙ ap₂ (λ (r : Option GpuProps) (m : ℕ). store_round r rest m) stores left)
      ∙ decode_loop-cut ys fuel q vs.1
          (omega (arith, length-append value rest, length-le_bytes (width y.value_type) y.value))

  cut_short-append : (xs : List Property) → cut_short xs ≡ encode xs ++ take n (encode_property x)
  cut_short-append [] = refl
  cut_short-append (y ∷ ys) =
      ap (λ (bytes : List ℕ). encode_property y ++ bytes) (cut_short-append ys)
      ∙ sym (append_assoc (encode_property y) (encode ys) (take n (encode_property x)))

-- A buffer that holds properties in the format and ends inside of one more, behind its first byte and before
-- its last, is read past its end.
pub decode_props-cut :
    (xs : List Property) (x : Property) (n : ℕ)
    → All IsValid xs
    → IsValid x
    → 0 < n
    → n < length (encode_property x)
    → let bytes = encode xs ++ take n (encode_property x) in
      decode_props bytes (length bytes) ≡ overread
unfolding decode_props
decode_props-cut xs x n vs v some_left cut =
    subst (λ bytes. decode_loop (length bytes) bytes (length bytes) zero_props ≡ overread)
      (cut_short-append x n v some_left cut xs)
      (decode_loop-cut x n v some_left cut xs (length (cut_short x n v some_left cut xs)) zero_props
        vs (omega arith))
