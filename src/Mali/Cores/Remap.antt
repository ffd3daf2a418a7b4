-- ===== src/Mali/Cores/Remap.antt =====
-- The loop that fills `_core_index_remap` ends, and lists the positions of the ones of the mask.
use hwcpipe.Common.{
  ℕ, zero, suc, ◌+◌, ◌-◌, ◌/◌, ◌%◌, ◌^◌, ◌≤◌, ◌<◌, ◌≡◌, refl, ap, sym, ◌∙◌, ◌≢◌, List, [], ◌∷◌,
  ◌++◌, Option, some, arith, false, All, All-map, length, ◌==◌, append-nil, append_assoc,
}
use hwcpipe.Mali.Cores.Positions.{Ascending, set_bits-Ascending, set_bits-OneAt}
use native.Mathlib.Nat.{sub-zero}
use native.Mathlib.Decide.{ℕ_discrete}
use hwcpipe.Mali.Cores.{popcount, ctz, remap_loop, core_index_remap, mp_count}
use hwcpipe.Mali.Cores.Bits.{
  set_bits, halves, length-set_bits, set_bits_lowest, set_bits-zero, clear_bit-ctz,
}

popcount-ctz : (w m : ℕ) → m < 2 ^ w → m ≢ 0 → popcount w m ≡ suc (popcount w (m - 2 ^ ctz w m))
popcount-ctz w m h nz = omega (
  arith,
  length-set_bits w 0 m,
  length-set_bits w 0 (m - 2 ^ ctz w m),
  ap length (set_bits_lowest w m h nz),
)

done_at_zero :
    (w : ℕ) (remap : List ℕ)
    → ◌≡◌ {A = Option (List ℕ)} (some remap) (some (remap ++ set_bits w 0 0))
done_at_zero w remap = simp (set_bits-zero, append-nil)

-- With a round for each one of the mask, the loop appends their positions and stops.
remap_loop-set_bits :
    (w fuel m : ℕ) (remap : List ℕ)
    → m < 2 ^ w
    → popcount w m ≤ fuel
    → remap_loop w fuel m remap ≡ some (remap ++ set_bits w 0 m)
unfolding remap_loop
remap_loop-set_bits w zero m remap h enough = elim (ℕ_discrete m 0) [
  | yes z ↦ rw z (done_at_zero w remap)
  | no nz ↦ absurd (omega (arith, popcount-ctz w m h nz))
]
remap_loop-set_bits w (suc fuel) m remap h enough = elim (ℕ_discrete m 0) [
  | yes z ↦ rw z (done_at_zero w remap)
  | no nz ↦
      let next : m == 0 ≡ false = ground arith in
      rw (next, clear_bit-ctz w m h nz)
        (remap_loop-set_bits w fuel (m - 2 ^ ctz w m) (remap ++ ctz w m ∷ []) (omega arith)
            (omega (arith, popcount-ctz w m h nz))
          ∙ ap some (
              append_assoc remap (ctz w m ∷ []) (set_bits w 0 (m - 2 ^ ctz w m))
              ∙ ap (λ (r : List ℕ). remap ++ r) (sym (set_bits_lowest w m h nz))))
]

popcount-le : (w m : ℕ) → popcount w m ≤ w
unfolding popcount
popcount-le zero m = omega arith
popcount-le (suc w) m = omega (arith, popcount-le w (m / 2))

popcount-zero : (w : ℕ) → popcount w 0 ≡ 0
unfolding popcount
popcount-zero zero = refl
popcount-zero (suc w) = omega (arith, popcount-zero w)

-- The bits above a word add nothing to its count.
popcount-add : (w v m : ℕ) → m < 2 ^ w → popcount (w + v) m ≡ popcount w m
unfolding popcount
popcount-add zero v m h = let z : m ≡ 0 = omega arith in rw (z, popcount-zero (0 + v))
popcount-add (suc w) v m h =
    let e : suc w + v ≡ suc (w + v) = omega arith in
    rw e (omega (arith, popcount-add w v (m / 2) (halves w m h)))

one_positions : (m : ℕ) → All (λ b. (b < 32) × (m / 2 ^ b % 2 ≡ 1)) (set_bits 32 0 m)
one_positions m =
    All-map (λ b o. (omega (arith, o), simp sub-zero at (o.2))) (set_bits 32 0 m)
      (set_bits-OneAt 32 0 m)

-- The remap table of a 32-bit core mask is filled within the fuel; it has as many entries as
-- `get_mali_hw_info` counts cores, they rise, and each is the position of a one of the mask.
pub core_index_remap_lem :
    (m : ℕ)
    → m < 2 ^ 32
    → (remap : List ℕ) × (core_index_remap m ≡ some remap)
      × (length remap ≡ mp_count m)
      × Ascending 0 remap
      × All (λ b. (b < 32) × (m / 2 ^ b % 2 ≡ 1)) remap
unfolding core_index_remap mp_count
core_index_remap_lem m h = (
  set_bits 32 0 m,
  remap_loop-set_bits 32 32 m [] h (popcount-le 32 m),
  length-set_bits 32 0 m ∙ sym (popcount-add 32 32 m h),
  set_bits-Ascending 32 0 m,
  one_positions m,
)

-- No core mask has more than 32 cores.
pub mp_count-le : (m : ℕ) → m < 2 ^ 32 → mp_count m ≤ 32
unfolding mp_count
mp_count-le m h = omega (arith, popcount-add 32 32 m h, popcount-le 32 m)
