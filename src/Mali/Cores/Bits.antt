-- ===== src/Mali/Cores/Bits.antt =====
-- The positions of the ones of a mask, counted from the lowest bit, and how the operations on masks
-- act on them.
use native.Mathlib.Nat.{pow-suc, one-le-pow}
use mathlib.Core.Path.{ap₂}
use hwcpipe.Common.{
  ℕ, zero, suc, ◌+◌, ◌-◌, ◌/◌, ◌%◌, ◌^◌, ◌≤◌, ◌<◌, ◌≡◌, ◌≢◌, refl, ap, sym, ◌∙◌, List, [], ◌∷◌,
  arith, length, bit_and, ◌==◌, if◌then◌else◌, Bool-cases, inl, inr,
}
use hwcpipe.Common.Bits.{bit_and_step, bit_and_ones}
use hwcpipe.Mali.Cores.{popcount, ctz, clear_bit}

-- The ones among the low `w` bits of `m`, each as its position plus `base`.
unfoldable pub set_bits : ℕ → ℕ → ℕ → List ℕ
set_bits zero base m = []
set_bits (suc w) base m =
    if m % 2 == 1 then base ∷ set_bits w (base + 1) (m / 2) else set_bits w (base + 1) (m / 2)

pub length-set_bits : (w base m : ℕ) → length (set_bits w base m) ≡ popcount w m
unfolding set_bits popcount
length-set_bits zero base m = refl
length-set_bits (suc w) base m = ground (arith, length-set_bits w (base + 1) (m / 2))

pub halves : (w m : ℕ) → m < 2 ^ suc w → m / 2 < 2 ^ w
halves w m h = omega (arith, pow-suc 2 w)

pub ctz-lt : (w m : ℕ) → m < 2 ^ w → m ≢ 0 → ctz w m < w
unfolding ctz
ctz-lt zero m h k = absurd (k (omega arith))
ctz-lt (suc w) m h k = ground (arith, ctz-lt w (m / 2) (halves w m h))

-- The lowest one is at most the mask.
pub two-pow-ctz-le : (w m : ℕ) → m < 2 ^ w → m ≢ 0 → 2 ^ ctz w m ≤ m
unfolding ctz
two-pow-ctz-le zero m h k = absurd (k (omega arith))
two-pow-ctz-le (suc w) m h k =
    ground (arith, two-pow-ctz-le w (m / 2) (halves w m h), pow-suc 2 (ctz w (m / 2)))

low_mask : (w : ℕ) → ((2 ^ suc w - 1 - 1) / 2 ≡ 2 ^ w - 1) × ((2 ^ suc w - 1 - 1) % 2 ≡ 0)
low_mask w = omega (arith, pow-suc 2 w, one-le-pow w 2)

high_mask :
    (w c : ℕ)
    → 2 ^ c < 2 ^ w
    → ((2 ^ suc w - 1 - 2 ^ suc c) / 2 ≡ 2 ^ w - 1 - 2 ^ c) × ((2 ^ suc w - 1 - 2 ^ suc c) % 2 ≡ 1)
high_mask w c h = omega (arith, pow-suc 2 w, pow-suc 2 c)

clear_odd : (w m : ℕ) → m < 2 ^ suc w → m % 2 ≡ 1 → clear_bit (suc w) m 0 ≡ m - 1
unfolding clear_bit
clear_odd w m h odd = omega (
  arith,
  bit_and_step m (2 ^ suc w - 1 - 1),
  low_mask w,
  ap (bit_and (m / 2)) (low_mask w).0,
  bit_and_ones w (m / 2) (halves w m h),
)

clear_even :
    (w m c : ℕ)
    → 2 ^ c < 2 ^ w
    → m % 2 ≡ 0
    → clear_bit w (m / 2) c ≡ m / 2 - 2 ^ c
    → clear_bit (suc w) m (suc c) ≡ m - 2 ^ suc c
unfolding clear_bit
clear_even w m c h even ih = omega (
  arith,
  bit_and_step m (2 ^ suc w - 1 - 2 ^ suc c),
  high_mask w c h,
  ap (bit_and (m / 2)) (high_mask w c h).0,
  pow-suc 2 c,
  ih,
)

-- Clearing the lowest one takes it away, and touches no other bit.
pub clear_bit-ctz : (w m : ℕ) → m < 2 ^ w → m ≢ 0 → clear_bit w m (ctz w m) ≡ m - 2 ^ ctz w m
unfolding clear_bit ctz
clear_bit-ctz zero m h k = absurd (k (omega arith))
clear_bit-ctz (suc w) m h k = elim (Bool-cases (m % 2 == 1)) [
  | inl odd ↦ rw odd (clear_odd w m h (ground arith))
  | inr even ↦ rw even (
      clear_even w m (ctz w (m / 2))
        (omega (arith, two-pow-ctz-le w (m / 2) (halves w m h) (ground arith), halves w m h))
        (ground arith) (clear_bit-ctz w (m / 2) (halves w m h) (ground arith)))
]

set_bits_even :
    (w base n q : ℕ) → n % 2 ≡ 0 → n / 2 ≡ q → set_bits (suc w) base n ≡ set_bits w (base + 1) q
unfolding set_bits
set_bits_even w base n q e h = ground (arith, ap (set_bits w (base + 1)) h)

set_bits_odd :
    (w base n : ℕ) → n % 2 ≡ 1 → set_bits (suc w) base n ≡ base ∷ set_bits w (base + 1) (n / 2)
unfolding set_bits
set_bits_odd w base n e = ground arith

half_cleared :
    (m c : ℕ) → m % 2 ≡ 0 → ((m - 2 ^ suc c) % 2 ≡ 0) × ((m - 2 ^ suc c) / 2 ≡ m / 2 - 2 ^ c)
half_cleared m c e = omega (arith, pow-suc 2 c)

-- The lowest one comes first, and the others are those of the mask without it.
pub set_bits-ctz :
    (w base m : ℕ)
    → m < 2 ^ w
    → m ≢ 0
    → set_bits w base m ≡ (base + ctz w m) ∷ set_bits w base (m - 2 ^ ctz w m)
unfolding ctz
set_bits-ctz zero base m h k = absurd (k (omega arith))
set_bits-ctz (suc w) base m h k = elim (Bool-cases (m % 2 == 1)) [
  | inl odd ↦
      let e : m % 2 ≡ 1 = ground arith in
      rw odd (
        set_bits_odd w base m e
        ∙ ap₂ (λ (b : ℕ) (r : List ℕ). b ∷ r) (omega arith)
            (sym (set_bits_even w base (m - 1) (m / 2) (omega arith) (omega arith))))
  | inr even ↦
      let e : m % 2 ≡ 0 = ground arith in
      let c = ctz w (m / 2) in
      rw even (
        set_bits_even w base m (m / 2) e refl
        ∙ set_bits-ctz w (base + 1) (m / 2) (halves w m h) (ground arith)
        ∙ ap₂ (λ (b : ℕ) (r : List ℕ). b ∷ r) (omega arith)
            (sym (
              set_bits_even w base (m - 2 ^ suc c) (m / 2 - 2 ^ c) (half_cleared m c e).0
                (half_cleared m c e).1)))
]

pub set_bits-zero : (w base : ℕ) → set_bits w base 0 ≡ []
unfolding set_bits
set_bits-zero zero base = refl
set_bits-zero (suc w) base = set_bits-zero w (base + 1)

pub set_bits_lowest :
    (w m : ℕ) → m < 2 ^ w → m ≢ 0 → set_bits w 0 m ≡ ctz w m ∷ set_bits w 0 (m - 2 ^ ctz w m)
set_bits_lowest w m h k =
    set_bits-ctz w 0 m h k ∙ ap (λ (b : ℕ). b ∷ set_bits w 0 (m - 2 ^ ctz w m)) (omega arith)
