-- ===== src/Common/Bits.antt =====
-- The native bit operations at variables: the law for the lowest digit, and what follows from it for
-- shifted fields and masks.
use Prim.Native.Nat.{
  ℕ, zero, suc, ◌+◌, ◌-◌, ◌*◌, ◌/◌, ◌%◌, ◌^◌, ◌≤◌, ◌<◌, min, max, bit_and, bit_or, digits,
  bit_and-bitwise, bit_or-bitwise,
}
use mathlib.Core.Path.{◌≡◌, refl, ap, ◌∙◌}
use native.Mathlib.Nat.{pow-suc, one-le-pow}
use native.Mathlib.Omega.{arith}

-- A call of `digits` has fuel enough for the first word: another unit of it changes nothing.
module _ (rest : ℕ → ℕ) (join : ℕ → ℕ → ℕ) where
  one_unit : (n x y : ℕ) → x ≤ n → digits rest join (suc n) x y ≡ digits rest join n x y
  one_unit zero zero y h = refl
  one_unit zero (suc x) y h = absurd (omega arith)
  one_unit (suc n) zero y h = refl
  one_unit (suc n) (suc x) y h = omega (arith, one_unit n (suc x / 2) (y / 2) (omega arith))

  units : (k n x y : ℕ) → x ≤ n → digits rest join (k + n) x y ≡ digits rest join n x y
  units zero n x y h = ap (λ (m : ℕ). digits rest join m x y) (omega arith)
  units (suc k) n x y h =
      let e : suc k + n ≡ suc (k + n) = omega arith in
      ap (λ (m : ℕ). digits rest join m x y) e
      ∙ one_unit (k + n) x y (omega arith)
      ∙ units k n x y h

  -- What is left after the lowest digit of `suc a`, on the fuel that its half asks for.
  half_fuel :
      (a y : ℕ) → digits rest join a (suc a / 2) y ≡ digits rest join (suc a / 2) (suc a / 2) y
  half_fuel a y =
      ap (λ (m : ℕ). digits rest join m (suc a / 2) y) (omega arith)
      ∙ units (a - suc a / 2) (suc a / 2) (suc a / 2) y (omega arith)

-- The lowest digit of an `and` is that of the words, and the others are the `and` of their halves.
pub bit_and_step : (a b : ℕ) → bit_and a b ≡ bit_and (a / 2) (b / 2) * 2 + min (a % 2) (b % 2)
bit_and_step zero b = omega (arith, bit_and-bitwise zero b, bit_and-bitwise zero (b / 2))
bit_and_step (suc a) b =
    let halved = half_fuel (λ y. 0) min a (b / 2) in
    omega (arith, halved, bit_and-bitwise (suc a) b, bit_and-bitwise (suc a / 2) (b / 2))

pub bit_or_step : (a b : ℕ) → bit_or a b ≡ bit_or (a / 2) (b / 2) * 2 + max (a % 2) (b % 2)
bit_or_step zero b = omega (arith, bit_or-bitwise zero b, bit_or-bitwise zero (b / 2))
bit_or_step (suc a) b =
    let halved = half_fuel (λ y. y) max a (b / 2) in
    omega (arith, halved, bit_or-bitwise (suc a) b, bit_or-bitwise (suc a / 2) (b / 2))

-- Both operations with a word of zeroes, by recursion below a bound.
with_zero : (bound a : ℕ) → a < bound → (bit_or a 0 ≡ a) × (bit_and a 0 ≡ 0)
with_zero zero a h = absurd (omega arith)
with_zero (suc bound) zero h = (refl, refl)
with_zero (suc bound) (suc a) h =
    let below = with_zero bound (suc a / 2) (omega arith) in
    (omega (arith, below.0, bit_or_step (suc a) 0), omega (arith, below.1, bit_and_step (suc a) 0))

pub bit_and-zero : (a : ℕ) → bit_and a 0 ≡ 0
bit_and-zero a = (with_zero (suc a) a (omega arith)).1

-- `type & 3`.
pub bit_and_three : (a : ℕ) → bit_and a 3 ≡ a % 4
bit_and_three a = omega (arith, bit_and_step a 3, bit_and_step (a / 2) 1, bit_and-zero (a / 2 / 2))

-- A field in the low `k` bits, joined with one above it, is a sum.
pub bit_or_shifted : (k lo hi : ℕ) → lo < 2 ^ k → bit_or lo (hi * 2 ^ k) ≡ lo + hi * 2 ^ k
bit_or_shifted zero zero hi h = omega (arith, bit_or-bitwise 0 (hi * 1))
bit_or_shifted zero (suc lo) hi h = absurd (omega arith)
bit_or_shifted (suc k) lo hi h = omega (
  arith,
  pow-suc 2 k,
  ap (λ (t : ℕ). hi * t) (pow-suc 2 k),
  bit_or_step lo (hi * 2 ^ suc k),
  ap (λ (t : ℕ). bit_or (lo / 2) t) (half_shifted k hi),
  bit_or_shifted k (lo / 2) hi (half_fits k lo h),
)
  where
    half_shifted : (k hi : ℕ) → hi * 2 ^ suc k / 2 ≡ hi * 2 ^ k
    half_shifted k hi = omega (arith, ap (λ (t : ℕ). hi * t) (pow-suc 2 k))

    half_fits : (k lo : ℕ) → lo < 2 ^ suc k → lo / 2 < 2 ^ k
    half_fits k lo h = omega (arith, pow-suc 2 k)

-- A mask of `w` ones keeps a word of `w` bits.
pub bit_and_ones : (w a : ℕ) → a < 2 ^ w → bit_and a (2 ^ w - 1) ≡ a
bit_and_ones zero zero h = refl
bit_and_ones zero (suc a) h = absurd (omega arith)
bit_and_ones (suc w) a h = omega (
  arith,
  pow-suc 2 w,
  one-le-pow w 2,
  bit_and_step a (2 ^ suc w - 1),
  ap (λ (t : ℕ). bit_and (a / 2) t) (half_ones w),
  bit_and_ones w (a / 2) (half_fits w a h),
)
  where
    half_ones : (w : ℕ) → (2 ^ suc w - 1) / 2 ≡ 2 ^ w - 1
    half_ones w = omega (arith, pow-suc 2 w, one-le-pow w 2)

    half_fits : (w a : ℕ) → a < 2 ^ suc w → a / 2 < 2 ^ w
    half_fits w a h = omega (arith, pow-suc 2 w)

bit_or-lt_half : (w a : ℕ) → a < 2 ^ suc w → a / 2 < 2 ^ w
bit_or-lt_half w a h = omega (arith, pow-suc 2 w)

bit_and_comm_fuel : (n a b : ℕ) → a ≤ n → bit_and a b ≡ bit_and b a
bit_and_comm_fuel n zero b h = omega (arith, bit_and-bitwise 0 b, bit_and-zero b)
bit_and_comm_fuel zero (suc a) b h = absurd (omega arith)
bit_and_comm_fuel (suc n) (suc a) b h = omega (
  arith,
  bit_and_step (suc a) b,
  bit_and_step b (suc a),
  bit_and_comm_fuel n (suc a / 2) (b / 2) (omega arith),
)

pub bit_and_comm : (a b : ℕ) → bit_and a b ≡ bit_and b a
bit_and_comm a b = bit_and_comm_fuel a a b (omega arith)

-- A mask of `w` bits does not see what stands above them.
pub bit_and_shifted :
    (w m r q : ℕ) → m < 2 ^ w → r < 2 ^ w → bit_and m (r + q * 2 ^ w) ≡ bit_and m r
bit_and_shifted zero zero zero q h k = omega (arith, bit_and-bitwise 0 (0 + q * 1))
bit_and_shifted zero zero (suc r) q h k = absurd (omega arith)
bit_and_shifted zero (suc m) r q h k = absurd (omega arith)
bit_and_shifted (suc w) m r q h k = omega (
  arith,
  ap (λ (t : ℕ). q * t) (pow-suc 2 w),
  bit_and_step m (r + q * 2 ^ suc w),
  bit_and_step m r,
  ap (λ (t : ℕ). bit_and (m / 2) t) (half_sum w r q),
  bit_and_shifted w (m / 2) (r / 2) q (bit_or-lt_half w m h) (bit_or-lt_half w r k),
)
  where
    half_sum : (w r q : ℕ) → (r + q * 2 ^ suc w) / 2 ≡ r / 2 + q * 2 ^ w
    half_sum w r q = omega (arith, ap (λ (t : ℕ). q * t) (pow-suc 2 w))
