-- ===== src/Mali/HwInfo/Masks.antt =====
-- The mask that `get_mali_hw_info` reports has the ones of the masks of the groups.
use Prim.Native.Nat.{max}
use mathlib.Core.Option.{some-injective}
use native.Mathlib.Nat.{
  div-add-mod, mul_assoc, mod-lt, pow-suc, one-le-pow, add-mul-mod_self_left, mod-eq_of_lt,
}
use hwcpipe.Common.{
  ℕ, zero, suc, ◌+◌, ◌*◌, ◌/◌, ◌%◌, ◌^◌, ◌<◌, ◌≡◌, refl, ap, ◌∙◌, List, [], ◌∷◌, some, arith,
  bit_or, get_or,
}
use hwcpipe.Common.Bits.{bit_or_step}
use hwcpipe.Mali.HwInfo.{or_masks}

-- The bit at position `b`.
abbrev pub bit : ℕ → ℕ → ℕ
bit zero n = n % 2
bit (suc b) n = bit b (n / 2)

bit-bit_or : (b x y : ℕ) → bit b (bit_or x y) ≡ max (bit b x) (bit b y)
bit-bit_or zero x y = omega (arith, bit_or_step x y)
bit-bit_or (suc b) x y =
    let halved : bit_or x y / 2 ≡ bit_or (x / 2) (y / 2) = omega (arith, bit_or_step x y) in
    ap (bit b) halved ∙ bit-bit_or b (x / 2) (y / 2)

split_mod : (v m : ℕ) → 0 < m → v % (2 * m) ≡ v % 2 + 2 * (v / 2 % m)
split_mod v m h =
    let q = v / 2 in
    let x = v % 2 + 2 * (q % m) in
    let parts : v ≡ x + 2 * m * (q / m) = omega (arith, div-add-mod q m, mul_assoc 2 m (q / m)) in
    let small : x < 2 * m = omega (arith, mod-lt q h) in
    ap (λ w. w % (2 * m)) parts ∙ add-mul-mod_self_left x (2 * m) (q / m) ∙ mod-eq_of_lt small

halves : (w x : ℕ) → x % 2 ^ suc w ≡ x % 2 + 2 * (x / 2 % 2 ^ w)
halves w x =
    ap (λ n. x % n) (pow-suc 2 w ∙ omega arith) ∙ split_mod x (2 ^ w) (one-le-pow w 2 (omega arith))

-- A word keeps its low bits.
bit-cut : (b w x : ℕ) → b < w → bit b (x % 2 ^ w) ≡ bit b x
bit-cut b zero x h = absurd (omega arith)
bit-cut zero (suc w) x h = omega (arith, halves w x)
bit-cut (suc b) (suc w) x h =
    let shifted : x % 2 ^ suc w / 2 ≡ x / 2 % 2 ^ w = omega (arith, halves w x) in
    ap (bit b) shifted ∙ bit-cut b w (x / 2) (omega arith)

-- The greatest bit at position `b` of the first `n` masks.
abbrev pub any_bit : ℕ → ℕ → (ℕ → ℕ) → ℕ
any_bit b zero mask = 0
any_bit b (suc n) mask = max (bit b (mask 0)) (any_bit b n (λ j. mask (suc j)))

pub any_bit-ap :
    (b n : ℕ) (f g : ℕ → ℕ) → ((j : ℕ) → j < n → f j ≡ g j) → any_bit b n f ≡ any_bit b n g
any_bit-ap b zero f g h = refl
any_bit-ap b (suc n) f g h =
    ap (λ x. max (bit b x) (any_bit b n (λ j. f (suc j)))) (h 0 (omega arith))
    ∙ ap (max (bit b (g 0)))
        (any_bit-ap b n (λ j. f (suc j)) (λ j. g (suc j)) (λ j lt. h (suc j) (omega arith)))

or_masks-bit :
    (b n : ℕ) (ms : List ℕ) (acc r : ℕ)
    → b < 32
    → or_masks n ms acc ≡ some r
    → bit b r ≡ max (bit b acc) (any_bit b n (λ j. get_or ms j 0))
unfolding or_masks
or_masks-bit b zero ms acc r h e = omega (arith, ap (bit b) (some-injective acc r e))
or_masks-bit b (suc n) [] acc r h e = absurd (cc)
or_masks-bit b (suc n) (m ∷ ms) acc r h e =
    let rest = any_bit b n (λ j. get_or ms j 0) in
    let first = bit-cut b 32 (bit_or acc m) h ∙ bit-bit_or b acc m in
    omega (arith, or_masks-bit b n ms (bit_or acc m % 2 ^ 32) r h e, first)

zero_bit : (b : ℕ) → bit b 0 ≡ 0
zero_bit zero = refl
zero_bit (suc b) = zero_bit b

-- A bit of the mask is one when it is one in one of the groups' masks.
pub or_masks-any_bit :
    (b n : ℕ) (ms : List ℕ) (r : ℕ)
    → b < 32
    → or_masks n ms 0 ≡ some r
    → bit b r ≡ any_bit b n (λ j. get_or ms j 0)
or_masks-any_bit b n ms r h e = omega (arith, or_masks-bit b n ms 0 r h e, zero_bit b)
