-- ===== src/Stats/Sums.antt =====
-- The sums and quotients of instruments_stats.cpp over integers, with a bound under which none of them
-- leaves the range of a `long long`.
use hwcpipe.Common.{
  arith, ℕ, suc, ◌+◌, ◌*◌, ◌/◌, ◌≤◌, ◌<◌, ◌^◌, ◌≡◌, ◌∙◌, List, [], ◌∷◌, All, length,
}
use hwcpipe.Common.Int.{
  ℤ, pos, negsuc, pos_part, neg_part, ◌+ℤ◌, ◌-ℤ◌, ◌*ℤ◌, ◌≤ℤ◌, int_laws, +ℤ_parts, wrap64, InRange64,
  wrap64-InRange64, quot_ℤ,
}
use native.Mathlib.Nat.{mul-le-mul, div-le_of_le-mul, le-div_iff_mul-le}
use hwcpipe.Stats.Constructed.{wrapped_sum, wrapped_squares}

abbrev pub magnitude : ℤ → ℕ
magnitude z = pos_part z + neg_part z

abbrev pub Within : ℕ → List ℤ → Type 0
Within bound cs = All (λ c. magnitude c ≤ bound) cs

unfoldable pub sum : List ℤ → ℤ
sum [] = pos 0
sum (c ∷ cs) = c +ℤ sum cs

unfoldable pub sum_of_squares : List ℤ → ℤ
sum_of_squares [] = pos 0
sum_of_squares (d ∷ ds) = d *ℤ d +ℤ sum_of_squares ds

InRange64-of_magnitude : (z : ℤ) → magnitude z < 2 ^ 63 → InRange64 z
InRange64-of_magnitude (pos n) h = (omega arith, omega arith)
InRange64-of_magnitude (negsuc n) h = (omega arith, omega arith)

pub wrap64_of_magnitude : (z : ℤ) → magnitude z < 2 ^ 63 → wrap64 z ≡ z
wrap64_of_magnitude z h = wrap64-InRange64 z (InRange64-of_magnitude z h)

magnitude_add : (a b : ℤ) → magnitude (a +ℤ b) ≤ magnitude a + magnitude b
unfolding ◌+ℤ◌
magnitude_add a b = ground arith

pub magnitude_sub : (a b : ℤ) → magnitude (a -ℤ b) ≤ magnitude a + magnitude b
unfolding ◌-ℤ◌
magnitude_sub a b = ground arith

mul_mono : (a b c d : ℕ) → a ≤ c → b ≤ d → a * b ≤ c * d
mul_mono a b c d h k = mul-le-mul h k

pub magnitude_square :
    (d : ℤ) (bound : ℕ) → magnitude d ≤ bound → magnitude (d *ℤ d) ≤ bound * bound
unfolding ◌*ℤ◌
magnitude_square (pos n) bound h =
    grind (arith, mul_mono n n bound bound (omega arith) (omega arith))
magnitude_square (negsuc n) bound h =
    grind (arith, mul_mono (suc n) (suc n) bound bound (omega arith) (omega arith))

pub wrapped_sum-sum :
    (bound : ℕ) (a : ℤ) (cs : List ℤ)
    → Within bound cs
    → magnitude a + length cs * bound < 2 ^ 63
    → wrapped_sum a cs ≡ a +ℤ sum cs
unfolding wrapped_sum sum
wrapped_sum-sum bound a [] h l = omega int_laws
wrapped_sum-sum bound a (c ∷ cs) h l =
    let room : magnitude c + magnitude a + length cs * bound < 2 ^ 63 = omega (arith, h.0) in
    let exact : wrap64 (c +ℤ a) ≡ c +ℤ a =
      wrap64_of_magnitude (c +ℤ a) (omega (arith, magnitude_add c a)) in
    let rest = wrapped_sum-sum bound (c +ℤ a) cs h.1 (omega (arith, magnitude_add c a)) in
    rw exact (rest ∙ omega int_laws)

pub wrapped_squares-sum :
    (bound : ℕ) (a : ℤ) (ds : List ℤ)
    → Within bound ds
    → magnitude a + length ds * (bound * bound) < 2 ^ 63
    → wrapped_squares a ds ≡ a +ℤ sum_of_squares ds
unfolding wrapped_squares sum_of_squares
wrapped_squares-sum bound a [] h l = omega int_laws
wrapped_squares-sum bound a (d ∷ ds) h l =
    let square = magnitude_square d bound h.0 in
    let more = magnitude_add (d *ℤ d) a in
    let exact : wrap64 (d *ℤ d) ≡ d *ℤ d = wrap64_of_magnitude (d *ℤ d) (omega (arith, square)) in
    let exact' : wrap64 (d *ℤ d +ℤ a) ≡ d *ℤ d +ℤ a =
      wrap64_of_magnitude (d *ℤ d +ℤ a) (omega (arith, square, more)) in
    let rest = wrapped_squares-sum bound (d *ℤ d +ℤ a) ds h.1 (omega (arith, square, more)) in
    rw (exact, exact') (rest ∙ omega int_laws)

pub magnitude-sum :
    (bound : ℕ) (cs : List ℤ) → Within bound cs → magnitude (sum cs) ≤ length cs * bound
unfolding sum
magnitude-sum bound [] h = omega arith
magnitude-sum bound (c ∷ cs) h =
    omega (arith, h.0, magnitude_add c (sum cs), magnitude-sum bound cs h.1)

pub magnitude-sum_of_squares :
    (bound : ℕ) (ds : List ℤ)
    → Within bound ds
    → magnitude (sum_of_squares ds) ≤ length ds * (bound * bound)
unfolding sum_of_squares
magnitude-sum_of_squares bound [] h = omega arith
magnitude-sum_of_squares bound (d ∷ ds) h = omega (
  arith,
  magnitude_square d bound h.0,
  magnitude_add (d *ℤ d) (sum_of_squares ds),
  magnitude-sum_of_squares bound ds h.1,
)

-- The quotient is between two numbers when the total is between their multiples.
module _ (n : ℕ) (positive : 0 < n) where
  pub quot_ℤ-ge :
      (total lo : ℤ)
      → neg_part total + n * pos_part lo ≤ pos_part total + n * neg_part lo
      → lo ≤ℤ quot_ℤ total (pos n)
  unfolding quot_ℤ
  quot_ℤ-ge (pos p) (pos l) h =
      let q : l ≤ p / n = (le-div_iff_mul-le positive).1 (omega arith) in ground (arith, q)
  quot_ℤ-ge (pos p) (negsuc l) h = ground arith
  quot_ℤ-ge (negsuc p) (pos l) h = absurd (omega arith)
  quot_ℤ-ge (negsuc p) (negsuc l) h =
      let q : suc p / n ≤ suc l = div-le_of_le-mul n (omega arith) in ground (arith, q)

  pub quot_ℤ-le :
      (total hi : ℤ)
      → pos_part total + n * neg_part hi ≤ neg_part total + n * pos_part hi
      → quot_ℤ total (pos n) ≤ℤ hi
  unfolding quot_ℤ
  quot_ℤ-le (pos p) (pos l) h =
      let q : p / n ≤ l = div-le_of_le-mul n (omega arith) in ground (arith, q)
  quot_ℤ-le (pos p) (negsuc l) h = absurd (omega arith)
  quot_ℤ-le (negsuc p) (pos l) h = ground arith
  quot_ℤ-le (negsuc p) (negsuc l) h =
      let q : suc l ≤ suc p / n = (le-div_iff_mul-le positive).1 (omega arith) in ground (arith, q)

  pub magnitude_quot :
      (bound : ℕ) (total : ℤ)
      → magnitude total ≤ n * bound
      → magnitude (quot_ℤ total (pos n)) ≤ bound
  unfolding quot_ℤ
  magnitude_quot bound (pos p) h =
      let q : p / n ≤ bound = div-le_of_le-mul n (omega arith) in ground (arith, q)
  magnitude_quot bound (negsuc p) h =
      let q : suc p / n ≤ bound = div-le_of_le-mul n (omega arith) in ground (arith, q)

-- A sum is between the multiples of bounds of its terms.
pub sum-ge :
    (lo : ℤ) (cs : List ℤ)
    → All (λ c. lo ≤ℤ c) cs
    → neg_part (sum cs) + length cs * pos_part lo ≤ pos_part (sum cs) + length cs * neg_part lo
unfolding sum
sum-ge lo [] h = omega arith
sum-ge lo (c ∷ cs) h = omega (arith, h.0, +ℤ_parts c (sum cs), sum-ge lo cs h.1)

pub sum-le :
    (hi : ℤ) (cs : List ℤ)
    → All (λ c. c ≤ℤ hi) cs
    → pos_part (sum cs) + length cs * neg_part hi ≤ neg_part (sum cs) + length cs * pos_part hi
unfolding sum
sum-le hi [] h = omega arith
sum-le hi (c ∷ cs) h = omega (arith, h.0, +ℤ_parts c (sum cs), sum-le hi cs h.1)
