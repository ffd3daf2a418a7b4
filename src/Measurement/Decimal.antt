-- ===== src/Measurement/Decimal.antt =====
-- The decimal text of a `long long`, as an output stream of the standard library writes it.
use hwcpipe.Common.{ℕ, zero, suc, ◌+◌, ◌/◌, ◌%◌, List, [], ◌∷◌, ◌++◌, ltb, if◌then◌else◌}
use hwcpipe.Common.Int.{ℤ, pos, negsuc}

-- The fuel bounds the digits.
pub show_digits : ℕ → ℕ → List ℕ
show_digits zero n = []
show_digits (suc fuel) n =
    let front = show_digits fuel (n / 10) in
    if ltb n 10 then (b'0' + n) ∷ [] else front ++ (b'0' + n % 10) ∷ []

unfoldable pub show_nat : ℕ → List ℕ
unfolding show_digits
show_nat n = show_digits (suc n) n

unfoldable pub show_integer : ℤ → List ℕ
unfolding show_nat
show_integer (pos n) = show_nat n
show_integer (negsuc n) = b'-' ∷ show_nat (suc n)
