-- ===== src/Measurement/Values.antt =====
-- measurement.h, `Measurement::Value`: a union of a `double` and a `long long`, with a flag that says
-- which of the two is stored.
use hwcpipe.Common.{ℕ, ◌≡◌, Bool, true, false, List, Option, none, some, if◌then◌else◌}
use hwcpipe.Common.Int.{ℤ, pos, ◌+ℤ◌, ◌-ℤ◌, ◌*ℤ◌, ltb_ℤ, eq_ℤ, wrap64, quot_ℤ}

-- The type `double` and the operations that the code uses: `of_bits` and `bits` read and write the 64
-- bits that the union shares, as the `long long` that they stand for.
pub record Floating : Type 1 where
  pub Double : Type 0
  pub bits : Double → ℤ
  pub of_bits : ℤ → Double
  pub add : Double → Double → Double
  pub sub : Double → Double → Double
  pub mul : Double → Double → Double
  pub div : Double → Double → Double
  pub less : Double → Double → Bool
  pub of_integer : ℤ → Double
  pub sqrt : Double → Double
  pub show_fixed4 : Double → List ℕ
  pub of_bits-bits : (d : Double) → of_bits (bits d) ≡ d
  pub bits-zero : bits (of_integer (pos 0)) ≡ pos 0

-- `cell` is the union.
pub record Value : Type 0 where
  pub cell : ℤ
  pub is_floating_point : Bool

-- `Value(bool)`: the union is 0 for either member.
abbrev pub new_value : Bool → Value
new_value is_floating = record { cell = pos 0; is_floating_point = is_floating }

abbrev pub set_integer : ℤ → Value → Value
set_integer n v = record v { cell = n }

module _ (fl : Floating) where
  open fl use {Double, bits, of_bits, add, sub, mul, div, less, of_integer, sqrt}

  abbrev pub set_floating_point : Double → Value → Value
  set_floating_point d v = record v { cell = bits d }

  abbrev floating_point : Value → Double
  floating_point v = of_bits v.cell

  -- `operator+`: the right operand is a copy, into which the sum goes; its own flag stays.
  unfoldable pub plus : Value → Value → Value
  plus a b =
      if a.is_floating_point
      then set_floating_point (add (floating_point b) (floating_point a)) b
      else set_integer (wrap64 (b.cell +ℤ a.cell)) b

  -- `operator-`: what is taken away is the left operand, from the right one.
  unfoldable pub minus : Value → Value → Value
  minus a b =
      if a.is_floating_point
      then set_floating_point (sub (floating_point b) (floating_point a)) b
      else set_integer (wrap64 (b.cell -ℤ a.cell)) b

  unfoldable pub times : Value → Value → Value
  times a b =
      if a.is_floating_point
      then set_floating_point (mul (floating_point b) (floating_point a)) b
      else set_integer (wrap64 (b.cell *ℤ a.cell)) b

  -- `operator/` by an `int`; `none` is an integer division by 0.
  unfoldable pub over : Value → ℤ → Option Value
  over a b =
      if a.is_floating_point
      then some (set_floating_point (div (floating_point a) (of_integer b)) (new_value true))
      else if eq_ℤ b (pos 0)
      then none
      else some (set_integer (wrap64 (quot_ℤ a.cell b)) (new_value false))

  -- `operator-=`, which changes the left operand.
  unfoldable pub minus_assign : Value → Value → Value
  minus_assign a b =
      if a.is_floating_point
      then set_floating_point (sub (floating_point a) (floating_point b)) a
      else set_integer (wrap64 (a.cell -ℤ b.cell)) a

  -- `operator<`: the left operand's flag chooses the member of both.
  unfoldable pub less_than : Value → Value → Bool
  less_than a b =
      if a.is_floating_point
      then less (floating_point a) (floating_point b)
      else ltb_ℤ a.cell b.cell

  -- As a percentage; the variance's flag chooses.
  unfoldable pub relative_standard_deviation : Value → Value → Double
  relative_standard_deviation variance mean =
      let hundred = of_integer (pos 100) in
      if variance.is_floating_point
      then div (mul hundred (sqrt (floating_point variance))) (floating_point mean)
      else div (mul hundred (sqrt (of_integer variance.cell))) (of_integer mean.cell)
