-- ===== src/Mali/Cores/Positions.antt =====
-- What the list of the positions of a mask's ones is: it rises, and holds ones only.
use native.Mathlib.Nat.{div-div-eq-div-mul, pow-succ'}
use hwcpipe.Common.{
  ℕ, zero, suc, ◌+◌, ◌-◌, ◌/◌, ◌%◌, ◌^◌, ◌≤◌, ◌<◌, ◌≡◌, ap, sym, ◌∙◌, List, [], ◌∷◌, arith, ◌==◌,
  Bool-cases, inl, inr, All, All-map,
}
use hwcpipe.Mali.Cores.Bits.{set_bits}

-- From `lo` on, and each above the one before.
abbrev pub Ascending : ℕ → List ℕ → Type 0
Ascending lo [] = Unit {0}
Ascending lo (x ∷ xs) = (lo ≤ x) × Ascending (suc x) xs

Ascending-mono : (a b : ℕ) (xs : List ℕ) → a ≤ b → Ascending b xs → Ascending a xs
Ascending-mono a b [] h t = tt
Ascending-mono a b (x ∷ xs) h t = (omega arith, t.1)

pub set_bits-Ascending : (w base m : ℕ) → Ascending base (set_bits w base m)
unfolding set_bits
set_bits-Ascending zero base m = tt
set_bits-Ascending (suc w) base m = elim (Bool-cases (m % 2 == 1)) [
  | inl one ↦ rw one (
    omega arith,
    Ascending-mono (suc base) (base + 1) _ (omega arith) (set_bits-Ascending w (base + 1) (m / 2)),
  )
  | inr other ↦
      rw other
        (Ascending-mono base (base + 1) _ (omega arith) (set_bits-Ascending w (base + 1) (m / 2)))
]

-- `b` is the position, plus `base`, of a one among the low `w` bits of `m`.
abbrev pub OneAt : ℕ → ℕ → ℕ → ℕ → Type 0
OneAt w base m b = (base ≤ b) × (b < base + w) × (m / 2 ^ (b - base) % 2 ≡ 1)

shifted : (m b base : ℕ) → base + 1 ≤ b → m / 2 ^ (b - base) ≡ m / 2 / 2 ^ (b - (base + 1))
shifted m b base lo =
    ap (λ (k : ℕ). m / 2 ^ k) (omega arith)
    ∙ ap (λ (p : ℕ). m / p) (pow-succ' 2 (b - (base + 1)))
    ∙ sym (div-div-eq-div-mul m 2 (2 ^ (b - (base + 1))))

lowest : (w base m : ℕ) → m % 2 ≡ 1 → OneAt (suc w) base m base
lowest w base m e =
    let here : base - base ≡ 0 = omega arith in rw here (omega arith, omega arith, omega arith)

OneAt-suc : (w base m b : ℕ) → OneAt w (base + 1) (m / 2) b → OneAt (suc w) base m b
OneAt-suc w base m b (lo, hi, one) =
    (omega arith, omega arith, ap (λ (q : ℕ). q % 2) (shifted m b base lo) ∙ one)

pub set_bits-OneAt : (w base m : ℕ) → All (OneAt w base m) (set_bits w base m)
unfolding set_bits
set_bits-OneAt zero base m = tt
set_bits-OneAt (suc w) base m =
    let rest = All-map (λ b o. OneAt-suc w base m b o) _ (set_bits-OneAt w (base + 1) (m / 2)) in
    elim (Bool-cases (m % 2 == 1)) [
      | inl one ↦ rw one (lowest w base m (ground arith), rest)
      | inr other ↦ rw other rest
    ]
