-- ===== src/Stats/Ranks.antt =====
-- Positions in an ascending list of integers, by how many entries are below and above.
use hwcpipe.Common.{
  Bool-cases, inl, inr, true, false, ◌-◌, arith, ℕ, zero, suc, ◌+◌, ◌≤◌, ◌<◌, ◌≡◌, subst, List, [],
  ◌∷◌, some, All, get_elem?, get_elem?-All, length,
}
use hwcpipe.Common.Int.{ℤ, eq_of_parts, ltb_ℤ, ◌≤ℤ◌}
use hwcpipe.Common.Perms.{count, count-split, count-zero, count-Permᴰ, length-Permᴰ}
use mathlib.Core.List.{Permᴰ}

abbrev pub Ordered : List ℤ → Type 0
Ordered [] = Unit
Ordered (x ∷ xs) = All (λ y. x ≤ℤ y) xs × Ordered xs

abbrev pub below : ℤ → List ℤ → ℕ
below c cs = count (λ y. ltb_ℤ y c) cs

abbrev pub above : ℤ → List ℤ → ℕ
above c cs = count (λ y. ltb_ℤ c y) cs

-- The value that a sorted list has at position `k`: at most `k` entries are smaller, and the entries that
-- are larger have places behind it.
abbrev pub HasRank : List ℤ → ℕ → ℤ → Type 0
HasRank cs k c = (below c cs ≤ k) × (k + above c cs < length cs)

below_least : (c : ℤ) (cs : List ℤ) → All (λ y. c ≤ℤ y) cs → below c cs ≤ 0
below_least c [] h = omega arith
below_least c (x ∷ xs) h =
    let here : c ≤ℤ x = h.0 in let rest = below_least c xs h.1 in ground arith

above_bound : (c : ℤ) (cs : List ℤ) → above c cs ≤ length cs
above_bound c [] = omega arith
above_bound c (x ∷ xs) = let rest = above_bound c xs in ground arith

pub Ordered-HasRank :
    (cs : List ℤ) (k : ℕ) (c : ℤ) → Ordered cs → get_elem? cs k ≡ some c → HasRank cs k c
Ordered-HasRank [] k c h e = absurd (cc)
Ordered-HasRank (x ∷ xs) zero c h e =
    let same : x ≡ c = cc in
    let least = below_least c xs (subst (λ y. All (λ z. y ≤ℤ z) xs) same h.0) in
    let most = above_bound c xs in ground arith
Ordered-HasRank (x ∷ xs) (suc k) c h e =
    let rest = Ordered-HasRank xs k c h.1 e in
    let later : x ≤ℤ c = get_elem?-All (λ y. x ≤ℤ y) xs k c e h.0 in ground arith

-- Ranks do not see the order of a list.
pub HasRank-Permᴰ : {cs ds : List ℤ} (c : ℤ) (k : ℕ) → Permᴰ cs ds → HasRank cs k c → HasRank ds k c
HasRank-Permᴰ c k p h =
    let smaller = count-Permᴰ (λ y. ltb_ℤ y c) p in
    let larger = count-Permᴰ (λ y. ltb_ℤ c y) p in
    let size = length-Permᴰ p in (omega (arith, smaller, h.0), omega (arith, larger, size, h.1))

not_both : (cs : List ℤ) (k : ℕ) (c d : ℤ) → HasRank cs k c → HasRank cs k d → ltb_ℤ c d ≡ true → ⊥
not_both cs k c d h g l =
    let one_side : (y : ℤ) → ltb_ℤ y d ≡ false → ltb_ℤ c y ≡ true = (λ y n. ground arith) in
    let all = count-split (λ y. ltb_ℤ y d) (λ y. ltb_ℤ c y) one_side cs in
    omega (arith, h.1, g.0, all)

-- A rank determines the value.
pub HasRank-unique : (cs : List ℤ) (k : ℕ) (c d : ℤ) → HasRank cs k c → HasRank cs k d → c ≡ d
HasRank-unique cs k c d h g = elim (Bool-cases (ltb_ℤ c d)) [
  | inl l ↦ absurd (not_both cs k c d h g l)
  | inr l ↦ elim (Bool-cases (ltb_ℤ d c)) [
    | inl m ↦ absurd (not_both cs k d c g h m)
    | inr m ↦ eq_of_parts c d (ground arith)
  ]
]

-- The value of rank 0 is below all, and the one of the last rank above.
pub HasRank-extremes :
    (cs : List ℤ) (lo hi : ℤ)
    → HasRank cs 0 lo
    → HasRank cs (length cs - 1) hi
    → All (λ c. (lo ≤ℤ c) × (c ≤ℤ hi)) cs
HasRank-extremes cs lo hi h g =
    let low = count-zero (λ y. ltb_ℤ y lo) cs h.0 in
    let high = count-zero (λ y. ltb_ℤ hi y) cs (omega (arith, g.1)) in All-zip cs low high
  where
    within : (c : ℤ) → ltb_ℤ c lo ≡ false → ltb_ℤ hi c ≡ false → (lo ≤ℤ c) × (c ≤ℤ hi)
    within c l r = (ground arith, ground arith)

    All-zip :
        (ds : List ℤ)
        → All (λ c. ltb_ℤ c lo ≡ false) ds
        → All (λ c. ltb_ℤ hi c ≡ false) ds
        → All (λ c. (lo ≤ℤ c) × (c ≤ℤ hi)) ds
    All-zip [] l r = tt
    All-zip (d ∷ ds) l r = (within d l.0 r.0, All-zip ds l.1 r.1)
