-- ===== src/Names/Products/Found.antt =====
-- What holds of every entry of the products table holds of the product that is found.
use hwcpipe.Common.{ℕ, ◌≡◌, subst, inl, inr, List, [], ◌∷◌, some, arith, Bool-cases, All}
use hwcpipe.Names.Products.{CounterMapping, products, matches, find_if, find_product}

find_if-All {ℓ} :
    (P : CounterMapping → Type ℓ) (cms : List CounterMapping) (g : ℕ) (cm : CounterMapping)
    → find_if cms g ≡ some cm
    → All P cms
    → P cm
unfolding find_if
find_if-All P [] g cm e ps = absurd (cc)
find_if-All P (c ∷ cms) g cm e ps = elim (Bool-cases (matches g c)) [
  | inl hit ↦ let same : c ≡ cm = ground arith in subst P same ps.0
  | inr miss ↦ find_if-All P cms g cm (ground arith) ps.1
]

-- What holds of every entry of the table holds of the product that is found.
pub find_product-All {ℓ} :
    (P : CounterMapping → Type ℓ) (g : ℕ) (cm : CounterMapping)
    → find_product g ≡ some cm
    → All P products
    → P cm
unfolding find_product
find_product-All P g cm e ps = find_if-All P products g cm e ps
