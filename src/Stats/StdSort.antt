-- ===== src/Stats/StdSort.antt =====
-- instruments_stats.cpp, `sort_indices`: `std::sort` as the standard describes it.
use hwcpipe.Common.{◌≡◌, ℕ, Bool, true, false, List, [], ◌∷◌, All}
use mathlib.Core.List.{Permᴰ, Memᴰ}

-- A comparison that is a strict weak order on the entries of a list: `std::sort` asks for it.
abbrev pub StrictWeak : (ℕ → ℕ → Bool) → List ℕ → Type 0
StrictWeak less xs =
    (a b c : ℕ)
    → Memᴰ a xs
    → Memᴰ b xs
    → Memᴰ c xs
    → (less a a ≡ false)
      × (less a b ≡ true → less b c ≡ true → less a c ≡ true)
      × (less a b ≡ false → less b c ≡ false → less a c ≡ false)

-- No entry is less than one before it.
abbrev pub Ascending : (ℕ → ℕ → Bool) → List ℕ → Type 0
Ascending less [] = Unit
Ascending less (x ∷ xs) = All (λ y. less y x ≡ false) xs × Ascending less xs

-- Nothing is said of the order of equivalent entries, nor of comparisons that are no strict weak order.
pub record Sorting : Type 0 where
  pub sort : (ℕ → ℕ → Bool) → List ℕ → List ℕ
  pub sort-Permᴰ :
      (less : ℕ → ℕ → Bool) (xs : List ℕ) → StrictWeak less xs → Permᴰ (sort less xs) xs
  pub sort-Ascending :
      (less : ℕ → ℕ → Bool) (xs : List ℕ) → StrictWeak less xs → Ascending less (sort less xs)
