-- ===== src/Common/Perms.antt =====
-- Rearrangements: how often a test holds on the entries of a list, and what every entry satisfies.
use Prim.Native.Nat.{ℕ, suc, ◌+◌, ◌≤◌}
use mathlib.Core.Path.{◌≡◌, refl, ap, subst, sym, ◌∙◌}
use mathlib.Core.Bool.{Bool, true, false}
use mathlib.Core.List.{List, [], ◌∷◌, map, Permᴰ, Memᴰ}
use native.Mathlib.Omega.{arith}
use hwcpipe.Common.Lists.{All, length}
use hwcpipe.Common.Tests.{if◌then◌else◌}

module _ {ℓ} {A : Type ℓ} where
  -- How many entries pass the test.
  abbrev pub count : (A → Bool) → List A → ℕ
  count p [] = 0
  count p (x ∷ xs) = (if p x then 1 else 0) + count p xs

  pub count-Permᴰ : (p : A → Bool) {xs ys : List A} → Permᴰ xs ys → count p xs ≡ count p ys
  count-Permᴰ p Permᴰ.nil = refl
  count-Permᴰ p (Permᴰ.cons e d) = let rest = count-Permᴰ p d in cc
  count-Permᴰ p (Permᴰ.swap {a = a} {b = b} {a' = a'} {b' = b'} {l = l} e f) =
      let g : p a ≡ p b' = ap p e in let h : p b ≡ p a' = ap p f in ground (arith, g, h)
  count-Permᴰ p (Permᴰ.trans d e) = count-Permᴰ p d ∙ count-Permᴰ p e

  pub length-Permᴰ : {xs ys : List A} → Permᴰ xs ys → length xs ≡ length ys
  length-Permᴰ Permᴰ.nil = refl
  length-Permᴰ (Permᴰ.cons e d) = ap suc (length-Permᴰ d)
  length-Permᴰ (Permᴰ.swap e f) = refl
  length-Permᴰ (Permᴰ.trans d e) = length-Permᴰ d ∙ length-Permᴰ e

  pub All-Memᴰ {κ} : (P : A → Type κ) {a : A} {xs : List A} → All P xs → Memᴰ a xs → P a
  All-Memᴰ P h (Memᴰ.head e) = subst P (sym e) h.0
  All-Memᴰ P h (Memᴰ.tail m) = All-Memᴰ P h.1 m

  pub All-of_Memᴰ {κ} : (P : A → Type κ) (xs : List A) → ((a : A) → Memᴰ a xs → P a) → All P xs
  All-of_Memᴰ P [] h = tt
  All-of_Memᴰ P (x ∷ xs) h = (h x (Memᴰ.head refl), All-of_Memᴰ P xs (λ a m. h a (Memᴰ.tail m)))

  -- What holds of every entry still does after a rearrangement.
  pub All-Permᴰ {κ} : (P : A → Type κ) {xs ys : List A} → Permᴰ xs ys → All P ys → All P xs
  All-Permᴰ P Permᴰ.nil h = tt
  All-Permᴰ P (Permᴰ.cons e d) h = (subst P (sym e) h.0, All-Permᴰ P d h.1)
  All-Permᴰ P (Permᴰ.swap e f) h = (subst P (sym e) h.1.0, (subst P (sym f) h.0, h.1.1))
  All-Permᴰ P (Permᴰ.trans d e) h = All-Permᴰ P d (All-Permᴰ P e h)

pub Permᴰ-map {ℓ κ} :
    {A : Type ℓ} {B : Type κ} (f : A → B) {xs ys : List A}
    → Permᴰ xs ys
    → Permᴰ (map f xs) (map f ys)
Permᴰ-map f Permᴰ.nil = Permᴰ.nil
Permᴰ-map f (Permᴰ.cons e d) = Permᴰ.cons (ap f e) (Permᴰ-map f d)
Permᴰ-map f (Permᴰ.swap e g) = Permᴰ.swap (ap f e) (ap f g)
Permᴰ-map f (Permᴰ.trans d e) = Permᴰ.trans (Permᴰ-map f d) (Permᴰ-map f e)

-- A test that holds on no entry.
pub count-zero {ℓ} :
    {A : Type ℓ} (p : A → Bool) (xs : List A) → count p xs ≤ 0 → All (λ a. p a ≡ false) xs
count-zero p [] h = tt
count-zero p (x ∷ xs) h = (ground arith, count-zero p xs (ground arith))

-- A weaker test passes at least as often.
pub count-le {ℓ} :
    {A : Type ℓ} (p q : A → Bool)
    → ((a : A) → p a ≡ true → q a ≡ true)
    → (xs : List A) → count p xs ≤ count q xs
count-le p q h [] = omega arith
count-le p q h (x ∷ xs) =
    let here : p x ≡ true → q x ≡ true = h x in let rest = count-le p q h xs in ground (arith)

-- An entry passes a test or its opposite.
pub count-split {ℓ} :
    {A : Type ℓ} (p q : A → Bool)
    → ((a : A) → p a ≡ false → q a ≡ true)
    → (xs : List A) → length xs ≤ count p xs + count q xs
count-split p q h [] = omega arith
count-split p q h (x ∷ xs) =
    let here : p x ≡ false → q x ≡ true = h x in let rest = count-split p q h xs in ground (arith)
