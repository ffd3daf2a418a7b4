-- ===== src/Common/Text.antt =====
-- Text as the list of its character codes, and `strstr`.
use Prim.Native.Char.{code}
use Prim.Native.Nat.{ℕ}
use Prim.Native.String.{String}
use mathlib.Core.Path.{◌≡◌, refl}
use mathlib.Core.Bool.{Bool, true, false, ◌&&◌, ◌||◌}
use mathlib.Core.List.{List, [], ◌∷◌, ◌++◌}
use native.Mathlib.Omega.{arith}
use hwcpipe.Common.Tests.{◌==◌, ==_iff, Bool-cases}
use mathlib.Core.Logic.{inl, inr}

abbrev pub codes : String → List ℕ
codes String.[] = []
codes (String.◌∷◌ c s) = code c ∷ codes s

-- Does the text begin with `pat`?
unfoldable pub starts_with : List ℕ → List ℕ → Bool
starts_with s [] = true
starts_with [] (p ∷ pat) = false
starts_with (c ∷ s) (p ∷ pat) = c == p && starts_with s pat

-- `strstr(s, pat) != nullptr`.
unfoldable pub strstr : List ℕ → List ℕ → Bool
unfolding starts_with
strstr [] pat = starts_with [] pat
strstr (c ∷ s) pat = starts_with (c ∷ s) pat || strstr s pat

starts_with_sound :
    (s pat : List ℕ) → starts_with s pat ≡ true → (post : List ℕ) × (s ≡ pat ++ post)
unfolding starts_with
starts_with_sound s [] h = (s, refl)
starts_with_sound [] (p ∷ pat) h = absurd (cc)
starts_with_sound (c ∷ s) (p ∷ pat) h =
    let (post, e) = starts_with_sound s pat (ground arith) in
    let same : c ≡ p = ground (arith, ==_iff c p) in (post, cc)

starts_with-append : (pat post : List ℕ) → starts_with (pat ++ post) pat ≡ true
unfolding starts_with
starts_with-append [] post = refl
starts_with-append (p ∷ pat) post = ground (arith, ==_iff p p, starts_with-append pat post)

-- `strstr` finds `pat` only where the text is something, then `pat`, then something.
pub strstr_sound :
    (s pat : List ℕ)
    → strstr s pat ≡ true
    → (pre : List ℕ) × (post : List ℕ) × (s ≡ pre ++ pat ++ post)
unfolding strstr
strstr_sound [] pat h = let (post, e) = starts_with_sound [] pat h in ([], post, e)
strstr_sound (c ∷ s) pat h = elim (Bool-cases (starts_with (c ∷ s) pat)) [
  | inl here ↦ let (post, e) = starts_with_sound (c ∷ s) pat here in ([], post, e)
  | inr later ↦ let (pre, post, e) = strstr_sound s pat (ground arith) in (c ∷ pre, post, cc)
]

-- And it finds it there.
pub strstr_complete : (pre pat post : List ℕ) → strstr (pre ++ pat ++ post) pat ≡ true
unfolding strstr starts_with
strstr_complete [] [] [] = refl
strstr_complete [] [] (c ∷ post) = refl
strstr_complete [] (p ∷ pat) post = ground (arith, starts_with-append (p ∷ pat) post)
strstr_complete (c ∷ pre) pat post = ground (arith, strstr_complete pre pat post)
