-- ===== src/Names/Lookup/First.antt =====
-- The search for a counter finds the first name that holds the text asked for.
use hwcpipe.Common.{
  ℕ, zero, suc, ◌+◌, ◌*◌, ◌≤◌, ◌<◌, ◌∙◌, ap, subst, ◌≡◌, refl, ◌⊎◌, inl, inr, true, String, List,
  [], ◌∷◌, ◌++◌, Option, some, arith, length, get_elem?, drop, length-drop, Bool-cases,
}
use hwcpipe.Common.Int.{ℤ, pos, negsuc}
use hwcpipe.Common.Text.{codes, strstr, strstr_sound, strstr_complete}
use hwcpipe.Names.Block.{MaliCounterBlockName, block_number}
use hwcpipe.Names.Lookup.{find_from, find_counter_index_by_name}

-- `name` occurs in `s`.
abbrev pub Contains : String → String → Type 0
Contains s name = (pre : List ℕ) × (post : List ℕ) × (codes s ≡ pre ++ codes name ++ post)

-- The name at index `i` exists and contains `name`.
abbrev pub MatchesAt : List String → String → ℕ → Type 0
MatchesAt names name i = (s : String) × (get_elem? names i ≡ some s) × Contains s name

-- No index below `n` has a name that contains `name`.
abbrev pub NoneBelow : List String → String → ℕ → Type 0
NoneBelow names name n = (j : ℕ) → j < n → ¬ MatchesAt names name j

strstr-Contains : (s name : String) → strstr (codes s) (codes name) ≡ true → Contains s name
strstr-Contains s name h = strstr_sound (codes s) (codes name) h

Contains-strstr : (s name : String) → Contains s name → strstr (codes s) (codes name) ≡ true
Contains-strstr s name (pre, post, e) = rw e (strstr_complete pre (codes name) post)

MatchesAt-head :
    (s : String) (names : List String) (name : String)
    → MatchesAt (s ∷ names) name 0
    → Contains s name
MatchesAt-head s names name (t, e, c) = let same : t ≡ s = cc in subst (λ x. Contains x name) same c

-- The answer to a search of the first `left` names, the first of which has index `i`: the first index
-- that matches, or -1 and nothing matches.
abbrev pub Answer : List String → ℕ → ℕ → String → Option ℤ → Type 0
Answer names left i name r =
    ((r ≡ some (negsuc 0)) × NoneBelow names name left)
    ⊎ ((k : ℕ) × (k < left)
        × (r ≡ some (pos (i + k)))
        × MatchesAt names name k
        × NoneBelow names name k)

NoneBelow-suc :
    (s : String) (names : List String) (name : String) (n : ℕ)
    → ¬ Contains s name
    → NoneBelow names name n
    → NoneBelow (s ∷ names) name (suc n)
NoneBelow-suc s names name n miss rest zero h m = miss (MatchesAt-head s names name m)
NoneBelow-suc s names name n miss rest (suc j) h m = rest j (omega arith) m

Answer-suc :
    (s : String) (names : List String) (left i : ℕ) (name : String) (r : Option ℤ)
    → ¬ Contains s name
    → Answer names left (i + 1) name r
    → Answer (s ∷ names) (suc left) i name r
Answer-suc s names left i name r miss (inl (e, none_below)) =
    inl (e, NoneBelow-suc s names name left miss none_below)
Answer-suc s names left i name r miss (inr (k, h, e, m, none_below)) = inr (
  suc k,
  omega arith,
  e ∙ ap (λ (n : ℕ). some (pos n)) (omega arith),
  m,
  NoneBelow-suc s names name k miss none_below,
)

find_from-Answer :
    (names : List String) (left i : ℕ) (name : String)
    → left ≤ length names
    → Answer names left i name (find_from names left i name)
unfolding find_from
find_from-Answer names zero i name h = inl (refl, λ j lt. absurd (omega arith))
find_from-Answer [] (suc left) i name h = absurd (omega arith)
find_from-Answer (s ∷ names) (suc left) i name h =
    elim (Bool-cases (strstr (codes s) (codes name))) [
      | inl hit ↦ rw hit (
          inr (
            0,
            omega arith,
            ap (λ (n : ℕ). some (pos n)) (omega arith),
            (s, refl, strstr-Contains s name hit),
            λ j lt. absurd (omega arith),
          ))
      | inr miss ↦ rw miss (
          Answer-suc s names left i name _ (λ c. cc (miss, Contains-strstr s name c))
            (find_from-Answer names left (i + 1) name (omega arith)))
    ]

-- On a table with all of the block's 64 names, `find_counter_index_by_name` is the first index in the
-- block whose name contains the text, and -1 exactly when none of the 64 does.
pub find_counter_index_by_name-Answer :
    (names_lut : List String) (block : MaliCounterBlockName) (name : String)
    → 64 * block_number block + 64 ≤ length names_lut
    → Answer
        (drop (64 * block_number block) names_lut)
        64
        0
        name
        (find_counter_index_by_name names_lut block name)
unfolding find_counter_index_by_name
find_counter_index_by_name-Answer names_lut block name h =
    find_from-Answer (drop (64 * block_number block) names_lut) 64 0 name
      (omega (arith, length-drop (64 * block_number block) names_lut))
