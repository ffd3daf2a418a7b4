-- ===== src/Mali/Sampling/Pointers.antt =====
-- Where the pointers that `get_counters` returns lead on an object that has been initialised.
use hwcpipe.Common.{
  ℕ, zero, suc, ◌+◌, ◌*◌, ◌^◌, ◌≤◌, ◌<◌, ◌≡◌, refl, sym, ◌∙◌, List, [], ◌∷◌, some, arith, length,
  get_elem?, All, leb, Bool-cases, inl, inr, ◌⊎◌,
}
use hwcpipe.Common.Int.{pos}
use hwcpipe.Common.Outcome.{returns, throws}
use hwcpipe.Names.Block.{shader, mmu}
use hwcpipe.Mali.Cores.Positions.{Ascending}
use hwcpipe.Mali.State.{MaliCounter, Machine}
use hwcpipe.Mali.Init.Ready.{Ready}
use hwcpipe.Mali.Sampling.{get_counters}

elem-All {κ} :
    {P : ℕ → Type κ} (xs : List ℕ) (i : ℕ)
    → i < length xs
    → All P xs
    → (x : ℕ) × (get_elem? xs i ≡ some x) × P x
elem-All [] i h p = absurd (omega arith)
elem-All (x ∷ xs) zero h p = (x, refl, p.0)
elem-All (x ∷ xs) (suc i) h p = elem-All xs i (omega arith) p.1

Ascending-ge : (xs : List ℕ) (lo i x : ℕ) → Ascending lo xs → get_elem? xs i ≡ some x → lo ≤ x
Ascending-ge [] lo i x h e = absurd (cc)
Ascending-ge (y ∷ ys) lo zero x h e = ground arith
Ascending-ge (y ∷ ys) lo (suc i) x h e = omega (arith, Ascending-ge ys (suc y) i x h.1 e)

Ascending-lt :
    (xs : List ℕ) (lo i j x y : ℕ)
    → Ascending lo xs
    → i < j
    → get_elem? xs i ≡ some x
    → get_elem? xs j ≡ some y
    → x < y
Ascending-lt [] lo i j x y h lt e f = absurd (cc)
Ascending-lt (z ∷ zs) lo i zero x y h lt e f = absurd (omega arith)
Ascending-lt (z ∷ zs) lo zero (suc j) x y h lt e f =
    let head : z ≡ x = ground arith in omega (arith, Ascending-ge zs (suc z) j y h.1 f)
Ascending-lt (z ∷ zs) lo (suc i) (suc j) x y h lt e f =
    Ascending-lt zs (suc z) i j x y h.1 (omega arith) e f

returns-injective : {a b : ℕ} {s t : Machine} → returns a s ≡ returns b t → a ≡ b
returns-injective e = cc

-- On an object that is ready and has fewer than 2 ^ 20 slices, a shader core that is asked for by an index
-- below the number of cores has its block behind the blocks of the job manager, the tiler and the slices, at
-- the core's position in the mask.
pub get_counters-shader :
    (c : MaliCounter) (slices i : ℕ) (s : Machine)
    → Ready c
    → c.num_l2_slices ≡ pos slices
    → slices < 2 ^ 20
    → i < length c.core_index_remap
    → (core : ℕ) × (get_elem? c.core_index_remap i ≡ some core)
      × (core < 32)
      × (get_counters c shader (pos i) s ≡ returns (64 * (2 + slices + core)) s)
unfolding get_counters
get_counters-shader c slices i s ready e small h =
    let (fd, ver, mapped, lut, size, cores, rising, below) = ready in
    let (core, at, lt) = elem-All c.core_index_remap i h below in (core, at, lt, ground arith)

-- On an object that is ready and has fewer than 2 ^ 20 slices, the blocks of two shader cores share no
-- counter: that of the greater index stands behind the other, and both stand behind the slices' blocks.
pub get_counters-shader_disjoint :
    (c : MaliCounter) (slices i j a b : ℕ) (s t u : Machine)
    → Ready c
    → c.num_l2_slices ≡ pos slices
    → slices < 2 ^ 20
    → i < j
    → j < length c.core_index_remap
    → get_counters c shader (pos i) s ≡ returns a t
    → get_counters c shader (pos j) s ≡ returns b u
    → (64 * (2 + slices) ≤ a) × (a + 64 ≤ b)
get_counters-shader_disjoint c slices i j a b s t u ready e small lt h p q =
    let (x, at_x, below_x, px) = get_counters-shader c slices i s ready e small (omega arith) in
    let (y, at_y, below_y, py) = get_counters-shader c slices j s ready e small h in
    let apart = Ascending-lt c.core_index_remap 0 i j x y ready.6 lt at_x at_y in
    let first : a ≡ 64 * (2 + slices + x) = returns-injective (sym p ∙ px) in
    let second : b ≡ 64 * (2 + slices + y) = returns-injective (sym q ∙ py) in
    (omega arith, omega arith)

-- On an object with so few slices that their offsets fit in an `int`, a slice number from there on is refused,
-- and slice `n` has the block `2 + n` of the buffer.
pub get_counters-slice :
    (c : MaliCounter) (n slices : ℕ) (s : Machine)
    → c.num_l2_slices ≡ pos slices
    → 64 * (2 + slices) ≤ 2 ^ 31
    → ((slices ≤ n) × (get_counters c mmu (pos n) s ≡ throws "Invalid slice number." s))
      ⊎ ((n < slices) × (get_counters c mmu (pos n) s ≡ returns (64 * (2 + n)) s))
unfolding get_counters
get_counters-slice c n slices s e fits = elim (Bool-cases (leb slices n)) [
  | inl past ↦ inl (ground arith, ground arith)
  | inr within ↦ inr (ground arith, ground arith)
]
