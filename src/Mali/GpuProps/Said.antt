-- ===== src/Mali/GpuProps/Said.antt =====
-- What a list of properties says of each member: the last value that it has under the member's type.
use mathlib.Core.Option.{some-injective}
use hwcpipe.Common.{
  true, ℕ, zero, suc, ◌+◌, ◌-◌, ◌%◌, ◌^◌, ◌<◌, ◌≡◌, ◌≢◌, refl, sym, ap, ◌∙◌, List, [], ◌∷◌, some,
  arith, ◌==◌, ==_iff, if◌then◌else◌, leb, ltb, ◌&&◌, set, get_or, length, length-set, replicate,
  Bool-cases, inl, inr,
}
use hwcpipe.Common.Options.{◌>>=◌}
use hwcpipe.Mali.GpuProps.{GpuProps, zero_props, store_property}
use hwcpipe.Mali.GpuProps.Encode.{Property, store_all}
use hwcpipe.Mali.GpuProps.Stores.{store_property-total}
use hwcpipe.Mali.Layout.Memory.{get_or-set_self, get_or-set_ne}

-- The last value under the type `t`, or else `value`.
abbrev pub latest : ℕ → List Property → ℕ → ℕ
latest t [] value = value
latest t (x ∷ xs) value = latest t xs (if x.prop_type == t then x.value else value)

scalars :
    (t v : ℕ) (p q : GpuProps)
    → store_property t v p ≡ some q
    → (q.product_id ≡ (if t == 1 then v % 2 ^ 32 else p.product_id))
      × (q.minor_revision ≡ (if t == 3 then v % 2 ^ 16 else p.minor_revision))
      × (q.major_revision ≡ (if t == 4 then v % 2 ^ 16 else p.major_revision))
      × (q.num_core_groups ≡ (if t == 62 then v % 2 ^ 32 else p.num_core_groups))
      × (q.l2_slices ≡ (if t == 15 then v % 2 ^ 32 else p.l2_slices))
unfolding store_property
scalars t v p q e = ground arith

masks :
    (t v : ℕ) (p q : GpuProps)
    → store_property t v p ≡ some q
    → q.core_mask
      ≡ (if leb 64 t && ltb t 80 then set p.core_mask (t - 64) (v % 2 ^ 64) else p.core_mask)
unfolding store_property
masks t v p q e = ground arith

abbrev Sixteen : GpuProps → Type 0
Sixteen p = length p.core_mask ≡ 16

-- A store under the type `t` sets the member `f` if it is that of the type, and leaves it else.
abbrev Sets : (GpuProps → ℕ) → ℕ → ℕ → Type 0
Sets f type w =
    (t v : ℕ) (p q : GpuProps)
    → Sixteen p
    → store_property t v p ≡ some q
    → f q ≡ (if t == type then v % w else f p)

store_property-Sixteen :
    (t v : ℕ) (p q : GpuProps) → Sixteen p → store_property t v p ≡ some q → Sixteen q
store_property-Sixteen t v p q h e = elim (Bool-cases (leb 64 t && ltb t 80)) [
  | inl hit ↦
      ap length (masks t v p q e) ∙ rw hit (length-set p.core_mask (t - 64) (v % 2 ^ 64) ∙ h)
  | inr miss ↦ ap length (masks t v p q e) ∙ rw miss h
]

set_mask :
    (ms : List ℕ) (j t w : ℕ)
    → length ms ≡ 16
    → j < 16
    → get_or (if leb 64 t && ltb t 80 then set ms (t - 64) w else ms) j 0
      ≡ (if t == 64 + j then w else get_or ms j 0)
set_mask ms j t w h small = elim (Bool-cases (t == 64 + j)) [
  | inl same ↦
      let at : t ≡ 64 + j = (==_iff t (64 + j)).0 same in
      let hit : (leb 64 t && ltb t 80) ≡ true = ground arith in
      let index : t - 64 ≡ j = omega arith in
      rw (same, hit, index) (get_or-set_self ms j w (omega arith))
  | inr other ↦ elim (Bool-cases (leb 64 t && ltb t 80)) [
    | inl hit ↦
        let apart : t - 64 ≢ j = λ e. ground (arith, ==_iff t (64 + j)) in
        rw (other, hit) (get_or-set_ne ms (t - 64) j w apart)
    | inr miss ↦ rw (other, miss) refl
  ]
]

pub store_all-Sixteen :
    (xs : List Property) (p q : GpuProps) → Sixteen p → store_all xs p ≡ some q → Sixteen q
store_all-Sixteen [] p q h e = sym (ap (λ r. length r.core_mask) (some-injective p q e)) ∙ h
store_all-Sixteen (x ∷ xs) p q h e =
    let (r, stored) = store_property-total x.prop_type x.value p in
    store_all-Sixteen xs r q (store_property-Sixteen x.prop_type x.value p r h stored)
      (sym (ap (λ o. o >>= store_all xs) stored) ∙ e)

mask-Sets : (j : ℕ) → j < 16 → Sets (λ p. get_or p.core_mask j 0) (64 + j) (2 ^ 64)
mask-Sets j small t v p q h e =
    ap (λ ms. get_or ms j 0) (masks t v p q e) ∙ set_mask p.core_mask j t (v % 2 ^ 64) h small

latest-member :
    (f : GpuProps → ℕ) (type w : ℕ)
    → Sets f type w
    → (xs : List Property) (p q : GpuProps) (value : ℕ) → Sixteen p
    → f p ≡ value % w
    → store_all xs p ≡ some q
    → f q ≡ latest type xs value % w
latest-member f type w sets [] p q value h e stores = sym (ap f (some-injective p q stores)) ∙ e
latest-member f type w sets (x ∷ xs) p q value h e stores =
    let (r, stored) = store_property-total x.prop_type x.value p in
    let given : f r ≡ (if x.prop_type == type then x.value else value) % w =
      sets x.prop_type x.value p r h stored ∙ (elim (Bool-cases (x.prop_type == type)) [
        | inl same ↦ rw same refl
        | inr other ↦ rw other e
      ]) in
    latest-member f type w sets xs r q (if x.prop_type == type then x.value else value)
      (store_property-Sixteen x.prop_type x.value p r h stored) given
      (sym (ap (λ o. o >>= store_all xs) stored) ∙ stores)

zero_mask : (n j : ℕ) → get_or {A = ℕ} (replicate n 0) j 0 ≡ 0
zero_mask zero j = refl
zero_mask (suc n) zero = refl
zero_mask (suc n) (suc j) = zero_mask n j

-- The properties that a list of them gives, over zeroes.
abbrev pub Says : List Property → GpuProps → Type 0
Says xs q =
    (q.product_id ≡ latest 1 xs 0 % 2 ^ 32)
    × (q.minor_revision ≡ latest 3 xs 0 % 2 ^ 16)
    × (q.major_revision ≡ latest 4 xs 0 % 2 ^ 16)
    × (q.num_core_groups ≡ latest 62 xs 0 % 2 ^ 32)
    × (q.l2_slices ≡ latest 15 xs 0 % 2 ^ 32)

pub store_all-Says :
    (xs : List Property) (q : GpuProps) → store_all xs zero_props ≡ some q → Says xs q
store_all-Says xs q e = (
  latest-member (λ p. p.product_id) 1 (2 ^ 32) (λ t v p q _ e. (scalars t v p q e).0) xs zero_props
      q 0 refl refl e,
  latest-member (λ p. p.minor_revision) 3 (2 ^ 16) (λ t v p q _ e. (scalars t v p q e).1) xs
      zero_props q 0 refl refl e,
  latest-member (λ p. p.major_revision) 4 (2 ^ 16) (λ t v p q _ e. (scalars t v p q e).2) xs
      zero_props q 0 refl refl e,
  latest-member (λ p. p.num_core_groups) 62 (2 ^ 32) (λ t v p q _ e. (scalars t v p q e).3) xs
      zero_props q 0 refl refl e,
  latest-member (λ p. p.l2_slices) 15 (2 ^ 32) (λ t v p q _ e. (scalars t v p q e).4) xs zero_props
      q 0 refl refl e,
)

-- And the mask of each of the sixteen groups.
pub store_all-mask :
    (xs : List Property) (q : GpuProps) (j : ℕ)
    → store_all xs zero_props ≡ some q
    → j < 16
    → get_or q.core_mask j 0 ≡ latest (64 + j) xs 0 % 2 ^ 64
store_all-mask xs q j e small =
    latest-member (λ p. get_or p.core_mask j 0) (64 + j) (2 ^ 64) (mask-Sets j small) xs zero_props
      q 0 refl (zero_mask 16 j) e
