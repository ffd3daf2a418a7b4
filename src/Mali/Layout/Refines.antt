-- ===== src/Mali/Layout/Refines.antt =====
-- The stores of `get_mali_hw_info` into the bytes of `gpu_props` do what `store_property` does to its members.
use hwcpipe.Common.{
  arith, ℕ, ◌^◌, ◌%◌, ◌==◌, ◌≡◌, refl, subst, ◌∙◌, ap, ◌⊎◌, inl, inr, false, List, [], ◌∷◌, ◌++◌,
  map, All, Option, none, some, Bool-cases,
}
use native.Mathlib.Nat.{mod-mod}
use hwcpipe.Mali.GpuProps.{
  GpuProps, Member, Mapping, store, store_in, store_member, store_property, gpu_property_mapping,
}
use hwcpipe.Mali.Layout.{last_entry, entry_of, member_place, store_number, store_entries, store_at}
use hwcpipe.Mali.Layout.Memory.{put, length-put}
use hwcpipe.Mali.Layout.Views.{props_of, props_of-put, Holds, Known}

-- Both throw, or the bytes that one leaves say what the other returns.
abbrev pub Refines : Option (List ℕ) → Option GpuProps → Type 0
Refines none none = Unit
Refines none (some p) = ⊥
Refines (some bytes) none = ⊥
Refines (some bytes) (some p) = Holds bytes × (props_of bytes ≡ p)

-- What the table has of an entry: a member of the structure, with its size, under a type that is not 0.
abbrev Sound : Mapping → Type 0
Sound m =
    Known m.member
    × ((member_place m.member).size ≡ m.size)
    × ((m.prop_type == 0) ≡ false)
    × ((m.size ≡ 1) ⊎ (m.size ≡ 2) ⊎ (m.size ≡ 4) ⊎ (m.size ≡ 8))

table-Sound : All Sound gpu_property_mapping
table-Sound = ground arith

put-Refines :
    (m : Member) (n w value : ℕ) (bytes : List ℕ)
    → (member_place m).size ≡ n
    → (2 ^ 8) ^ n ≡ w
    → Known m
    → Holds bytes
    → Refines
        (some (put n (member_place m).offset (value % w) bytes))
        (some (store_member m (value % w) (props_of bytes)))
put-Refines m n w value bytes e power k h =
    let o = (member_place m).offset in
    let size = (member_place m).size in
    let cut : value % w % (2 ^ 8) ^ size ≡ value % w =
      ap (λ s. value % w % (2 ^ 8) ^ s) e ∙ ap (λ x. value % w % x) power ∙ mod-mod value w in
    let stored =
      props_of-put m (value % w) bytes h k ∙ ap (λ x. store_member m x (props_of bytes)) cut in
    (
      length-put n o (value % w) bytes ∙ h,
      subst
          (λ s. props_of (put s o (value % w) bytes) ≡ store_member m (value % w) (props_of bytes))
          e stored,
    )

store_number-Refines :
    (m : Mapping) (value : ℕ) (bytes : List ℕ)
    → Sound m
    → Holds bytes
    → Refines (store_number (entry_of m) value bytes) (store m value (props_of bytes))
unfolding store_number store
store_number-Refines m value bytes (k, e, t, inl s) h =
    rw (e, s) (put-Refines m.member 1 (2 ^ 8) value bytes (e ∙ s) refl k h)
store_number-Refines m value bytes (k, e, t, inr (inl s)) h =
    rw (e, s) (put-Refines m.member 2 (2 ^ 16) value bytes (e ∙ s) refl k h)
store_number-Refines m value bytes (k, e, t, inr (inr (inl s))) h =
    rw (e, s) (put-Refines m.member 4 (2 ^ 32) value bytes (e ∙ s) refl k h)
store_number-Refines m value bytes (k, e, t, inr (inr (inr s))) h =
    rw (e, s) (put-Refines m.member 8 (2 ^ 64) value bytes (e ∙ s) refl k h)

store_entries-Refines :
    (ms : List Mapping) (t value : ℕ) (bytes : List ℕ)
    → All Sound ms
    → Holds bytes
    → Refines
        (store_entries (map entry_of ms ++ last_entry ∷ []) t value bytes)
        (store_in ms t value (props_of bytes))
unfolding store_entries store_in
store_entries-Refines [] t value bytes sound h = (h, refl)
store_entries-Refines (m ∷ ms) t value bytes (s, sound) h = elim (Bool-cases (m.prop_type == t)) [
  | inl found ↦ rw (s.2, found) (store_number-Refines m value bytes s h)
  | inr other ↦ rw (s.2, other) (store_entries-Refines ms t value bytes sound h)
]

pub store_at-Refines :
    (t value : ℕ) (bytes : List ℕ)
    → Holds bytes
    → Refines (store_at t value bytes) (store_property t value (props_of bytes))
unfolding store_at store_property
store_at-Refines t value bytes h =
    store_entries-Refines gpu_property_mapping t value bytes table-Sound h
