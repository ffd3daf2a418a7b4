-- ===== src/Mali/GpuProps/Stores.antt =====
-- Whatever the property and its value, storing it succeeds.
use hwcpipe.Common.{ℕ, ◌≡◌, ◌≢◌, List, [], ◌∷◌, none, some, arith, All, Option-cases, inl, inr, ◌⊎◌}
use hwcpipe.Mali.GpuProps.{GpuProps, Mapping, store, store_in, store_property, gpu_property_mapping}

-- Every entry of the table has a size that `store` knows.
abbrev HasSize : Mapping → Type 0
HasSize m = (m.size ≡ 1) ⊎ (m.size ≡ 2) ⊎ (m.size ≡ 4) ⊎ (m.size ≡ 8)

table-HasSize : All HasSize gpu_property_mapping
table-HasSize = omega arith

store-ne-none : (m : Mapping) (value : ℕ) (p : GpuProps) → HasSize m → store m value p ≢ none
unfolding store
store-ne-none m value p h = ground arith

store_in-ne-none :
    (ms : List Mapping) (t value : ℕ) (p : GpuProps) → All HasSize ms → store_in ms t value p ≢ none
unfolding store_in
store_in-ne-none [] t value p h = λ e. cc
store_in-ne-none (m ∷ ms) t value p h =
    ground (arith, store-ne-none m value p h.0, store_in-ne-none ms t value p h.1)

-- Whatever its type and its value, a property is stored or, if the table has no such type, passed over: the
-- exception "Invalid property size." is never thrown.
pub store_property-total :
    (t value : ℕ) (p : GpuProps) → (q : GpuProps) × (store_property t value p ≡ some q)
unfolding store_property
store_property-total t value p = elim (Option-cases (store_property t value p)) [
  | inl e ↦ absurd (store_in-ne-none gpu_property_mapping t value p table-HasSize e)
  | inr found ↦ found
]
