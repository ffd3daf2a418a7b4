-- ===== src/Names/Lookup/Shared.antt =====
-- Where the search for a memory system counter does not give the counter that was asked for.
use hwcpipe.Common.{
  ℕ, ◌≡◌, refl, Bool, true, false, ◌&&◌, ◌≢◌, String, [], ◌∷◌, Option, none, some, arith, All,
  all_of, all_of-All, ◌==◌, ==_iff, not, if◌then◌else◌,
}
use hwcpipe.Common.Int.{ℤ, pos, negsuc}
use hwcpipe.Names.Block.{mmu}
use hwcpipe.Names.Products.{CounterMapping, products, find_product, product_id_mask_old, t72x}
use hwcpipe.Names.Products.Found.{find_product-All}
use hwcpipe.Names.Lookup.{find_counter_index_by_name}
use hwcpipe.Names.T60x
use hwcpipe.Names.T62x
use hwcpipe.Names.T72x
use hwcpipe.Names.T76x
use hwcpipe.Names.T82x
use hwcpipe.Names.T83x
use hwcpipe.Names.T86x
use hwcpipe.Names.T88x

-- Both names are found in the memory system's block, at one and the same index.
abbrev pub Shared : CounterMapping → String → String → Type 0
Shared cm name other =
    (i : ℕ) × (find_counter_index_by_name cm.names_lut mmu name ≡ some (pos i))
    × (find_counter_index_by_name cm.names_lut mmu other ≡ some (pos i))

same_index : Option ℤ → Option ℤ → Bool
same_index (some (pos i)) (some (pos j)) = i == j
same_index _ _ = false

same_index_sound :
    (r s : Option ℤ) → same_index r s ≡ true → (i : ℕ) × (r ≡ some (pos i)) × (s ≡ some (pos i))
unfolding same_index
same_index_sound (some (pos i)) (some (pos j)) h = (i, refl, ground arith)
same_index_sound (some (pos i)) (some (negsuc j)) h = absurd (cc)
same_index_sound (some (pos i)) none h = absurd (cc)
same_index_sound (some (negsuc i)) s h = absurd (cc)
same_index_sound none s h = absurd (cc)

shared_test : CounterMapping → String → String → Bool
unfolding same_index
shared_test cm name other =
    same_index (find_counter_index_by_name cm.names_lut mmu name)
      (find_counter_index_by_name cm.names_lut mmu other)

abbrev beats_test : CounterMapping → Bool
beats_test cm =
    if cm.product_mask == product_id_mask_old && not (cm.product_id == t72x.product_id)
    then shared_test cm "L2_EXT_READ" "L2_EXT_READ_BEATS"
      && shared_test cm "L2_EXT_WRITE" "L2_EXT_WRITE_BEATS"
    else true

abbrev BeatsShared : CounterMapping → Type 0
BeatsShared cm =
    cm.product_mask ≡ product_id_mask_old
    → cm.product_id ≢ t72x.product_id
    → Shared cm "L2_EXT_READ" "L2_EXT_READ_BEATS" × Shared cm "L2_EXT_WRITE" "L2_EXT_WRITE_BEATS"

beats_test_sound : (cm : CounterMapping) → beats_test cm ≡ true → BeatsShared cm
unfolding shared_test
beats_test_sound cm h old other = (
  same_index_sound _ _ (
      ground
        (arith, ==_iff cm.product_id t72x.product_id, ==_iff cm.product_mask product_id_mask_old)),
  same_index_sound _ _ (
      ground
        (arith, ==_iff cm.product_id t72x.product_id, ==_iff cm.product_mask product_id_mask_old)),
)

beats_table : all_of beats_test products ≡ true
unfolding shared_test find_counter_index_by_name T60x.hardware_counters T62x.hardware_counters
    T72x.hardware_counters T76x.hardware_counters T82x.hardware_counters T83x.hardware_counters
    T86x.hardware_counters T88x.hardware_counters
beats_table = refl

-- On every GPU with an old style of id but the T72x, the search for `L2_EXT_READ` stops at the index that
-- the search for `L2_EXT_READ_BEATS` gives, and so for `L2_EXT_WRITE` and `L2_EXT_WRITE_BEATS`.
pub external_beats-Shared :
    (g : ℕ) (cm : CounterMapping)
    → find_product g ≡ some cm
    → cm.product_mask ≡ product_id_mask_old
    → cm.product_id ≢ t72x.product_id
    → Shared cm "L2_EXT_READ" "L2_EXT_READ_BEATS" × Shared cm "L2_EXT_WRITE" "L2_EXT_WRITE_BEATS"
external_beats-Shared g cm e =
    find_product-All BeatsShared g cm e
      (all_of-All _ beats_test beats_test_sound products beats_table)

-- On the T72x four of the memory system counters are not found.
pub t72x_not_found :
    All
      (λ name. find_counter_index_by_name t72x.names_lut mmu name ≡ some (negsuc 0))
      ("L2_READ_LOOKUP" ∷ "L2_WRITE_LOOKUP" ∷ "L2_EXT_READ_BEATS" ∷ "L2_EXT_WRITE_BEATS" ∷ [])
unfolding find_counter_index_by_name T72x.hardware_counters
t72x_not_found = (refl, (refl, (refl, (refl, tt))))
