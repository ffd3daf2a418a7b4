-- ===== src/Names/Lookup/Present.antt =====
-- On which GPUs the search finds a name for each memory system counter.
use hwcpipe.Common.{
  ℕ, ◌<◌, ◌≡◌, ◌≢◌, refl, Bool, true, false, String, List, Option, some, none, arith, All, all_of,
  all_of-All, ltb, ◌==◌, ==_iff, if◌then◌else◌,
}
use hwcpipe.Common.Int.{ℤ, pos, negsuc}
use hwcpipe.Names.Block.{MaliCounterBlockName, mmu}
use hwcpipe.Names.Products.{CounterMapping, products, find_product, t72x}
use hwcpipe.Names.Products.Found.{find_product-All}
use hwcpipe.Names.Lookup.{find_counter_index_by_name, mmu_counter_names}
use hwcpipe.Names.T60x
use hwcpipe.Names.T62x
use hwcpipe.Names.T72x
use hwcpipe.Names.T76x
use hwcpipe.Names.T82x
use hwcpipe.Names.T83x
use hwcpipe.Names.T86x
use hwcpipe.Names.T88x
use hwcpipe.Names.Tmix
use hwcpipe.Names.Thex
use hwcpipe.Names.Tsix
use hwcpipe.Names.Tnox

-- The search in that block of the table gives an index of the block.
abbrev pub Found : List String → MaliCounterBlockName → String → Type 0
Found lut block name =
    (i : ℕ) × (i < 64) × (find_counter_index_by_name lut block name ≡ some (pos i))

in_block : Option ℤ → Bool
in_block (some (pos i)) = ltb i 64
in_block _ = false

in_block_sound : (r : Option ℤ) → in_block r ≡ true → (i : ℕ) × (i < 64) × (r ≡ some (pos i))
unfolding in_block
in_block_sound (some (pos i)) h = (i, ground arith, refl)
in_block_sound (some (negsuc i)) h = absurd (cc)
in_block_sound none h = absurd (cc)

found_test : CounterMapping → (String × String) → Bool
unfolding in_block
found_test cm c = in_block (find_counter_index_by_name cm.names_lut mmu c.0)

abbrev all_found_test : CounterMapping → Bool
all_found_test cm =
    if cm.product_id == t72x.product_id then true else all_of (found_test cm) mmu_counter_names

abbrev AllFound : CounterMapping → Type 0
AllFound cm =
    cm.product_id ≢ t72x.product_id → All (λ c. Found cm.names_lut mmu c.0) mmu_counter_names

AllFound-sound : (cm : CounterMapping) → all_found_test cm ≡ true → AllFound cm
unfolding found_test
AllFound-sound cm h other =
    all_of-All (λ c. Found cm.names_lut mmu c.0) (found_test cm) (λ c e. in_block_sound _ e)
      mmu_counter_names (ground (arith, ==_iff cm.product_id t72x.product_id))

all_found_table : all_of all_found_test products ≡ true
unfolding found_test find_counter_index_by_name T60x.hardware_counters T62x.hardware_counters
    T72x.hardware_counters T76x.hardware_counters T82x.hardware_counters T83x.hardware_counters
    T86x.hardware_counters T88x.hardware_counters Tmix.hardware_counters Thex.hardware_counters
    Tsix.hardware_counters Tnox.hardware_counters
all_found_table = refl

-- On every known GPU but the T72x, the search finds a name in the block for each memory system counter.
pub mmu_counters-Found :
    (g : ℕ) (cm : CounterMapping)
    → find_product g ≡ some cm
    → cm.product_id ≢ t72x.product_id
    → All (λ c. Found cm.names_lut mmu c.0) mmu_counter_names
mmu_counters-Found g cm e =
    find_product-All AllFound g cm e
      (all_of-All AllFound all_found_test AllFound-sound products all_found_table)
