-- ===== src/Names/Lookup/Gpus.antt =====
-- What the search for each counter of mali_counter.h gives on the tables of the known GPUs.
use hwcpipe.Common.{
  ℕ, ◌*◌, ◌<◌, ◌≡◌, refl, Bool, true, false, ◌&&◌, String, List, Option, none, some, drop,
  get_elem?, arith, All, all_of, all_of-All, list_eq, list_eq_sound, ltb, ◌==◌, ==_iff,
  if◌then◌else◌,
}
use hwcpipe.Common.Int.{ℤ, pos, negsuc}
use hwcpipe.Common.Text.{codes}
use hwcpipe.Names.Block.{MaliCounterBlockName, jm, mmu, block_number}
use hwcpipe.Names.Products.{CounterMapping, products, find_product, product_id_mask_new}
use hwcpipe.Names.Products.Found.{find_product-All}
use hwcpipe.Names.Lookup.{find_counter_index_by_name, jm_counter_names, mmu_counter_names}
use hwcpipe.Names.T60x
use hwcpipe.Names.T62x
use hwcpipe.Names.T72x
use hwcpipe.Names.T76x
use hwcpipe.Names.T82x
use hwcpipe.Names.T83x
use hwcpipe.Names.T86x
use hwcpipe.Names.T88x
use hwcpipe.Names.Tmix
use hwcpipe.Names.Thex
use hwcpipe.Names.Tsix
use hwcpipe.Names.Tnox

-- The tables, and the search through them.
abbrev tables : Unit {0}
unfolding find_counter_index_by_name T60x.hardware_counters T62x.hardware_counters
    T72x.hardware_counters T76x.hardware_counters T82x.hardware_counters T83x.hardware_counters
    T86x.hardware_counters T88x.hardware_counters Tmix.hardware_counters Thex.hardware_counters
    Tsix.hardware_counters Tnox.hardware_counters
tables = tt

-- On the table of `cm`, the search in `block` stops at the counter of that very name, which stands
-- there behind five characters that name the GPU.
abbrev pub Exact : MaliCounterBlockName → CounterMapping → String → Type 0
Exact block cm name =
    (i : ℕ) × (i < 64)
    × (find_counter_index_by_name cm.names_lut block name ≡ some (pos i))
    × (s : String) × (get_elem? (drop (64 * block_number block) cm.names_lut) i ≡ some s)
    × (drop 5 (codes s) ≡ codes name)

named_test : String → Option String → Bool
named_test name none = false
named_test name (some s) = list_eq (drop 5 (codes s)) (codes name)

index_test : MaliCounterBlockName → CounterMapping → String → Option ℤ → Bool
unfolding named_test
index_test block cm name (some (pos i)) =
    ltb i 64 && named_test name (get_elem? (drop (64 * block_number block) cm.names_lut) i)
index_test block cm name _ = false

exact_test : MaliCounterBlockName → CounterMapping → String → Bool
unfolding index_test
exact_test block cm name =
    index_test block cm name (find_counter_index_by_name cm.names_lut block name)

index_test_sound :
    (block : MaliCounterBlockName) (cm : CounterMapping) (name : String) (r : Option ℤ)
    → find_counter_index_by_name cm.names_lut block name ≡ r
    → index_test block cm name r ≡ true
    → Exact block cm name
unfolding index_test
index_test_sound block cm name (some (pos i)) e h =
    named i e (ground arith) (get_elem? (drop (64 * block_number block) cm.names_lut) i) refl
      (ground arith)
  where
    named :
        (i : ℕ)
        → find_counter_index_by_name cm.names_lut block name ≡ some (pos i)
        → i < 64
        → (o : Option String) → get_elem? (drop (64 * block_number block) cm.names_lut) i ≡ o
        → named_test name o ≡ true
        → Exact block cm name
    named i e lt none g t = absurd (cc)
    named i e lt (some s) g t = (i, lt, e, s, g, list_eq_sound _ _ t)
index_test_sound block cm name (some (negsuc n)) e h = absurd (cc)
index_test_sound block cm name none e h = absurd (cc)

exact_test_sound :
    (block : MaliCounterBlockName) (cm : CounterMapping) (name : String)
    → exact_test block cm name ≡ true
    → Exact block cm name
unfolding exact_test
exact_test_sound block cm name h = index_test_sound block cm name _ refl h

abbrev all_exact : MaliCounterBlockName → List (String × String) → CounterMapping → Bool
all_exact block names cm = all_of (λ c. exact_test block cm c.0) names

all_exact_sound :
    (block : MaliCounterBlockName) (names : List (String × String)) (cm : CounterMapping)
    → all_exact block names cm ≡ true
    → All (λ c. Exact block cm c.0) names
all_exact_sound block names cm =
    all_of-All (λ c. Exact block cm c.0) _ (λ c. exact_test_sound block cm c.0) names

jm_table : all_of (all_exact jm jm_counter_names) products ≡ true
unfolding exact_test tables
jm_table = refl

-- Whatever known GPU runs, each of the three job manager counters is found under its own name.
pub jm_counters-Exact :
    (g : ℕ) (cm : CounterMapping)
    → find_product g ≡ some cm
    → All (λ c. Exact jm cm c.0) jm_counter_names
jm_counters-Exact g cm e =
    find_product-All (λ cm. All (λ c. Exact jm cm c.0) jm_counter_names) g cm e
      (all_of-All _ _ (all_exact_sound jm jm_counter_names) products jm_table)

abbrev new_test : CounterMapping → Bool
new_test cm =
    if cm.product_mask == product_id_mask_new then all_exact mmu mmu_counter_names cm else true

abbrev MmuExact : CounterMapping → Type 0
MmuExact cm = cm.product_mask ≡ product_id_mask_new → All (λ c. Exact mmu cm c.0) mmu_counter_names

new_test_sound : (cm : CounterMapping) → new_test cm ≡ true → MmuExact cm
new_test_sound cm h is_new =
    all_exact_sound mmu mmu_counter_names cm
      (ground (arith, ==_iff cm.product_mask product_id_mask_new))

mmu_table : all_of new_test products ≡ true
unfolding exact_test tables
mmu_table = refl

-- On a GPU with a new style of id, each of the eight memory system counters is found under its own name.
pub mmu_counters-Exact :
    (g : ℕ) (cm : CounterMapping)
    → find_product g ≡ some cm
    → cm.product_mask ≡ product_id_mask_new
    → All (λ c. Exact mmu cm c.0) mmu_counter_names
mmu_counters-Exact g cm e =
    find_product-All MmuExact g cm e
      (all_of-All MmuExact new_test new_test_sound products mmu_table)
