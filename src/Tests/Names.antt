-- ===== src/Tests/Names.antt =====
-- The names of the counters on concrete GPUs.
use hwcpipe.Common.{◌*◌, ◌≡◌, refl, some, none, arith, All, length, drop}
use hwcpipe.Names.Tmix
use hwcpipe.Names.Block.{jm, mmu, block_number}
use hwcpipe.Names.Products.{find_product, t60x, tmix}
use hwcpipe.Names.Lookup.{find_counter_index_by_name, jm_counter_names, mmu_counter_names}
use hwcpipe.Names.Lookup.First.{Answer, find_counter_index_by_name-Answer}
use hwcpipe.Names.Lookup.Gpus.{Exact, jm_counters-Exact, mmu_counters-Exact}
use hwcpipe.Names.Lookup.Present.{Found, mmu_counters-Found}
use hwcpipe.Names.Lookup.Shared.{Shared, external_beats-Shared}

-- A TNOx of revision 1 whose upper bits are set too.
find_product_unknown : find_product 0x7002 ≡ none
unfolding find_product
find_product_unknown = refl

tmix_found : find_product 0x6000 ≡ some tmix
unfolding find_product
tmix_found = refl

t60x_found : find_product 0x6956 ≡ some t60x
unfolding find_product
t60x_found = refl

tmix_size : length tmix.names_lut ≡ 256
unfolding Tmix.hardware_counters
tmix_size = refl

find_counter_index_by_name-Answer_example :
    Answer
      (drop (64 * block_number mmu) tmix.names_lut)
      64
      0
      "L2_READ_LOOKUP"
      (find_counter_index_by_name tmix.names_lut mmu "L2_READ_LOOKUP")
find_counter_index_by_name-Answer_example =
    find_counter_index_by_name-Answer tmix.names_lut mmu "L2_READ_LOOKUP" (omega (arith, tmix_size))

jm_counters-Exact_example : All (λ c. Exact jm tmix c.0) jm_counter_names
jm_counters-Exact_example = jm_counters-Exact 0x6000 tmix tmix_found

mmu_counters-Exact_example : All (λ c. Exact mmu tmix c.0) mmu_counter_names
mmu_counters-Exact_example = mmu_counters-Exact 0x6000 tmix tmix_found refl

external_beats-Shared_example :
    Shared t60x "L2_EXT_READ" "L2_EXT_READ_BEATS" × Shared t60x "L2_EXT_WRITE" "L2_EXT_WRITE_BEATS"
external_beats-Shared_example =
    external_beats-Shared 0x6956 t60x t60x_found refl (λ e. absurd (omega (arith, e)))

mmu_counters-Found_example : All (λ c. Found t60x.names_lut mmu c.0) mmu_counter_names
mmu_counters-Found_example =
    mmu_counters-Found 0x6956 t60x t60x_found (λ e. absurd (omega (arith, e)))
