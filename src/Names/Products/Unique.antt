-- ===== src/Names/Products/Unique.antt =====
-- The products table is unambiguous: the order of its entries does not matter.
use hwcpipe.Common.{
  get_elem?, get_elem?-All, ℕ, ◌/◌, ◌%◌, ◌<◌, ◌≡◌, ap, sym, ◌∙◌, true, some, arith, bit_and, All,
}
use hwcpipe.Common.Bits.{bit_and_ones, bit_and_comm, bit_and_shifted}
use hwcpipe.Names.Products.{
  CounterMapping, products, matches, find_if, find_product, product_id_mask_old,
  product_id_mask_new,
}

low_word : (m g : ℕ) → m < 0x10000 → bit_and m g ≡ bit_and m (g % 0x10000)
low_word m g h =
    ap (bit_and m) (omega arith) ∙ bit_and_shifted 16 m (g % 0x10000) (g / 0x10000) h (omega arith)

-- The old mask determines what the new one sees.
new_of_old :
    (g id : ℕ)
    → bit_and product_id_mask_old g ≡ id
    → bit_and product_id_mask_new g ≡ bit_and product_id_mask_new id
new_of_old g id e =
    low_word 0xf00f g (omega arith)
    ∙ ap (bit_and 0xf00f) (
        sym (bit_and_ones 16 (g % 0x10000) (omega arith))
        ∙ bit_and_comm (g % 0x10000) 0xffff
        ∙ sym (low_word 0xffff g (omega arith))
        ∙ e)

-- What each old style of id lets the new mask see.
old_styles :
    (g : ℕ)
    → (bit_and product_id_mask_old g ≡ 0x6956 → bit_and product_id_mask_new g ≡ 0x6006)
      × (bit_and product_id_mask_old g ≡ 0x620 → bit_and product_id_mask_new g ≡ 0)
      × (bit_and product_id_mask_old g ≡ 0x720 → bit_and product_id_mask_new g ≡ 0)
      × (bit_and product_id_mask_old g ≡ 0x750 → bit_and product_id_mask_new g ≡ 0)
      × (bit_and product_id_mask_old g ≡ 0x820 → bit_and product_id_mask_new g ≡ 0)
      × (bit_and product_id_mask_old g ≡ 0x830 → bit_and product_id_mask_new g ≡ 0)
      × (bit_and product_id_mask_old g ≡ 0x860 → bit_and product_id_mask_new g ≡ 0)
      × (bit_and product_id_mask_old g ≡ 0x880 → bit_and product_id_mask_new g ≡ 0)
old_styles g = (
  new_of_old g 0x6956,
  new_of_old g 0x620,
  new_of_old g 0x720,
  new_of_old g 0x750,
  new_of_old g 0x820,
  new_of_old g 0x830,
  new_of_old g 0x860,
  new_of_old g 0x880,
)

each_found : (g : ℕ) → All (λ cm. matches g cm ≡ true → find_product g ≡ some cm) products
unfolding find_product find_if
each_found g = ground (arith, old_styles g)

-- Whichever entry of the table fits a GPU, that entry is the one found.
pub find_product_unique :
    (g i : ℕ) (cm : CounterMapping)
    → get_elem? products i ≡ some cm
    → matches g cm ≡ true
    → find_product g ≡ some cm
find_product_unique g i cm e =
    get_elem?-All (λ cm. matches g cm ≡ true → find_product g ≡ some cm) products i cm e
      (each_found g)
