-- ===== src/Names/Products.antt =====
-- hwc_names.hpp: the table of the known products, and the search through it that `MaliCounter::init`
-- makes for the product of the GPU.
pub mod Found
pub mod Unique
use hwcpipe.Names.T60x
use hwcpipe.Names.T62x
use hwcpipe.Names.T72x
use hwcpipe.Names.T76x
use hwcpipe.Names.T82x
use hwcpipe.Names.T83x
use hwcpipe.Names.T86x
use hwcpipe.Names.T88x
use hwcpipe.Names.Tmix
use hwcpipe.Names.Thex
use hwcpipe.Names.Tsix
use hwcpipe.Names.Tnox
use hwcpipe.Common.{
  ℕ, Bool, String, List, [], ◌∷◌, Option, none, some, bit_and, ◌==◌, if◌then◌else◌,
}

pub record CounterMapping : Type 0 where
  pub product_mask : ℕ
  pub product_id : ℕ
  pub names_lut : List String

-- The low 16 bits, and the bits of a new style of id.
abbrev pub product_id_mask_old : ℕ
product_id_mask_old = 0xffff

abbrev pub product_id_mask_new : ℕ
product_id_mask_new = 0xf00f

abbrev pub product_id_t60x : ℕ
product_id_t60x = 0x6956

abbrev pub product_id_t62x : ℕ
product_id_t62x = 0x620

abbrev pub product_id_t72x : ℕ
product_id_t72x = 0x720

abbrev pub product_id_t76x : ℕ
product_id_t76x = 0x750

abbrev pub product_id_t82x : ℕ
product_id_t82x = 0x820

abbrev pub product_id_t83x : ℕ
product_id_t83x = 0x830

abbrev pub product_id_t86x : ℕ
product_id_t86x = 0x860

abbrev pub product_id_tfrx : ℕ
product_id_tfrx = 0x880

abbrev pub product_id_tmix : ℕ
product_id_tmix = 0x6000

abbrev pub product_id_thex : ℕ
product_id_thex = 0x6001

abbrev pub product_id_tsix : ℕ
product_id_tsix = 0x7000

abbrev pub product_id_tnox : ℕ
product_id_tnox = 0x7001

abbrev pub t60x : CounterMapping
t60x = record {
  product_mask = product_id_mask_old;
  product_id = product_id_t60x;
  names_lut = T60x.hardware_counters;
}

abbrev pub t62x : CounterMapping
t62x = record {
  product_mask = product_id_mask_old;
  product_id = product_id_t62x;
  names_lut = T62x.hardware_counters;
}

abbrev pub t72x : CounterMapping
t72x = record {
  product_mask = product_id_mask_old;
  product_id = product_id_t72x;
  names_lut = T72x.hardware_counters;
}

abbrev pub t76x : CounterMapping
t76x = record {
  product_mask = product_id_mask_old;
  product_id = product_id_t76x;
  names_lut = T76x.hardware_counters;
}

abbrev pub t82x : CounterMapping
t82x = record {
  product_mask = product_id_mask_old;
  product_id = product_id_t82x;
  names_lut = T82x.hardware_counters;
}

abbrev pub t83x : CounterMapping
t83x = record {
  product_mask = product_id_mask_old;
  product_id = product_id_t83x;
  names_lut = T83x.hardware_counters;
}

abbrev pub t86x : CounterMapping
t86x = record {
  product_mask = product_id_mask_old;
  product_id = product_id_t86x;
  names_lut = T86x.hardware_counters;
}

abbrev pub tfrx : CounterMapping
tfrx = record {
  product_mask = product_id_mask_old;
  product_id = product_id_tfrx;
  names_lut = T88x.hardware_counters;
}

abbrev pub tmix : CounterMapping
tmix = record {
  product_mask = product_id_mask_new;
  product_id = product_id_tmix;
  names_lut = Tmix.hardware_counters;
}

abbrev pub thex : CounterMapping
thex = record {
  product_mask = product_id_mask_new;
  product_id = product_id_thex;
  names_lut = Thex.hardware_counters;
}

abbrev pub tsix : CounterMapping
tsix = record {
  product_mask = product_id_mask_new;
  product_id = product_id_tsix;
  names_lut = Tsix.hardware_counters;
}

abbrev pub tnox : CounterMapping
tnox = record {
  product_mask = product_id_mask_new;
  product_id = product_id_tnox;
  names_lut = Tnox.hardware_counters;
}

abbrev pub products : List CounterMapping
products = t60x ∷ t62x ∷ t72x ∷ t76x ∷ t82x ∷ t83x ∷ t86x ∷ tfrx ∷ tmix ∷ thex ∷ tsix ∷ tnox ∷ []

-- The predicate of the `find_if`.
abbrev pub matches : ℕ → CounterMapping → Bool
matches gpu_id cm = bit_and cm.product_mask gpu_id == cm.product_id

pub find_if : List CounterMapping → ℕ → Option CounterMapping
find_if [] gpu_id = none
find_if (cm ∷ cms) gpu_id = if matches gpu_id cm then some cm else find_if cms gpu_id

-- `none` is `std::end(products)`.
unfoldable pub find_product : ℕ → Option CounterMapping
unfolding find_if
find_product gpu_id = find_if products gpu_id
