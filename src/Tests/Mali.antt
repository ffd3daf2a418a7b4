-- ===== src/Tests/Mali.antt =====
-- The GPU of the tests and its device.
use hwcpipe.Common.{
  ◌++◌, take, ℕ, ◌/◌, ◌%◌, ◌^◌, ◌<◌, ◌≡◌, refl, List, [], ◌∷◌, some, arith, All, true, false,
  length, ◌⊎◌,
}
use hwcpipe.Common.Int.{pos, is_neg}
use hwcpipe.Common.Outcome.{Post, returns}
use hwcpipe.Mali.Cores.{core_index_remap, mp_count}
use hwcpipe.Mali.Cores.Positions.{Ascending}
use hwcpipe.Mali.Cores.Remap.{core_index_remap_lem}
use hwcpipe.Mali.GpuProps.{GpuProps, zero_props, store_property}
use hwcpipe.Mali.GpuProps.Stores.{store_property-total}
use hwcpipe.Mali.GpuProps.Decode.{decode_props, props, overread}
use hwcpipe.Mali.GpuProps.Ends.{decode_props-Ends}
use hwcpipe.Mali.GpuProps.Encode.{Property, IsValid, encode, encode_property, store_all}
use hwcpipe.Mali.GpuProps.Truncated.{decode_props-cut}
use hwcpipe.Mali.GpuProps.RoundTrip.{decode_props-encode}
use hwcpipe.Mali.HwInfo.{get_mali_hw_info}
use hwcpipe.Mali.HwInfo.Descriptors.{IsConsistent, Has, Thrown, get_mali_hw_info-Post}
use hwcpipe.Mali.Init.{is_mapped, term, init}
use hwcpipe.Mali.Init.Term.{released, term-releases}
use hwcpipe.Mali.Init.Ready.{Ready, init-Ready}
use hwcpipe.Mali.Init.Starts.{Surely}
use hwcpipe.Mali.Init.Succeeds.{Cooperates, init-succeeds}
use hwcpipe.Names.Products.{find_product, tmix}
use hwcpipe.Tests.{gpu, device, machine, new_machine}

-- Two groups of properties: the product, and the masks of the cores.
abbrev pub properties : List Property
properties =
    record { prop_type = 1; value_type = 2; value = 0x6000 }
    ∷ record { prop_type = 62; value_type = 0; value = 1 }
    ∷ record { prop_type = 64; value_type = 3; value = 11 }
    ∷ record { prop_type = 7; value_type = 1; value = 500 }
    ∷ record { prop_type = 15; value_type = 0; value = 2 }
    ∷ []

pub properties-IsValid : All IsValid properties
properties-IsValid = (
  record { type_fits = omega arith; size_known = omega arith; value_fits = omega arith },
  (
    record { type_fits = omega arith; size_known = omega arith; value_fits = omega arith },
    (
      record { type_fits = omega arith; size_known = omega arith; value_fits = omega arith },
      (
        record { type_fits = omega arith; size_known = omega arith; value_fits = omega arith },
        (
          record { type_fits = omega arith; size_known = omega arith; value_fits = omega arith },
          tt,
        ),
      ),
    ),
  ),
)

decode_props-encode_example :
    (q : GpuProps) × (store_all properties zero_props ≡ some q)
    × (decode_props (encode properties) (length (encode properties)) ≡ props q)
decode_props-encode_example = decode_props-encode properties properties-IsValid

decode_props-Ends_example :
    ((q : GpuProps) × (decode_props (4 ∷ []) 1 ≡ props q)) ⊎ (decode_props (4 ∷ []) 1 ≡ overread)
decode_props-Ends_example = decode_props-Ends (4 ∷ []) 1

-- A property, and six bytes of another.
abbrev cut_buffer : List ℕ
cut_buffer =
    encode (record { prop_type = 1; value_type = 2; value = 0x6000 } ∷ [])
    ++ take 6 (encode_property (record { prop_type = 64; value_type = 3; value = 11 }))

decode_props-cut_example : decode_props cut_buffer (length cut_buffer) ≡ overread
decode_props-cut_example =
    decode_props-cut (record { prop_type = 1; value_type = 2; value = 0x6000 } ∷ [])
      (record { prop_type = 64; value_type = 3; value = 11 }) 6
      (record { type_fits = omega arith; size_known = omega arith; value_fits = omega arith }, tt)
      (record { type_fits = omega arith; size_known = omega arith; value_fits = omega arith })
      (omega arith) (omega arith)

-- A property that is cut short is read past its end.
decode_props_truncated : decode_props (4 ∷ []) 1 ≡ overread
unfolding decode_props
decode_props_truncated = refl

store_property-total_example :
    (q : GpuProps) × (store_property 64 0xffffffffffffffff zero_props ≡ some q)
store_property-total_example = store_property-total 64 0xffffffffffffffff zero_props

core_index_remap_lem_example :
    (remap : List ℕ) × (core_index_remap 11 ≡ some remap)
    × (length remap ≡ mp_count 11)
    × Ascending 0 remap
    × All (λ b. (b < 32) × (11 / 2 ^ b % 2 ≡ 1)) remap
core_index_remap_lem_example = core_index_remap_lem 11 (omega arith)

core_index_remap_11 : core_index_remap 11 ≡ some (0 ∷ 1 ∷ 3 ∷ [])
unfolding core_index_remap
core_index_remap_11 = refl

get_mali_hw_info-Post_example :
    Post
      (λ i t. IsConsistent i × Has machine.counter [] t)
      (Thrown machine.counter (pos 3) [])
      Unit
      (get_mali_hw_info device machine)
get_mali_hw_info-Post_example = get_mali_hw_info-Post device machine

term-releases_example :
    (term machine ≡ returns tt (released machine))
    × (is_mapped (released machine).counter.sample_data ≡ false)
    × (is_neg (released machine).counter.hwc_fd ≡ true)
    × (is_neg (released machine).counter.fd ≡ true)
    × (term (released machine) ≡ returns tt (released machine))
term-releases_example = term-releases machine

init-Ready_example :
    Post (λ _ t. Ready t.counter) (λ _ _. Unit {0}) (Unit {0}) (init device new_machine)
init-Ready_example = init-Ready device new_machine

pub device-Cooperates : Cooperates device gpu
device-Cooperates = record {
  opens = λ h. refl;
  maps = λ h. refl;
  grants = λ h fd r. refl;
  heads = λ h fd r. refl;
  major = λ h fd. omega arith;
  api = λ h fd n. refl;
  hw_ver = λ h fd. omega arith;
  describes = λ h fd. refl;
}

pub gpu_found : find_product gpu.product_id ≡ some tmix
unfolding find_product
gpu_found = refl

init-succeeds_example : Surely (λ _ t. Ready t.counter) (init device new_machine)
init-succeeds_example =
    init-succeeds device gpu tmix new_machine device-Cooperates (omega arith) gpu_found
