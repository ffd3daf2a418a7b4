-- ===== src/Mali/HwInfo/Reported.antt =====
-- What `get_mali_hw_info` reports of a device that dumps a list of properties, said of that list alone.
use hwcpipe.Common.{ℕ, ◌+◌, ◌%◌, ◌^◌, ◌<◌, ◌≤◌, ◌≡◌, refl, ap, ◌∙◌, List, some, arith, All, get_or}
use hwcpipe.Common.Outcome.{Post-mono}
use hwcpipe.Mali.GpuProps.{GpuProps, zero_props}
use hwcpipe.Mali.GpuProps.Encode.{Property, IsValid, store_all}
use hwcpipe.Mali.GpuProps.RoundTrip.{decode_props-encode}
use hwcpipe.Mali.GpuProps.Said.{latest, store_all-Says, store_all-mask, store_all-Sixteen}
use hwcpipe.Mali.Kernel.{Kernel}
use hwcpipe.Mali.State.{Machine}
use hwcpipe.Mali.HwInfo.{MaliHwInfo, get_mali_hw_info}
use hwcpipe.Mali.HwInfo.Masks.{bit, any_bit, any_bit-ap, or_masks-any_bit}
use hwcpipe.Mali.HwInfo.Dumped.{Dumps, Follows, get_mali_hw_info-Follows}
use hwcpipe.Mali.Init.Starts.{Surely}

-- The product, the revisions and the slices are the last values under the types 1, 4, 3 and 15, and the bit at
-- `b` of the mask is one when it is one in the mask of a group: the groups are counted under the type 62, and
-- have their masks under the types from 64 on.
abbrev pub Reports : ℕ → List Property → MaliHwInfo → Type 0
Reports b xs i =
    (i.gpu_id ≡ latest 1 xs 0 % 2 ^ 32)
    × (i.r_value ≡ latest 4 xs 0 % 2 ^ 16)
    × (i.p_value ≡ latest 3 xs 0 % 2 ^ 16)
    × (i.l2_slices ≡ latest 15 xs 0 % 2 ^ 32)
    × (bit b i.core_mask ≡ any_bit b (latest 62 xs 0 % 2 ^ 32) (λ j. latest (64 + j) xs 0 % 2 ^ 64))

Follows-Reports :
    (b : ℕ) (xs : List Property) (q : GpuProps) (i : MaliHwInfo)
    → b < 32
    → store_all xs zero_props ≡ some q
    → latest 62 xs 0 % 2 ^ 32 ≤ 16
    → Follows q i
    → Reports b xs i
Follows-Reports b xs q i h e few (id, r, p, l2, mask, _) =
    let (said_id, said_p, said_r, said_groups, said_l2) = store_all-Says xs q e in
    (
      id ∙ said_id,
      r ∙ said_r,
      p ∙ said_p,
      l2 ∙ said_l2,
      or_masks-any_bit b q.num_core_groups q.core_mask i.core_mask h mask
          ∙ any_bit-ap b q.num_core_groups (λ j. get_or q.core_mask j 0)
              (λ j. latest (64 + j) xs 0 % 2 ^ 64)
              (λ j lt. store_all-mask xs q j e (omega (arith, said_groups, few, lt)))
          ∙ ap (λ n. any_bit b n (λ j. latest (64 + j) xs 0 % 2 ^ 64)) said_groups,
    )

-- On a device that has only the newer interface, opens, grants its requests and dumps a list of properties
-- in the format, with no more than 16 core groups: `get_mali_hw_info` returns the product, the revisions and
-- the slices that the list gives last, cut to their members' sizes, and a mask with a one at each of its 32
-- positions where a mask of the groups has one, and a zero elsewhere.
pub get_mali_hw_info-Reports :
    (k : Kernel) (xs : List Property) (b : ℕ) (s : Machine)
    → Dumps k xs
    → All IsValid xs
    → latest 62 xs 0 % 2 ^ 32 ≤ 16
    → b < 32
    → Surely (λ i _. Reports b xs i) (get_mali_hw_info k s)
get_mali_hw_info-Reports k xs b s dumps v few h =
    let (q, e, _) = decode_props-encode xs v in
    let groups = (store_all-Says xs q e).3 in
    let sixteen = store_all-Sixteen xs zero_props q refl e in
    Post-mono (get_mali_hw_info k s) (λ i _ f. Follows-Reports b xs q i h e few f) (λ _ _ f. f)
      (λ f. f) (get_mali_hw_info-Follows k xs dumps q s v e (omega (arith, groups, sixteen, few)))
