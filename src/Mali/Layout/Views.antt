-- ===== src/Mali/Layout/Views.antt =====
-- What the bytes of a `gpu_props` say, and how the store of one member shows in it.
use hwcpipe.Common.{
  arith, ℕ, zero, suc, ◌+◌, ◌*◌, ◌%◌, ◌^◌, ◌≤◌, ◌<◌, ◌≡◌, refl, inl, inr, List, [], ◌∷◌, set,
  length,
}
use hwcpipe.Mali.GpuProps.{GpuProps, Member, store_member}
use hwcpipe.Mali.Layout.Types.{sizeof}
use hwcpipe.Mali.Layout.Structures.{gpu_props}
use hwcpipe.Mali.Layout.Memory.{load, put, load-put, load-put-Apart, Apart}
use hwcpipe.Mali.Layout.{member_place}

abbrev read_member : Member → List ℕ → ℕ
read_member m bytes = let p = member_place m in load p.size p.offset bytes

-- The masks from an offset on.
abbrev masks_from : (count offset : ℕ) → List ℕ → List ℕ
masks_from zero o bytes = []
masks_from (suc n) o bytes = load 8 o bytes ∷ masks_from n (8 + o) bytes

abbrev pub props_of : List ℕ → GpuProps
props_of bytes = record {
  product_id = read_member Member.product_id bytes;
  minor_revision = read_member Member.minor_revision bytes;
  major_revision = read_member Member.major_revision bytes;
  num_groups = read_member Member.num_groups bytes;
  num_core_groups = read_member Member.num_core_groups bytes;
  core_mask = masks_from 16 (member_place (Member.core_mask 0)).offset bytes;
  l2_slices = read_member Member.l2_slices bytes;
}

masks-Apart :
    (n p m o v : ℕ) (bytes : List ℕ)
    → Apart (8 * n) p m o
    → masks_from n p (put m o v bytes) ≡ masks_from n p bytes
masks-Apart zero p m o v bytes h = refl
masks-Apart (suc n) p m o v bytes h =
    let here = load-put-Apart 8 p m o v bytes (ground arith) in
    let rest = masks-Apart n (8 + p) m o v bytes (ground arith) in rw (here, rest) refl

-- A store to one mask.
masks-put :
    (n p i v : ℕ) (bytes : List ℕ)
    → i < n
    → p + 8 * n ≤ length bytes
    → masks_from n p (put 8 (p + i * 8) v bytes) ≡ set (masks_from n p bytes) i (v % 2 ^ 64)
masks-put zero p i v bytes h l = absurd (omega arith)
masks-put (suc n) p zero v bytes h l =
    let e : p + 0 * 8 ≡ p = omega arith in
    let here = load-put 8 p v bytes (omega arith) in
    let rest = masks-Apart n (8 + p) 8 p v bytes (inr (omega arith)) in rw (e, here, rest) refl
masks-put (suc n) p (suc i) v bytes h l =
    let e : p + suc i * 8 ≡ 8 + p + i * 8 = omega arith in
    let here = load-put-Apart 8 p 8 (8 + p + i * 8) v bytes (inl (omega arith)) in
    let rest = masks-put n (8 + p) i v bytes (omega arith) (omega arith) in rw (e, here, rest) refl

-- Enough bytes for the structure.
abbrev pub Holds : List ℕ → Type 0
Holds bytes = length bytes ≡ sizeof gpu_props

-- A mask of the structure.
abbrev pub Known : Member → Type 0
Known (Member.core_mask i) = i < 16
Known m = Unit

-- Writing the bytes of a member stores the value in that member, and in no other.
pub props_of-put :
    (m : Member) (v : ℕ) (bytes : List ℕ)
    → Holds bytes
    → Known m
    → props_of (put (member_place m).size (member_place m).offset v bytes)
      ≡ store_member m (v % (2 ^ 8) ^ (member_place m).size) (props_of bytes)
props_of-put Member.product_id v bytes h k =
    rw
      (
        load-put 4 0 v bytes (omega (arith, h)),
        load-put-Apart 2 4 4 0 v bytes (omega arith),
        load-put-Apart 2 6 4 0 v bytes (omega arith),
        load-put-Apart 4 8 4 0 v bytes (omega arith),
        load-put-Apart 4 12 4 0 v bytes (omega arith),
        masks-Apart 16 16 4 0 v bytes (omega arith),
        load-put-Apart 4 144 4 0 v bytes (omega arith),
      )
      refl
props_of-put Member.minor_revision v bytes h k =
    rw
      (
        load-put 2 4 v bytes (omega (arith, h)),
        load-put-Apart 4 0 2 4 v bytes (omega arith),
        load-put-Apart 2 6 2 4 v bytes (omega arith),
        load-put-Apart 4 8 2 4 v bytes (omega arith),
        load-put-Apart 4 12 2 4 v bytes (omega arith),
        masks-Apart 16 16 2 4 v bytes (omega arith),
        load-put-Apart 4 144 2 4 v bytes (omega arith),
      )
      refl
props_of-put Member.major_revision v bytes h k =
    rw
      (
        load-put 2 6 v bytes (omega (arith, h)),
        load-put-Apart 4 0 2 6 v bytes (omega arith),
        load-put-Apart 2 4 2 6 v bytes (omega arith),
        load-put-Apart 4 8 2 6 v bytes (omega arith),
        load-put-Apart 4 12 2 6 v bytes (omega arith),
        masks-Apart 16 16 2 6 v bytes (omega arith),
        load-put-Apart 4 144 2 6 v bytes (omega arith),
      )
      refl
props_of-put Member.num_groups v bytes h k =
    rw
      (
        load-put 4 8 v bytes (omega (arith, h)),
        load-put-Apart 4 0 4 8 v bytes (omega arith),
        load-put-Apart 2 4 4 8 v bytes (omega arith),
        load-put-Apart 2 6 4 8 v bytes (omega arith),
        load-put-Apart 4 12 4 8 v bytes (omega arith),
        masks-Apart 16 16 4 8 v bytes (omega arith),
        load-put-Apart 4 144 4 8 v bytes (omega arith),
      )
      refl
props_of-put Member.num_core_groups v bytes h k =
    rw
      (
        load-put 4 12 v bytes (omega (arith, h)),
        load-put-Apart 4 0 4 12 v bytes (omega arith),
        load-put-Apart 2 4 4 12 v bytes (omega arith),
        load-put-Apart 2 6 4 12 v bytes (omega arith),
        load-put-Apart 4 8 4 12 v bytes (omega arith),
        masks-Apart 16 16 4 12 v bytes (omega arith),
        load-put-Apart 4 144 4 12 v bytes (omega arith),
      )
      refl
props_of-put (Member.core_mask i) v bytes h k =
    rw
      (
        masks-put 16 16 i v bytes k (omega (arith, h)),
        load-put-Apart 4 0 8 (16 + i * 8) v bytes (omega (arith, k)),
        load-put-Apart 2 4 8 (16 + i * 8) v bytes (omega (arith, k)),
        load-put-Apart 2 6 8 (16 + i * 8) v bytes (omega (arith, k)),
        load-put-Apart 4 8 8 (16 + i * 8) v bytes (omega (arith, k)),
        load-put-Apart 4 12 8 (16 + i * 8) v bytes (omega (arith, k)),
        load-put-Apart 4 144 8 (16 + i * 8) v bytes (omega (arith, k)),
      )
      refl
props_of-put Member.l2_slices v bytes h k =
    rw
      (
        load-put 4 144 v bytes (omega (arith, h)),
        load-put-Apart 4 0 4 144 v bytes (omega arith),
        load-put-Apart 2 4 4 144 v bytes (omega arith),
        load-put-Apart 2 6 4 144 v bytes (omega arith),
        load-put-Apart 4 8 4 144 v bytes (omega arith),
        load-put-Apart 4 12 4 144 v bytes (omega arith),
        masks-Apart 16 16 4 144 v bytes (omega arith),
      )
      refl
