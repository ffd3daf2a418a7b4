-- ===== src/Mali/Layout/Types.antt =====
-- The types of hwc.hpp as bytes: each member stands at the next multiple of its alignment, and a structure
-- ends at a multiple of its own. That is what the ABIs of the supported 64-bit platforms do.
use hwcpipe.Common.{ℕ, ◌+◌, ◌-◌, ◌*◌, ◌/◌, String, List, [], ◌∷◌, list_eq, if◌then◌else◌}
use hwcpipe.Common.Text.{codes}
use Prim.Native.Nat.{max}

-- A number of so many bytes, aligned to them; an array; a structure; a union.
mutual
  pub data CType : Type 0 where
    scalar : ℕ → CType
    array : ℕ → CType → CType
    struct : Fields → CType
    union : Fields → CType

  pub data Fields : Type 0 where
    end : Fields
    field : String → CType → Fields → Fields

-- The first multiple of the alignment from an offset on.
abbrev pub aligned : (alignment offset : ℕ) → ℕ
aligned alignment offset = (offset + (alignment - 1)) / alignment * alignment

abbrev mutual
  pub alignof : CType → ℕ
  alignof (scalar size) = size
  alignof (array count t) = alignof t
  alignof (struct fs) = fields_alignof fs
  alignof (union fs) = fields_alignof fs

  pub fields_alignof : Fields → ℕ
  fields_alignof end = 1
  fields_alignof (field name t fs) = max (alignof t) (fields_alignof fs)

abbrev mutual
  pub sizeof : CType → ℕ
  sizeof (scalar size) = size
  sizeof (array count t) = count * sizeof t
  sizeof (struct fs) = aligned (fields_alignof fs) (end_of fs 0)
  sizeof (union fs) = aligned (fields_alignof fs) (largest fs)

  -- The end of the members that stand from an offset on.
  pub end_of : Fields → ℕ → ℕ
  end_of end offset = offset
  end_of (field name t fs) offset = end_of fs (aligned (alignof t) offset + sizeof t)

  pub largest : Fields → ℕ
  largest end = 0
  largest (field name t fs) = max (sizeof t) (largest fs)

-- Where a member stands, and its size.
pub record Place : Type 0 where
  pub offset : ℕ
  pub size : ℕ

-- `offsetof` and `sizeof` of a member; a name that is not there does not compile, and has no bytes here.
abbrev pub place_from : ℕ → Fields → String → Place
place_from offset end name = record { offset = 0; size = 0 }
place_from offset (field own t fs) name =
    let here = aligned (alignof t) offset in
    let rest = place_from (here + sizeof t) fs name in
    if list_eq (codes own) (codes name) then record { offset = here; size = sizeof t } else rest

abbrev pub place : Fields → String → Place
place fs name = place_from 0 fs name

-- `unsigned` types and arrays.
abbrev pub uint8_t : CType
uint8_t = scalar 1

abbrev pub uint16_t : CType
uint16_t = scalar 2

abbrev pub uint32_t : CType
uint32_t = scalar 4

abbrev pub uint64_t : CType
uint64_t = scalar 8

abbrev pub int32_t : CType
int32_t = scalar 4

-- A pointer, on a 64-bit platform.
abbrev pub void_pointer : CType
void_pointer = scalar 8

-- The members of a structure, in order.
abbrev pub fields : List (String × CType) → Fields
fields [] = end
fields ((name, t) ∷ members) = field name t (fields members)
