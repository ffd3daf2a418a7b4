-- ===== src/Mali/GpuProps/Encode.antt =====
-- The format of the buffer: each property is its type and the size of its value in four bytes, then the
-- value, all little-endian.
use hwcpipe.Common.{ℕ, zero, suc, ◌+◌, ◌*◌, ◌/◌, ◌%◌, ◌^◌, ◌<◌, List, [], ◌∷◌, ◌++◌, Option, some}
use hwcpipe.Mali.GpuProps.{GpuProps, store_property}
use hwcpipe.Common.Options.{◌>>=◌}

pub record Property : Type 0 where
  pub prop_type : ℕ
  pub value_type : ℕ
  pub value : ℕ

-- The bytes of a value of each of the four types.
abbrev pub width : ℕ → ℕ
width value_type = 2 ^ value_type

pub record IsValid (x : Property) : Type 0 where
  pub type_fits : x.prop_type < 2 ^ 30
  pub size_known : x.value_type < 4
  pub value_fits : x.value < 2 ^ (8 * width x.value_type)

abbrev pub le_bytes : ℕ → ℕ → List ℕ
le_bytes zero v = []
le_bytes (suc n) v = v % 256 ∷ le_bytes n (v / 256)

abbrev pub encode_property : Property → List ℕ
encode_property x =
    le_bytes 4 (x.prop_type * 4 + x.value_type) ++ le_bytes (width x.value_type) x.value

abbrev pub encode : List Property → List ℕ
encode [] = []
encode (x ∷ xs) = encode_property x ++ encode xs

-- The properties stored one after the other.
abbrev pub store_all : List Property → GpuProps → Option GpuProps
store_all [] p = some p
store_all (x ∷ xs) p = store_property x.prop_type x.value p >>= store_all xs
