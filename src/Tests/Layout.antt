-- ===== src/Tests/Layout.antt =====
-- Properties stored into the bytes of a structure.
use hwcpipe.Common.{ℕ, ◌≡◌, refl, List, [], ◌∷◌, Option, none, some, take}
use hwcpipe.Mali.GpuProps.Decode.{Decoded, props, invalid_size, overread, no_fuel, decode_props}
use hwcpipe.Mali.Layout.Memory.{load}
use hwcpipe.Mali.Layout.Loop.{read_past, fill_props}
use hwcpipe.Mali.Layout.Filled.{members_of, fill_props-members}
use hwcpipe.Mali.Kernel.{set_flags}
use hwcpipe.Mali.Requests.{request_number}
use hwcpipe.Mali.Requests.Numbers.{kind, packed, request_number-kind}

-- A product in four bytes, a type that the table has not, and a revision of four bytes that is cut to two.
abbrev register_dump : List ℕ
register_dump =
    6 ∷ 0 ∷ 0 ∷ 0 ∷ 86 ∷ 105 ∷ 0 ∷ 0 ∷ 140 ∷ 1 ∷ 0 ∷ 0 ∷ 7 ∷ 18 ∷ 0 ∷ 0 ∷ 0 ∷ 1 ∷ 0 ∷ 1 ∷ 0 ∷ []

fill_props-members_example :
    members_of (fill_props register_dump 21) ≡ decode_props register_dump 21
fill_props-members_example = fill_props-members register_dump 21

abbrev product_and_revision : Decoded → Option (ℕ × ℕ)
product_and_revision (props p) = some (p.product_id, p.major_revision)
product_and_revision invalid_size = none
product_and_revision overread = none
product_and_revision no_fuel = none

register_dump_read :
    product_and_revision (members_of (fill_props register_dump 21)) ≡ some (26966, 1)
unfolding fill_props load
register_dump_read = refl

-- The same bytes, cut inside of the revision.
cut_short : fill_props (take 18 register_dump) 18 ≡ read_past
unfolding fill_props
cut_short = refl

-- The flags differ, the request is one.
flags_number : request_number packed (set_flags 2) ≡ request_number packed (set_flags 7)
unfolding request_number
flags_number = refl

request_number-kind_example : kind (set_flags 2) ≡ kind (set_flags 7)
request_number-kind_example =
    request_number-kind packed (λ dir type nr size. refl) (set_flags 2) (set_flags 7) flags_number
