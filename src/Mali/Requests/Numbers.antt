-- ===== src/Mali/Requests/Numbers.antt =====
-- The kernel can tell the requests apart.
use hwcpipe.Common.{
  ℕ, suc, ◌*◌, ◌^◌, ◌≡◌, refl, sym, ap, ◌∙◌, bit_or, List, [], ◌∷◌, map, Option, none, some, ◌==◌,
  if◌then◌else◌,
}
use hwcpipe.Mali.Kernel.{
  Request, uk_check_version, check_version, uk_set_flags, set_flags, uk_gpu_props, get_gpuprops,
  uk_reader_setup, reader_setup, get_api_version, get_buffer_size, get_hwver, dump, get_buffer,
  put_buffer,
}
use hwcpipe.Mali.Requests.{Ioc, request_number}

-- Which of the fourteen requests it is, whatever goes with it.
abbrev pub kind : Request → ℕ
kind (uk_check_version major minor) = 0
kind (check_version major minor) = 1
kind (uk_set_flags flags) = 2
kind (set_flags flags) = 3
kind uk_gpu_props = 4
kind (get_gpuprops size) = 5
kind (uk_reader_setup n jm shader tiler mmu) = 6
kind (reader_setup n jm shader tiler mmu) = 7
kind (get_api_version version) = 8
kind get_buffer_size = 9
kind get_hwver = 10
kind dump = 11
kind get_buffer = 12
kind (put_buffer meta) = 13

-- The fields of a number as the kernel's header joins them. The type has 8 bits, which an identifier of
-- `mali_ioctl` above 255 runs into.
abbrev pub packed : Ioc
packed dir type nr size = bit_or (bit_or (bit_or (dir * 2 ^ 30) (type * 2 ^ 8)) nr) (size * 2 ^ 16)

abbrev pub Packs : Ioc → Type 0
Packs ioc = (dir type nr size : ℕ) → ioc dir type nr size ≡ packed dir type nr size

abbrev position : ℕ → List ℕ → ℕ → Option ℕ
position n [] i = none
position n (x ∷ xs) i = let rest = position n xs (suc i) in if x == n then some i else rest

-- A request of each kind.
abbrev examples : List Request
examples =
    uk_check_version 0 0
    ∷ check_version 0 0
    ∷ uk_set_flags 0
    ∷ set_flags 0
    ∷ uk_gpu_props
    ∷ get_gpuprops 0
    ∷ uk_reader_setup 0 0 0 0 0
    ∷ reader_setup 0 0 0 0 0
    ∷ get_api_version 0
    ∷ get_buffer_size
    ∷ get_hwver
    ∷ dump
    ∷ get_buffer
    ∷ put_buffer (record { timestamp = 0; event_id = 0; buffer_idx = 0 })
    ∷ []

-- The position of a request's number among those of the examples is its kind.
position-kind :
    (r : Request)
    → position (request_number packed r) (map (request_number packed) examples) 0 ≡ some (kind r)
unfolding request_number
position-kind (uk_check_version major minor) = refl
position-kind (check_version major minor) = refl
position-kind (uk_set_flags flags) = refl
position-kind (set_flags flags) = refl
position-kind uk_gpu_props = refl
position-kind (get_gpuprops size) = refl
position-kind (uk_reader_setup n jm shader tiler mmu) = refl
position-kind (reader_setup n jm shader tiler mmu) = refl
position-kind (get_api_version version) = refl
position-kind get_buffer_size = refl
position-kind get_hwver = refl
position-kind dump = refl
position-kind get_buffer = refl
position-kind (put_buffer meta) = refl

request_number-packed :
    (ioc : Ioc) → Packs ioc → (r : Request) → request_number ioc r ≡ request_number packed r
unfolding request_number
request_number-packed ioc h (uk_check_version major minor) = h _ _ _ _
request_number-packed ioc h (check_version major minor) = h _ _ _ _
request_number-packed ioc h (uk_set_flags flags) = h _ _ _ _
request_number-packed ioc h (set_flags flags) = h _ _ _ _
request_number-packed ioc h uk_gpu_props = h _ _ _ _
request_number-packed ioc h (get_gpuprops size) = h _ _ _ _
request_number-packed ioc h (uk_reader_setup n jm shader tiler mmu) = h _ _ _ _
request_number-packed ioc h (reader_setup n jm shader tiler mmu) = h _ _ _ _
request_number-packed ioc h (get_api_version version) = h _ _ _ _
request_number-packed ioc h get_buffer_size = h _ _ _ _
request_number-packed ioc h get_hwver = h _ _ _ _
request_number-packed ioc h dump = h _ _ _ _
request_number-packed ioc h get_buffer = h _ _ _ _
request_number-packed ioc h (put_buffer meta) = h _ _ _ _

-- When `_IOC` packs its fields as the kernel's header does, two requests with one number are the same request
-- up to what goes with it.
pub request_number-kind :
    (ioc : Ioc)
    → Packs ioc
    → (r q : Request) → request_number ioc r ≡ request_number ioc q
    → kind r ≡ kind q
request_number-kind ioc h r q e =
    let same = sym (request_number-packed ioc h r) ∙ e ∙ request_number-packed ioc h q in
    let found : some (kind r) ≡ some (kind q) =
      sym (position-kind r)
      ∙ ap (λ n. position n (map (request_number packed) examples) 0) same
      ∙ position-kind q in
    cc
