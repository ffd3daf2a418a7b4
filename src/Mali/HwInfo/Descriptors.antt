-- ===== src/Mali/HwInfo/Descriptors.antt =====
-- What `get_mali_hw_info` does with the descriptor that it opens, and what it returns.
use text.Mathlib.Text.{◌==◌ as str_eq}
use hwcpipe.Common.{
  ℕ, zero, suc, ◌^◌, ◌%◌, ◌<◌, ◌≡◌, refl, ◌∙◌, sym, ap, subst, Bool-cases, String, List, [], ◌∷◌,
  Option, none, some, inl, inr, arith, bit_or, if◌then◌else◌,
}
use hwcpipe.Common.Int.{ℤ, pos_part, is_neg, is_nonzero, eq_ℤ, eq_ℤ_refl}
use hwcpipe.Common.Outcome.{
  defined, return, returns, throws, faults, and_then, Outcome, Post, bind-Post, ◌>>=◌, ◌>>◌,
}
use hwcpipe.Mali.Cores.{mp_count}
use hwcpipe.Mali.GpuProps.Decode.{decode_props}
use hwcpipe.Mali.GpuProps.Ends.{decode_props-Ends}
use hwcpipe.Mali.Kernel.{
  Kernel, opened, requested, mapped, unmapped, polled, closed, History, mali_ioctl, BaseGpuProps,
  uk_gpu_props, get_gpuprops,
}
use hwcpipe.Mali.State.{Machine, MaliCounter, close}
use hwcpipe.Mali.HwInfo.{
  MaliHwInfo, or_masks, decoded_hw_info, base_hw_info, filled, check_abi, create_context,
  props_from_buffer, props_from_registers, gpu_properties, hw_info_of_mask, get_mali_hw_info,
}

abbrev remove_fd : ℤ → List ℤ → List ℤ
remove_fd fd [] = []
remove_fd fd (x ∷ xs) = if eq_ℤ x fd then xs else x ∷ remove_fd fd xs

-- The descriptors of the device that are open after the calls, the latest first.
abbrev pub device_fds : History → List ℤ
device_fds [] = []
device_fds (opened fd ∷ h) = if is_neg fd then device_fds h else fd ∷ device_fds h
device_fds (requested fd r ∷ h) = device_fds h
device_fds (mapped n fd ∷ h) = device_fds h
device_fds (unmapped n ∷ h) = device_fds h
device_fds (polled fd ∷ h) = device_fds h
device_fds (closed fd ∷ h) = remove_fd fd (device_fds h)

-- The members are those of `c`, and the open descriptors are `fds`.
abbrev pub Has : MaliCounter → List ℤ → Machine → Type 0
Has c fds s = (s.counter ≡ c) × (device_fds s.history ≡ fds)

remove_fd_head : (fd : ℤ) (fds : List ℤ) → remove_fd fd (fd ∷ fds) ≡ fds
remove_fd_head fd fds = rw (eq_ℤ_refl fd)

close-Has :
    (fd : ℤ) (fds : List ℤ) (c : MaliCounter) (s : Machine)
    → Has c (fd ∷ fds) s
    → Has c fds (record s { history = closed fd ∷ s.history })
close-Has fd fds c s (e, h) = (e, ap (remove_fd fd) h ∙ remove_fd_head fd fds)

-- The error of the two calls that ask for the properties.
abbrev pub props_error : String
props_error = "Failed getting GPU properties."

-- What is left by an exception: the descriptor is closed, but open after the error of the properties.
abbrev pub Thrown : MaliCounter → ℤ → List ℤ → String → Machine → Type 0
Thrown c fd fds e s = Has c (if str_eq e props_error then fd ∷ fds else fds) s

-- The count of cores is that of the mask.
abbrev pub IsConsistent : MaliHwInfo → Type 0
IsConsistent i = (i.core_mask < 2 ^ 32) × (i.mp_count ≡ mp_count i.core_mask)

or_masks-lt :
    (n : ℕ) (masks : List ℕ) (acc m : ℕ) → acc < 2 ^ 32 → or_masks n masks acc ≡ some m → m < 2 ^ 32
unfolding or_masks
or_masks-lt zero masks acc m h e = ground arith
or_masks-lt (suc n) [] acc m h e = absurd (cc)
or_masks-lt (suc n) (x ∷ masks) acc m h e =
    or_masks-lt n masks (bit_or acc x % 2 ^ 32) m (omega arith) e

-- A result that is consistent leaves the machine as it was, and nothing is thrown.
abbrev Consistent : Machine → Outcome Machine MaliHwInfo → Type 0
Consistent s = Post (λ i t. IsConsistent i × (t ≡ s)) (λ _ _. ⊥) Unit

defined-Consistent :
    (o : Option ℕ) (id r p slices : ℕ) (s : Machine)
    → ((m : ℕ) → o ≡ some m → m < 2 ^ 32)
    → Consistent s ((do mask ← defined o; return (hw_info_of_mask id r p slices mask)) s)
defined-Consistent none id r p slices s h = tt
defined-Consistent (some m) id r p slices s h = ((h m refl, refl), refl)

base_hw_info-Consistent : (p : BaseGpuProps) (s : Machine) → Consistent s (base_hw_info p s)
base_hw_info-Consistent p s =
    defined-Consistent (or_masks p.num_core_groups p.group_core_mask 0) _ _ _ _ s
      (λ m. or_masks-lt p.num_core_groups p.group_core_mask 0 m (omega arith))

decoded_hw_info-Consistent :
    (buffer : List ℕ) (size : ℕ) (s : Machine)
    → Consistent s (decoded_hw_info (decode_props buffer size) s)
decoded_hw_info-Consistent buffer size s = elim (decode_props-Ends buffer size) [
  | inl (p, e) ↦ rw e (
      defined-Consistent (or_masks p.num_core_groups p.core_mask 0) _ _ _ _ s
        (λ m. or_masks-lt p.num_core_groups p.core_mask 0 m (omega arith)))
  | inr e ↦ rw e tt
]

module _ (k : Kernel) (c : MaliCounter) (fd : ℤ) (fds : List ℤ) where
  abbrev Done : Outcome Machine MaliHwInfo → Type 0
  Done = Post (λ i t. IsConsistent i × Has c fds t) (Thrown c fd fds) Unit

  check_abi-Post :
      (s : Machine)
      → Has c (fd ∷ fds) s
      → Post (λ _ t. Has c (fd ∷ fds) t) (Thrown c fd fds) Unit (check_abi k fd s)
  unfolding check_abi
  check_abi-Post s h = ground (arith, close-Has fd fds c)

  create_context-Post :
      (s : Machine)
      → Has c (fd ∷ fds) s
      → Post (λ _ t. Has c (fd ∷ fds) t) (Thrown c fd fds) Unit (create_context k fd s)
  unfolding create_context
  create_context-Post s h = ground (arith, close-Has fd fds c)

  closed_after :
      (o : Outcome Machine MaliHwInfo) (s : Machine)
      → Consistent s o
      → Has c (fd ∷ fds) s
      → Done (and_then o (λ hw_info. do close fd; return hw_info))
  closed_after (returns i t) s (ok, e) held =
      (ok, close-Has fd fds c t (subst (Has c (fd ∷ fds)) (sym e) held))
  closed_after (throws e t) s h held = absurd h
  closed_after faults s h held = tt

  props_from_registers-Done :
      (p : BaseGpuProps) (s : Machine) → Has c (fd ∷ fds) s → Done (props_from_registers k fd p s)
  unfolding props_from_registers
  props_from_registers-Done p s h =
      closed_after (base_hw_info p s) s (base_hw_info-Consistent p s) h

  props_from_buffer-Done : (s : Machine) → Has c (fd ∷ fds) s → Done (props_from_buffer k fd s)
  unfolding props_from_buffer
  props_from_buffer-Done s h =
      let a = k.ioctl s.history fd (get_gpuprops 0) in
      let n = pos_part a.ret in
      let u : Machine = record s { history = requested fd (get_gpuprops 0) ∷ s.history } in
      let b = k.ioctl u.history fd (get_gpuprops n) in
      let t : Machine = record u { history = requested fd (get_gpuprops n) ∷ u.history } in
      elim (Bool-cases (is_neg a.ret)) [
        | inl failed ↦ rw failed h
        | inr asked ↦ elim (Bool-cases (is_neg b.ret)) [
          | inl failed ↦ rw (asked, failed) h
          | inr got ↦
              rw (asked, got)
                (closed_after (decoded_hw_info (decode_props (filled n b.out) (pos_part b.ret)) t) t
                  (decoded_hw_info-Consistent (filled n b.out) (pos_part b.ret) t) h)
        ]
      ]

  gpu_properties-Done : (s : Machine) → Has c (fd ∷ fds) s → Done (gpu_properties k fd s)
  unfolding gpu_properties
  gpu_properties-Done s h =
      let a = k.ioctl s.history fd uk_gpu_props in
      let t : Machine = record s { history = requested fd uk_gpu_props ∷ s.history } in
      elim (Bool-cases (is_nonzero (mali_ioctl a))) [
        | inl other ↦ rw other (props_from_buffer-Done t h)
        | inr same ↦ rw same (props_from_registers-Done a.out t h)
      ]

  -- All that follows the opening.
  opened-Done :
      (s : Machine)
      → Has c (fd ∷ fds) s
      → Done ((do check_abi k fd; create_context k fd; gpu_properties k fd) s)
  opened-Done s h =
      bind-Post (λ _ t. Has c (fd ∷ fds) t) (λ i t. IsConsistent i × Has c fds t) (Thrown c fd fds)
        Unit (check_abi k fd) _ s (check_abi-Post s h)
        λ _ t held.
          bind-Post (λ _ t. Has c (fd ∷ fds) t) (λ i t. IsConsistent i × Has c fds t)
            (Thrown c fd fds) Unit (create_context k fd) _ t (create_context-Post t held)
            λ _ u kept. gpu_properties-Done u kept

-- `get_mali_hw_info` changes no member. When it returns, the descriptor that it opened is closed again,
-- and the cores that it reports are counted from the 32-bit mask that it reports. When it throws, the
-- descriptor is closed too, if one was opened, but after the exception "Failed getting GPU properties." it
-- is still open.
pub get_mali_hw_info-Post :
    (k : Kernel) (s : Machine)
    → Post
        (λ i t. IsConsistent i × Has s.counter (device_fds s.history) t)
        (Thrown s.counter (k.open_device s.history) (device_fds s.history))
        Unit
        (get_mali_hw_info k s)
unfolding get_mali_hw_info
get_mali_hw_info-Post k s =
    let fd = k.open_device s.history in
    let t : Machine = record s { history = opened fd ∷ s.history } in
    elim (Bool-cases (is_neg fd)) [
      | inl failed ↦ rw failed (refl, rw failed)
      | inr ok ↦ rw ok (opened-Done k s.counter fd (device_fds s.history) t (refl, rw ok))
    ]
