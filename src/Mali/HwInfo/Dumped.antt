-- ===== src/Mali/HwInfo/Dumped.antt =====
-- `get_mali_hw_info` on a device with the newer interface, which dumps its properties into a buffer.
use mathlib.Core.Option.{some-injective}
use hwcpipe.Common.{
  ℕ, ◌≤◌, ◌≡◌, refl, ap, ◌∙◌, sym, List, [], ◌∷◌, ◌++◌, some, length, All, true, false, take,
  replicate,
}
use hwcpipe.Common.Int.{ℤ, pos, negsuc, is_neg}
use hwcpipe.Common.Outcome.{bind-Post}
use hwcpipe.Mali.Cores.{mp_count}
use hwcpipe.Mali.GpuProps.{GpuProps, zero_props}
use hwcpipe.Mali.GpuProps.Encode.{Property, IsValid, encode, store_all}
use hwcpipe.Mali.GpuProps.RoundTrip.{decode_props-encode}
use hwcpipe.Mali.Kernel.{
  Kernel, History, opened, requested, uk_check_version, check_version, uk_set_flags, set_flags,
  uk_gpu_props, get_gpuprops, uk_reader_setup, reader_setup,
}
use hwcpipe.Mali.State.{Machine}
use hwcpipe.Mali.HwInfo.{
  MaliHwInfo, filled, or_masks, check_abi, create_context, props_from_buffer, gpu_properties,
  get_mali_hw_info,
}
use hwcpipe.Mali.Init.Starts.{Surely, Done, or_masks-total, Readable}

-- A device that knows none of the requests of the older interface, grants those of the newer one, and dumps
-- the properties `xs`.
pub record Dumps (k : Kernel) (xs : List Property) : Type 0 where
  pub opens : (h : History) → is_neg (k.open_device h) ≡ false
  pub maps : (h : History) → k.mmap h ≡ true
  pub no_uk_version :
      (h : History) (fd : ℤ) (a b : ℕ) → (k.ioctl h fd (uk_check_version a b)).ret ≡ negsuc 0
  pub no_uk_flags : (h : History) (fd : ℤ) → (k.ioctl h fd (uk_set_flags 2)).ret ≡ negsuc 0
  pub no_uk_props : (h : History) (fd : ℤ) → (k.ioctl h fd uk_gpu_props).ret ≡ negsuc 0
  pub no_uk_reader :
      (h : History) (fd : ℤ) (n a b c d : ℕ)
      → (k.ioctl h fd (uk_reader_setup n a b c d)).ret ≡ negsuc 0
  pub version : (h : History) (fd : ℤ) → (k.ioctl h fd (check_version 0 0)).ret ≡ pos 0
  pub flags : (h : History) (fd : ℤ) → (k.ioctl h fd (set_flags 2)).ret ≡ pos 0
  pub reader :
      (h : History) (fd : ℤ) (n a b c d : ℕ)
      → is_neg (k.ioctl h fd (reader_setup n a b c d)).ret ≡ false
  pub readable : Readable k
  pub size :
      (h : History) (fd : ℤ) (n : ℕ)
      → (k.ioctl h fd (get_gpuprops n)).ret ≡ pos (length (encode xs))
  pub bytes :
      (h : History) (fd : ℤ) → (k.ioctl h fd (get_gpuprops (length (encode xs)))).out ≡ encode xs

-- What is found is taken from the decoded properties.
abbrev pub Follows : GpuProps → MaliHwInfo → Type 0
Follows q i =
    (i.gpu_id ≡ q.product_id)
    × (i.r_value ≡ q.major_revision)
    × (i.p_value ≡ q.minor_revision)
    × (i.l2_slices ≡ q.l2_slices)
    × (or_masks q.num_core_groups q.core_mask 0 ≡ some i.core_mask)
    × (i.mp_count ≡ mp_count i.core_mask)

take-length : {A : Type 0} (xs ys : List A) → take (length xs) (xs ++ ys) ≡ xs
take-length [] ys = refl
take-length (x ∷ xs) ys = ap (λ zs. x ∷ zs) (take-length xs ys)

module _ (k : Kernel) (xs : List Property) (dumps : Dumps k xs) where
  abi-Dumped : (fd : ℤ) (s : Machine) → Done (check_abi k fd s)
  unfolding check_abi
  abi-Dumped fd s =
      let h : History = requested fd (uk_check_version 10 2) ∷ s.history in
      rw (dumps.no_uk_version s.history fd 10 2, dumps.version h fd) tt

  context-Dumped : (fd : ℤ) (s : Machine) → Done (create_context k fd s)
  unfolding create_context
  context-Dumped fd s =
      let h : History = requested fd (uk_set_flags 2) ∷ s.history in
      rw (dumps.no_uk_flags s.history fd, dumps.flags h fd) tt

  buffer-Dumped :
      (q : GpuProps) (fd : ℤ) (s : Machine)
      → All IsValid xs
      → store_all xs zero_props ≡ some q
      → q.num_core_groups ≤ length q.core_mask
      → Surely (λ i _. Follows q i) (props_from_buffer k fd s)
  unfolding props_from_buffer
  buffer-Dumped q fd s v e h =
      let (mask, or_mask) = or_masks-total q.num_core_groups q.core_mask 0 h in
      let (p, stores, decoded) = decode_props-encode xs v in
      let n = length (encode xs) in
      let same : p ≡ q = some-injective p q (sym stores ∙ e) in
      let whole : filled n (encode xs) ≡ encode xs = take-length (encode xs) (replicate n 0) in
      let t : History = requested fd (get_gpuprops 0) ∷ s.history in
      rw
        (
          dumps.size s.history fd 0,
          dumps.size t fd n,
          dumps.bytes t fd,
          whole,
          decoded,
          same,
          or_mask,
        )
        (refl, refl, refl, refl, refl, refl)

  properties-Dumped :
      (q : GpuProps) (fd : ℤ) (s : Machine)
      → All IsValid xs
      → store_all xs zero_props ≡ some q
      → q.num_core_groups ≤ length q.core_mask
      → Surely (λ i _. Follows q i) (gpu_properties k fd s)
  unfolding gpu_properties
  properties-Dumped q fd s v e h =
      let t : Machine = record s { history = requested fd uk_gpu_props ∷ s.history } in
      rw (dumps.no_uk_props s.history fd) (buffer-Dumped q fd t v e h)

  -- The properties that the buffer decodes to are the ones that are found.
  pub get_mali_hw_info-Follows :
      (q : GpuProps) (s : Machine)
      → All IsValid xs
      → store_all xs zero_props ≡ some q
      → q.num_core_groups ≤ length q.core_mask
      → Surely (λ i _. Follows q i) (get_mali_hw_info k s)
  unfolding get_mali_hw_info
  get_mali_hw_info-Follows q s v e h =
      let fd = k.open_device s.history in
      let t : Machine = record s { history = opened fd ∷ s.history } in
      rw (dumps.opens s.history) (
        bind-Post (λ _ _. Unit {0}) (λ i _. Follows q i) (λ _ _. ⊥) ⊥ (check_abi k fd) _ t
          (abi-Dumped fd t)
          λ _ u _.
            bind-Post (λ _ _. Unit {0}) (λ i _. Follows q i) (λ _ _. ⊥) ⊥ (create_context k fd) _ u
              (context-Dumped fd u) λ _ w _. properties-Dumped q fd w v e h)
