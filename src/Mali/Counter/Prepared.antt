-- ===== src/Mali/Counter/Prepared.antt =====
-- What `init` leaves when it returns: the members that a sample needs.
use hwcpipe.Common.{
  ◌^◌, ◌<◌, ℕ, ◌/◌, ◌≡◌, refl, ap, subst, ◌∙◌, some, arith, length, Option-cases, inl, inr,
}
use hwcpipe.Common.Int.{ℤ, signed32}
use hwcpipe.Common.Outcome.{Outcome, Post, Post-mono, Post-and, bind-Post, ◌>>◌}
use hwcpipe.Names.Products.{CounterMapping, find_product}
use hwcpipe.Mali.Cores.{core_index_remap}
use hwcpipe.Mali.HwInfo.{MaliHwInfo, get_mali_hw_info}
use hwcpipe.Mali.HwInfo.Descriptors.{IsConsistent, Has, device_fds, Thrown, get_mali_hw_info-Post}
use hwcpipe.Mali.Kernel.{Kernel, History, get_buffer_size}
use hwcpipe.Mali.State.{MaliCounter, mapping, Machine, Mali}
use hwcpipe.Mali.Init.Term.{released, term-releases}
use hwcpipe.Mali.Init.Ready.{length-filled}
use hwcpipe.Mali.Init.Starts.{Identified, Starts}
use hwcpipe.Mali.Init.{
  init, init_device, init_abi, init_flags, init_reader, init_api, init_sizes, init_mapping,
  init_product, init_buffers, init_for,
}

-- A return leaves members with `P`.
abbrev Leaves : (MaliCounter → Type 0) → Outcome Machine (Unit {0}) → Type 0
Leaves P = Post (λ _ t. P t.counter) (λ _ _. Unit {0}) Unit

then_Leaves :
    (P R : MaliCounter → Type 0) (m n : Mali (Unit {0})) (s : Machine)
    → Leaves P (m s)
    → ((t : Machine) → P t.counter → Leaves R (n t))
    → Leaves R ((m >> n) s)
then_Leaves P R m n s h k =
    bind-Post (λ _ t. P t.counter) (λ _ t. R t.counter) (λ _ _. Unit) Unit m (λ _. n) s h
      (λ _ t p. k t p)

-- The device's samples have so many bytes.
abbrev pub SampleSize : Kernel → ℕ → Type 0
SampleSize k size = (h : History) (fd : ℤ) → (k.ioctl h fd get_buffer_size).out ≡ size

-- What the parts of `init` leave, one after the other.
module _ (cm : CounterMapping) (slices count size : ℕ) where
  abbrev Counted : MaliCounter → Type 0
  Counted c = (c.num_l2_slices ≡ signed32 slices) × (c.buffer_count ≡ count)

  abbrev Sized : MaliCounter → Type 0
  Sized c = Counted c × (c.buffer_size ≡ size)

  abbrev Mapped : MaliCounter → Type 0
  Mapped c = Sized c × (c.sample_data ≡ mapping)

  abbrev Named : MaliCounter → Type 0
  Named c = Mapped c × (c.names_lut ≡ some cm.names_lut)

  abbrev pub Prepared : MaliCounter → Type 0
  Prepared c = Named c × (length c.raw_counter_buffer ≡ size / 4)

module _ (k : Kernel) (i : MaliHwInfo) (cm : CounterMapping) (count size : ℕ)
    (known : find_product i.gpu_id ≡ some cm) (sized : SampleSize k size)
    (word : size < 2 ^ 32) where
  abbrev IsCounted : MaliCounter → Type 0
  IsCounted = Counted cm i.l2_slices count size

  abbrev IsSized : MaliCounter → Type 0
  IsSized = Sized cm i.l2_slices count size

  abbrev IsMapped : MaliCounter → Type 0
  IsMapped = Mapped cm i.l2_slices count size

  abbrev IsNamed : MaliCounter → Type 0
  IsNamed = Named cm i.l2_slices count size

  abbrev IsPrepared : MaliCounter → Type 0
  IsPrepared = Prepared cm i.l2_slices count size

  device-IsCounted :
      (s : Machine) → s.counter.buffer_count ≡ count → Leaves IsCounted (init_device k i s)
  unfolding init_device
  device-IsCounted s h = ground arith

  abi-IsCounted : (s : Machine) → IsCounted s.counter → Leaves IsCounted (init_abi k s)
  unfolding init_abi
  abi-IsCounted s h = ground arith

  flags-IsCounted : (s : Machine) → IsCounted s.counter → Leaves IsCounted (init_flags k s)
  unfolding init_flags
  flags-IsCounted s h = ground arith

  reader-IsCounted : (s : Machine) → IsCounted s.counter → Leaves IsCounted (init_reader k s)
  unfolding init_reader
  reader-IsCounted s h = ground arith

  api-IsCounted : (s : Machine) → IsCounted s.counter → Leaves IsCounted (init_api k s)
  unfolding init_api
  api-IsCounted s h = ground arith

  sizes-IsSized : (s : Machine) → IsCounted s.counter → Leaves IsSized (init_sizes k s)
  unfolding init_sizes
  sizes-IsSized s h = ground (arith, sized s.history s.counter.hwc_fd)

  mapping-IsMapped : (s : Machine) → IsSized s.counter → Leaves IsMapped (init_mapping k s)
  unfolding init_mapping
  mapping-IsMapped s h = ground arith

  product-IsNamed : (s : Machine) → IsMapped s.counter → Leaves IsNamed (init_product i s)
  unfolding init_product
  product-IsNamed s h = rw known (h, refl)

  buffers-IsPrepared : (s : Machine) → IsNamed s.counter → Leaves IsPrepared (init_buffers i s)
  unfolding init_buffers
  buffers-IsPrepared s h = elim (Option-cases (core_index_remap i.core_mask)) [
    | inl e ↦ rw e tt
    | inr (remap, e) ↦ rw e (
      h,
      length-filled (s.counter.buffer_size / 4) s.counter.raw_counter_buffer
          ∙ ap (λ n. n / 4) h.0.0.1,
    )
  ]

  init_for-IsPrepared :
      (s : Machine) → s.counter.buffer_count ≡ count → Leaves IsPrepared (init_for k i s)
  unfolding init_for
  init_for-IsPrepared s e =
      then_Leaves IsCounted IsPrepared (init_device k i) _ s (device-IsCounted s e) λ s h.
        then_Leaves IsCounted IsPrepared (init_abi k) _ s (abi-IsCounted s h) λ s h.
          then_Leaves IsCounted IsPrepared (init_flags k) _ s (flags-IsCounted s h) λ s h.
            then_Leaves IsCounted IsPrepared (init_reader k) _ s (reader-IsCounted s h) λ s h.
              then_Leaves IsCounted IsPrepared (init_api k) _ s (api-IsCounted s h) λ s h.
                then_Leaves IsSized IsPrepared (init_sizes k) _ s (sizes-IsSized s h) λ s h.
                  then_Leaves IsMapped IsPrepared (init_mapping k) _ s (mapping-IsMapped s h) λ s h.
                    then_Leaves IsNamed IsPrepared (init_product i) _ s (product-IsNamed s h)
                      λ s h. buffers-IsPrepared s h

-- On a device that lets `init` return, it leaves the members prepared.
pub init-Prepared :
    (k : Kernel) (id slices : ℕ) (cm : CounterMapping) (size : ℕ) (s : Machine)
    → Starts k id slices
    → find_product id ≡ some cm
    → SampleSize k size
    → size < 2 ^ 32
    → Post
        (λ _ t. Prepared cm slices s.counter.buffer_count size t.counter)
        (λ _ _. Unit {0})
        Unit
        (init k s)
unfolding init
init-Prepared k id slices cm size s starts e sized word =
    let r = released s in
    rw (term-releases s).0 (
      bind-Post (λ i t. Identified id slices i × (t.counter.buffer_count ≡ s.counter.buffer_count))
        (λ _ t. Prepared cm slices s.counter.buffer_count size t.counter) (λ _ _. Unit) Unit
        (get_mali_hw_info k) (init_for k) r
        (Post-mono (get_mali_hw_info k r)
          (λ i t a. (a.1, ap (λ (c : MaliCounter). c.buffer_count) a.0.1.0)) (λ _ _ _. tt) (λ _. tt)
          (Post-and (λ i t. IsConsistent i × Has r.counter (device_fds r.history) t)
            (λ i _. Identified id slices i)
            (Thrown r.counter (k.open_device r.history) (device_fds r.history)) (λ _ _. ⊥) Unit ⊥
            (get_mali_hw_info k r) (get_mali_hw_info-Post k r) (starts.identifies r)))
        λ i t a.
          subst (λ n. Leaves (Prepared cm n s.counter.buffer_count size) (init_for k i t)) a.0.1
            (init_for-IsPrepared k i cm s.counter.buffer_count size (ap find_product a.0.0 ∙ e)
              sized word t a.1))
