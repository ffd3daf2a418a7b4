-- ===== src/Mali/Init/Starts.antt =====
-- `MaliCounter::init` step by step, on a device that lets each step return.
use hwcpipe.Common.{
  ℕ, zero, suc, ◌≤◌, ◌≡◌, refl, ap, ◌∙◌, true, false, List, [], ◌∷◌, some, arith, length, ◌^◌, ◌%◌,
  bit_or,
}
use hwcpipe.Common.Int.{ℤ, pos, is_neg}
use hwcpipe.Common.Outcome.{Outcome, Post, Post-mono, Post-and, bind-Post, ◌>>◌}
use hwcpipe.Names.Products.{CounterMapping, find_product}
use hwcpipe.Mali.HwInfo.{MaliHwInfo, or_masks, get_mali_hw_info}
use hwcpipe.Mali.Cores.Remap.{core_index_remap_lem}
use hwcpipe.Mali.HwInfo.Descriptors.{IsConsistent, Has, device_fds, Thrown, get_mali_hw_info-Post}
use hwcpipe.Mali.Kernel.{Kernel, requested, History, get_api_version, get_buffer_size, get_hwver}
use hwcpipe.Mali.State.{Machine, Mali}
use hwcpipe.Mali.Init.Term.{released, term-releases}
use hwcpipe.Mali.Init.Ready.{Ready, init-Ready}
use hwcpipe.Mali.Init.{
  init, init_device, init_abi, init_flags, init_reader, init_api, init_sizes, init_mapping,
  init_product, init_buffers, init_for,
}

-- A return, after which `P` holds.
abbrev pub Surely : {A : Type 0} → (A → Machine → Type 0) → Outcome Machine A → Type 0
Surely P = Post P (λ _ _. ⊥) ⊥

abbrev pub Done : {A : Type 0} → Outcome Machine A → Type 0
Done = Surely (λ _ _. Unit {0})

pub or_masks-total :
    (n : ℕ) (masks : List ℕ) (acc : ℕ)
    → n ≤ length masks
    → (m : ℕ) × (or_masks n masks acc ≡ some m)
unfolding or_masks
or_masks-total zero masks acc h = (acc, refl)
or_masks-total (suc n) [] acc h = absurd (omega arith)
or_masks-total (suc n) (m ∷ masks) acc h =
    or_masks-total n masks (bit_or acc m % 2 ^ 32) (omega arith)

-- A reader that answers what `init` asks of it, with the versions that the code supports.
pub record Readable (k : Kernel) : Type 0 where
  pub api_ret : (h : History) (fd : ℤ) (n : ℕ) → (k.ioctl h fd (get_api_version n)).ret ≡ pos 0
  pub api : (h : History) (fd : ℤ) (n : ℕ) → (k.ioctl h fd (get_api_version n)).out ≡ 1
  pub size_ret : (h : History) (fd : ℤ) → (k.ioctl h fd get_buffer_size).ret ≡ pos 0
  pub hw_ret : (h : History) (fd : ℤ) → (k.ioctl h fd get_hwver).ret ≡ pos 0
  pub hw_ver : (h : History) (fd : ℤ) → 5 ≤ (k.ioctl h fd get_hwver).out % 2 ^ 32

abbrev pub Identified : ℕ → ℕ → MaliHwInfo → Type 0
Identified id slices i = (i.gpu_id ≡ id) × (i.l2_slices ≡ slices)

-- A device that opens, maps, has a readable reader and lets the steps that differ between the interfaces
-- return, and that is found to have the product `id` and so many slices.
pub record Starts (k : Kernel) (id slices : ℕ) : Type 0 where
  pub opens : (h : History) → is_neg (k.open_device h) ≡ false
  pub maps : (h : History) → k.mmap h ≡ true
  pub readable : Readable k
  pub abi : (s : Machine) → Done (init_abi k s)
  pub flags : (s : Machine) → Done (init_flags k s)
  pub reader : (s : Machine) → Done (init_reader k s)
  pub identifies : (s : Machine) → Surely (λ i _. Identified id slices i) (get_mali_hw_info k s)

module _ (k : Kernel) (id slices : ℕ) (starts : Starts k id slices) where
  device-Done : (i : MaliHwInfo) (s : Machine) → Done (init_device k i s)
  unfolding init_device
  device-Done i s = rw (starts.opens s.history) tt

  init_api-Done : (s : Machine) → Done (init_api k s)
  unfolding init_api
  init_api-Done s = ground (
    arith,
    starts.readable.api_ret s.history s.counter.hwc_fd 4294967294,
    starts.readable.api s.history s.counter.hwc_fd 4294967294,
  )

  init_sizes-Done : (s : Machine) → Done (init_sizes k s)
  unfolding init_sizes
  init_sizes-Done s =
      let h : History = requested s.counter.hwc_fd get_buffer_size ∷ s.history in
      ground (
        arith,
        starts.readable.size_ret s.history s.counter.hwc_fd,
        starts.readable.hw_ret h s.counter.hwc_fd,
        starts.readable.hw_ver h s.counter.hwc_fd,
      )

  init_mapping-Done : (s : Machine) → Done (init_mapping k s)
  unfolding init_mapping
  init_mapping-Done s = rw (starts.maps s.history) tt

  then_Done :
      (m n : Mali (Unit {0})) (s : Machine)
      → Done (m s)
      → ((t : Machine) → Done (n t))
      → Done ((m >> n) s)
  then_Done m n s h f =
      bind-Post (λ _ _. Unit {0}) (λ _ _. Unit {0}) (λ _ _. ⊥) ⊥ m (λ _. n) s h (λ _ t _. f t)

  product-Done :
      (i : MaliHwInfo) (cm : CounterMapping) (s : Machine)
      → find_product i.gpu_id ≡ some cm
      → Done (init_product i s)
  unfolding init_product
  product-Done i cm s e = rw e tt

  buffers-Done : (i : MaliHwInfo) (s : Machine) → IsConsistent i → Done (init_buffers i s)
  unfolding init_buffers
  buffers-Done i s ok =
      let (remap, e, count, rising, ones) = core_index_remap_lem i.core_mask ok.0 in rw e tt

  init_for-Done :
      (i : MaliHwInfo) (cm : CounterMapping) (s : Machine)
      → IsConsistent i
      → find_product i.gpu_id ≡ some cm
      → Done (init_for k i s)
  unfolding init_for
  init_for-Done i cm s ok e = then_Done (init_device k i) _ s (device-Done i s) λ s.
      then_Done (init_abi k) _ s (starts.abi s) λ s.
        then_Done (init_flags k) _ s (starts.flags s) λ s.
          then_Done (init_reader k) _ s (starts.reader s) λ s.
            then_Done (init_api k) _ s (init_api-Done s) λ s.
              then_Done (init_sizes k) _ s (init_sizes-Done s) λ s.
                then_Done (init_mapping k) _ s (init_mapping-Done s) λ s.
                  then_Done (init_product i) _ s (product-Done i cm s e) λ s. buffers-Done i s ok

  init-Done : (cm : CounterMapping) (s : Machine) → find_product id ≡ some cm → Done (init k s)
  unfolding init
  init-Done cm s e =
      let r = released s in
      rw (term-releases s).0 (
        bind-Post (λ i _. IsConsistent i × Identified id slices i) (λ _ _. Unit {0}) (λ _ _. ⊥) ⊥
          (get_mali_hw_info k) (init_for k) r
          (Post-mono (get_mali_hw_info k r) (λ i t a. (a.0.0, a.1)) (λ _ _ a. a.1) (λ a. a.1)
            (Post-and (λ i t. IsConsistent i × Has r.counter (device_fds r.history) t)
              (λ i _. Identified id slices i)
              (Thrown r.counter (k.open_device r.history) (device_fds r.history)) (λ _ _. ⊥) Unit ⊥
              (get_mali_hw_info k r) (get_mali_hw_info-Post k r) (starts.identifies r)))
          λ i t a. init_for-Done i cm t a.0 (ap find_product a.1.0 ∙ e))

  -- On such a device of a known product, `init` returns, from any state of the object, and leaves the
  -- object ready.
  pub init-Starts :
      (cm : CounterMapping) (s : Machine)
      → find_product id ≡ some cm
      → Surely (λ _ t. Ready t.counter) (init k s)
  init-Starts cm s e =
      Post-mono (init k s) (λ _ t a. a.0) (λ _ _ a. a.1) (λ a. a.1)
        (Post-and (λ _ t. Ready t.counter) (λ _ _. Unit {0}) (λ _ _. Unit {0}) (λ _ _. ⊥) Unit ⊥
          (init k s) (init-Ready k s) (init-Done cm s e))
