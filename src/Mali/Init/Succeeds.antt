-- ===== src/Mali/Init/Succeeds.antt =====
-- `MaliCounter::init` on a device that grants what it is asked for.
use hwcpipe.Common.{◌^◌, ◌%◌, ℕ, ◌≤◌, ◌≡◌, refl, true, false, ◌∷◌, some, arith, length}
use hwcpipe.Common.Int.{ℤ, pos, is_neg}
use hwcpipe.Common.Outcome.{bind-Post}
use hwcpipe.Names.Products.{CounterMapping, find_product}
use hwcpipe.Mali.HwInfo.{
  check_abi, create_context, props_from_registers, gpu_properties, get_mali_hw_info,
}
use hwcpipe.Mali.Kernel.{
  Kernel, opened, History, Request, BaseGpuProps, uk_check_version, uk_set_flags, uk_gpu_props,
  uk_reader_setup, get_api_version, get_buffer_size, get_hwver, mali_ioctl,
}
use hwcpipe.Mali.Init.Starts.{Surely, Done, or_masks-total, Identified, Starts, init-Starts}
use hwcpipe.Mali.State.{Machine}
use hwcpipe.Mali.Init.Ready.{Ready}
use hwcpipe.Mali.Init.{init, init_abi, init_flags, init_reader, all_counters}

-- A device with the older interface and the properties `p`, which opens, maps and grants every request.
pub record Cooperates (k : Kernel) (p : BaseGpuProps) : Type 0 where
  pub opens : (h : History) → is_neg (k.open_device h) ≡ false
  pub maps : (h : History) → k.mmap h ≡ true
  pub grants : (h : History) (fd : ℤ) (r : Request) → (k.ioctl h fd r).ret ≡ pos 0
  pub heads : (h : History) (fd : ℤ) (r : Request) → (k.ioctl h fd r).header_ret ≡ 0
  pub major : (h : History) (fd : ℤ) → 10 ≤ (k.ioctl h fd (uk_check_version 0 0)).out % 2 ^ 16
  pub api : (h : History) (fd : ℤ) (n : ℕ) → (k.ioctl h fd (get_api_version n)).out ≡ 1
  pub hw_ver : (h : History) (fd : ℤ) → 5 ≤ (k.ioctl h fd get_hwver).out % 2 ^ 32
  pub describes : (h : History) (fd : ℤ) → (k.ioctl h fd uk_gpu_props).out ≡ p

module _ (k : Kernel) (p : BaseGpuProps) (coop : Cooperates k p) where
  granted : (h : History) (fd : ℤ) (r : Request) → mali_ioctl (k.ioctl h fd r) ≡ pos 0
  granted h fd r = rw (coop.grants h fd r, coop.heads h fd r)

  abi-Done : (fd : ℤ) (s : Machine) → Done (check_abi k fd s)
  unfolding check_abi
  abi-Done fd s = rw (granted s.history fd (uk_check_version 10 2)) tt

  context-Done : (fd : ℤ) (s : Machine) → Done (create_context k fd s)
  unfolding create_context
  context-Done fd s = rw (granted s.history fd (uk_set_flags 2)) tt

  init_abi-Done : (s : Machine) → Done (init_abi k s)
  unfolding init_abi
  init_abi-Done s = ground (
    arith,
    granted s.history s.counter.fd (uk_check_version 0 0),
    coop.major s.history s.counter.fd,
  )

  init_flags-Done : (s : Machine) → Done (init_flags k s)
  unfolding init_flags
  init_flags-Done s = rw (granted s.history s.counter.fd (uk_set_flags 2)) tt

  init_reader-Done : (s : Machine) → Done (init_reader k s)
  unfolding init_reader
  init_reader-Done s =
      rw
        (granted s.history s.counter.fd (
          uk_reader_setup s.counter.buffer_count all_counters all_counters all_counters
            all_counters))
        tt

  properties-Described :
      (fd : ℤ) (s : Machine)
      → p.num_core_groups ≤ length p.group_core_mask
      → Surely (λ i _. Identified p.product_id p.num_l2_slices i) (gpu_properties k fd s)
  unfolding gpu_properties props_from_registers
  properties-Described fd s h =
      let (m, e) = or_masks-total p.num_core_groups p.group_core_mask 0 h in
      rw (granted s.history fd uk_gpu_props, coop.describes s.history fd, e) (refl, refl)

  pub hw_info-Described :
      (s : Machine)
      → p.num_core_groups ≤ length p.group_core_mask
      → Surely (λ i _. Identified p.product_id p.num_l2_slices i) (get_mali_hw_info k s)
  unfolding get_mali_hw_info
  hw_info-Described s h =
      let fd = k.open_device s.history in
      let t : Machine = record s { history = opened fd ∷ s.history } in
      rw (coop.opens s.history) (
        bind-Post (λ _ _. Unit {0}) (λ i _. Identified p.product_id p.num_l2_slices i) (λ _ _. ⊥) ⊥
          (check_abi k fd) _ t (abi-Done fd t)
          λ _ u _.
            bind-Post (λ _ _. Unit {0}) (λ i _. Identified p.product_id p.num_l2_slices i)
              (λ _ _. ⊥) ⊥ (create_context k fd) _ u (context-Done fd u)
              λ _ v _. properties-Described fd v h)

  pub coop-Starts :
      p.num_core_groups ≤ length p.group_core_mask → Starts k p.product_id p.num_l2_slices
  coop-Starts h = record {
    opens = coop.opens;
    maps = coop.maps;
    readable = record {
      api_ret = λ h fd n. coop.grants h fd (get_api_version n);
      api = coop.api;
      size_ret = λ h fd. coop.grants h fd get_buffer_size;
      hw_ret = λ h fd. coop.grants h fd get_hwver;
      hw_ver = coop.hw_ver;
    };
    abi = init_abi-Done;
    flags = init_flags-Done;
    reader = init_reader-Done;
    identifies = λ s. hw_info-Described s h;
  }

-- On a device of a known product with the older interface that opens, maps and grants every request, and
-- reports a supported version and no more core groups than it has masks, `init` returns, from any state of
-- the object, and leaves the object ready.
pub init-succeeds :
    (k : Kernel) (p : BaseGpuProps) (cm : CounterMapping) (s : Machine)
    → Cooperates k p
    → p.num_core_groups ≤ length p.group_core_mask
    → find_product p.product_id ≡ some cm
    → Surely (λ _ t. Ready t.counter) (init k s)
init-succeeds k p cm s coop h e =
    init-Starts k p.product_id p.num_l2_slices (coop-Starts k p coop h) cm s e
