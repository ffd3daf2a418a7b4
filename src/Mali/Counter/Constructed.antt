-- ===== src/Mali/Counter/Constructed.antt =====
-- The constructor: the map of counters that it fills outlives `init`.
use hwcpipe.Common.{
  ℕ, ◌≡◌, sym, ap, subst, String, List, some, arith, All, Option-cases, inl, inr, ◌≤◌, length,
}
use hwcpipe.Common.Outcome.{Outcome, Post, Post-mono, Post-and, bind-Post, ◌>>◌}
use hwcpipe.Common.Int.{ℤ}
use hwcpipe.Names.Products.{CounterMapping, find_product}
use hwcpipe.Names.Lookup.{jm_counter_names, mmu_counter_names}
use hwcpipe.Mali.Cores.{core_index_remap}
use hwcpipe.Mali.HwInfo.{MaliHwInfo, get_mali_hw_info}
use hwcpipe.Mali.HwInfo.Descriptors.{Thrown, device_fds, get_mali_hw_info-Post}
use hwcpipe.Mali.Kernel.{Kernel, BaseGpuProps}
use hwcpipe.Mali.State.{MaliCounter, Machine, Mali}
use hwcpipe.Mali.Init.{
  init, init_device, init_abi, init_flags, init_reader, init_api, init_sizes, init_mapping,
  init_product, init_buffers, init_for,
}
use hwcpipe.Mali.Init.Term.{released, term-releases}
use hwcpipe.Mali.Init.Ready.{Ready}
use hwcpipe.Mali.Init.Starts.{Surely, Starts, init-Starts}
use hwcpipe.Mali.Init.Succeeds.{Cooperates, coop-Starts}
use hwcpipe.Mali.Counter.{MeasurementsMap, construct}
use hwcpipe.Mali.Counter.Entries.{HasEntry, constructed, constructed-HasEntry}

-- However the code ends, the map of counters is `m`.
abbrev Keeps : MeasurementsMap → Outcome Machine (Unit {0}) → Type 0
Keeps m = Post (λ _ t. t.counter.counters ≡ m) (λ _ t. t.counter.counters ≡ m) Unit

then_Keeps :
    (map : MeasurementsMap) (m n : Mali (Unit {0})) (s : Machine)
    → Keeps map (m s)
    → ((t : Machine) → t.counter.counters ≡ map → Keeps map (n t))
    → Keeps map ((m >> n) s)
then_Keeps map m n s h f =
    bind-Post (λ _ t. t.counter.counters ≡ map) (λ _ t. t.counter.counters ≡ map)
      (λ _ t. t.counter.counters ≡ map) Unit m (λ _. n) s h (λ _ t e. f t e)

module _ (k : Kernel) (i : MaliHwInfo) (map : MeasurementsMap) where
  device-Keeps : (s : Machine) → s.counter.counters ≡ map → Keeps map (init_device k i s)
  unfolding init_device
  device-Keeps s e = ground arith

  abi-Keeps : (s : Machine) → s.counter.counters ≡ map → Keeps map (init_abi k s)
  unfolding init_abi
  abi-Keeps s e = ground arith

  flags-Keeps : (s : Machine) → s.counter.counters ≡ map → Keeps map (init_flags k s)
  unfolding init_flags
  flags-Keeps s e = ground arith

  reader-Keeps : (s : Machine) → s.counter.counters ≡ map → Keeps map (init_reader k s)
  unfolding init_reader
  reader-Keeps s e = ground arith

  api-Keeps : (s : Machine) → s.counter.counters ≡ map → Keeps map (init_api k s)
  unfolding init_api
  api-Keeps s e = ground arith

  sizes-Keeps : (s : Machine) → s.counter.counters ≡ map → Keeps map (init_sizes k s)
  unfolding init_sizes
  sizes-Keeps s e = ground arith

  mapping-Keeps : (s : Machine) → s.counter.counters ≡ map → Keeps map (init_mapping k s)
  unfolding init_mapping
  mapping-Keeps s e = ground arith

  product-Keeps : (s : Machine) → s.counter.counters ≡ map → Keeps map (init_product i s)
  unfolding init_product
  product-Keeps s e = elim (Option-cases (find_product i.gpu_id)) [
    | inl f ↦ rw f e
    | inr (cm, f) ↦ rw f e
  ]

  buffers-Keeps : (s : Machine) → s.counter.counters ≡ map → Keeps map (init_buffers i s)
  unfolding init_buffers
  buffers-Keeps s e = elim (Option-cases (core_index_remap i.core_mask)) [
    | inl f ↦ rw f tt
    | inr (remap, f) ↦ rw f e
  ]

  init_for-Keeps : (s : Machine) → s.counter.counters ≡ map → Keeps map (init_for k i s)
  unfolding init_for
  init_for-Keeps s e = then_Keeps map (init_device k i) _ s (device-Keeps s e) λ s e.
      then_Keeps map (init_abi k) _ s (abi-Keeps s e) λ s e.
        then_Keeps map (init_flags k) _ s (flags-Keeps s e) λ s e.
          then_Keeps map (init_reader k) _ s (reader-Keeps s e) λ s e.
            then_Keeps map (init_api k) _ s (api-Keeps s e) λ s e.
              then_Keeps map (init_sizes k) _ s (sizes-Keeps s e) λ s e.
                then_Keeps map (init_mapping k) _ s (mapping-Keeps s e) λ s e.
                  then_Keeps map (init_product i) _ s (product-Keeps s e) λ s e. buffers-Keeps s e

Thrown-keeps :
    (c : MaliCounter) (fd : ℤ) (fds : List ℤ) (e : String) (t : Machine)
    → Thrown c fd fds e t
    → t.counter ≡ c
Thrown-keeps c fd fds e t h = h.0

init-Keeps : (k : Kernel) (s : Machine) → Keeps s.counter.counters (init k s)
unfolding init
init-Keeps k s =
    let r = released s in
    let map = s.counter.counters in
    rw (term-releases s).0 (
      bind-Post (λ _ t. t.counter.counters ≡ map) (λ _ t. t.counter.counters ≡ map)
        (λ _ t. t.counter.counters ≡ map) Unit (get_mali_hw_info k) (init_for k) r
        (Post-mono (get_mali_hw_info k r) (λ i t h. ap (λ (c : MaliCounter). c.counters) h.1.0)
          (λ e t h.
            ap (λ (c : MaliCounter). c.counters)
              (Thrown-keeps r.counter (k.open_device r.history) (device_fds r.history) e t h))
          (λ h. h) (get_mali_hw_info-Post k r))
        λ i t e. init_for-Keeps k i map t e)

entries :
    (m : MeasurementsMap) (t : Machine)
    → t.counter.counters ≡ constructed m
    → All (λ n. HasEntry t.counter.counters n.0) jm_counter_names
      × All (λ n. HasEntry t.counter.counters n.0) mmu_counter_names
entries m t e =
    subst
      (λ map.
        All (λ n. HasEntry map n.0) jm_counter_names
        × All (λ n. HasEntry map n.0) mmu_counter_names)
      (sym e) (constructed-HasEntry m)

-- On a device that lets `init` return.
pub construct-Starts :
    (k : Kernel) (id slices : ℕ) (cm : CounterMapping) (s : Machine)
    → Starts k id slices
    → find_product id ≡ some cm
    → Surely
        (λ _ t.
          Ready t.counter
          × All (λ n. HasEntry t.counter.counters n.0) jm_counter_names
          × All (λ n. HasEntry t.counter.counters n.0) mmu_counter_names)
        (construct k s)
unfolding construct
construct-Starts k id slices cm s starts e =
    let m = s.counter.counters in
    let u : Machine = record s { counter = record s.counter { counters = constructed m } } in
    Post-mono (init k u) (λ _ t a. (a.0, (entries m t a.1).0, (entries m t a.1).1)) (λ _ _ a. a.0)
      (λ a. a.0)
      (Post-and (λ _ t. Ready t.counter) (λ _ t. t.counter.counters ≡ constructed m) (λ _ _. ⊥)
        (λ _ t. t.counter.counters ≡ constructed m) ⊥ Unit (init k u)
        (init-Starts k id slices starts cm u e) (init-Keeps k u))

-- On a device of a known product with the older interface that opens, maps and grants every request, and
-- reports a supported version and no more core groups than it has masks, the constructor returns, with an
-- object that is ready and whose map has an entry for each counter that `stop` records.
pub construct-Ready :
    (k : Kernel) (p : BaseGpuProps) (cm : CounterMapping) (s : Machine)
    → Cooperates k p
    → p.num_core_groups ≤ length p.group_core_mask
    → find_product p.product_id ≡ some cm
    → Surely
        (λ _ t.
          Ready t.counter
          × All (λ n. HasEntry t.counter.counters n.0) jm_counter_names
          × All (λ n. HasEntry t.counter.counters n.0) mmu_counter_names)
        (construct k s)
construct-Ready k p cm s coop h e =
    construct-Starts k p.product_id p.num_l2_slices cm s (coop-Starts k p coop h) e
