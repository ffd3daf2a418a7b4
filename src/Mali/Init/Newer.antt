-- ===== src/Mali/Init/Newer.antt =====
-- `MaliCounter::init` on a device that has only the newer interface.
use hwcpipe.Common.{◌≤◌, ◌≡◌, List, ◌∷◌, some, length, All}
use hwcpipe.Common.Outcome.{Post-mono}
use hwcpipe.Names.Products.{CounterMapping, find_product}
use hwcpipe.Mali.GpuProps.{GpuProps, zero_props}
use hwcpipe.Mali.GpuProps.Encode.{Property, IsValid, store_all}
use hwcpipe.Mali.Kernel.{
  Kernel, History, requested, uk_check_version, uk_set_flags, uk_reader_setup,
}
use hwcpipe.Mali.State.{Machine}
use hwcpipe.Mali.HwInfo.{get_mali_hw_info}
use hwcpipe.Mali.HwInfo.Dumped.{Dumps, get_mali_hw_info-Follows}
use hwcpipe.Mali.Init.Ready.{Ready}
use hwcpipe.Mali.Init.Starts.{Surely, Done, Starts, init-Starts}
use hwcpipe.Mali.Init.{init, init_abi, init_flags, init_reader, all_counters}

module _ (k : Kernel) (xs : List Property) (dumps : Dumps k xs) where
  init_abi-Dumped : (s : Machine) → Done (init_abi k s)
  unfolding init_abi
  init_abi-Dumped s =
      let fd = s.counter.fd in
      let h : History = requested fd (uk_check_version 0 0) ∷ s.history in
      rw (dumps.no_uk_version s.history fd 0 0, dumps.version h fd) tt

  init_flags-Dumped : (s : Machine) → Done (init_flags k s)
  unfolding init_flags
  init_flags-Dumped s =
      let fd = s.counter.fd in
      let h : History = requested fd (uk_set_flags 2) ∷ s.history in
      rw (dumps.no_uk_flags s.history fd, dumps.flags h fd) tt

  init_reader-Dumped : (s : Machine) → Done (init_reader k s)
  unfolding init_reader
  init_reader-Dumped s =
      let fd = s.counter.fd in
      let n = s.counter.buffer_count in
      let all = all_counters in
      let h : History = requested fd (uk_reader_setup n all all all all) ∷ s.history in
      rw (dumps.no_uk_reader s.history fd n all all all all, dumps.reader h fd n all all all all) tt

  pub dumps-Starts :
      (q : GpuProps)
      → All IsValid xs
      → store_all xs zero_props ≡ some q
      → q.num_core_groups ≤ length q.core_mask
      → Starts k q.product_id q.l2_slices
  dumps-Starts q v e h = record {
    opens = dumps.opens;
    maps = dumps.maps;
    readable = dumps.readable;
    abi = init_abi-Dumped;
    flags = init_flags-Dumped;
    reader = init_reader-Dumped;
    identifies = λ s.
        Post-mono (get_mali_hw_info k s) (λ _ _ a. (a.0, a.3)) (λ _ _ a. a) (λ a. a)
          (get_mali_hw_info-Follows k xs dumps q s v e h);
  }

-- On a device that has only the newer interface, opens, maps, grants its requests with the supported versions
-- and dumps a list of properties in the format, which names a known product and no more core groups than there
-- are masks, `init` returns, from any state of the object, and leaves the object ready.
pub init-Dumped :
    (k : Kernel) (xs : List Property) (q : GpuProps) (cm : CounterMapping) (s : Machine)
    → Dumps k xs
    → All IsValid xs
    → store_all xs zero_props ≡ some q
    → q.num_core_groups ≤ length q.core_mask
    → find_product q.product_id ≡ some cm
    → Surely (λ _ t. Ready t.counter) (init k s)
init-Dumped k xs q cm s dumps v e h found =
    init-Starts k q.product_id q.l2_slices (dumps-Starts k xs dumps q v e h) cm s found
