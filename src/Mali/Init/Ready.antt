-- ===== src/Mali/Init/Ready.antt =====
-- What `MaliCounter::init` establishes when it returns.
use hwcpipe.Common.{
  ℕ, ◌/◌, ◌<◌, ◌≤◌, ◌≡◌, refl, sym, ap, ◌∙◌, false, List, some, arith, length, length-take,
  length-append, length-replicate, All, All-map, Option-cases, inl, inr, replicate, ◌++◌,
}
use hwcpipe.Common.Int.{pos, is_neg, signed32}
use hwcpipe.Common.Outcome.{Outcome, Post, Post-mono, bind-Post, ◌>>◌}
use hwcpipe.Names.Products.{CounterMapping, find_product}
use hwcpipe.Mali.Cores.Positions.{Ascending}
use hwcpipe.Mali.Cores.Remap.{core_index_remap_lem, mp_count-le}
use hwcpipe.Mali.HwInfo.{MaliHwInfo, get_mali_hw_info, filled}
use hwcpipe.Mali.HwInfo.Descriptors.{IsConsistent, get_mali_hw_info-Post}
use hwcpipe.Mali.Kernel.{Kernel}
use hwcpipe.Mali.State.{MaliCounter, mapping, Machine, Mali}
use hwcpipe.Mali.Init.Term.{released, term-releases}
use hwcpipe.Mali.Init.{
  init, init_device, init_abi, init_flags, init_reader, init_api, init_sizes, init_mapping,
  init_product, init_buffers, init_for,
}

-- A return leaves members with `P`; a throw may leave any; there is no undefined behaviour.
abbrev Ensures : (MaliCounter → Type 0) → Outcome Machine (Unit {0}) → Type 0
Ensures P = Post (λ _ t. P t.counter) (λ _ _. Unit {0}) ⊥

seq :
    (P R : MaliCounter → Type 0) (m n : Mali (Unit {0})) (s : Machine)
    → Ensures P (m s)
    → ((t : Machine) → P t.counter → Ensures R (n t))
    → Ensures R ((m >> n) s)
seq P R m n s h k =
    bind-Post (λ _ t. P t.counter) (λ _ t. R t.counter) (λ _ _. Unit) ⊥ m (λ _. n) s h
      (λ _ t p. k t p)

-- The members of an object that has been initialised.
abbrev pub Ready : MaliCounter → Type 0
Ready c =
    (is_neg c.fd ≡ false)
    × (5 ≤ c.hw_ver)
    × (c.sample_data ≡ mapping)
    × ((g : ℕ) × (cm : CounterMapping) × (find_product g ≡ some cm)
        × (c.names_lut ≡ some cm.names_lut))
    × (length c.raw_counter_buffer ≡ c.buffer_size / 4)
    × (c.num_cores ≡ pos (length c.core_index_remap))
    × Ascending 0 c.core_index_remap
    × All (λ b. b < 32) c.core_index_remap

pub length-filled : (n : ℕ) (xs : List ℕ) → length (filled n xs) ≡ n
length-filled n xs = omega (
  arith,
  length-take n (xs ++ replicate n 0),
  length-append xs (replicate n 0),
  length-replicate {A = ℕ} n 0,
)

signed32_small : (n : ℕ) → n ≤ 32 → signed32 n ≡ pos n
signed32_small n h = ground arith

module _ (k : Kernel) (i : MaliHwInfo) where
  abbrev Opened : MaliCounter → Type 0
  Opened c = (is_neg c.fd ≡ false) × (c.num_cores ≡ signed32 i.mp_count)

  abbrev Sized : MaliCounter → Type 0
  Sized c = Opened c × (5 ≤ c.hw_ver)

  abbrev Mapped : MaliCounter → Type 0
  Mapped c = Sized c × (c.sample_data ≡ mapping)

  abbrev Named : MaliCounter → Type 0
  Named c =
      Mapped c
      × ((cm : CounterMapping) × (find_product i.gpu_id ≡ some cm)
          × (c.names_lut ≡ some cm.names_lut))

  device-Opened : (s : Machine) → Ensures Opened (init_device k i s)
  unfolding init_device
  device-Opened s = ground arith

  abi-Opened : (s : Machine) → Opened s.counter → Ensures Opened (init_abi k s)
  unfolding init_abi
  abi-Opened s h = ground arith

  flags-Opened : (s : Machine) → Opened s.counter → Ensures Opened (init_flags k s)
  unfolding init_flags
  flags-Opened s h = ground arith

  reader-Opened : (s : Machine) → Opened s.counter → Ensures Opened (init_reader k s)
  unfolding init_reader
  reader-Opened s h = ground arith

  api-Opened : (s : Machine) → Opened s.counter → Ensures Opened (init_api k s)
  unfolding init_api
  api-Opened s h = ground arith

  sizes-Sized : (s : Machine) → Opened s.counter → Ensures Sized (init_sizes k s)
  unfolding init_sizes
  sizes-Sized s h = ground arith

  mapping-Mapped : (s : Machine) → Sized s.counter → Ensures Mapped (init_mapping k s)
  unfolding init_mapping
  mapping-Mapped s h = ground arith

  product-Named : (s : Machine) → Mapped s.counter → Ensures Named (init_product i s)
  unfolding init_product
  product-Named s h = elim (Option-cases (find_product i.gpu_id)) [
    | inl e ↦ rw e tt
    | inr (cm, e) ↦ rw e (h, (cm, refl, refl))
  ]

  buffers-Ready :
      (s : Machine) → IsConsistent i → Named s.counter → Ensures Ready (init_buffers i s)
  unfolding init_buffers
  buffers-Ready s ok h =
      let (remap, e, count, rising, ones) = core_index_remap_lem i.core_mask ok.0 in
      rw e (
        h.0.0.0.0,
        h.0.0.1,
        h.0.1,
        (i.gpu_id, h.1.0, h.1.1, h.1.2),
        length-filled (s.counter.buffer_size / 4) s.counter.raw_counter_buffer,
        h.0.0.0.1
            ∙ signed32_small i.mp_count (omega (arith, ok.1, mp_count-le i.core_mask ok.0))
            ∙ ap pos (ok.1 ∙ sym count),
        rising,
        All-map (λ b o. o.0) remap ones,
      )

  init_for-Ready : (s : Machine) → IsConsistent i → Ensures Ready (init_for k i s)
  unfolding init_for
  init_for-Ready s ok = seq Opened Ready (init_device k i) _ s (device-Opened s) λ s h.
      seq Opened Ready (init_abi k) _ s (abi-Opened s h) λ s h.
        seq Opened Ready (init_flags k) _ s (flags-Opened s h) λ s h.
          seq Opened Ready (init_reader k) _ s (reader-Opened s h) λ s h.
            seq Opened Ready (init_api k) _ s (api-Opened s h) λ s h.
              seq Sized Ready (init_sizes k) _ s (sizes-Sized s h) λ s h.
                seq Mapped Ready (init_mapping k) _ s (mapping-Mapped s h) λ s h.
                  seq Named Ready (init_product i) _ s (product-Named s h)
                    λ s h. buffers-Ready s ok h

-- When `init` returns, the device is open and its memory mapped, the hardware version is supported, the
-- names are those of a known GPU, the counter buffer holds the words of a sample, and the remap table has
-- one entry below 32 for each core, in rising order.
pub init-Ready :
    (k : Kernel) (s : Machine)
    → Post (λ _ t. Ready t.counter) (λ _ _. Unit {0}) (Unit {0}) (init k s)
unfolding init
init-Ready k s = rw (term-releases s).0 (
    bind-Post (λ i _. IsConsistent i) (λ _ t. Ready t.counter) (λ _ _. Unit) Unit
      (get_mali_hw_info k) (init_for k) (released s)
      (Post-mono (get_mali_hw_info k (released s)) (λ i t h. h.0) (λ e t h. tt) (λ h. h)
        (get_mali_hw_info-Post k (released s)))
      λ i t ok.
        Post-mono (init_for k i t) (λ _ u r. r) (λ e u h. tt) (λ h. tt) (init_for-Ready k i t ok))
