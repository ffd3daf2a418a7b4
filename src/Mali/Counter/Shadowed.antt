-- ===== src/Mali/Counter/Shadowed.antt =====
-- What `stop` records for the external reads and writes of a GPU whose table lists the beats first.
use hwcpipe.Mali.Sampling.{counter_at}
use hwcpipe.Names.Lookup.{find_counter_index_by_name}
use hwcpipe.Common.{
  suc, get_elem?, All, All-map, arith, subst, ◌%◌, ◌^◌, ℕ, ◌+◌, ◌≡◌, ◌≢◌, refl, String, List, [],
  ◌∷◌, Option, some, Option-cases, inl, inr,
}
use hwcpipe.Common.Int.{pos, negsuc}
use hwcpipe.Common.Outcome.{Post, Post-mono}
use hwcpipe.Names.Block.{mmu}
use hwcpipe.Names.Products.{CounterMapping, find_product, product_id_mask_old, t72x}
use hwcpipe.Names.Lookup.Shared.{Shared, external_beats-Shared, t72x_not_found}
use hwcpipe.Measurement.{measure_integer}
use hwcpipe.Mali.State.{MaliCounter, Machine}
use hwcpipe.Mali.Counter.{MeasurementsMap, lookup, stop}
use hwcpipe.Mali.Counter.Values.{counter_value, slices_value}
use hwcpipe.Mali.Counter.Recording.{Recorded}
use hwcpipe.Mali.Kernel.{Kernel}
use hwcpipe.Names.Lookup.{mmu_counter_names}
use hwcpipe.Mali.Counter.Stop.{mmu_value, slice_offsets}
use hwcpipe.Mali.Counter.Stopped.{Delivers, CanSample, CanRecord, delivered, stop-Stopped}

value-Shared :
    (c : MaliCounter) (cm : CounterMapping) (name other : String) (offset : ℕ)
    → c.names_lut ≡ some cm.names_lut
    → Shared cm name other
    → counter_value c mmu name offset ≡ counter_value c mmu other offset
value-Shared c cm name other offset e (i, f, g) = rw (e, f, g)

slices-Shared :
    (c : MaliCounter) (cm : CounterMapping) (name other : String) (offsets : List ℕ) (acc : ℕ)
    → c.names_lut ≡ some cm.names_lut
    → Shared cm name other
    → slices_value c name offsets acc ≡ slices_value c other offsets acc
slices-Shared c cm name other [] acc e h = refl
slices-Shared c cm name other (offset ∷ offsets) acc e h =
    elim (Option-cases (counter_value c mmu other offset)) [
      | inl f ↦ rw (value-Shared c cm name other offset e h, f)
      | inr (v, f) ↦
          rw (value-Shared c cm name other offset e h, f)
            (slices-Shared c cm name other offsets ((acc + v) % 2 ^ 32) e h)
    ]

-- Two entries hold one and the same value.
abbrev pub Alike : MeasurementsMap → String → String → Type 0
Alike m name other =
    (v : ℕ) × (u : String) × (w : String) × (lookup name m ≡ some (measure_integer (pos v) u))
    × (lookup other m ≡ some (measure_integer (pos v) w))

Recorded-Alike :
    (val : String → Option ℕ) (m : MeasurementsMap) (name other : String)
    → val name ≡ val other
    → Recorded val m name
    → Recorded val m other
    → Alike m name other
Recorded-Alike val m name other e (v, u, f, g) (w, x, h, i) =
    (v, u, x, g, subst (λ z. lookup other m ≡ some (measure_integer (pos z) x)) (cc) i)

external-Alike :
    (c : MaliCounter) (m : MeasurementsMap) (slices : ℕ) (cm : CounterMapping)
    → c.names_lut ≡ some cm.names_lut
    → Shared cm "L2_EXT_READ" "L2_EXT_READ_BEATS" × Shared cm "L2_EXT_WRITE" "L2_EXT_WRITE_BEATS"
    → All (λ n. Recorded (mmu_value c slices) m n.0) mmu_counter_names
    → Alike m "L2_EXT_READ" "L2_EXT_READ_BEATS" × Alike m "L2_EXT_WRITE" "L2_EXT_WRITE_BEATS"
external-Alike c m slices cm e (r, w) (_, (read, (_, (_, (write, (_, (reads, (writes, _)))))))) = (
  Recorded-Alike (mmu_value c slices) m "L2_EXT_READ" "L2_EXT_READ_BEATS"
      (slices-Shared c cm "L2_EXT_READ" "L2_EXT_READ_BEATS" (slice_offsets slices 0) 0 e r) read
      reads,
  Recorded-Alike (mmu_value c slices) m "L2_EXT_WRITE" "L2_EXT_WRITE_BEATS"
      (slices-Shared c cm "L2_EXT_WRITE" "L2_EXT_WRITE_BEATS" (slice_offsets slices 0) 0 e w) write
      writes,
)

-- On a GPU with an old style of id but the T72x, with a device that delivers its sample, whatever that
-- holds, on an object with a mapping, a buffer of the size of a sample that has the blocks of all slices at
-- offsets that fit in an `int`, and a map that has all entries, `stop` returns with one and the same value for
-- the external reads and for their beats, and one and the same value for the external writes and for their beats.
pub stop-Alike :
    (k : Kernel) (s : Machine) (g : ℕ) (cm : CounterMapping) (slices : ℕ)
    → Delivers k s
    → CanSample s.counter
    → find_product g ≡ some cm
    → cm.product_mask ≡ product_id_mask_old
    → cm.product_id ≢ t72x.product_id
    → CanRecord cm slices s.counter
    → Post
        (λ _ t.
          Alike t.counter.counters "L2_EXT_READ" "L2_EXT_READ_BEATS"
          × Alike t.counter.counters "L2_EXT_WRITE" "L2_EXT_WRITE_BEATS")
        (λ _ _. ⊥)
        ⊥
        (stop k s)
stop-Alike k s g cm slices d c known old other r =
    Post-mono (stop k s)
      (λ _ t h.
        external-Alike (delivered k s) t.counter.counters slices cm r.names
          (external_beats-Shared g cm known old other) h.2)
      (λ _ _ h. h) (λ h. h) (stop-Stopped k s g cm slices d c known other r)

missing_value :
    (c : MaliCounter) (cm : CounterMapping) (name : String) (offset : ℕ)
    → c.names_lut ≡ some cm.names_lut
    → find_counter_index_by_name cm.names_lut mmu name ≡ some (negsuc 0)
    → counter_value c mmu name (suc offset) ≡ get_elem? c.raw_counter_buffer offset
unfolding counter_at
missing_value c cm name offset e f = rw (e, f) (ground arith)

-- On a T72x, the value that four of the memory system's counters get from a block is the word in front of
-- the block.
pub t72x_values :
    (c : MaliCounter) (offset : ℕ)
    → c.names_lut ≡ some t72x.names_lut
    → All
        (λ name. counter_value c mmu name (suc offset) ≡ get_elem? c.raw_counter_buffer offset)
        ("L2_READ_LOOKUP" ∷ "L2_WRITE_LOOKUP" ∷ "L2_EXT_READ_BEATS" ∷ "L2_EXT_WRITE_BEATS" ∷ [])
t72x_values c offset e =
    All-map (λ name f. missing_value c t72x name offset e f)
      ("L2_READ_LOOKUP" ∷ "L2_WRITE_LOOKUP" ∷ "L2_EXT_READ_BEATS" ∷ "L2_EXT_WRITE_BEATS" ∷ [])
      t72x_not_found
