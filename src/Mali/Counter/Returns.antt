-- ===== src/Mali/Counter/Returns.antt =====
-- `stop` on an object that is ready: each counter is found, read and stored, and nothing is thrown.
use hwcpipe.Common.{
  get_elem?-lt, ℕ, zero, suc, ◌+◌, ◌*◌, ◌%◌, ◌^◌, ◌≤◌, ◌≡◌, ◌≢◌, refl, sym, ap, subst, ◌∙◌, String,
  List, [], ◌∷◌, Option, some, arith, All, All-map, all_of-All, inl, inr, length,
}
use hwcpipe.Common.Int.{pos}
use hwcpipe.Common.Outcome.{Outcome, Post, Post-mono, Post-and, bind-Post}
use hwcpipe.Names.Block.{MaliCounterBlockName, jm, mmu}
use hwcpipe.Names.Lookup.{jm_counter_names, mmu_counter_names}
use hwcpipe.Names.Products.{CounterMapping, find_product, t72x}
use hwcpipe.Names.Lookup.Gpus.{Exact, jm_counters-Exact}
use hwcpipe.Names.Lookup.Present.{Found, mmu_counters-Found}
use hwcpipe.Mali.Counter.Stop.{
  Taken, jm_value, mmu_value, slice_offsets, differs, differs-All, pointers_then,
  record_sample-Taken,
}
use hwcpipe.Measurement.{Measurement, measure_integer}
use hwcpipe.Mali.State.{MaliCounter, Machine}
use hwcpipe.Mali.Sampling.{counter_at, get_counters}
use hwcpipe.Mali.Counter.{MeasurementsMap, assign, record_jm, record_mmu, record_sample}
use hwcpipe.Mali.Counter.Entries.{HasEntry, assign-HasEntry}
use hwcpipe.Mali.Counter.Values.{counter_value, slices_value}
use hwcpipe.Mali.Counter.Recording.{
  Turn, Loop, with_counters, record_jm-Turn, record_mmu-Turn, record_jm-Loop,
}

-- Each of the names has a value and an entry.
abbrev pub Fine : (String → Option ℕ) → List (String × String) → MeasurementsMap → Type 0
Fine val names m = All (λ n. ((v : ℕ) × (val n.0 ≡ some v)) × HasEntry m n.0) names

assign-Fine :
    (val : String → Option ℕ) (names : List (String × String)) (name : String) (x : Measurement)
    (m : MeasurementsMap)
    → Fine val names m
    → Fine val names (assign name x m)
assign-Fine val names name x m h = All-map (λ n a. (a.0, assign-HasEntry name n.0 x m a.1)) names h

abbrev Done : Outcome Machine (Unit {0}) → Type 0
Done = Post (λ _ _. Unit {0}) (λ _ _. ⊥) ⊥

Turn-Done :
    (r : Option ℕ) (name : String) (o : Outcome Machine (Unit {0}))
    (rest : Machine → Outcome Machine (Unit {0})) (s : Machine)
    → (v : ℕ) × (r ≡ some v)
    → HasEntry s.counter.counters name
    → Turn r name o rest s
    → ((x : Measurement) → Done (rest (with_counters s (assign name x s.counter.counters))))
    → Done o
Turn-Done r name o rest s (v, e) (old, f) (inl (g, h)) k = absurd (cc)
Turn-Done r name o rest s (v, e) (old, f) (inr (inl (g, h))) k = absurd (cc)
Turn-Done r name o rest s (v, e) (old, f) (inr (inr (w, past, g, h, i))) k =
    subst Done (sym i) (k (measure_integer (pos w) past.unit))

record_mmu-Done :
    (offsets : List ℕ) (names : List (String × String)) (s : Machine)
    → Fine (λ name. slices_value s.counter name offsets 0) names s.counter.counters
    → Done (record_mmu offsets names s)
unfolding record_mmu
record_mmu-Done offsets [] s h = tt
record_mmu-Done offsets ((name, unit) ∷ names) s ((value, entry), h) =
    Turn-Done _ name _ (record_mmu offsets names) s value entry
      (record_mmu-Turn offsets name unit names s)
      (λ x. record_mmu-Done offsets names (with_counters s (assign name x s.counter.counters)) (
        assign-Fine (λ name. slices_value s.counter name offsets 0) names name x s.counter.counters
          h))

record_jm-Done :
    (offset : ℕ) (names : List (String × String)) (s : Machine)
    → Fine (λ name. counter_value s.counter jm name offset) names s.counter.counters
    → Done (record_jm offset names s)
unfolding record_jm
record_jm-Done offset [] s h = tt
record_jm-Done offset ((name, unit) ∷ names) s ((value, entry), h) =
    Turn-Done _ name _ (record_jm offset names) s value entry
      (record_jm-Turn offset name unit names s)
      (λ x. record_jm-Done offset names (with_counters s (assign name x s.counter.counters)) (
        assign-Fine (λ name. counter_value s.counter jm name offset) names name x s.counter.counters
          h))

Found-value :
    (c : MaliCounter) (lut : List String) (block : MaliCounterBlockName) (name : String)
    (offset : ℕ)
    → c.names_lut ≡ some lut
    → Found lut block name
    → offset + 64 ≤ length c.raw_counter_buffer
    → (v : ℕ) × (counter_value c block name offset ≡ some v)
unfolding counter_at
Found-value c lut block name offset e (i, lt, f) h =
    let (v, g) = get_elem?-lt c.raw_counter_buffer (offset + i) (omega arith) in (v, rw (e, f) g)

Found-slices :
    (c : MaliCounter) (lut : List String) (name : String) (offsets : List ℕ) (acc : ℕ)
    → c.names_lut ≡ some lut
    → Found lut mmu name
    → All (λ offset. offset + 64 ≤ length c.raw_counter_buffer) offsets
    → (v : ℕ) × (slices_value c name offsets acc ≡ some v)
Found-slices c lut name [] acc e f h = (acc, refl)
Found-slices c lut name (offset ∷ offsets) acc e f h =
    let (v, g) = Found-value c lut mmu name offset e f h.0 in
    let (w, k) = Found-slices c lut name offsets ((acc + v) % 2 ^ 32) e f h.1 in (w, rw g k)

-- The offsets of the slices' blocks lie in a buffer that has all blocks.
offsets_fit :
    (left i n : ℕ)
    → 64 * (2 + i + left) ≤ n
    → All (λ offset. offset + 64 ≤ n) (slice_offsets left i)
offsets_fit zero i n h = tt
offsets_fit (suc left) i n h = (omega arith, offsets_fit left (i + 1) n (omega arith))

-- Two accounts of each name, as one.
pub both :
    (P Q R : String → Type 0)
    → ((name : String) → P name → Q name → R name)
    → (names : List (String × String)) → All (λ n. P n.0) names
    → All (λ n. Q n.0) names
    → All (λ n. R n.0) names
both P Q R f [] p q = tt
both P Q R f ((name, unit) ∷ names) p q = (f name p.0 q.0, both P Q R f names p.1 q.1)

mmu_differ : All (λ n. All (λ c. c.0 ≢ n.0) jm_counter_names) mmu_counter_names
mmu_differ =
    all_of-All (λ n. All (λ c. c.0 ≢ n.0) jm_counter_names) (λ n. differs n.0 jm_counter_names)
      (λ n h. differs-All n.0 jm_counter_names h) mmu_counter_names refl

-- The loop over the job manager's counters leaves the memory system's entries.
entries_kept :
    (val : String → Option ℕ) (s t : Machine)
    → Loop val jm_counter_names s t
    → All (λ n. HasEntry s.counter.counters n.0) mmu_counter_names
    → All (λ n. HasEntry t.counter.counters n.0) mmu_counter_names
entries_kept val s t (frame, each, kept, others) h =
    both (λ name. All (λ c. c.0 ≢ name) jm_counter_names) (HasEntry s.counter.counters)
      (HasEntry t.counter.counters) (λ name d e. (e.0, others name d ∙ e.1)) mmu_counter_names
      mmu_differ h

-- A sample of a known GPU whose counters have entries.
module _ (g : ℕ) (cm : CounterMapping) (s : Machine) (slices : ℕ) (known : find_product g ≡ some cm)
    (lut : s.counter.names_lut ≡ some cm.names_lut)
    (fits : 64 * (2 + slices) ≤ length s.counter.raw_counter_buffer) where
  jm-Fine :
      All (λ n. HasEntry s.counter.counters n.0) jm_counter_names
      → Fine (jm_value s.counter) jm_counter_names s.counter.counters
  jm-Fine h =
      both (Exact jm cm) (HasEntry s.counter.counters)
        (λ name. ((v : ℕ) × (jm_value s.counter name ≡ some v)) × HasEntry s.counter.counters name)
        (λ name x e.
          (Found-value s.counter cm.names_lut jm name 0 lut (x.0, x.1, x.2) (omega arith), e))
        jm_counter_names (jm_counters-Exact g cm known) h

  mmu-Fine :
      (t : Machine)
      → cm.product_id ≢ t72x.product_id
      → Loop (jm_value s.counter) jm_counter_names s t
      → All (λ n. HasEntry s.counter.counters n.0) mmu_counter_names
      → Fine (mmu_value s.counter slices) mmu_counter_names t.counter.counters
  mmu-Fine t other l h =
      both (Found cm.names_lut mmu) (HasEntry t.counter.counters)
        (λ name.
          ((v : ℕ) × (mmu_value s.counter slices name ≡ some v)) × HasEntry t.counter.counters name)
        (λ name f e. (
          Found-slices s.counter cm.names_lut name (slice_offsets slices 0) 0 lut f
              (offsets_fit slices 0 (length s.counter.raw_counter_buffer) (omega arith)),
          e,
        ))
        mmu_counter_names (mmu_counters-Found g cm known other)
        (entries_kept (jm_value s.counter) s t l h)

  jm-Loop-Done :
      All (λ n. HasEntry s.counter.counters n.0) jm_counter_names
      → Post
          (λ _ t. Loop (jm_value s.counter) jm_counter_names s t)
          (λ _ _. ⊥)
          ⊥
          (record_jm 0 jm_counter_names s)
  jm-Loop-Done h =
      Post-mono (record_jm 0 jm_counter_names s) (λ _ t a. a.0) (λ _ _ a. a.1) (λ a. a.1)
        (Post-and (λ _ t. Loop (jm_value s.counter) jm_counter_names s t) (λ _ _. Unit {0})
          (λ e _. e ≡ "map::at") (λ _ _. ⊥) Unit ⊥ (record_jm 0 jm_counter_names s)
          (record_jm-Loop 0 jm_counter_names s) (record_jm-Done 0 jm_counter_names s (jm-Fine h)))

  mmu-Done :
      (t : Machine)
      → cm.product_id ≢ t72x.product_id
      → Loop (jm_value s.counter) jm_counter_names s t
      → All (λ n. HasEntry s.counter.counters n.0) mmu_counter_names
      → Done (record_mmu (slice_offsets slices 0) mmu_counter_names t)
  mmu-Done t other l h = record_mmu-Done (slice_offsets slices 0) mmu_counter_names t (
      subst (λ val. Fine val mmu_counter_names t.counter.counters)
        (sym (ap (λ c. mmu_value c slices) l.0)) (mmu-Fine t other l h))

  sample-Done :
      cm.product_id ≢ t72x.product_id
      → s.counter.num_l2_slices ≡ pos slices
      → 64 * (2 + slices) ≤ 2 ^ 31
      → All (λ n. HasEntry s.counter.counters n.0) jm_counter_names
      → All (λ n. HasEntry s.counter.counters n.0) mmu_counter_names
      → Done (record_sample s)
  unfolding record_sample get_counters
  sample-Done other e narrow h i =
      bind-Post (λ _ t. Loop (jm_value s.counter) jm_counter_names s t) (λ _ _. Unit {0}) (λ _ _. ⊥)
        ⊥ (record_jm 0 jm_counter_names) _ s (jm-Loop-Done h)
        (λ _ t l. subst Done (sym (pointers_then s t slices e narrow l)) (mmu-Done t other l i))

-- On a known GPU other than the T72x, with a buffer that has the blocks of all slices at offsets that fit in
-- an `int` and a map that has all entries, `record_sample` returns. Each counter of the job manager then holds the value of its name in
-- the block at offset 0, each counter of the memory system the sum, in 32 bits, of the values of its name in
-- the blocks 2, 3, … of the slices, and no member but the map has changed.
pub record_sample-returns :
    (g : ℕ) (cm : CounterMapping) (s : Machine) (slices : ℕ)
    → find_product g ≡ some cm
    → cm.product_id ≢ t72x.product_id
    → s.counter.names_lut ≡ some cm.names_lut
    → s.counter.num_l2_slices ≡ pos slices
    → 64 * (2 + slices) ≤ length s.counter.raw_counter_buffer
    → 64 * (2 + slices) ≤ 2 ^ 31
    → All (λ n. HasEntry s.counter.counters n.0) jm_counter_names
    → All (λ n. HasEntry s.counter.counters n.0) mmu_counter_names
    → Post (λ _ t. Taken s.counter slices t.counter) (λ _ _. ⊥) ⊥ (record_sample s)
record_sample-returns g cm s slices known other lut e fits narrow h i =
    Post-mono (record_sample s) (λ _ t a. a.0) (λ _ _ a. a.1) (λ a. a.1)
      (Post-and (λ _ t. Taken s.counter slices t.counter) (λ _ _. Unit {0}) (λ e _. e ≡ "map::at")
        (λ _ _. ⊥) Unit ⊥ (record_sample s) (record_sample-Taken s slices e narrow)
        (sample-Done g cm s slices known lut fits other e narrow h i))
