-- ===== src/Mali/Counter/Stop.antt =====
-- What `stop` leaves in the map of counters, once a sample has been taken.
use text.Mathlib.Text.{◌==◌ as str_eq}
use hwcpipe.Common.{
  ◌^◌, inl, inr, sym, all_of, all_of-All, Bool, true, not, subst, ℕ, zero, suc, ◌+◌, ◌*◌, ◌≤◌, ◌≡◌,
  refl, ap, ◌∙◌, String, List, [], ◌∷◌, Option, arith, All, ◌≢◌,
}
use text.Mathlib.TextEquality.{eq_iff}
use hwcpipe.Common.Int.{pos, pos_part}
use hwcpipe.Common.Outcome.{Post, Post-mono, bind-Post, returns, ◌>>=◌}
use hwcpipe.Names.Block.{jm}
use hwcpipe.Names.Lookup.{jm_counter_names, mmu_counter_names}
use hwcpipe.Mali.State.{MaliCounter, Machine}
use hwcpipe.Mali.Sampling.{get_counters}
use hwcpipe.Mali.Sampling.Pointers.{get_counters-slice}
use hwcpipe.Mali.Counter.{record_jm, record_mmu, slice_pointers, record_sample}
use hwcpipe.Mali.Counter.Values.{counter_value, slices_value}
use hwcpipe.Mali.Counter.Recording.{Recorded, Loop, record_mmu-Loop, record_jm-Loop}

-- The offsets of the blocks of `left` slices, from slice `i` on.
abbrev pub slice_offsets : ℕ → ℕ → List ℕ
slice_offsets zero i = []
slice_offsets (suc left) i = 64 * (2 + i) ∷ slice_offsets left (i + 1)

slice_pointers_lem :
    (left i slices : ℕ) (s : Machine)
    → s.counter.num_l2_slices ≡ pos slices
    → 64 * (2 + slices) ≤ 2 ^ 31
    → i + left ≤ slices
    → slice_pointers left i s ≡ returns (slice_offsets left i) s
unfolding slice_pointers
slice_pointers_lem zero i slices s e fits h = refl
slice_pointers_lem (suc left) i slices s e fits h =
    elim (get_counters-slice s.counter i slices s e fits) [
      | inl (past, f) ↦ absurd (omega arith)
      | inr (within, f) ↦ rw (f, slice_pointers_lem left (i + 1) slices s e fits (omega arith))
    ]

-- What the sample in the members of `c` has for each counter.
abbrev pub jm_value : MaliCounter → String → Option ℕ
jm_value c name = counter_value c jm name 0

abbrev pub mmu_value : MaliCounter → ℕ → String → Option ℕ
mmu_value c slices name = slices_value c name (slice_offsets slices 0) 0

-- The job manager's and the memory system's counters are those of the sample in `c`, and all members but
-- the map are those of `c`.
abbrev pub Taken : MaliCounter → ℕ → MaliCounter → Type 0
Taken c slices d =
    (d ≡ record c { counters = d.counters })
    × All (λ n. Recorded (jm_value c) d.counters n.0) jm_counter_names
    × All (λ n. Recorded (mmu_value c slices) d.counters n.0) mmu_counter_names

-- No counter of the memory system is `key`.
abbrev pub differs : String → List (String × String) → Bool
differs key = all_of (λ c. not (str_eq c.0 key))

pub differs-All :
    (key : String) (names : List (String × String))
    → differs key names ≡ true
    → All (λ c. c.0 ≢ key) names
differs-All key names e =
    all_of-All (λ c. c.0 ≢ key) (λ c. not (str_eq c.0 key)) (λ c h p. cc ((eq_iff c.0 key).1 p, h))
      names e

carried :
    (val : String → Option ℕ) (key : String) (t u : Machine) (val' : String → Option ℕ)
    → Loop val' mmu_counter_names t u
    → differs key mmu_counter_names ≡ true
    → Recorded val t.counter.counters key
    → Recorded val u.counter.counters key
carried val key t u val' (frame, each, kept, others) h (v, w, e, f) =
    (v, w, e, others key (differs-All key mmu_counter_names h) ∙ f)

both-Taken :
    (s t u : Machine) (slices : ℕ)
    → Loop (jm_value s.counter) jm_counter_names s t
    → Loop (mmu_value s.counter slices) mmu_counter_names t u
    → Taken s.counter slices u.counter
both-Taken s t u slices (frame, (a, (b, (c, _))), kept, others) l = (
  l.0 ∙ ap {A = MaliCounter} (λ c. record c { counters = u.counter.counters }) frame,
  (
    carried (jm_value s.counter) "GPU_ACTIVE" t u (mmu_value s.counter slices) l refl a,
    (
      carried (jm_value s.counter) "JS0_JOBS" t u (mmu_value s.counter slices) l refl b,
      (carried (jm_value s.counter) "JS1_JOBS" t u (mmu_value s.counter slices) l refl c, tt),
    ),
  ),
  l.1,
)

record_mmu-Taken :
    (s t : Machine) (slices : ℕ)
    → Loop (jm_value s.counter) jm_counter_names s t
    → Post
        (λ _ u. Taken s.counter slices u.counter)
        (λ e _. e ≡ "map::at")
        Unit
        (record_mmu (slice_offsets slices 0) mmu_counter_names t)
record_mmu-Taken s t slices l =
    Post-mono (record_mmu (slice_offsets slices 0) mmu_counter_names t)
      (λ _ u m.
        both-Taken s t u slices l
          (subst (λ val. Loop val mmu_counter_names t u) (ap (λ c. mmu_value c slices) l.0) m))
      (λ _ _ h. h) (λ h. h) (record_mmu-Loop (slice_offsets slices 0) mmu_counter_names t)

-- The machine after the first loop has as many slices as before.
pub pointers_then :
    (s t : Machine) (slices : ℕ)
    → s.counter.num_l2_slices ≡ pos slices
    → 64 * (2 + slices) ≤ 2 ^ 31
    → Loop (jm_value s.counter) jm_counter_names s t
    → (slice_pointers (pos_part s.counter.num_l2_slices) 0 >>= λ offsets.
          record_mmu offsets mmu_counter_names)
        t
      ≡ record_mmu (slice_offsets slices 0) mmu_counter_names t
pointers_then s t slices e fits l =
    rw (
      e,
      slice_pointers_lem slices 0 slices t (ap (λ c. c.num_l2_slices) l.0 ∙ e) fits (omega arith),
    )

-- When `record_sample` returns with `slices` slices whose offsets fit in an `int`, each counter of the job manager holds the value of its
-- name in the block at offset 0, each counter of the memory system holds the sum, in 32 bits, of the values
-- of its name in the blocks 2, 3, … of the slices, and no member but the map has changed. The one exception
-- is that an entry is missing in the map; all else is a read outside of the table or the buffer.
pub record_sample-Taken :
    (s : Machine) (slices : ℕ)
    → s.counter.num_l2_slices ≡ pos slices
    → 64 * (2 + slices) ≤ 2 ^ 31
    → Post (λ _ t. Taken s.counter slices t.counter) (λ e _. e ≡ "map::at") Unit (record_sample s)
unfolding record_sample get_counters
record_sample-Taken s slices e fits =
    bind-Post (λ _ t. Loop (jm_value s.counter) jm_counter_names s t)
      (λ _ t. Taken s.counter slices t.counter) (λ e _. e ≡ "map::at") Unit
      (record_jm 0 jm_counter_names) _ s (record_jm-Loop 0 jm_counter_names s)
      (λ _ t l.
        subst (Post (λ _ u. Taken s.counter slices u.counter) (λ e _. e ≡ "map::at") Unit)
          (sym (pointers_then s t slices e fits l)) (record_mmu-Taken s t slices l))
