-- ===== src/Mali/Counter/Recording.antt =====
-- What `stop` stores: each counter that it asks for gets the value that the sample has for it.
use text.Mathlib.Text.{◌==◌ as str_eq}
use text.Mathlib.TextEquality.{eq_iff}
use hwcpipe.Common.{
  ℕ, ◌≡◌, ◌≢◌, refl, sym, ◌∙◌, subst, String, List, [], ◌∷◌, Option, none, some, arith, Bool-cases,
  Option-cases, inl, inr, ◌⊎◌, All,
}
use hwcpipe.Common.Int.{pos}
use hwcpipe.Common.Outcome.{Outcome, Post, Post-mono, returns, throws, faults}
use hwcpipe.Names.Block.{jm}
use hwcpipe.Measurement.{Measurement, measure_integer}
use hwcpipe.Mali.State.{Machine}
use hwcpipe.Mali.Counter.{MeasurementsMap, lookup, assign, record_value, record_jm, record_mmu}
use hwcpipe.Mali.Counter.Maps.{lookup-assign_self, lookup-assign_ne}
use hwcpipe.Mali.Counter.Values.{counter_value, slices_value, read_counter_lem, sum_slices_lem}

-- The machine with other counters.
abbrev pub with_counters : Machine → MeasurementsMap → Machine
with_counters s m = record s { counter = record s.counter { counters = m } }

abbrev stored : String → ℕ → Measurement → MeasurementsMap → MeasurementsMap
stored name v old m = assign name (measure_integer (pos v) old.unit) m

record_value_lem :
    (name : String) (v : ℕ) (old : Measurement) (s : Machine)
    → lookup name s.counter.counters ≡ some old
    → record_value name v s ≡ returns tt (with_counters s (stored name v old s.counter.counters))
unfolding record_value
record_value_lem name v old s e = ground arith

record_value_missing :
    (name : String) (v : ℕ) (s : Machine)
    → lookup name s.counter.counters ≡ none
    → record_value name v s ≡ throws "map::at" s
unfolding record_value
record_value_missing name v s e = ground arith

-- The entry of `name` holds the value that `val` gives, as an integer.
abbrev pub Recorded : (String → Option ℕ) → MeasurementsMap → String → Type 0
Recorded val m name =
    (v : ℕ) × (u : String) × (val name ≡ some v)
    × (lookup name m ≡ some (measure_integer (pos v) u))

stored-Recorded :
    (val : String → Option ℕ) (name : String) (v : ℕ) (old : Measurement) (m : MeasurementsMap)
    → val name ≡ some v
    → lookup name m ≡ some old
    → Recorded val (stored name v old m) name
stored-Recorded val name v old m e f =
    (v, old.unit, e, lookup-assign_self name (measure_integer (pos v) old.unit) old m f)

stored-keeps :
    (val : String → Option ℕ) (name : String) (v : ℕ) (old : Measurement) (m : MeasurementsMap)
    → val name ≡ some v
    → lookup name m ≡ some old
    → (key : String) → Recorded val m key
    → Recorded val (stored name v old m) key
stored-keeps val name v old m e f key (w, u, g, h) = elim (Bool-cases (str_eq name key)) [
  | inl same ↦
      subst (Recorded val (stored name v old m)) ((eq_iff name key).0 same)
        (stored-Recorded val name v old m e f)
  | inr other ↦ (
    w,
    u,
    g,
    lookup-assign_ne name key (measure_integer (pos v) old.unit) m
          (λ p. cc ((eq_iff name key).1 p, other))
        ∙ h,
  )
]

-- After a loop over `names`: each of them is recorded, what was recorded before still is, the other keys
-- have what they had, and no other member has changed.
abbrev pub Loop : (String → Option ℕ) → List (String × String) → Machine → Machine → Type 0
Loop val names s t =
    (t.counter ≡ record s.counter { counters = t.counter.counters })
    × All (λ c. Recorded val t.counter.counters c.0) names
    × ((key : String) → Recorded val s.counter.counters key → Recorded val t.counter.counters key)
    × ((key : String)
        → All (λ c. c.0 ≢ key) names
        → lookup key t.counter.counters ≡ lookup key s.counter.counters)

Loop-nil : (val : String → Option ℕ) (s : Machine) → Loop val [] s s
Loop-nil val s = (refl, tt, λ key r. r, λ key h. refl)

Loop-cons :
    (val : String → Option ℕ) (name unit : String) (names : List (String × String)) (v : ℕ)
    (old : Measurement) (s t : Machine)
    → val name ≡ some v
    → lookup name s.counter.counters ≡ some old
    → Loop val names (with_counters s (stored name v old s.counter.counters)) t
    → Loop val ((name, unit) ∷ names) s t
Loop-cons val name unit names v old s t e f (frame, each, kept, others) =
    let m = s.counter.counters in
    (
      frame,
      (kept name (stored-Recorded val name v old m e f), each),
      λ key r. kept key (stored-keeps val name v old m e f key r),
      λ key h. others key h.1 ∙ lookup-assign_ne name key (measure_integer (pos v) old.unit) m h.0,
    )

abbrev pub Loops :
    (String → Option ℕ) → List (String × String) → Machine → Outcome Machine (Unit {0}) → Type 0
Loops val names s = Post (λ _ t. Loop val names s t) (λ e _. e ≡ "map::at") Unit

-- What one round of a loop comes to: a read outside of the table or the buffer, a missing entry, or an
-- entry stored and the rounds that follow.
abbrev pub Turn :
    Option ℕ
    → String
    → Outcome Machine (Unit {0})
    → (Machine → Outcome Machine (Unit {0}))
    → Machine
    → Type 0
Turn r name o rest s =
    ((r ≡ none) × (o ≡ faults))
    ⊎ ((lookup name s.counter.counters ≡ none) × (o ≡ throws "map::at" s))
    ⊎ ((v : ℕ) × (old : Measurement) × (r ≡ some v)
        × (lookup name s.counter.counters ≡ some old)
        × (o ≡ rest (with_counters s (stored name v old s.counter.counters))))

Turn-Loops :
    (val : String → Option ℕ) (name unit : String) (names : List (String × String))
    (o : Outcome Machine (Unit {0})) (rest : Machine → Outcome Machine (Unit {0})) (s : Machine)
    → Turn (val name) name o rest s
    → ((m : MeasurementsMap) → Loops val names (with_counters s m) (rest (with_counters s m)))
    → Loops val ((name, unit) ∷ names) s o
Turn-Loops val name unit names o rest s (inl (e, f)) h =
    subst (Loops val ((name, unit) ∷ names) s) (sym f) tt
Turn-Loops val name unit names o rest s (inr (inl (e, f))) h =
    subst (Loops val ((name, unit) ∷ names) s) (sym f) refl
Turn-Loops val name unit names o rest s (inr (inr (v, old, e, f, g))) h =
    let m = stored name v old s.counter.counters in
    subst (Loops val ((name, unit) ∷ names) s) (sym g) (
      Post-mono (rest (with_counters s m)) (λ _ t l. Loop-cons val name unit names v old s t e f l)
        (λ _ _ h. h) (λ h. h) (h m))

pub record_mmu-Turn :
    (offsets : List ℕ) (name unit : String) (names : List (String × String)) (s : Machine)
    → Turn
        (slices_value s.counter name offsets 0)
        name
        (record_mmu offsets ((name, unit) ∷ names) s)
        (record_mmu offsets names)
        s
unfolding record_mmu
record_mmu-Turn offsets name unit names s =
    elim (Option-cases (slices_value s.counter name offsets 0)) [
      | inl e ↦ inl (e, rw (sum_slices_lem name offsets 0 s, e))
      | inr (v, e) ↦ elim (Option-cases (lookup name s.counter.counters)) [
        | inl f ↦
            inr (inl (f, rw (sum_slices_lem name offsets 0 s, e, record_value_missing name v s f)))
        | inr (old, f) ↦ inr (
            inr (
              v,
              old,
              e,
              f,
              rw (sum_slices_lem name offsets 0 s, e, record_value_lem name v old s f),
            ))
      ]
    ]

pub record_jm-Turn :
    (offset : ℕ) (name unit : String) (names : List (String × String)) (s : Machine)
    → Turn
        (counter_value s.counter jm name offset)
        name
        (record_jm offset ((name, unit) ∷ names) s)
        (record_jm offset names)
        s
unfolding record_jm
record_jm-Turn offset name unit names s =
    elim (Option-cases (counter_value s.counter jm name offset)) [
      | inl e ↦ inl (e, rw (read_counter_lem jm name offset s, e))
      | inr (v, e) ↦ elim (Option-cases (lookup name s.counter.counters)) [
        | inl f ↦
            inr
              (inl (f, rw (read_counter_lem jm name offset s, e, record_value_missing name v s f)))
        | inr (old, f) ↦ inr (
            inr (
              v,
              old,
              e,
              f,
              rw (read_counter_lem jm name offset s, e, record_value_lem name v old s f),
            ))
      ]
    ]

-- When the loop over the memory system's counters returns, each of them holds the sum of the slices'
-- counters of that name, in 32 bits; the other entries and all
-- other members are as they were. The one exception is that an entry is missing in the map.
pub record_mmu-Loop :
    (offsets : List ℕ) (names : List (String × String)) (s : Machine)
    → Loops (λ name. slices_value s.counter name offsets 0) names s (record_mmu offsets names s)
unfolding record_mmu
record_mmu-Loop offsets [] s = Loop-nil (λ name. slices_value s.counter name offsets 0) s
record_mmu-Loop offsets ((name, unit) ∷ names) s =
    Turn-Loops (λ name. slices_value s.counter name offsets 0) name unit names _
      (record_mmu offsets names) s (record_mmu-Turn offsets name unit names s)
      (λ m. record_mmu-Loop offsets names (with_counters s m))

-- When the loop over the job manager's counters returns, each of them holds the counter of that name in
-- the block at `offset`; the other entries and all other members are as they were. The one exception is
-- that an entry is missing in the map.
pub record_jm-Loop :
    (offset : ℕ) (names : List (String × String)) (s : Machine)
    → Loops (λ name. counter_value s.counter jm name offset) names s (record_jm offset names s)
unfolding record_jm
record_jm-Loop offset [] s = Loop-nil (λ name. counter_value s.counter jm name offset) s
record_jm-Loop offset ((name, unit) ∷ names) s =
    Turn-Loops (λ name. counter_value s.counter jm name offset) name unit names _
      (record_jm offset names) s (record_jm-Turn offset name unit names s)
      (λ m. record_jm-Loop offset names (with_counters s m))
