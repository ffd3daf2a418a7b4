-- ===== src/Mali/Counter/Values.antt =====
-- What the reads of `stop` give, as functions of the members alone.
use hwcpipe.Common.{
  ℕ, ◌+◌, ◌%◌, ◌^◌, ◌≡◌, refl, String, List, [], ◌∷◌, Option, some, arith, Option-cases, inl, inr,
}
use hwcpipe.Common.Outcome.{defined}
use hwcpipe.Names.Block.{MaliCounterBlockName, mmu}
use hwcpipe.Names.Lookup.{find_counter_index_by_name}
use hwcpipe.Mali.State.{MaliCounter, Machine}
use hwcpipe.Mali.Sampling.{counter_at}
use hwcpipe.Common.Options.{◌>>=◌ as bind}
use hwcpipe.Mali.Counter.{read_counter, sum_slices}

-- The counter of that name in the block at `offset`.
abbrev pub value_in : List ℕ → Option (List String) → MaliCounterBlockName → String → ℕ → Option ℕ
value_in raw lut block name offset =
    bind lut
      (λ names. bind (find_counter_index_by_name names block name) (λ i. counter_at raw offset i))

abbrev pub counter_value : MaliCounter → MaliCounterBlockName → String → ℕ → Option ℕ
counter_value c block name offset = value_in c.raw_counter_buffer c.names_lut block name offset

-- The sum over the slices, behind a sum so far, in 32 bits.
abbrev pub slices_value : MaliCounter → String → List ℕ → ℕ → Option ℕ
slices_value c name [] acc = some acc
slices_value c name (offset ∷ offsets) acc =
    bind (counter_value c mmu name offset) (λ v. slices_value c name offsets ((acc + v) % 2 ^ 32))

pub read_counter_lem :
    (block : MaliCounterBlockName) (name : String) (offset : ℕ) (s : Machine)
    → read_counter block name offset s ≡ defined (counter_value s.counter block name offset) s
unfolding read_counter
read_counter_lem block name offset s = ground arith

pub sum_slices_lem :
    (name : String) (offsets : List ℕ) (acc : ℕ) (s : Machine)
    → sum_slices name offsets acc s ≡ defined (slices_value s.counter name offsets acc) s
unfolding sum_slices
sum_slices_lem name [] acc s = refl
sum_slices_lem name (offset ∷ offsets) acc s =
    elim (Option-cases (counter_value s.counter mmu name offset)) [
      | inl e ↦ rw (read_counter_lem mmu name offset s, e)
      | inr (v, e) ↦
          rw (read_counter_lem mmu name offset s, e)
            (sum_slices_lem name offsets ((acc + v) % 2 ^ 32) s)
    ]
