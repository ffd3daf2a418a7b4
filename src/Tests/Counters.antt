-- ===== src/Tests/Counters.antt =====
-- Samples of the counters of an object, and what is recorded of them.
use hwcpipe.Common.{ℕ, ◌*◌, ◌+◌, ◌<◌, ◌≤◌, ◌≡◌, refl, [], ◌∷◌, some, arith, All, get_elem?}
use hwcpipe.Common.Int.{pos}
use hwcpipe.Common.Outcome.{Post, returns}
use hwcpipe.Names.Block.{mmu, shader}
use hwcpipe.Names.Products.{tmix, t72x}
use hwcpipe.Mali.State.{MaliCounter}
use hwcpipe.Mali.Init.Ready.{Ready}
use hwcpipe.Mali.Sampling.{get_counters, wait_next_event}
use hwcpipe.Mali.Sampling.Pointers.{get_counters-shader, get_counters-shader_disjoint}
use hwcpipe.Mali.Sampling.Events.{with_sample, wait_next_event-sample}
use hwcpipe.Mali.Counter.Values.{counter_value}
use hwcpipe.Mali.Counter.Shadowed.{t72x_values}
use hwcpipe.Tests.{device, counter, machine}
use hwcpipe.Tests.Mali.{gpu_found}

counter-Ready : Ready counter
counter-Ready = (
  refl,
  omega arith,
  refl,
  (0x6000, tmix, gpu_found, refl),
  refl,
  refl,
  (omega arith, (omega arith, (omega arith, tt))),
  (omega arith, (omega arith, (omega arith, tt))),
)

get_counters-shader_example :
    (core : ℕ) × (get_elem? counter.core_index_remap 2 ≡ some core)
    × (core < 32)
    × (get_counters counter shader (pos 2) machine ≡ returns (64 * (2 + 2 + core)) machine)
get_counters-shader_example =
    get_counters-shader counter 2 2 machine counter-Ready refl (omega arith) (omega arith)

shader_1 : get_counters counter shader (pos 1) machine ≡ returns 320 machine
unfolding get_counters
shader_1 = refl

shader_2 : get_counters counter shader (pos 2) machine ≡ returns 448 machine
unfolding get_counters
shader_2 = refl

get_counters-shader_disjoint_example : (64 * (2 + 2) ≤ 320) × (320 + 64 ≤ 448)
get_counters-shader_disjoint_example =
    get_counters-shader_disjoint counter 2 1 2 320 448 machine machine machine counter-Ready refl
      (omega arith) (omega arith) (omega arith) shader_1 shader_2

wait_next_event-sample_example :
    Post
      (λ _ t. t.counter ≡ with_sample device machine)
      (λ e t. (e ≡ "Failed READER_PUT_BUFFER.") × (t.counter ≡ with_sample device machine))
      ⊥
      (wait_next_event device machine)
wait_next_event-sample_example =
    wait_next_event-sample device machine refl refl refl refl (omega arith) refl

abbrev t72x_counter : MaliCounter
t72x_counter = record counter { names_lut = some t72x.names_lut }

t72x_values_example :
    All
      (λ name.
        counter_value t72x_counter mmu name 128 ≡ get_elem? t72x_counter.raw_counter_buffer 127)
      ("L2_READ_LOOKUP" ∷ "L2_WRITE_LOOKUP" ∷ "L2_EXT_READ_BEATS" ∷ "L2_EXT_WRITE_BEATS" ∷ [])
t72x_values_example = t72x_values t72x_counter 127 refl
