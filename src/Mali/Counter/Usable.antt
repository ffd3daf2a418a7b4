-- ===== src/Mali/Counter/Usable.antt =====
-- Objects of `MaliCounter` on which `start` and `stop` succeed, and that the constructor makes one.
use hwcpipe.Common.{
  ℕ, ◌+◌, ◌*◌, ◌^◌, ◌≤◌, ◌<◌, ◌≡◌, ap, ◌∙◌, true, false, [], some, arith, All, length,
}
use hwcpipe.Common.Int.{ℤ, pos, is_neg, is_nonzero, signed32}
use hwcpipe.Common.Outcome.{Post-mono, Post-and}
use hwcpipe.Names.Products.{CounterMapping, find_product}
use hwcpipe.Names.Lookup.{jm_counter_names, mmu_counter_names}
use hwcpipe.Mali.Init.Ready.{Ready}
use hwcpipe.Mali.Init.Starts.{Surely, Starts}
use hwcpipe.Mali.Init.Succeeds.{Cooperates}
use hwcpipe.Mali.Kernel.{Kernel, BaseGpuProps, History, Metadata, dump, get_buffer, put_buffer}
use hwcpipe.Mali.State.{MaliCounter, new_mali_counter, Machine}
use hwcpipe.Mali.Sampling.Events.{handed_out, sample_reply}
use hwcpipe.Mali.Counter.{construct}
use hwcpipe.Mali.Counter.Entries.{HasEntry, constructed}
use hwcpipe.Mali.Counter.Constructed.{construct-Starts}
use hwcpipe.Mali.Counter.Prepared.{Prepared, SampleSize, init-Prepared}
use hwcpipe.Mali.Counter.Stopped.{
  asked, Delivers, CanSample, CanRecord, delivered, delivered-CanRecord, length-words_at,
}

-- Whenever it is asked for, the device takes a sample and hands out one of its 16 buffers.
pub record Samples (k : Kernel) : Type 0 where
  pub polls : (h : History) → is_neg (k.poll h).count ≡ false
  pub reports : (h : History) → (k.poll h).pollin ≡ true
  pub in_range : (h : History) (fd : ℤ) → (k.ioctl h fd get_buffer).out.buffer_idx < 16

-- An object on which `start` and `stop` succeed.
abbrev pub Usable : CounterMapping → ℕ → MaliCounter → Type 0
Usable cm slices c = CanSample c × CanRecord cm slices c × (c.buffer_count ≡ 16)

-- The requests of a sample are granted.
pub record Serves (k : Kernel) : Type 0 where
  pub dumps : (h : History) (fd : ℤ) → (k.ioctl h fd dump).ret ≡ pos 0
  pub hands_out : (h : History) (fd : ℤ) → (k.ioctl h fd get_buffer).ret ≡ pos 0
  pub takes_back : (h : History) (fd : ℤ) (m : Metadata) → (k.ioctl h fd (put_buffer m)).ret ≡ pos 0

pub coop-Serves : (k : Kernel) (p : BaseGpuProps) → Cooperates k p → Serves k
coop-Serves k p coop = record {
  dumps = λ h fd. coop.grants h fd dump;
  hands_out = λ h fd. coop.grants h fd get_buffer;
  takes_back = λ h fd m. coop.grants h fd (put_buffer m);
}

module _ (k : Kernel) (serves : Serves k) (samples : Samples k) where
  pub always-Delivers : (s : Machine) → s.counter.buffer_count ≡ 16 → Delivers k s
  always-Delivers s e = record {
    dumps = ap is_nonzero (serves.dumps s.history s.counter.hwc_fd);
    polls = samples.polls (asked s).history;
    reports = samples.reports (asked s).history;
    hands_out = ap is_nonzero (serves.hands_out _ s.counter.hwc_fd);
    in_range = omega (arith, e, samples.in_range _ s.counter.hwc_fd);
    takes_back =
        ap is_nonzero (
          serves.takes_back (handed_out (asked s)) s.counter.hwc_fd (sample_reply k (asked s)).out);
  }

-- A sample leaves the object usable.
pub delivered-Usable :
    (k : Kernel) (s : Machine) (cm : CounterMapping) (slices : ℕ)
    → Usable cm slices s.counter
    → Usable cm slices (delivered k s)
delivered-Usable k s cm slices (sampled, recorded, e) = (
  record {
    holds_mapping = sampled.holds_mapping;
    size = omega (
      arith,
      sampled.size,
      length-words_at (k.sample_byte (handed_out (asked s)))
          (s.counter.buffer_size * (sample_reply k (asked s)).out.buffer_idx)
          (length s.counter.raw_counter_buffer),
    );
  },
  delivered-CanRecord k s cm slices recorded,
  e,
)

Prepared-Usable :
    (cm : CounterMapping) (slices words : ℕ) (c : MaliCounter)
    → words < 2 ^ 30
    → 64 * (2 + slices) ≤ words
    → Prepared cm slices 16 (4 * words) c
    → All (λ n. HasEntry c.counters n.0) jm_counter_names
    → All (λ n. HasEntry c.counters n.0) mmu_counter_names
    → Usable cm slices c
Prepared-Usable cm slices words c few room (((((l2, count), size), map), lut), filled) jms mmus =
    let narrow : signed32 slices ≡ pos slices = ground arith in
    (
      record { holds_mapping = map; size = omega (arith, size, filled) },
      record {
        names = lut;
        l2_slices = l2 ∙ narrow;
        all_blocks = omega (arith, filled, room);
        offsets_fit = omega (arith, few, room);
        jm_entries = jms;
        mmu_entries = mmus;
      },
      count,
    )

-- The constructor makes a usable object.
pub construct-Usable :
    (k : Kernel) (id slices : ℕ) (cm : CounterMapping) (words : ℕ) (h : History)
    → Starts k id slices
    → SampleSize k (4 * words)
    → find_product id ≡ some cm
    → words < 2 ^ 30
    → 64 * (2 + slices) ≤ words
    → Surely
        (λ _ t. Usable cm slices t.counter)
        (construct k (record { counter = new_mali_counter; history = h }))
unfolding construct
construct-Usable k id slices cm words h starts sized known few room =
    let s : Machine = record { counter = new_mali_counter; history = h } in
    let u : Machine = record {
      counter = record new_mali_counter { counters = constructed [] };
      history = h;
    } in
    Post-mono (construct k s)
      (λ _ t a. Prepared-Usable cm slices words t.counter few room a.1 a.0.1 a.0.2) (λ _ _ a. a.0)
      (λ a. a.0)
      (Post-and
        (λ _ t.
          Ready t.counter
          × All (λ n. HasEntry t.counter.counters n.0) jm_counter_names
          × All (λ n. HasEntry t.counter.counters n.0) mmu_counter_names)
        (λ _ t. Prepared cm slices 16 (4 * words) t.counter) (λ _ _. ⊥) (λ _ _. Unit {0}) ⊥ Unit
        (construct k s) (construct-Starts k id slices cm s starts known)
        (init-Prepared k id slices cm (4 * words) u starts known sized (omega arith)))
