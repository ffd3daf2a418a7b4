-- ===== src/Mali/Counter/Stopped.antt =====
-- `start` and `stop` on a device that delivers its sample.
use hwcpipe.Common.{
  ◌^◌, ℕ, zero, suc, ◌+◌, ◌*◌, ◌≤◌, ◌<◌, ◌≡◌, ◌≢◌, refl, sym, ap, subst, ◌∷◌, some, arith, All,
  true, false, length,
}
use hwcpipe.Common.Int.{pos, is_neg, is_nonzero}
use hwcpipe.Common.Outcome.{Outcome, Post, bind-Post, returns}
use hwcpipe.Names.Products.{CounterMapping, find_product, t72x}
use hwcpipe.Names.Lookup.{jm_counter_names, mmu_counter_names}
use hwcpipe.Mali.Kernel.{Kernel, requested, dump, put_buffer}
use hwcpipe.Mali.State.{MaliCounter, Machine, mapping}
use hwcpipe.Mali.Sampling.{words_at, sample_counters, wait_next_event, take_sample}
use hwcpipe.Mali.Sampling.Events.{handed_out, sample_reply, with_sample, copied-mapping}
use hwcpipe.Mali.Counter.{record_sample, start, stop}
use hwcpipe.Mali.Counter.Entries.{HasEntry}
use hwcpipe.Mali.Counter.Recording.{Recorded}
use hwcpipe.Mali.Counter.Stop.{Taken, jm_value, mmu_value}
use hwcpipe.Mali.Counter.Returns.{record_sample-returns}

-- The object after the request for a sample.
abbrev pub asked : Machine → Machine
asked s = record s { history = requested s.counter.hwc_fd dump ∷ s.history }

-- From this moment on the device takes a sample, reports it, hands out one of its buffers and takes the
-- buffer back.
pub record Delivers (k : Kernel) (s : Machine) : Type 0 where
  pub dumps : is_nonzero (k.ioctl s.history s.counter.hwc_fd dump).ret ≡ false
  pub polls : is_neg (k.poll (asked s).history).count ≡ false
  pub reports : (k.poll (asked s).history).pollin ≡ true
  pub hands_out : is_nonzero (sample_reply k (asked s)).ret ≡ false
  pub in_range : (sample_reply k (asked s)).out.buffer_idx < s.counter.buffer_count
  pub takes_back :
      is_nonzero
        (k.ioctl
          (handed_out (asked s))
          s.counter.hwc_fd
          (put_buffer (sample_reply k (asked s)).out)).ret
      ≡ false

-- The object has a mapping, and a buffer of the size of a sample.
pub record CanSample (c : MaliCounter) : Type 0 where
  pub holds_mapping : c.sample_data ≡ mapping
  pub size : c.buffer_size ≡ 4 * length c.raw_counter_buffer

-- The members with the sample that the device delivers.
abbrev pub delivered : Kernel → Machine → MaliCounter
delivered k s = with_sample k (asked s)

abbrev Surely : (MaliCounter → Type 0) → Outcome Machine (Unit {0}) → Type 0
Surely P = Post (λ _ t. P t.counter) (λ _ _. ⊥) ⊥

module _ (k : Kernel) (s : Machine) (d : Delivers k s) (c : CanSample s.counter) where
  asks : sample_counters k s ≡ returns tt (asked s)
  unfolding sample_counters
  asks = rw d.dumps refl

  waits : Surely (λ c. c ≡ delivered k s) (wait_next_event k (asked s))
  unfolding wait_next_event take_sample
  waits = ground (
    arith,
    d.polls,
    d.reports,
    d.hands_out,
    d.takes_back,
    copied-mapping (k.sample_byte (handed_out (asked s))) (sample_reply k (asked s)).out.buffer_idx
        s.counter c.holds_mapping d.in_range c.size,
  )

-- With a device that delivers its sample, on an object with a mapping and a buffer of the size of a sample,
-- `start` returns; the counters and the time are the sample's, the start time is too, and no other member has
-- changed.
pub start-Delivers :
    (k : Kernel) (s : Machine)
    → Delivers k s
    → CanSample s.counter
    → Post
        (λ _ t. t.counter ≡ record (delivered k s) { start_time = (delivered k s).timestamp })
        (λ _ _. ⊥)
        ⊥
        (start k s)
unfolding start
start-Delivers k s d c = rw (asks k s d c) (
    bind-Post (λ _ t. t.counter ≡ delivered k s)
      (λ _ t. t.counter ≡ record (delivered k s) { start_time = (delivered k s).timestamp })
      (λ _ _. ⊥) ⊥ (wait_next_event k) _ (asked s) (waits k s d c)
      (λ _ t e. ap {A = MaliCounter} (λ c. record c { start_time = c.timestamp }) e))

pub length-words_at : (byte : ℕ → ℕ) (from n : ℕ) → length (words_at byte from n) ≡ n
length-words_at byte from zero = refl
length-words_at byte from (suc n) = ap suc (length-words_at byte (from + 4) n)

-- The counters are those of the sample in `c`, the stop time is the sample's, and all else is as in `c`.
abbrev pub Stopped : MaliCounter → ℕ → MaliCounter → Type 0
Stopped c slices d =
    (d ≡ record c { counters = d.counters; stop_time = c.timestamp })
    × All (λ n. Recorded (jm_value c) d.counters n.0) jm_counter_names
    × All (λ n. Recorded (mmu_value c slices) d.counters n.0) mmu_counter_names

pub Taken-Stopped :
    (c d : MaliCounter) (slices : ℕ)
    → Taken c slices d
    → Stopped c slices (record d { stop_time = d.timestamp })
Taken-Stopped c d slices (frame, jms, mmus) =
    (ap {A = MaliCounter} (λ e. record e { stop_time = e.timestamp }) frame, jms, mmus)

-- What `stop` needs of the table, the buffer and the map, for a GPU of `slices` slices.
pub record CanRecord (cm : CounterMapping) (slices : ℕ) (c : MaliCounter) : Type 0 where
  pub names : c.names_lut ≡ some cm.names_lut
  pub l2_slices : c.num_l2_slices ≡ pos slices
  pub all_blocks : 64 * (2 + slices) ≤ length c.raw_counter_buffer
  pub offsets_fit : 64 * (2 + slices) ≤ 2 ^ 31
  pub jm_entries : All (λ n. HasEntry c.counters n.0) jm_counter_names
  pub mmu_entries : All (λ n. HasEntry c.counters n.0) mmu_counter_names

pub delivered-CanRecord :
    (k : Kernel) (s : Machine) (cm : CounterMapping) (slices : ℕ)
    → CanRecord cm slices s.counter
    → CanRecord cm slices (delivered k s)
delivered-CanRecord k s cm slices r = record {
  names = r.names;
  l2_slices = r.l2_slices;
  all_blocks = omega (
    arith,
    r.all_blocks,
    length-words_at (k.sample_byte (handed_out (asked s)))
        (s.counter.buffer_size * (sample_reply k (asked s)).out.buffer_idx)
        (length s.counter.raw_counter_buffer),
  );
  offsets_fit = r.offsets_fit;
  jm_entries = r.jm_entries;
  mmu_entries = r.mmu_entries;
}

pub records :
    (g : ℕ) (cm : CounterMapping) (slices : ℕ) (c : MaliCounter) (t : Machine)
    → find_product g ≡ some cm
    → cm.product_id ≢ t72x.product_id
    → CanRecord cm slices c
    → t.counter ≡ c
    → Surely (Taken c slices) (record_sample t)
records g cm slices c t known other r e =
    let r' : CanRecord cm slices t.counter = subst (CanRecord cm slices) (sym e) r in
    subst (λ c. Surely (Taken c slices) (record_sample t)) e
      (record_sample-returns g cm t slices known other r'.names r'.l2_slices r'.all_blocks
        r'.offsets_fit r'.jm_entries r'.mmu_entries)

-- What `stop` leaves on a device that delivers its sample, in the words of the code's own search.
pub stop-Stopped :
    (k : Kernel) (s : Machine) (g : ℕ) (cm : CounterMapping) (slices : ℕ)
    → Delivers k s
    → CanSample s.counter
    → find_product g ≡ some cm
    → cm.product_id ≢ t72x.product_id
    → CanRecord cm slices s.counter
    → Post (λ _ t. Stopped (delivered k s) slices t.counter) (λ _ _. ⊥) ⊥ (stop k s)
unfolding stop
stop-Stopped k s g cm slices d c known other r = rw (asks k s d c) (
    bind-Post (λ _ t. t.counter ≡ delivered k s) (λ _ t. Stopped (delivered k s) slices t.counter)
      (λ _ _. ⊥) ⊥ (wait_next_event k) _ (asked s) (waits k s d c)
      λ _ t e.
        bind-Post (λ _ t. Taken (delivered k s) slices t.counter)
          (λ _ t. Stopped (delivered k s) slices t.counter) (λ _ _. ⊥) ⊥ record_sample _ t
          (records g cm slices (delivered k s) t known other (delivered-CanRecord k s cm slices r)
            e)
          λ _ u h. Taken-Stopped (delivered k s) u.counter slices h)
