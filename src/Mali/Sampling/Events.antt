-- ===== src/Mali/Sampling/Events.antt =====
-- What `wait_next_event` does with the answer of `poll`.
use hwcpipe.Common.{◌^◌, ◌%◌, ℕ, ◌*◌, ◌<◌, ◌≡◌, refl, true, false, ◌∷◌, some, arith, length, ==_iff}
use hwcpipe.Common.Int.{is_neg, is_nonzero}
use hwcpipe.Common.Outcome.{Post, returns}
use hwcpipe.Mali.Kernel.{Kernel, History, Reply, polled, requested, get_buffer}
use hwcpipe.Mali.State.{MaliCounter, mapping, Machine}
use hwcpipe.Mali.Sampling.{words_at, copied, take_sample, wait_next_event}

-- An event that `poll` does not report as readable and not as a hang-up, such as an error alone: the call
-- returns, with the counters and the time of the sample before.
pub wait_next_event-stale :
    (k : Kernel) (s : Machine)
    → is_neg (k.poll s.history).count ≡ false
    → (k.poll s.history).pollin ≡ false
    → (k.poll s.history).pollhup ≡ false
    → (t : Machine) × (wait_next_event k s ≡ returns tt t) × (t.counter ≡ s.counter)
unfolding wait_next_event
wait_next_event-stale k s count no_in no_hup =
    (record s { history = polled s.counter.hwc_fd ∷ s.history }, ground arith, refl)

pub copied-mapping :
    (byte : ℕ → ℕ) (idx : ℕ) (c : MaliCounter)
    → c.sample_data ≡ mapping
    → idx < c.buffer_count
    → c.buffer_size ≡ 4 * length c.raw_counter_buffer
    → copied byte idx c ≡ some (words_at byte (c.buffer_size * idx) (length c.raw_counter_buffer))
unfolding copied
copied-mapping byte idx c m h e =
    ground (arith, ==_iff c.buffer_size (4 * length c.raw_counter_buffer))

-- The history at the moment when the reader has handed out its buffer.
abbrev pub handed_out : Machine → History
handed_out s = requested s.counter.hwc_fd get_buffer ∷ polled s.counter.hwc_fd ∷ s.history

-- What the reader answers to the request for its buffer.
abbrev pub sample_reply : Kernel → Machine → Reply get_buffer
sample_reply k s = k.ioctl (polled s.counter.hwc_fd ∷ s.history) s.counter.hwc_fd get_buffer

-- The members with the words of the buffer that is handed out, and with its time.
abbrev pub with_sample : Kernel → Machine → MaliCounter
with_sample k s =
    let meta = (sample_reply k s).out in
    record s.counter {
      raw_counter_buffer =
          words_at (k.sample_byte (handed_out s)) (s.counter.buffer_size * meta.buffer_idx)
            (length s.counter.raw_counter_buffer);
      timestamp = meta.timestamp % 2 ^ 64;
    }

-- When a sample is there, the reader hands out one of its buffers, the memory is mapped and the counter
-- buffer has the size of a sample, the counters become the words of that buffer and the time the sample's,
-- and no other member changes. This is so also if the buffer cannot be given back, which is the one
-- exception then.
pub wait_next_event-sample :
    (k : Kernel) (s : Machine)
    → is_neg (k.poll s.history).count ≡ false
    → (k.poll s.history).pollin ≡ true
    → is_nonzero (sample_reply k s).ret ≡ false
    → s.counter.sample_data ≡ mapping
    → (sample_reply k s).out.buffer_idx < s.counter.buffer_count
    → s.counter.buffer_size ≡ 4 * length s.counter.raw_counter_buffer
    → Post
        (λ _ t. t.counter ≡ with_sample k s)
        (λ e t. (e ≡ "Failed READER_PUT_BUFFER.") × (t.counter ≡ with_sample k s))
        ⊥
        (wait_next_event k s)
unfolding wait_next_event take_sample
wait_next_event-sample k s count ready got mapped idx size = ground (
  arith,
  copied-mapping (k.sample_byte (handed_out s)) (sample_reply k s).out.buffer_idx s.counter mapped
      idx size,
)
