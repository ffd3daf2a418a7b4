-- ===== src/Mali/Counter/Stale.antt =====
-- `stop` after an event that is neither a sample nor a hang-up.
use hwcpipe.Common.{some, ℕ, ◌≡◌, ◌≢◌, false}
use hwcpipe.Common.Int.{is_neg, is_nonzero}
use hwcpipe.Common.Outcome.{Post, Post-mono, bind-Post}
use hwcpipe.Names.Products.{CounterMapping, find_product, t72x}
use hwcpipe.Mali.Kernel.{Kernel, dump}
use hwcpipe.Mali.State.{Machine}
use hwcpipe.Mali.Sampling.{sample_counters}
use hwcpipe.Mali.Sampling.Events.{wait_next_event-stale}
use hwcpipe.Mali.Counter.{stop, record_sample}
use hwcpipe.Mali.Counter.Stop.{Taken}
use hwcpipe.Mali.Counter.Stopped.{CanRecord, Stopped, asked, records, Taken-Stopped}
use hwcpipe.Mali.Counter.Sampled.{Sampled, Stopped-Entered}

-- The request for a sample is granted, and `poll` then reports neither a sample nor a hang-up, as it does
-- for an error alone.
pub record Fails (k : Kernel) (s : Machine) : Type 0 where
  pub dumps : is_nonzero (k.ioctl s.history s.counter.hwc_fd dump).ret ≡ false
  pub polls : is_neg (k.poll (asked s).history).count ≡ false
  pub no_sample : (k.poll (asked s).history).pollin ≡ false
  pub no_hang_up : (k.poll (asked s).history).pollhup ≡ false

stale-Stopped :
    (k : Kernel) (s : Machine) (g : ℕ) (cm : CounterMapping) (slices : ℕ)
    → Fails k s
    → find_product g ≡ some cm
    → cm.product_id ≢ t72x.product_id
    → CanRecord cm slices s.counter
    → Post (λ _ t. Stopped s.counter slices t.counter) (λ _ _. ⊥) ⊥ (stop k s)
unfolding stop sample_counters
stale-Stopped k s g cm slices fails known other r =
    let (t, waits, same) =
      wait_next_event-stale k (asked s) fails.polls fails.no_sample fails.no_hang_up in
    rw (fails.dumps, waits)
      (bind-Post (λ _ u. Taken s.counter slices u.counter)
        (λ _ u. Stopped s.counter slices u.counter) (λ _ _. ⊥) ⊥ record_sample _ t
        (records g cm slices s.counter t known other r same)
        λ _ u h. Taken-Stopped s.counter u.counter slices h)

-- On a known GPU other than the T72x, when the request for a sample is granted but `poll` then reports an error
-- alone, on an object with a buffer that has the blocks of all slices at offsets that fit in an `int` and a map
-- that has all entries: `stop` returns all the same. Each counter then holds what the sample before has for it,
-- and the stop time is the time of the sample before.
pub stop-Stale :
    (k : Kernel) (s : Machine) (g : ℕ) (cm : CounterMapping) (slices : ℕ)
    → Fails k s
    → find_product g ≡ some cm
    → cm.product_id ≢ t72x.product_id
    → CanRecord cm slices s.counter
    → Post (λ _ t. Sampled s.counter cm.names_lut slices t.counter) (λ _ _. ⊥) ⊥ (stop k s)
stop-Stale k s g cm slices fails known other r =
    Post-mono (stop k s)
      (λ _ t h.
        (h.0, Stopped-Entered g cm slices s.counter t.counter.counters known r.names other h.1 h.2))
      (λ _ _ h. h) (λ h. h) (stale-Stopped k s g cm slices fails known other r)
