-- ===== src/Tests/Samples.antt =====
-- A run of `start`, `stop` and `measurements` on the device.
use hwcpipe.Common.{◌^◌, ◌%◌, All, some, ◌≡◌, refl, [], ◌∷◌, arith}
use hwcpipe.Common.Outcome.{Post, returns}
use hwcpipe.Measurement.{measure_integer}
use hwcpipe.Names.Products.{find_product, t60x, tmix}
use hwcpipe.Mali.Counter.Lifetime.{Lived, mali_lifetime}
use hwcpipe.Mali.Counter.Usable.{Samples}
use hwcpipe.Mali.Counter.{MeasurementsMap, construct, start, stop, measurements}
use hwcpipe.Mali.Counter.Entries.{HasEntry, constructed-HasEntry}
use hwcpipe.Mali.Counter.Constructed.{construct-Ready}
use hwcpipe.Mali.Counter.Measured.{labels, Elapsed, Labelled, measurements-Labelled}
use hwcpipe.Mali.Counter.Stopped.{Delivers, CanSample, CanRecord, delivered, start-Delivers}
use hwcpipe.Common.Int.{ℤ}
use hwcpipe.Mali.Counter.Sampled.{Sampled, stop-Sampled}
use hwcpipe.Mali.Counter.Stale.{stop-Stale}
use hwcpipe.Mali.Counter.Shadowed.{Alike, stop-Alike}
use hwcpipe.Names.Lookup.{jm_counter_names, mmu_counter_names}
use hwcpipe.Mali.Init.Ready.{Ready}
use hwcpipe.Mali.Init.Starts.{Surely}
use hwcpipe.Tests.{gpu, device, quiet_device, full_machine, new_machine, old_machine}
use hwcpipe.Tests.Mali.{gpu_found, device-Cooperates}

device-Delivers : Delivers device full_machine
device-Delivers = record {
  dumps = refl;
  polls = refl;
  reports = refl;
  hands_out = refl;
  in_range = omega arith;
  takes_back = refl;
}

counter-CanSample : CanSample full_machine.counter
counter-CanSample = record { holds_mapping = refl; size = refl }

counter-CanRecord : CanRecord tmix 2 full_machine.counter
counter-CanRecord = record {
  names = refl;
  l2_slices = refl;
  all_blocks = omega arith;
  offsets_fit = omega arith;
  jm_entries = (constructed-HasEntry []).0;
  mmu_entries = (constructed-HasEntry []).1;
}

start-Delivers_example :
    Post
      (λ _ t. t.counter ≡ record (delivered device full_machine) {
        start_time = (delivered device full_machine).timestamp;
      })
      (λ _ _. ⊥)
      ⊥
      (start device full_machine)
start-Delivers_example = start-Delivers device full_machine device-Delivers counter-CanSample

stop-Sampled_example :
    Post
      (λ _ t. Sampled (delivered device full_machine) tmix.names_lut 2 t.counter)
      (λ _ _. ⊥)
      ⊥
      (stop device full_machine)
stop-Sampled_example =
    stop-Sampled device full_machine 0x6000 tmix 2 device-Delivers counter-CanSample gpu_found
      (λ e. absurd (omega (arith, e))) counter-CanRecord

measurements-Labelled_example :
    (z : ℤ) × (ms : MeasurementsMap) × Elapsed
      (full_machine.counter.start_time % 2 ^ 64)
      (full_machine.counter.stop_time % 2 ^ 64)
      z
    × (measurements full_machine ≡ returns (("Timespan", measure_integer z "ns") ∷ ms) full_machine)
    × Labelled labels full_machine.counter.counters ms
measurements-Labelled_example =
    measurements-Labelled full_machine (constructed-HasEntry []).0 (constructed-HasEntry []).1

t60x_is_found : find_product 0x6956 ≡ some t60x
unfolding find_product
t60x_is_found = refl

stop-Alike_example :
    Post
      (λ _ t.
        Alike t.counter.counters "L2_EXT_READ" "L2_EXT_READ_BEATS"
        × Alike t.counter.counters "L2_EXT_WRITE" "L2_EXT_WRITE_BEATS")
      (λ _ _. ⊥)
      ⊥
      (stop device old_machine)
stop-Alike_example =
    stop-Alike device old_machine 0x6956 t60x 1
      (record {
        dumps = refl;
        polls = refl;
        reports = refl;
        hands_out = refl;
        in_range = omega arith;
        takes_back = refl;
      })
      (record { holds_mapping = refl; size = refl }) t60x_is_found refl
      (λ e. absurd (omega (arith, e)))
      (record {
        names = refl;
        l2_slices = refl;
        all_blocks = omega arith;
        offsets_fit = omega arith;
        jm_entries = (constructed-HasEntry []).0;
        mmu_entries = (constructed-HasEntry []).1;
      })

construct-Ready_example :
    Surely
      (λ _ t.
        Ready t.counter
        × All (λ n. HasEntry t.counter.counters n.0) jm_counter_names
        × All (λ n. HasEntry t.counter.counters n.0) mmu_counter_names)
      (construct device new_machine)
construct-Ready_example =
    construct-Ready device gpu tmix new_machine device-Cooperates (omega arith) gpu_found

device-Samples : Samples device
device-Samples = record { polls = λ h. refl; reports = λ h. refl; in_range = λ h fd. omega arith }

mali_lifetime_example : Lived device tmix 2 []
mali_lifetime_example =
    mali_lifetime device gpu tmix 512 [] device-Cooperates device-Samples (λ h fd. refl)
      (omega arith) gpu_found (λ e. absurd (omega (arith, e))) (omega arith) (omega arith)

stop-Stale_example :
    Post
      (λ _ t. Sampled full_machine.counter tmix.names_lut 2 t.counter)
      (λ _ _. ⊥)
      ⊥
      (stop quiet_device full_machine)
stop-Stale_example =
    stop-Stale quiet_device full_machine 0x6000 tmix 2
      (record { dumps = refl; polls = refl; no_sample = refl; no_hang_up = refl }) gpu_found
      (λ e. absurd (omega (arith, e))) counter-CanRecord
