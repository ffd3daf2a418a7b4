-- ===== src/Mali/Init/Term.antt =====
-- `MaliCounter::term` gives up all that the object holds, once.
use hwcpipe.Common.{◌*◌, ◌≡◌, refl, ◌∙◌, true, false, List, [], ◌∷◌, ◌++◌, arith, if◌then◌else◌}
use hwcpipe.Common.Int.{ℤ, negsuc, is_neg}
use hwcpipe.Common.Outcome.{returns}
use hwcpipe.Mali.Kernel.{Event, History, unmapped, closed}
use hwcpipe.Mali.State.{MaliCounter, null_pointer, Machine}
use hwcpipe.Mali.Init.{is_mapped, term}

-- A descriptor that is held, as the call that closes it.
abbrev closing : ℤ → List Event
closing fd = if is_neg fd then [] else closed fd ∷ []

abbrev unmapping : MaliCounter → List Event
unmapping c = if is_mapped c.sample_data then unmapped (c.buffer_count * c.buffer_size) ∷ [] else []

-- The calls of `term`, the latest first.
abbrev pub releases : MaliCounter → History
releases c = closing c.fd ++ (closing c.hwc_fd ++ unmapping c)

abbrev forgotten : ℤ → ℤ
forgotten fd = if is_neg fd then fd else negsuc 0

-- The object without what it held; all else is as it was.
abbrev pub released : Machine → Machine
released s = record {
  counter = record s.counter {
    sample_data = null_pointer;
    hwc_fd = forgotten s.counter.hwc_fd;
    fd = forgotten s.counter.fd;
  };
  history = releases s.counter ++ s.history;
}

term-released : (s : Machine) → term s ≡ returns tt (released s)
unfolding term
term-released s = ground arith

-- `term` returns on every object. It makes one call for each thing held, the mapping before the reader
-- and the reader before the device, and no other; it changes no member but those three. The object then
-- holds nothing, so that a second `term` changes nothing and makes no call.
pub term-releases :
    (s : Machine)
    → (term s ≡ returns tt (released s))
      × (is_mapped (released s).counter.sample_data ≡ false)
      × (is_neg (released s).counter.hwc_fd ≡ true)
      × (is_neg (released s).counter.fd ≡ true)
      × (term (released s) ≡ returns tt (released s))
term-releases s = (
  term-released s,
  refl,
  forgotten-is_neg s.counter.hwc_fd,
  forgotten-is_neg s.counter.fd,
  term-released (released s) ∙ ground arith,
)
  where
    forgotten-is_neg : (fd : ℤ) → is_neg (forgotten fd) ≡ true
    forgotten-is_neg fd = ground arith
