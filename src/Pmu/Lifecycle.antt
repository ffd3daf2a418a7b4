-- ===== src/Pmu/Lifecycle.antt =====
-- The descriptors that a `PMU` object opens and closes.
use hwcpipe.Common.{ℕ, ◌≡◌, refl, List, [], ◌∷◌, arith, Bool-cases, inl, inr, ◌⊎◌, if◌then◌else◌}
use hwcpipe.Common.Int.{ℤ, negsuc, eq_ℤ, eq_ℤ_refl}
use hwcpipe.Common.Outcome.{returns, ◌>>=◌}
use hwcpipe.Pmu.{
  Perf, PerfHistory, perf_opened, perf_requested, perf_read, perf_closed, PerfEventAttr, Pmu,
  open_config, construct, enable, close, new_pmu, open_attr,
}

abbrev remove_event : ℤ → List ℤ → List ℤ
remove_event fd [] = []
remove_event fd (x ∷ xs) = if eq_ℤ x fd then xs else x ∷ remove_event fd xs

-- The descriptors that are open after the calls, the latest first.
abbrev pub event_fds : PerfHistory → List ℤ
event_fds [] = []
event_fds (perf_opened fd ∷ h) = if eq_ℤ fd (negsuc 0) then event_fds h else fd ∷ event_fds h
event_fds (perf_requested fd r ∷ h) = event_fds h
event_fds (perf_read fd ∷ h) = event_fds h
event_fds (perf_closed fd ∷ h) = remove_event fd (event_fds h)

-- An object that is constructed and then destroyed leaves the descriptors as they were, whether the kernel
-- opened the counter or not, and a second close does nothing.
pub close-construct :
    (k : Perf) (config : ℕ) (h : PerfHistory)
    → (q : Pmu) × (u : PerfHistory) × ((construct k config >>= close) h ≡ returns q u)
      × (event_fds u ≡ event_fds h)
      × (close q u ≡ returns q u)
unfolding construct open_config open_attr close
close-construct k config h =
    let attr : PerfEventAttr = record (new_pmu k).perf_config { config = config } in
    let fd = k.open_event h attr in
    let q : Pmu = record { perf_config = attr; fd = negsuc 0 } in
    let u : PerfHistory = perf_requested fd enable ∷ perf_opened fd ∷ h in
    elim (Bool-cases (eq_ℤ fd (negsuc 0))) [
      | inl failed ↦ (q, u, rw failed refl, rw failed refl, refl)
      | inr ok ↦ (q, perf_closed fd ∷ u, rw ok refl, rw (ok, eq_ℤ_refl fd) refl, refl)
    ]

-- Opening an object, whatever counter it holds, adds the new descriptor to the open ones, if the kernel
-- opened one, and closes none.
pub open_config_keeps :
    (k : Perf) (config : ℕ) (p : Pmu) (h : PerfHistory)
    → (q : Pmu) × (u : PerfHistory) × (open_config k config p h ≡ returns q u)
      × (((q.fd ≡ negsuc 0) × (event_fds u ≡ event_fds h)) ⊎ (event_fds u ≡ q.fd ∷ event_fds h))
unfolding open_config open_attr
open_config_keeps k config p h =
    let attr : PerfEventAttr = record p.perf_config { config = config } in
    let fd = k.open_event h attr in
    let q : Pmu = record { perf_config = attr; fd = fd } in
    elim (Bool-cases (eq_ℤ fd (negsuc 0))) [
      | inl failed ↦ (
        q,
        perf_requested fd enable ∷ perf_opened fd ∷ h,
        refl,
        inl (ground arith, rw failed refl),
      )
      | inr ok ↦ (q, perf_requested fd enable ∷ perf_opened fd ∷ h, refl, inr (rw ok refl))
    ]
