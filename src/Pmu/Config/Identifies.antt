-- ===== src/Pmu/Config/Identifies.antt =====
-- The text of `config_to_str` tells which counter it is.
use hwcpipe.Common.{
  arith, ℕ, ◌≡◌, ◌≢◌, ◌⊎◌, inl, inr, refl, sym, ap, ◌∙◌, true, false, String, List, [], ◌∷◌, Option,
  none, some, All, list_eq, ◌==◌, ==_iff, if◌then◌else◌, Bool-cases,
}
use hwcpipe.Common.Text.{codes}
use hwcpipe.Pmu.{PerfEventAttr}
use hwcpipe.Pmu.Config.{PerfIds, Cases, hardware_cases, software_cases, switch, config_to_str}

-- The first case with a text.
abbrev find_text : Cases → List ℕ → Option ℕ
find_text [] text = none
find_text ((id, name) ∷ cases) text =
    let rest = find_text cases text in if list_eq (codes name) text then some id else rest

abbrev of_type : PerfIds → Option ℕ → Option ℕ → Option (ℕ × ℕ)
of_type ids (some id) software = some (ids.type_hardware, id)
of_type ids none (some id) = some (ids.type_software, id)
of_type ids none none = none

-- The type and the identifier behind a text.
abbrev pub read_config : PerfIds → List ℕ → Option (ℕ × ℕ)
read_config ids text =
    of_type ids (find_text (hardware_cases ids) text) (find_text (software_cases ids) text)

-- One of the cases is for the identifier.
abbrev pub Listed : Cases → ℕ → Type 0
Listed [] config = ⊥
Listed ((id, name) ∷ cases) config = (id ≡ config) ⊎ Listed cases config

list_eq_refl : (xs : List ℕ) → list_eq xs xs ≡ true
list_eq_refl [] = refl
list_eq_refl (x ∷ xs) = ground (arith, list_eq_refl xs)

Listed-later :
    (id config : ℕ) (cases : Cases)
    → (id == config) ≡ false
    → (id ≡ config) ⊎ Listed cases config
    → Listed cases config
Listed-later id config cases other (inl e) = absurd (ground (arith, e))
Listed-later id config cases other (inr l) = l

-- What holds of the texts of all cases holds of the one that the switch returns.
switch-All :
    (P : String → Type 0) (cases : Cases) (config : ℕ) (default : String)
    → Listed cases config
    → All (λ c. P c.1) cases
    → P (switch cases config default)
unfolding switch
switch-All P [] config default l h = absurd l
switch-All P ((id, name) ∷ cases) config default l h = elim (Bool-cases (id == config)) [
  | inl here ↦ rw here h.0
  | inr later ↦
      rw later (switch-All P cases config default (Listed-later id config cases later l) h.1)
]

-- No text of the cases is that one.
abbrev Unlike : Cases → List ℕ → Type 0
Unlike cases text = All (λ c. list_eq (codes c.1) text ≡ false) cases

find_text-Unlike : (cases : Cases) (text : List ℕ) → Unlike cases text → find_text cases text ≡ none
find_text-Unlike [] text h = refl
find_text-Unlike ((id, name) ∷ cases) text h = rw (h.0) (find_text-Unlike cases text h.1)

-- A case's text is unlike those behind it.
abbrev Distinct : Cases → Type 0
Distinct [] = Unit
Distinct ((id, name) ∷ cases) =
    All (λ c. list_eq (codes name) (codes c.1) ≡ false) cases × Distinct cases

find_text-switch :
    (cases : Cases) (config : ℕ) (default : String)
    → Distinct cases
    → Listed cases config
    → find_text cases (codes (switch cases config default)) ≡ some config
unfolding switch
find_text-switch [] config default d l = absurd l
find_text-switch ((id, name) ∷ cases) config default d l = elim (Bool-cases (id == config)) [
  | inl here ↦
      let same : id ≡ config = ground (arith, ==_iff id config) in
      rw (here, list_eq_refl (codes name)) (ap some same)
  | inr later ↦
      let rest = Listed-later id config cases later l in
      let unlike : list_eq (codes name) (codes (switch cases config default)) ≡ false =
        switch-All (λ n. list_eq (codes name) (codes n) ≡ false) cases config default rest d.0 in
      rw (later, unlike) (find_text-switch cases config default d.1 rest)
]

module _ (ids : PerfIds) where
  hardware-Distinct : Distinct (hardware_cases ids)
  hardware-Distinct = ground arith

  software-Distinct : Distinct (software_cases ids)
  software-Distinct = ground arith

  -- No text of a software counter is one of a hardware counter.
  software-Unlike : All (λ c. Unlike (hardware_cases ids) (codes c.1)) (software_cases ids)
  software-Unlike = ground arith

-- The configuration is one of the twenty that the switches know.
abbrev pub Known : PerfIds → PerfEventAttr → Type 0
Known ids a =
    ((a.type ≡ ids.type_hardware) × Listed (hardware_cases ids) a.config)
    ⊎ ((a.type ≡ ids.type_software) × Listed (software_cases ids) a.config)

software_only :
    (ids : PerfIds) (a : PerfEventAttr)
    → ids.type_hardware ≢ ids.type_software
    → a.type ≡ ids.type_software
    → (a.type == ids.type_hardware) ≡ false
software_only ids a differ e = elim (Bool-cases (a.type == ids.type_hardware)) [
  | inl same ↦ absurd (differ (sym ((==_iff a.type ids.type_hardware).0 same) ∙ e))
  | inr other ↦ other
]

-- For each of the twenty counters that the code names, type and identifier can be read back from its text,
-- whatever the kernel's numbers are, as long as the two types differ: no two counters share a text.
pub read_config-config_to_str :
    (ids : PerfIds) (a : PerfEventAttr)
    → ids.type_hardware ≢ ids.type_software
    → Known ids a
    → read_config ids (config_to_str ids a) ≡ some (a.type, a.config)
unfolding config_to_str
read_config-config_to_str ids a differ (inl (e, l)) =
    let type : (a.type == ids.type_hardware) ≡ true = ground (arith, e) in
    let found =
      find_text-switch (hardware_cases ids) a.config "UNKNOWN HARDWARE COUNTER"
        (hardware-Distinct ids) l in
    rw (type, found) (ap (λ t. some (t, a.config)) (sym e))
read_config-config_to_str ids a differ (inr (e, l)) =
    let no_hardware = software_only ids a differ e in
    let type : (a.type == ids.type_software) ≡ true = ground (arith, e) in
    let found =
      find_text-switch (software_cases ids) a.config "UNKNOWN SOFTWARE COUNTER"
        (software-Distinct ids) l in
    let name = switch (software_cases ids) a.config "UNKNOWN SOFTWARE COUNTER" in
    let unlike = find_text-Unlike (hardware_cases ids) (codes name) (
      switch-All (λ n. Unlike (hardware_cases ids) (codes n)) (software_cases ids) a.config
        "UNKNOWN SOFTWARE COUNTER" l (software-Unlike ids)) in
    rw (no_hardware, type, unlike, found) (ap (λ t. some (t, a.config)) (sym e))
