-- ===== src/Common/Outcome.antt =====
-- Code that changes a state and may throw. A state at the moment of a throw is kept, since the objects
-- outlive it; `faults` is behaviour that C++ leaves undefined.
use Prim.Native.String.{String}
use mathlib.Core.Bool.{Bool, true, false}
use mathlib.Core.Option.{Option, none, some}

pub data Outcome (S A : Type 0) : Type 0 where
  returns : A → S → Outcome S A
  throws : String → S → Outcome S A
  faults : Outcome S A

abbrev pub M : Type 0 → Type 0 → Type 0
M S A = S → Outcome S A

abbrev pub and_then : {S A B : Type 0} → Outcome S A → (A → M S B) → Outcome S B
and_then (returns a s) f = f a s
and_then (throws e s) f = throws e s
and_then faults f = faults

infixl 5 ◌>>=◌ ◌>>◌
abbrev pub ◌>>=◌ : {S A B : Type 0} → M S A → (A → M S B) → M S B
◌>>=◌ m f s = and_then (m s) f

abbrev pub ◌>>◌ : {S B : Type 0} → M S (Unit {0}) → M S B → M S B
◌>>◌ m k s = and_then (m s) (λ _. k)

abbrev pub return : {S A : Type 0} → A → M S A
return a s = returns a s

abbrev pub throw : {S A : Type 0} → String → M S A
throw e s = throws e s

-- Nothing is done unless the test holds.
abbrev pub when : {S : Type 0} → Bool → M S (Unit {0}) → M S (Unit {0})
when true m = m
when false m = return tt

-- A value that undefined behaviour would replace.
abbrev pub defined : {S A : Type 0} → Option A → M S A
defined none s = faults
defined (some a) s = returns a s

-- What holds after a return, after a throw, and at a fault.
abbrev pub Post :
    {S A : Type 0} → (A → S → Type 0) → (String → S → Type 0) → Type 0 → Outcome S A → Type 0
Post P Q F (returns a s) = P a s
Post P Q F (throws e s) = Q e s
Post P Q F faults = F

and_then-Post :
    {S A B : Type 0} (R : A → S → Type 0) (P : B → S → Type 0) (Q : String → S → Type 0)
    (F : Type 0) (o : Outcome S A) (f : A → M S B)
    → Post R Q F o
    → ((a : A) (s : S) → R a s → Post P Q F (f a s))
    → Post P Q F (and_then o f)
and_then-Post R P Q F (returns a s) f h k = k a s h
and_then-Post R P Q F (throws e s) f h k = h
and_then-Post R P Q F faults f h k = h

-- Sequencing: what the first part leaves is what the second starts from.
pub bind-Post :
    {S A B : Type 0} (R : A → S → Type 0) (P : B → S → Type 0) (Q : String → S → Type 0)
    (F : Type 0) (m : M S A) (f : A → M S B) (s : S)
    → Post R Q F (m s)
    → ((a : A) (t : S) → R a t → Post P Q F (f a t))
    → Post P Q F ((m >>= f) s)
bind-Post R P Q F m f s h k = and_then-Post R P Q F (m s) f h k

-- A weaker account of an outcome.
pub Post-mono :
    {S A : Type 0} {P P' : A → S → Type 0} {Q Q' : String → S → Type 0} {F F' : Type 0}
    (o : Outcome S A)
    → ((a : A) (s : S) → P a s → P' a s)
    → ((e : String) (s : S) → Q e s → Q' e s)
    → (F → F')
    → Post P Q F o
    → Post P' Q' F' o
Post-mono (returns a s) p q f h = p a s h
Post-mono (throws e s) p q f h = q e s h
Post-mono faults p q f h = f h

-- Two accounts of one outcome.
pub Post-and :
    {S A : Type 0} (P P' : A → S → Type 0) (Q Q' : String → S → Type 0) (F F' : Type 0)
    (o : Outcome S A)
    → Post P Q F o
    → Post P' Q' F' o
    → Post (λ a s. P a s × P' a s) (λ e s. Q e s × Q' e s) (F × F') o
Post-and P P' Q Q' F F' (returns a s) h i = (h, i)
Post-and P P' Q Q' F F' (throws e s) h i = (h, i)
Post-and P P' Q Q' F F' faults h i = (h, i)
