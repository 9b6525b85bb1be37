-- ===== src/Process/Ensures.antt =====
-- Postconditions of a run: what holds of its state where it goes on.
use cmput.Common.{ℕ, Bool, true, false, if◌then◌else◌, ◌≡◌, Option, none, some, List}
use mathlib.Core.Path.{subst}
use cmput.Process.{Event, Outcome, running, exited, undefined, ◌>>=◌, or_undefined}

pub data Ensures {ℓ κ} {A : Type ℓ} (P : A → Type κ) : Outcome A → Type (ℓ ⊔ κ) where
  runs : {a : A} → P a → Ensures P (running a)
  exits : {code : ℕ} {out : List Event} → Ensures P (exited code out)
  faults : Ensures P undefined

-- Every run ensures nothing.
pub any-Ensures {ℓ} : {A : Type ℓ} (m : Outcome A) → Ensures (λ a. Unit {0}) m
any-Ensures (running a) = runs tt
any-Ensures (exited code out) = exits
any-Ensures undefined = faults

pub bind-Ensures {ℓ κ μ ν} :
    {A : Type ℓ} {B : Type κ} {P : A → Type μ} {Q : B → Type ν} {m : Outcome A} {f : A → Outcome B}
    → Ensures P m
    → ((a : A) → P a → Ensures Q (f a))
    → Ensures Q (m >>= f)
bind-Ensures (runs p) k = k _ p
bind-Ensures exits k = exits
bind-Ensures faults k = faults

pub or_undefined-Ensures {ℓ} :
    {A : Type ℓ} (o : Option A) → Ensures (λ a. o ≡ some a) (or_undefined o)
or_undefined-Ensures none = faults
or_undefined-Ensures (some a) = runs (λ i. some a)

pub Ensures-running {ℓ κ} :
    {A : Type ℓ} {P : A → Type κ} {m : Outcome A} {a : A} → m ≡ running a → Ensures P m → P a
Ensures-running {P} {a} e (runs {a = a'} p) = subst P (cc e) p
Ensures-running e exits = cc
Ensures-running e faults = cc

pub if-Ensures {ℓ κ} :
    {A : Type ℓ} {P : A → Type κ} (b : Bool) {m n : Outcome A}
    → Ensures P m
    → Ensures P n
    → Ensures P (if b then m else n)
if-Ensures true p q = p
if-Ensures false p q = q

-- A run that goes on.
abbrev pub Runs {ℓ} : {A : Type ℓ} → Outcome A → Type ℓ
Runs {A} m = (a : A) × (m ≡ running a)

pub bind-Runs {ℓ κ} :
    {A : Type ℓ} {B : Type κ} (m : Outcome A) (f : A → Outcome B)
    → Runs m
    → ((a : A) → Runs (f a))
    → Runs (m >>= f)
bind-Runs m f (a, e) k = rw e (k a)

pub if-Runs {ℓ} :
    {A : Type ℓ} (b : Bool) (m n : Outcome A) → Runs m → Runs n → Runs (if b then m else n)
if-Runs true m n p q = p
if-Runs false m n p q = q
