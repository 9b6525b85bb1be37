-- ===== src/ProdCon/Told.antt =====
-- Assignment_2/f22/main.cpp: no wake-up is missed. As long as consumers wait, as many others are at the
-- lock as there are commands in the buffer; a producer that waits does so at a full buffer; and behind the
-- broadcast nobody waits.
pub mod Steps
pub mod Runs
use cmput.Common.{
  ℕ, ◌+◌, ◌≤◌, ◌≡◌, refl, ap, ◌⊎◌, Bool, true, false, if◌then◌else◌, List, [], ◌∷◌, ◌++◌, length,
  arith, map,
}
use mathlib.Core.Path.{subst}
use cmput.ProdCon.{wake, awake, asleep, sleepers, WakesOne, here, there}
use cmput.ProdCon.State.{
  Shared, ProducerAt, closing, ended, parked, ConsumerAt, created, checking, asking, sleeping, left,
  taken, busy, Consumer, Wake, Move, moves, waits, faults,
}
use cmput.ProdCon.Counts.{sum}

-- A consumer at the lock
abbrev pub at_lock : ConsumerAt → ℕ
at_lock asking = 1
at_lock at = 0

abbrev pub at_lock_of : Consumer → ℕ
at_lock_of c = at_lock c.at

abbrev pub Covered : Shared → List Consumer → Type 0
Covered g cs = (sleepers cs ≡ 0) ⊎ (length g.buffer ≤ sum at_lock_of cs)

abbrev pub ParkedFull : ProducerAt → Shared → Type 0
ParkedFull (parked command) g = g.max_buffer ≤ length g.buffer
ParkedFull at g = Unit {0}

abbrev pub AllUp : ProducerAt → List Consumer → Type 0
AllUp closing cs = sleepers cs ≡ 0
AllUp ended cs = sleepers cs ≡ 0
AllUp at cs = Unit {0}

pub record Told (at : ProducerAt) (g : Shared) (cs : List Consumer) : Type 0 where
  pub covered : Covered g cs
  pub full : ParkedFull at g
  pub up : AllUp at cs

-- What holds of a step, its wake-up included.
pub data Tells {A : Type 0} (P : Wake → A → Type 0) : Move A → Type 0 where
  tells : {wake : Wake} {a : A} → P wake a → Tells P (moves wake a)
  rests : Tells P waits
  ends : Tells P faults

pub Tells-moves :
    {A : Type 0} {P : Wake → A → Type 0} {m : Move A} {w : Wake} {a : A}
    → m ≡ moves w a
    → Tells P m
    → P w a
Tells-moves {A = A} {P = P} {w = w} {a = a} e (tells {wake = v} {a = b} p) =
    subst {A = Wake × A} (λ q. P q.0 q.1) {x = (v, b)} {y = (w, a)} (cc e) p
Tells-moves e rests = cc
Tells-moves e ends = cc

pub if-Tells :
    {A : Type 0} {P : Wake → A → Type 0} (b : Bool) {m n : Move A}
    → (b ≡ true → Tells P m)
    → (b ≡ false → Tells P n)
    → Tells P (if b then m else n)
if-Tells true p q = p refl
if-Tells false p q = q refl

-- A wake-up of one consumer: there is one less that waits and one more at the lock.
pub WakesOne-counts :
    {cs ds : List Consumer}
    → WakesOne cs ds
    → (sleepers cs ≡ 1 + sleepers ds) × (sum at_lock_of ds ≡ 1 + sum at_lock_of cs)
WakesOne-counts (here c cs e) = (
  omega (arith, ap asleep e, ap (λ at. asleep (awake at)) e),
  omega (arith, ap at_lock e, ap (λ at. at_lock (awake at)) e),
)
WakesOne-counts (there c w) = let (a, b) = WakesOne-counts w in (omega (arith, a), omega (arith, b))

awake-asleep : (at : ConsumerAt) → asleep (awake at) ≡ 0
awake-asleep created = refl
awake-asleep checking = refl
awake-asleep asking = refl
awake-asleep sleeping = refl
awake-asleep left = refl
awake-asleep (taken command) = refl
awake-asleep (busy command) = refl

pub sleepers-map : (cs : List Consumer) → sleepers (map wake cs) ≡ 0
sleepers-map [] = refl
sleepers-map (c ∷ cs) = omega (arith, awake-asleep c.at, sleepers-map cs)

pub sleepers-append : (xs ys : List Consumer) → sleepers (xs ++ ys) ≡ sleepers xs + sleepers ys
sleepers-append [] ys = omega arith
sleepers-append (x ∷ xs) ys = omega (arith, sleepers-append xs ys)
