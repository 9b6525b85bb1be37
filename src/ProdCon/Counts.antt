-- ===== src/ProdCon/Counts.antt =====
-- Assignment_2/f22/main.cpp: where the commands are that the producer has counted, as an invariant of the
-- shared variables and the threads.
use cmput.Common.{
  ℕ, ◌+◌, ◌≤◌, ◌≡◌, refl, Bool, true, false, List, [], ◌∷◌, ◌++◌, if◌then◌else◌, length, arith,
}
use mathlib.Core.Path.{subst}
use cmput.ProdCon.State.{
  Shared, ProducerAt, starting, reading, finishing, closing, ended, pushing, ConsumerAt, created,
  checking, asking, left, taken, busy, Consumer, Move, Wake, sleeping, parked, moves, waits, faults,
}

-- How many commands a thread holds: the producer one to push, a consumer one to receive or to complete.
abbrev pub pending : ProducerAt → ℕ
pending (pushing command) = 1
pending (parked command) = 1
pending starting = 0
pending reading = 0
pending finishing = 0
pending closing = 0
pending ended = 0

abbrev pub held : ConsumerAt → ℕ
held (taken command) = 1
held (busy command) = 0
held created = 0
held checking = 0
held asking = 0
held sleeping = 0
held left = 0

abbrev pub running_jobs : ConsumerAt → ℕ
running_jobs (busy command) = 1
running_jobs (taken command) = 0
running_jobs created = 0
running_jobs checking = 0
running_jobs asking = 0
running_jobs sleeping = 0
running_jobs left = 0

abbrev pub sum : (Consumer → ℕ) → List Consumer → ℕ
sum f [] = 0
sum f (c ∷ cs) = f c + sum f cs

abbrev pub held_of : Consumer → ℕ
held_of c = held c.at

abbrev pub busy_of : Consumer → ℕ
busy_of c = running_jobs c.at

abbrev pub jobs_of : Consumer → ℕ
jobs_of c = c.jobs_complete

pub sum-append : (f : Consumer → ℕ) (xs ys : List Consumer) → sum f (xs ++ ys) ≡ sum f xs + sum f ys
sum-append f [] ys = omega arith
sum-append f (x ∷ xs) ys = omega (arith, sum-append f xs ys)

pub record InvOf (m : ℕ) (g : Shared) (at : ProducerAt) (cs : List Consumer) : Type 0 where
  pub fixed : g.max_buffer ≡ m
  pub bound : length g.buffer ≤ m
  pub work : g.work_count ≡ pending at + (length g.buffer + (sum held_of cs + g.receive_count))
  pub received : g.receive_count ≡ g.complete_count + sum busy_of cs
  pub completed : g.complete_count ≡ sum jobs_of cs

-- What holds wherever a thread moves to.
pub data Leads {A : Type 0} (P : A → Type 0) : Move A → Type 0 where
  leads : {wake : Wake} {a : A} → P a → Leads P (moves wake a)
  stays : Leads P waits
  breaks : Leads P faults

pub Leads-moves :
    {A : Type 0} {P : A → Type 0} {m : Move A} {wake : Wake} {a : A}
    → m ≡ moves wake a
    → Leads P m
    → P a
Leads-moves {P} e (leads {a = b} p) = subst P (cc e) p
Leads-moves e stays = cc
Leads-moves e breaks = cc

pub if-Leads :
    {A : Type 0} {P : A → Type 0} (b : Bool) {m n : Move A}
    → (b ≡ true → Leads P m)
    → (b ≡ false → Leads P n)
    → Leads P (if b then m else n)
if-Leads true p q = p refl
if-Leads false p q = q refl
