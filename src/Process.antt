-- ===== src/Process.antt =====
-- What the programs have in common as processes: how a run goes on, what the system calls bring and
-- what the process does to the outside, and `std::map<int, int>`.
pub mod Ensures
pub mod Sent
use cmput.Common.{
  ℕ, Bool, true, false, List, [], ◌∷◌, ◌++◌, Option, none, some, if◌then◌else◌, ℤ, pos, ◌==ℤ◌,
}
use cmput.Text.{Bytes}

pub data Signal : Type 0 where
  sigkill sigcont sigstop sigterm : Signal

-- What the process does: a write to a descriptor, a print on stdout, a close of a descriptor, a signal
-- to another process, a child made, a wait for one, a sleep of some
-- seconds, and a call of `Trans` or `Sleep` of tands.c.
pub data Event : Type 0 where
  wrote : ℤ → Bytes → Event
  printed : Bytes → Event
  closes : ℤ → Event
  signalled : ℤ → Signal → Event
  forked : ℤ → Event
  waited : ℤ → Event
  slept : ℕ → Event
  worked : ℤ → Event
  idled : ℤ → Event

-- A run goes on, ends by `exit` with its code and what it did, or does what C++ leaves undefined
-- (an index out of range, an exception that nothing catches).
pub data Outcome {ℓ} (A : Type ℓ) : Type ℓ where
  running : A → Outcome A
  exited : ℕ → List Event → Outcome A
  undefined : Outcome A

infixl 5 ◌>>=◌
abbrev pub ◌>>=◌ {ℓ κ} : {A : Type ℓ} {B : Type κ} → Outcome A → (A → Outcome B) → Outcome B
running a >>= f = f a
exited code out >>= f = exited code out
undefined >>= f = undefined

abbrev pub or_undefined {ℓ} : {A : Type ℓ} → Option A → Outcome A
or_undefined none = undefined
or_undefined (some a) = running a

-- The result of `read`: end of file (0), an error (-1), or bytes.
pub data Reading : Type 0 where
  end_of_file failed : Reading
  bytes : Bytes → Reading

-- `std::map<int, int>`
abbrev pub IntMap : Type 0
IntMap = List (ℤ × ℤ)

unfoldable pub find : ℤ → IntMap → Option ℤ
find k [] = none
find k ((j, v) ∷ m) = if j ==ℤ k then some v else find k m

-- `m.insert({k, v})` leaves a key that is there alone.
unfoldable pub insert : ℤ → ℤ → IntMap → IntMap
unfolding find
insert k v m = elim (find k m) [ none ↦ m ++ (k, v) ∷ [] | some w ↦ m ]

abbrev pub or_zero : Option ℤ → ℤ
or_zero none = pos 0
or_zero (some v) = v

-- `m[k]` reads 0 at a key that is not there; that it also adds the key is `touch`.
unfoldable pub at : ℤ → IntMap → ℤ
unfolding find
at k m = or_zero (find k m)

unfoldable pub touch : ℤ → IntMap → IntMap
unfolding insert
touch k m = insert k (pos 0) m

-- `std::find(v.begin(), v.end(), k) != v.end()`
unfoldable pub contains : ℤ → List ℤ → Bool
contains k [] = false
contains k (j ∷ js) = if j ==ℤ k then true else contains k js

-- A run that starts when the process has already done `before`.
abbrev pub behind {ℓ} : {A : Type ℓ} → List Event → Outcome A → Outcome A
behind before (running a) = running a
behind before (exited code out) = exited code (before ++ out)
behind before undefined = undefined
