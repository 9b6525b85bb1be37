-- ===== src/ProdCon/Sound.antt =====
-- Assignment_2/f22/main.cpp: in every interleaving, without an empty line in the input, the threads hold
-- no empty line, and the producer has set `done` when its loop is behind it.
pub mod Runs
use cmput.Common.{
  ℕ, ◌≡◌, refl, inl, inr, Bool, true, List, [], ◌∷◌, ◌==◌, leb, length, Bool-cases, All, All-append,
}
use cmput.Text.{Bytes}
use cmput.ProdCon.{take_line, read_line, produce, pop, receive, complete, consume}
use cmput.ProdCon.State.{
  Shared, ProducerAt, starting, reading, finishing, closing, ended, pushing, Producer, ConsumerAt,
  created, checking, asking, sleeping, parked, left, taken, busy, Consumer,
}
use cmput.ProdCon.Log.{second}
use cmput.ProdCon.Counts.{Leads, leads, stays, breaks, if-Leads}

-- A line that is not empty
abbrev pub IsLine : Bytes → Type 0
IsLine [] = ⊥
IsLine (c ∷ line) = Unit {0}

abbrev pub PushesLine : ProducerAt → Type 0
PushesLine (pushing command) = IsLine command
PushesLine (parked command) = IsLine command
PushesLine starting = Unit {0}
PushesLine reading = Unit {0}
PushesLine finishing = Unit {0}
PushesLine closing = Unit {0}
PushesLine ended = Unit {0}

abbrev pub HoldsLine : ConsumerAt → Type 0
HoldsLine (taken command) = IsLine command
HoldsLine (busy command) = IsLine command
HoldsLine created = Unit {0}
HoldsLine checking = Unit {0}
HoldsLine asking = Unit {0}
HoldsLine sleeping = Unit {0}
HoldsLine left = Unit {0}

-- Behind its loop the producer has set `done`.
abbrev pub Flagged : ProducerAt → Bool → Type 0
Flagged finishing d = d ≡ true
Flagged closing d = d ≡ true
Flagged ended d = d ≡ true
Flagged starting d = Unit {0}
Flagged reading d = Unit {0}
Flagged (pushing command) d = Unit {0}
Flagged (parked command) d = Unit {0}

-- No empty line anywhere, and the flag.
pub record Produces (lines : List Bytes) (at : ProducerAt) (g : Shared) : Type 0 where
  pub input : All IsLine lines
  pub line : PushesLine at
  pub queue : All IsLine g.buffer
  pub flag : Flagged at g.done

abbrev pub Holds : Consumer → Type 0
Holds c = HoldsLine c.at

abbrev pub Produced : Producer × Shared → Type 0
Produced (p, g) = Produces p.lines p.at g

take_line-Produces :
    (time : Bytes) (first c : ℕ) (command : Bytes) (rest : List Bytes) (g : Shared)
    → All IsLine rest
    → IsLine command
    → All IsLine g.buffer
    → Produces rest (take_line time first c command g).0 (take_line time first c command g).1
unfolding take_line
take_line-Produces time first c command rest g h l q = elim (Bool-cases (first == b'T')) [
  | inl e ↦ rw e (record { input = h; line = l; queue = q; flag = tt })
  | inr e ↦ elim (Bool-cases (first == b'S')) [
    | inl f ↦ rw (e, f) (record { input = h; line = tt; queue = q; flag = tt })
    | inr f ↦ rw (e, f) (record { input = h; line = tt; queue = q; flag = tt })
  ]
]

pub produce-Leads :
    (time : Bytes) (lines : List Bytes) (at : ProducerAt) (g : Shared)
    → Produces lines at g
    → Leads Produced (produce time lines at g)
unfolding produce read_line second
produce-Leads time lines starting g v =
    leads (record { input = v.input; line = tt; queue = v.queue; flag = tt })
produce-Leads time [] reading g v =
    leads (record { input = tt; line = tt; queue = v.queue; flag = refl })
produce-Leads time ([] ∷ rest) reading g v = breaks
produce-Leads time ((first ∷ []) ∷ rest) reading g v =
    leads (take_line-Produces time first 0 (first ∷ []) rest g (v.input).1 tt v.queue)
produce-Leads time ((first ∷ c ∷ command) ∷ rest) reading g v =
    leads (take_line-Produces time first c (first ∷ c ∷ command) rest g (v.input).1 tt v.queue)
produce-Leads time lines (pushing command) g v =
    if-Leads (leb g.max_buffer (length g.buffer))
      (λ _. leads (record { input = v.input; line = v.line; queue = v.queue; flag = tt }))
      λ _. leads (record {
        input = v.input;
        line = tt;
        queue = All-append IsLine g.buffer (command ∷ []) v.queue (v.line, tt);
        flag = tt;
      })
produce-Leads time lines (parked command) g v = stays
produce-Leads time lines finishing g v =
    leads (record { input = v.input; line = tt; queue = v.queue; flag = v.flag })
produce-Leads time lines closing g v =
    leads (record { input = v.input; line = tt; queue = v.queue; flag = v.flag })
produce-Leads time lines ended g v = stays

-- What a consumer keeps: the queue and its command are lines, and `done` is as it was.
pub record Kept (done : Bool) (c : Consumer) (h : Shared) : Type 0 where
  pub holds : Holds c
  pub queue : All IsLine h.buffer
  pub same_flag : h.done ≡ done

abbrev pub Consumed : Bool → Consumer × Shared → Type 0
Consumed done (d, h) = Kept done d h

pop-Leads :
    (c : Consumer) (buffer : List Bytes) (g : Shared)
    → g.buffer ≡ buffer
    → All IsLine buffer
    → Leads (Consumed g.done) (pop c buffer g)
unfolding pop
pop-Leads c [] g e q =
    if-Leads g.done (λ _. leads (record { holds = tt; queue = rw e tt; same_flag = refl }))
      λ _. leads (record { holds = tt; queue = rw e tt; same_flag = refl })
pop-Leads c (command ∷ rest) g e q = leads (record { holds = q.0; queue = q.1; same_flag = refl })

pub consume-Leads :
    (time : Bytes) (c : Consumer) (place : ConsumerAt) (g : Shared)
    → HoldsLine place
    → All IsLine g.buffer
    → Leads (Consumed g.done) (consume time c place g)
unfolding consume receive complete second
consume-Leads time c created g h q = leads (record { holds = tt; queue = q; same_flag = refl })
consume-Leads time c checking g h q =
    if-Leads g.in_progress (λ _. leads (record { holds = tt; queue = q; same_flag = refl }))
      λ _. leads (record { holds = tt; queue = q; same_flag = refl })
consume-Leads time c asking g h q = pop-Leads c g.buffer g refl q
consume-Leads time c sleeping g h q = stays
consume-Leads time c (taken []) g h q = breaks
consume-Leads time c (taken (a ∷ [])) g h q =
    leads (record { holds = tt; queue = q; same_flag = refl })
consume-Leads time c (taken (a ∷ b ∷ rest)) g h q =
    leads (record { holds = tt; queue = q; same_flag = refl })
consume-Leads time c (busy []) g h q = breaks
consume-Leads time c (busy (a ∷ [])) g h q =
    leads (record { holds = tt; queue = q; same_flag = refl })
consume-Leads time c (busy (a ∷ b ∷ rest)) g h q =
    leads (record { holds = tt; queue = q; same_flag = refl })
consume-Leads time c left g h q = stays
