-- ===== src/ProdCon/Progress.antt =====
-- Assignment_2/f22/main.cpp: the threads do not block each other.
use cmput.Common.{
  ℕ, ◌≤◌, ◌≡◌, ◌≢◌, refl, sym, ap, ◌⊎◌, inl, inr, List, [], ◌∷◌, ◌++◌, append_assoc, leb, length,
  arith, Bool-cases, All,
}
use mathlib.Core.Path.{subst}
use cmput.Text.{Bytes}
use cmput.ProdCon.{
  read_line, produce, pop, consume, System, ThreadStep, by_producer, by_consumer, Interleaving,
  start, notified, sleepers, asleep,
}
use cmput.ProdCon.State.{
  Shared, ProducerAt, starting, reading, finishing, closing, ended, pushing, parked, Producer,
  ConsumerAt, created, checking, asking, sleeping, left, taken, busy, Consumer, Move, moves, Wake,
}
use cmput.ProdCon.Log.{second}
use cmput.ProdCon.Counts.{sum}
use cmput.ProdCon.Invariant.{max_buffer_lem}
use cmput.ProdCon.Notices.{notify}
use cmput.ProdCon.Sound.{IsLine, HoldsLine, Produces}
use cmput.ProdCon.Sound.Runs.{All-middle, run-Sound, start-Sound}
use cmput.ProdCon.Told.{at_lock, at_lock_of, ParkedFull, AllUp, sleepers-append}
use cmput.ProdCon.Told.Runs.{run-Told, start-Told}

abbrev Can : {A : Type 0} → Move A → Type 0
Can {A} m = (w : Wake) × (a : A) × (m ≡ moves w a)

pop-Can : (c : Consumer) (buffer : List Bytes) (g : Shared) → Can (pop c buffer g)
unfolding pop
pop-Can c [] g = elim (Bool-cases g.done) [ inl d ↦ rw d (_, _, refl) | inr d ↦ rw d (_, _, refl) ]
pop-Can c (command ∷ rest) g = (_, _, refl)

-- A consumer that has not left can move, or is in `pthread_cond_wait`.
consume-Can :
    (c : Consumer) (place : ConsumerAt) (g : Shared)
    → HoldsLine place
    → place ≢ left
    → Can (consume [] c place g) ⊎ (place ≡ sleeping)
unfolding consume second
consume-Can c created g h l = inl (_, _, refl)
consume-Can c checking g h l = elim (Bool-cases g.in_progress) [
  | inl e ↦ inl (rw e (_, _, refl))
  | inr e ↦ inl (rw e (_, _, refl))
]
consume-Can c asking g h l = inl (pop-Can c g.buffer g)
consume-Can c sleeping g h l = inr refl
consume-Can c (taken []) g h l = absurd h
consume-Can c (taken (a ∷ [])) g h l = inl (_, _, refl)
consume-Can c (taken (a ∷ b ∷ rest)) g h l = inl (_, _, refl)
consume-Can c (busy []) g h l = absurd h
consume-Can c (busy (a ∷ [])) g h l = inl (_, _, refl)
consume-Can c (busy (a ∷ b ∷ rest)) g h l = inl (_, _, refl)
consume-Can c left g h l = absurd (l refl)

-- As long as a consumer waits, the producer can move, or waits itself at a full buffer.
produce-Can :
    (lines : List Bytes) (at : ProducerAt) (g : Shared) (cs : List Consumer)
    → Produces lines at g
    → ParkedFull at g
    → AllUp at cs
    → 1 ≤ sleepers cs
    → Can (produce [] lines at g) ⊎ (g.max_buffer ≤ length g.buffer)
unfolding produce read_line second
produce-Can lines starting g cs v full up some_asleep = inl (_, _, refl)
produce-Can [] reading g cs v full up some_asleep = inl (_, _, refl)
produce-Can ([] ∷ rest) reading g cs v full up some_asleep = absurd (v.input).0
produce-Can ((a ∷ []) ∷ rest) reading g cs v full up some_asleep = inl (_, _, refl)
produce-Can ((a ∷ b ∷ line) ∷ rest) reading g cs v full up some_asleep = inl (_, _, refl)
produce-Can lines (pushing command) g cs v full up some_asleep =
    elim (Bool-cases (leb g.max_buffer (length g.buffer))) [
      | inl e ↦ inl (rw e (_, _, refl))
      | inr e ↦ inl (rw e (_, _, refl))
    ]
produce-Can lines (parked command) g cs v full up some_asleep = inr full
produce-Can lines finishing g cs v full up some_asleep = inl (_, _, refl)
produce-Can lines closing g cs v full up some_asleep = absurd (omega (arith, up, some_asleep))
produce-Can lines ended g cs v full up some_asleep = absurd (omega (arith, up, some_asleep))

HasStep : System → Type 0
HasStep s = (t : System) × ThreadStep s t

producer_steps : (s : System) → Can (produce [] s.producer.lines s.producer.at s.shared) → HasStep s
unfolding HasStep
producer_steps s (w, (p, g), e) =
    let (ds, notice) = notify w s.consumers in
    (record { shared = g; producer = p; consumers = ds }, by_producer [] w s p g ds e notice)

consumer_steps :
    (before after : List Consumer) (c : Consumer) (p : Producer) (g : Shared)
    → Can (consume [] c c.at g)
    → HasStep (record { shared = g; producer = p; consumers = before ++ c ∷ after })
unfolding HasStep
consumer_steps before after c p g (w, (d, h), e) = (
  record { shared = h; producer = notified w p; consumers = before ++ d ∷ after },
  by_consumer [] w before after c d p g h e,
)

asking-cases : (at : ConsumerAt) → (at_lock at ≡ 0) ⊎ (at ≡ asking)
asking-cases created = inl refl
asking-cases checking = inl refl
asking-cases asking = inr refl
asking-cases sleeping = inl refl
asking-cases left = inl refl
asking-cases (taken command) = inl refl
asking-cases (busy command) = inl refl

-- If a consumer is at the lock, one can take a step.
asking_steps :
    (before cs : List Consumer) (p : Producer) (g : Shared)
    → 1 ≤ sum at_lock_of cs
    → HasStep (record { shared = g; producer = p; consumers = before ++ cs })
unfolding consume
asking_steps before [] p g some_asking = absurd (omega (arith, some_asking))
asking_steps before (c ∷ cs) p g some_asking = elim (asking-cases c.at) [
  | inl elsewhere ↦
      subst (λ ds. HasStep (record { shared = g; producer = p; consumers = ds }))
        (append_assoc before (c ∷ []) cs)
        (asking_steps (before ++ c ∷ []) cs p g (omega (arith, some_asking, elsewhere)))
  | inr e ↦
      consumer_steps before cs c p g
        (subst (λ place. Can (consume [] c place g)) (sym e) (pop-Can c g.buffer g))
]

-- No deadlock, with the condition variables and no help from wake-ups without a reason: with at least
-- one consumer and no empty line in the input, whenever an interleaving has left some consumer that has
-- not ended, the producer or a consumer can take a further step of its own code.
pub consumer_progress :
    (nthreads : ℕ) (lines : List Bytes) (before after : List Consumer) (c : Consumer) (p : Producer)
    (g : Shared)
    → 1 ≤ nthreads
    → All IsLine lines
    → Interleaving
        (start nthreads lines)
        (record { shared = g; producer = p; consumers = before ++ c ∷ after })
    → c.at ≢ left
    → (t : System) × ThreadStep
        (record { shared = g; producer = p; consumers = before ++ c ∷ after })
        t
unfolding HasStep
consumer_progress nthreads lines before after c p g some_threads input r here =
    let v = run-Sound r (start-Sound nthreads lines input) in
    let told = run-Told r (start-Sound nthreads lines input) (start-Told nthreads lines) in
    let (x, y, z) = All-middle before after c v.consumers_sound in
    let cs = before ++ c ∷ after in
    let s : System = record { shared = g; producer = p; consumers = cs } in
    elim (consume-Can c c.at g y here) [
      | inl can ↦ consumer_steps before after c p g can
      | inr waiting ↦
          let some_asleep : 1 ≤ sleepers cs =
            omega (arith, sleepers-append before (c ∷ after), ap asleep waiting) in
          elim (produce-Can p.lines p.at g cs v.producer_sound told.full told.up some_asleep) [
            | inl can ↦ producer_steps s can
            | inr full ↦ elim told.covered [
              | inl none ↦ absurd (omega (arith, none, some_asleep))
              | inr few ↦
                  asking_steps [] cs p g
                    (omega (arith, few, full, some_threads, max_buffer_lem nthreads lines s r))
            ]
          ]
    ]
