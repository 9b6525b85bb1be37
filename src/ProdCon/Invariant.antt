-- ===== src/ProdCon/Invariant.antt =====
-- Assignment_2/f22/main.cpp: what the counters and the queue say of each other in every interleaving.
mod Produced
mod Consumed
use cmput.Common.{ℕ, zero, suc, ◌+◌, ◌*◌, ◌≤◌, ◌≡◌, refl, List, length, arith}
use cmput.Text.{Bytes}
use cmput.ProdCon.{
  System, ThreadStep, by_producer, by_consumer, Interleaving, stop, go, wakes, Spurious,
  consumer_wakes, producer_wakes, wake, awake, unparked, notified, new_consumers, start,
}
use cmput.ProdCon.State.{
  Shared, ProducerAt, starting, reading, finishing, closing, ended, pushing, parked, Producer,
  ConsumerAt, created, checking, asking, sleeping, left, taken, busy, Consumer, Wake, silent,
  signal, broadcast,
}
use cmput.ProdCon.Notices.{sum-WakesOne, sum-Notified}
use cmput.ProdCon.Counts.{
  held, running_jobs, pending, sum, held_of, busy_of, jobs_of, InvOf, Leads-moves,
}
use cmput.ProdCon.Invariant.Produced.{produce-Leads}
use cmput.ProdCon.Invariant.Consumed.{consume-Leads}

held-awake : (at : ConsumerAt) → held (awake at) ≡ held at
held-awake created = refl
held-awake checking = refl
held-awake asking = refl
held-awake sleeping = refl
held-awake left = refl
held-awake (taken command) = refl
held-awake (busy command) = refl

running_jobs-awake : (at : ConsumerAt) → running_jobs (awake at) ≡ running_jobs at
running_jobs-awake created = refl
running_jobs-awake checking = refl
running_jobs-awake asking = refl
running_jobs-awake sleeping = refl
running_jobs-awake left = refl
running_jobs-awake (taken command) = refl
running_jobs-awake (busy command) = refl

pending-unparked : (at : ProducerAt) → pending (unparked at) ≡ pending at
pending-unparked starting = refl
pending-unparked reading = refl
pending-unparked finishing = refl
pending-unparked closing = refl
pending-unparked ended = refl
pending-unparked (pushing command) = refl
pending-unparked (parked command) = refl

pending-notified : (w : Wake) (p : Producer) → pending (notified w p).at ≡ pending p.at
pending-notified silent p = refl
pending-notified signal p = pending-unparked p.at
pending-notified broadcast p = pending-unparked p.at

abbrev Inv : ℕ → System → Type 0
Inv m s = InvOf m s.shared s.producer.at s.consumers

-- A wake-up changes none of the sums.
Inv-notices :
    (m : ℕ) {g : Shared} {p q : ProducerAt} {cs ds : List Consumer}
    → pending q ≡ pending p
    → ((f : Consumer → ℕ) → ((c : Consumer) → f (wake c) ≡ f c) → sum f ds ≡ sum f cs)
    → InvOf m g p cs
    → InvOf m g q ds
Inv-notices m e sums v = record {
  fixed = v.fixed;
  bound = v.bound;
  work = omega (arith, v.work, e, sums held_of λ c. held-awake c.at);
  received = omega (arith, v.received, sums busy_of λ c. running_jobs-awake c.at);
  completed = omega (arith, v.completed, sums jobs_of λ c. refl);
}

step-Inv : (m : ℕ) {s t : System} → ThreadStep s t → Inv m s → Inv m t
step-Inv m (by_producer time w s p g cs e notice) v =
    Inv-notices m refl (λ f same. sum-Notified f same notice)
      (Leads-moves e (produce-Leads m s.consumers time s.producer.lines s.producer.at s.shared v))
step-Inv m (by_consumer time w before after c d p g h e) v =
    Inv-notices m (pending-notified w p) (λ f same. refl)
      (Leads-moves e (consume-Leads m before after p.at time c c.at g refl v))

woken-Inv : (m : ℕ) {s t : System} → Spurious s t → Inv m s → Inv m t
woken-Inv m (consumer_wakes s w) v = Inv-notices m refl (λ f same. sum-WakesOne f same w) v
woken-Inv m (producer_wakes s) v =
    Inv-notices m (pending-notified signal s.producer) (λ f same. refl) v

steps-Inv : (m : ℕ) {s t : System} → Interleaving s t → Inv m s → Inv m t
steps-Inv m (stop s) v = v
steps-Inv m (go a b) v = steps-Inv m b (step-Inv m a v)
steps-Inv m (wakes a b) v = steps-Inv m b (woken-Inv m a v)

new_consumers-sum :
    (n : ℕ)
    → (sum held_of (new_consumers n) ≡ 0)
      × (sum busy_of (new_consumers n) ≡ 0)
      × (sum jobs_of (new_consumers n) ≡ 0)
unfolding new_consumers
new_consumers-sum zero = (refl, refl, refl)
new_consumers-sum (suc n) =
    let (a, b, c) = new_consumers-sum n in (omega (arith, a), omega (arith, b), omega (arith, c))

start-Inv : (n : ℕ) (lines : List Bytes) → Inv (n * 2) (start n lines)
unfolding start
start-Inv n lines =
    let (a, b, c) = new_consumers-sum n in
    record {
      fixed = refl;
      bound = omega arith;
      work = omega (arith, a);
      received = omega (arith, b);
      completed = omega (arith, c);
    }

-- The sums over the threads, for every interleaving.
pub steps-counts :
    (nthreads : ℕ) (lines : List Bytes) (s : System)
    → Interleaving (start nthreads lines) s
    → (length s.shared.buffer ≤ nthreads * 2)
      × (s.shared.work_count
          ≡ pending s.producer.at
            + (length s.shared.buffer
                + (sum held_of s.consumers + (sum busy_of s.consumers + s.shared.complete_count))))
      × (s.shared.complete_count ≡ sum jobs_of s.consumers)
steps-counts nthreads lines s r =
    let v = steps-Inv (nthreads * 2) r (start-Inv nthreads lines) in
    (v.bound, omega (arith, v.work, v.received), v.completed)

pub max_buffer_lem :
    (nthreads : ℕ) (lines : List Bytes) (s : System)
    → Interleaving (start nthreads lines) s
    → s.shared.max_buffer ≡ nthreads * 2
max_buffer_lem nthreads lines s r =
    let v = steps-Inv (nthreads * 2) r (start-Inv nthreads lines) in v.fixed
