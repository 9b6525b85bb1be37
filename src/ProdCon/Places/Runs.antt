-- ===== src/ProdCon/Places/Runs.antt =====
-- Assignment_2/f22/main.cpp: each transaction is in one place, in every interleaving.
use cmput.Common.{ℕ, zero, suc, ◌+◌, ◌*◌, ◌≤◌, ◌≡◌, refl, List, ◌==◌, if◌then◌else◌, length, arith}
use cmput.Text.{Bytes}
use cmput.ProdCon.{
  awake, unparked, notified, System, ThreadStep, by_producer, by_consumer, Spurious, consumer_wakes,
  producer_wakes, Interleaving, stop, go, wakes, new_consumers, start,
}
use cmput.ProdCon.State.{
  Shared, ProducerAt, starting, reading, finishing, closing, ended, pushing, parked, Producer,
  ConsumerAt, created, checking, asking, sleeping, left, taken, busy, Consumer, Wake, silent,
  signal, broadcast,
}
use cmput.ProdCon.Counts.{pending, sum, held_of, busy_of, jobs_of, Leads-moves}
use cmput.ProdCon.Notices.{sum-WakesOne, sum-Notified}
use cmput.ProdCon.Invariant.{steps-counts}
use cmput.ProdCon.Places.{
  all_of, by_number, by_work, by_event, producer_has, consumer_has, has, Balance, produce-Leads,
  consume-Leads,
}

module _ (f : ℕ → ℕ) where
  has-wake : (at : ConsumerAt) → consumer_has f (awake at) ≡ consumer_has f at
  has-wake created = refl
  has-wake checking = refl
  has-wake asking = refl
  has-wake sleeping = refl
  has-wake left = refl
  has-wake (taken command) = refl
  has-wake (busy command) = refl

  has-unparked : (at : ProducerAt) → producer_has f (unparked at) ≡ producer_has f at
  has-unparked starting = refl
  has-unparked reading = refl
  has-unparked finishing = refl
  has-unparked closing = refl
  has-unparked ended = refl
  has-unparked (pushing command) = refl
  has-unparked (parked command) = refl

  Balanced : ℕ → System → Type 0
  Balanced n s = Balance f n s.producer.lines s.producer.at s.shared s.consumers

  Balanced-notified :
      (n : ℕ) (w : Wake) (p : Producer) (g : Shared) (cs : List Consumer)
      → Balance f n p.lines p.at g cs
      → Balance f n (notified w p).lines (notified w p).at g cs
  Balanced-notified n silent p g cs v = v
  Balanced-notified n signal p g cs v = omega (arith, v, has-unparked p.at)
  Balanced-notified n broadcast p g cs v = omega (arith, v, has-unparked p.at)

  step-Balanced : (n : ℕ) {s t : System} → ThreadStep s t → Balanced n s → Balanced n t
  unfolding Balanced
  step-Balanced n (by_producer time w s p g cs e notice) v = omega (
    arith,
    Leads-moves e (produce-Leads f n s.consumers time s.producer.lines s.producer.at s.shared v),
    sum-Notified (has f) (λ c. has-wake c.at) notice,
  )
  step-Balanced n (by_consumer time w before after c d p g h e) v =
      Balanced-notified n w p h _
        (Leads-moves e (consume-Leads f n before after p time c c.at g refl v))

  woken-Balanced : (n : ℕ) {s t : System} → Spurious s t → Balanced n s → Balanced n t
  unfolding Balanced
  woken-Balanced n (consumer_wakes s w) v =
      omega (arith, v, sum-WakesOne (has f) (λ c. has-wake c.at) w)
  woken-Balanced n (producer_wakes s) v =
      Balanced-notified n signal s.producer s.shared s.consumers v

  run-Balanced : (n : ℕ) {s t : System} → Interleaving s t → Balanced n s → Balanced n t
  run-Balanced n (stop s) v = v
  run-Balanced n (go x r) v = run-Balanced n r (step-Balanced n x v)
  run-Balanced n (wakes x r) v = run-Balanced n r (woken-Balanced n x v)

  new_consumers-has : (n : ℕ) → sum (has f) (new_consumers n) ≡ 0
  unfolding new_consumers
  new_consumers-has zero = refl
  new_consumers-has (suc n) = omega (arith, new_consumers-has n)

  start-Balanced :
      (nthreads : ℕ) (lines : List Bytes)
      → Balanced (all_of (by_work f) lines) (start nthreads lines)
  unfolding Balanced start
  start-Balanced nthreads lines = omega (arith, new_consumers-has nthreads)

-- 1 for the number `x`, and 0 for every other one
abbrev pub is : ℕ → ℕ → ℕ
is x n = if n == x then 1 else 0

-- In every interleaving of the threads, wake-ups without a reason included:
-- the buffer never holds more than two commands for each consumer; for every number `x`, the transactions
-- of the input with this number are as many as those with it in all of these places together: lines not yet
-- read, the producer's hands, the buffer, commands that a consumer has popped and not begun, and the calls
-- of `Trans` made with `x`, so that on the way none disappears, is doubled or changes its number; what the
-- producer has counted as work is with the producer, in the buffer, popped, being done or counted as
-- complete; and the count of those is the sum of the consumers' own counts.
pub steps-places :
    (nthreads x : ℕ) (lines : List Bytes) (s : System)
    → Interleaving (start nthreads lines) s
    → (length s.shared.buffer ≤ nthreads * 2)
      × (all_of (by_work (is x)) lines
          ≡ all_of (by_work (is x)) s.producer.lines
            + (producer_has (is x) s.producer.at
                + (all_of (by_number (is x)) s.shared.buffer
                    + (sum (has (is x)) s.consumers + all_of (by_event (is x)) s.shared.out))))
      × (s.shared.work_count
          ≡ pending s.producer.at
            + (length s.shared.buffer
                + (sum held_of s.consumers + (sum busy_of s.consumers + s.shared.complete_count))))
      × (s.shared.complete_count ≡ sum jobs_of s.consumers)
unfolding Balanced
steps-places nthreads x lines s r =
    let (bound, counts, jobs) = steps-counts nthreads lines s r in
    (
      bound,
      run-Balanced (is x) (all_of (by_work (is x)) lines) r (start-Balanced (is x) nthreads lines),
      counts,
      jobs,
    )
