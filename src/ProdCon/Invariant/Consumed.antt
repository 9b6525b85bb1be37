-- ===== src/ProdCon/Invariant/Consumed.antt =====
-- Assignment_2/f22/main.cpp: a step of one thread of the pool, and the sums over the threads.
use cmput.Common.{ℕ, ◌+◌, ◌≤◌, ◌≡◌, refl, ap, ◌∙◌, List, [], ◌∷◌, ◌++◌, length, arith}
use cmput.Text.{Bytes}
use cmput.ProdCon.{pop, receive, complete, with_second, consume}
use cmput.ProdCon.State.{
  Shared, ProducerAt, ConsumerAt, created, checking, asking, sleeping, left, taken, busy, Consumer,
  Move,
}
use cmput.ProdCon.Log.{second}
use cmput.ProdCon.Counts.{
  held, running_jobs, held_of, busy_of, jobs_of, sum-append, InvOf, Leads, leads, stays, breaks,
  if-Leads,
}

module _ (m : ℕ) (before after : List Consumer) (at : ProducerAt) where
  abbrev pub Consumed : Consumer × Shared → Type 0
  Consumed (d, h) = InvOf m h at (before ++ d ∷ after)

  -- The sums over the other consumers do not change.
  change :
      (c d : Consumer) (g h : Shared)
      → h.max_buffer ≡ g.max_buffer
      → length h.buffer ≤ m
      → h.work_count + (length g.buffer + (held_of c + g.receive_count))
        ≡ g.work_count + (length h.buffer + (held_of d + h.receive_count))
      → h.receive_count + (g.complete_count + busy_of c)
        ≡ g.receive_count + (h.complete_count + busy_of d)
      → h.complete_count + jobs_of c ≡ g.complete_count + jobs_of d
      → InvOf m g at (before ++ c ∷ after)
      → InvOf m h at (before ++ d ∷ after)
  change c d g h f b w r k v = record {
    fixed = f ∙ v.fixed;
    bound = b;
    work = omega (
      arith,
      w,
      v.work,
      sum-append held_of before (c ∷ after),
      sum-append held_of before (d ∷ after),
    );
    received = omega (
      arith,
      r,
      v.received,
      sum-append busy_of before (c ∷ after),
      sum-append busy_of before (d ∷ after),
    );
    completed = omega (
      arith,
      k,
      v.completed,
      sum-append jobs_of before (c ∷ after),
      sum-append jobs_of before (d ∷ after),
    );
  }

  with_second-Leads :
      (command : Bytes) (f : ℕ → Move (Consumer × Shared))
      → ((n : ℕ) → Leads Consumed (f n))
      → Leads Consumed (with_second command f)
  unfolding second
  with_second-Leads [] f h = breaks
  with_second-Leads (c ∷ []) f h = h 0
  with_second-Leads (c ∷ d ∷ command) f h = h d

  pop-Leads :
      (c : Consumer) (buffer : List Bytes) (g : Shared)
      → g.buffer ≡ buffer
      → c.at ≡ asking
      → InvOf m g at (before ++ c ∷ after)
      → Leads Consumed (pop c buffer g)
  unfolding pop
  pop-Leads c [] g full e v =
      if-Leads g.done
        (λ _. leads (
          change c _ g _ refl v.bound (omega (arith, ap held e)) (omega (arith, ap running_jobs e))
            refl v))
        λ _. leads (
          change c _ g _ refl v.bound (omega (arith, ap held e)) (omega (arith, ap running_jobs e))
            refl v)
  pop-Leads c (command ∷ rest) g full e v = leads (
      change c _ g _ refl (omega (arith, v.bound, ap length full))
        (omega (arith, ap length full, ap held e)) (omega (arith, ap running_jobs e)) refl v)

  pub consume-Leads :
      (time : Bytes) (c : Consumer) (place : ConsumerAt) (g : Shared)
      → c.at ≡ place
      → InvOf m g at (before ++ c ∷ after)
      → Leads Consumed (consume time c place g)
  unfolding consume receive complete
  consume-Leads time c created g e v = leads (
      change c _ g _ refl v.bound (omega (arith, ap held e)) (omega (arith, ap running_jobs e)) refl
        v)
  consume-Leads time c checking g e v =
      if-Leads g.in_progress
        (λ _. leads (
          change c _ g _ refl v.bound (omega (arith, ap held e)) (omega (arith, ap running_jobs e))
            refl v))
        λ _. leads (
          change c _ g _ refl v.bound (omega (arith, ap held e)) (omega (arith, ap running_jobs e))
            refl v)
  consume-Leads time c asking g e v = pop-Leads c g.buffer g refl e v
  consume-Leads time c sleeping g e v = stays
  consume-Leads time c (taken command) g e v = with_second-Leads command _ λ n. leads (
      change c _ g _ refl v.bound (omega (arith, ap held e)) (omega (arith, ap running_jobs e)) refl
        v)
  consume-Leads time c (busy command) g e v = with_second-Leads command _ λ n. leads (
      change c _ g _ refl v.bound (omega (arith, ap held e)) (omega (arith, ap running_jobs e))
        (omega arith) v)
  consume-Leads time c left g e v = stays
