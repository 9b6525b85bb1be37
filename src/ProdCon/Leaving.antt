-- ===== src/ProdCon/Leaving.antt =====
-- Assignment_2/f22/main.cpp: consumers that start while the producer is not in progress.
use cmput.Common.{
  ℕ, zero, suc, ◌+◌, ◌≡◌, refl, false, List, [], ◌∷◌, ◌++◌, append_assoc, append-nil, All,
  All-append,
}
use mathlib.Core.Path.{subst}
use cmput.ProdCon.{consume, System, by_consumer, Interleaving, stop, go, wakes, new_consumers}
use cmput.ProdCon.State.{Shared, Producer, created, checking, left, Consumer, silent}

abbrev pub HasLeft : Consumer → Type 0
HasLeft c = c.at ≡ left

pub append_runs : {s t u : System} → Interleaving s t → Interleaving t u → Interleaving s u
append_runs (stop s) b = b
append_runs (go x a) b = go x (append_runs a b)
append_runs (wakes x a) b = wakes x (append_runs a b)

-- Consumers that start while the producer is not in progress leave at once.
pub record Gone (p : Producer) (g : Shared) (t : System) : Type 0 where
  pub producer_same : t.producer ≡ p
  pub all_left : All HasLeft t.consumers
  pub buffer_same : t.shared.buffer ≡ g.buffer
  pub complete_same : t.shared.complete_count ≡ g.complete_count

pub leave_each :
    (k : ℕ) (before : List Consumer) (p : Producer) (g : Shared)
    → g.in_progress ≡ false
    → All HasLeft before
    → (t : System) × Interleaving
        (record { shared = g; producer = p; consumers = before ++ new_consumers k })
        t
      × Gone p g t
unfolding new_consumers consume
leave_each zero before p g idle h = (
  record { shared = g; producer = p; consumers = before ++ [] },
  stop _,
  record {
    producer_same = refl;
    all_left = rw (append-nil before) h;
    buffer_same = refl;
    complete_same = refl;
  },
)
leave_each (suc k) before p g idle h =
    let c0 : Consumer = record { id = 0; jobs_complete = 0; at = created } in
    let c1 : Consumer = record { id = g.consume_threads; jobs_complete = 0; at = checking } in
    let c2 : Consumer = record { id = g.consume_threads; jobs_complete = 0; at = left } in
    let g1 : Shared = record g { consume_threads = g.consume_threads + 1 } in
    let (t, steps, gone) =
      leave_each k (before ++ c2 ∷ []) p g1 idle
        (All-append HasLeft before (c2 ∷ []) h (refl, tt)) in
    (
      t,
      go (by_consumer [] silent before (new_consumers k) c0 c1 p g g1 refl) (
          go (by_consumer [] silent before (new_consumers k) c1 c2 p g1 g1 (rw idle)) (
            subst (λ cs. Interleaving (record { shared = g1; producer = p; consumers = cs }) t)
              (append_assoc before (c2 ∷ []) (new_consumers k)) steps)),
      record {
        producer_same = gone.producer_same;
        all_left = gone.all_left;
        buffer_same = gone.buffer_same;
        complete_same = gone.complete_same;
      },
    )
