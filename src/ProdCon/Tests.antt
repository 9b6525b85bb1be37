-- ===== src/ProdCon/Tests.antt =====
-- Assignment_2/f22: interleavings on concrete inputs, and the theorems of the other modules at such
-- inputs.
use cmput.Common.{ℕ, ◌+◌, ◌*◌, ◌≤◌, ◌≡◌, refl, true, false, List, [], ◌∷◌, length, arith, pos}
use cmput.Text.{Bytes, codes}
use cmput.Text.Number.{strtol, to_int, to_string, print_nat}
use cmput.Process.{printed, running}
use cmput.ProdCon.{
  ThreadStep, System, by_producer, by_consumer, Interleaving, stop, go, not_told, signalled_one,
  here, produce, consume, start,
}
use cmput.ProdCon.State.{
  Shared, Producer, Move, moves, waits, faults, signal, silent, ConsumerAt, asking, sleeping,
  reading, ended, created, checking, Consumer,
}
use cmput.ProdCon.Log.{second, consumer_log}
use cmput.ProdCon.Leaving.{append_runs}
use cmput.ProdCon.Counts.{pending, sum, held_of, busy_of, jobs_of}
use cmput.ProdCon.Places.{all_of, by_number, by_work, by_event, producer_has, has}
use cmput.ProdCon.Places.Runs.{is, steps-places}
use cmput.ProdCon.Lost.{lost_work}
use cmput.ProdCon.Progress.{consumer_progress}
use cmput.ProdCon.Main.{arguments, joined}

abbrev input : List Bytes
input = codes "T1" ∷ codes "S2" ∷ []

abbrev fresh : Consumer
fresh = record { id = 0; jobs_complete = 0; at = created }

abbrev shared_of : ℕ → Shared
shared_of threads = record {
  max_buffer = 2;
  buffer = [];
  work_count = 0;
  ask_count = 0;
  receive_count = 0;
  complete_count = 0;
  sleep_count = 0;
  thread_completed_tasks = λ k. 0;
  consume_threads = threads;
  in_progress = true;
  done = false;
  out = [];
}

-- The producer has begun, and the consumer has its number.
abbrev begun : System
begun = record {
  shared = shared_of 2;
  producer = record { lines = input; at = reading };
  consumers = record { id = 1; jobs_complete = 0; at = checking } ∷ [];
}

begun_run : Interleaving (start 1 input) begun
unfolding produce start consume
begun_run =
    go
      (by_producer [] silent (start 1 input) (record { lines = input; at = reading }) (shared_of 1)
        (fresh ∷ []) refl (not_told _))
      (go
        (by_consumer [] silent [] [] fresh (record { id = 1; jobs_complete = 0; at = checking })
          (record { lines = input; at = reading }) (shared_of 1) (shared_of 2) refl)
        (stop begun))

-- The consumer has asked, and waits.
abbrev asked : Shared
asked = record (shared_of 2) {
  ask_count = 1;
  out = printed (consumer_log [] 1 (codes "Ask") (codes "\n")) ∷ [];
}

abbrev consumer_at : ConsumerAt → Consumer
consumer_at at = record { id = 1; jobs_complete = 0; at = at }

abbrev waiting : System
waiting = record {
  shared = asked;
  producer = record { lines = input; at = reading };
  consumers = consumer_at sleeping ∷ [];
}

waiting_run : Interleaving (start 1 input) waiting
unfolding consume
waiting_run = append_runs begun_run (
    go
      (by_consumer [] silent [] [] (consumer_at checking) (consumer_at asking)
        (record { lines = input; at = reading }) (shared_of 2) asked refl)
      (go
        (by_consumer [] silent [] [] (consumer_at asking) (consumer_at sleeping)
          (record { lines = input; at = reading }) asked asked refl)
        (stop waiting)))

abbrev moved : {A : Type 0} → A → Move A → A
moved a (moves w b) = b
moved a waits = a
moved a faults = a

-- The states of the two threads in turn, from `waiting` on: the producer reads "T1" and pushes it, which wakes
-- the consumer; the consumer pops it and begins to work on it.
abbrev produced : Producer × Shared → Producer × Shared
unfolding produce
produced (p, g) = moved (p, g) (produce [] p.lines p.at g)

abbrev consumed : Consumer × Shared → Consumer × Shared
unfolding consume
consumed (c, g) = moved (c, g) (consume [] c c.at g)

abbrev has_read : Producer × Shared
has_read = produced (record { lines = input; at = reading }, asked)

abbrev has_pushed : Producer × Shared
has_pushed = produced has_read

abbrev has_popped : Consumer × Shared
has_popped = consumed (consumer_at asking, has_pushed.1)

abbrev has_begun : Consumer × Shared
has_begun = consumed has_popped

abbrev working : System
working = record { shared = has_begun.1; producer = has_pushed.0; consumers = has_begun.0 ∷ [] }

working_run : Interleaving (start 1 input) working
unfolding produced consumed produce consume second
working_run = append_runs waiting_run (
    go
      (by_producer [] silent waiting has_read.0 has_read.1 (consumer_at sleeping ∷ []) refl
        (not_told _))
      (go
        (by_producer [] signal
          (record {
            shared = has_read.1;
            producer = has_read.0;
            consumers = consumer_at sleeping ∷ [];
          })
          has_pushed.0 has_pushed.1 (consumer_at asking ∷ []) refl
          (signalled_one (here (consumer_at sleeping) [] refl)))
        (go
          (by_consumer [] signal [] [] (consumer_at asking) has_popped.0 has_pushed.0 has_pushed.1
            has_popped.1 refl)
          (go
            (by_consumer [] silent [] [] has_popped.0 has_begun.0 has_pushed.0 has_popped.1
              has_begun.1 refl)
            (stop working)))))

steps-places_example :
    (length working.shared.buffer ≤ 1 * 2)
    × (all_of (by_work (is b'1')) input
        ≡ all_of (by_work (is b'1')) working.producer.lines
          + (producer_has (is b'1') working.producer.at
              + (all_of (by_number (is b'1')) working.shared.buffer
                  + (sum (has (is b'1')) working.consumers
                      + all_of (by_event (is b'1')) working.shared.out))))
    × (working.shared.work_count
        ≡ pending working.producer.at
          + (length working.shared.buffer
              + (sum held_of working.consumers
                  + (sum busy_of working.consumers + working.shared.complete_count))))
    × (working.shared.complete_count ≡ sum jobs_of working.consumers)
steps-places_example = steps-places 1 b'1' input working working_run

lost_work_example :
    (t : System) × Interleaving (start 3 (codes "T1" ∷ codes "T2" ∷ [])) t
    × (t.producer.at ≡ ended)
    × (joined t.consumers ≡ true)
    × (t.shared.buffer ≡ codes "T1" ∷ codes "T2" ∷ [])
    × (t.shared.complete_count ≡ 0)
lost_work_example = lost_work 3 (codes "T1" ∷ codes "T2" ∷ []) (refl, (refl, tt)) (omega arith)

some_arguments : arguments (codes "3" ∷ codes "7" ∷ []) ≡ running (pos 3, codes "prodcon.7.log")
unfolding arguments strtol to_int to_string print_nat
some_arguments = refl

consumer_progress_example : (t : System) × ThreadStep waiting t
consumer_progress_example =
    consumer_progress 1 input [] [] (consumer_at sleeping) (record { lines = input; at = reading })
      asked (omega arith) (omega arith) waiting_run (λ e. cc e)
