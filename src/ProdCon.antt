-- ===== src/ProdCon.antt =====
-- Assignment_2/f22/main.cpp and outfile.cpp: a producer thread and consumer threads over a bounded queue.
-- A thread moves from one place of its code to the next in one step; the threads' steps are interleaved.
pub mod Counts
pub mod Notices
pub mod Places
pub mod Invariant
pub mod Lost
pub mod Leaving
pub mod Sound
pub mod Told
pub mod Progress
pub mod Main
mod Tests
pub mod State
pub mod Log
use cmput.Common.{
  ℕ, ◌≡◌, zero, suc, ◌+◌, ◌*◌, true, false, List, [], ◌∷◌, ◌++◌, none, some, if◌then◌else◌, ◌==◌,
  leb, map, ℤ, pos, length,
}
use cmput.Text.{Bytes, codes}
use cmput.Text.Number.{to_string}
use cmput.Process.{Event, printed, worked, idled}
use cmput.ProdCon.State.{
  Shared, ProducerAt, Producer, ConsumerAt, Consumer, Move, Wake, silent, signal, broadcast,
  sleeping, parked, starting, reading, finishing, closing, ended, pushing, created, checking,
  asking, left, taken, busy, moves, waits, faults,
}
use cmput.ProdCon.Log.{second, digit, producer_log, consumer_log}

abbrev number : ℤ → Bytes
number n = codes " " ++ (to_string n ++ codes "\n")

abbrev emit : List Event → Shared → Shared
emit es g = record g { out = g.out ++ es }

-- One line of the input; `c` is `command[1]`.
unfoldable pub take_line : Bytes → ℕ → ℕ → Bytes → Shared → ProducerAt × Shared
unfolding producer_log digit
take_line time first c command g =
    if first == b'T'
    then (
      pushing command,
      record (emit (printed (producer_log time (length g.buffer) (codes "Work") (digit c)) ∷ [])
          g) { work_count = g.work_count + 1 },
    )
    else if first == b'S'
    then (
      reading,
      record (emit
          (printed (producer_log time (length g.buffer) (codes "Sleep") (digit c))
            ∷ idled (pos c)
            ∷ [])
          g) { sleep_count = g.sleep_count + 1 },
    )
    else (reading, g)

abbrev pub took : List Bytes → ProducerAt × Shared → Producer × Shared
took lines (at, g) = (record { lines = lines; at = at }, g)

read_line : Bytes → Bytes → List Bytes → Shared → Move (Producer × Shared)
unfolding take_line second
read_line time [] rest g = faults
read_line time (first ∷ command) rest g = elim (second (first ∷ command)) [
  | none ↦ faults
  | some c ↦ moves silent (took rest (take_line time first c (first ∷ command) g))
]

abbrev producer_at : Wake → List Bytes → ProducerAt → Shared → Move (Producer × Shared)
producer_at wake lines at g = moves wake (record { lines = lines; at = at }, g)

-- One step of `producer`. `time` is what the clock gives, as it is printed.
unfoldable pub produce : Bytes → List Bytes → ProducerAt → Shared → Move (Producer × Shared)
unfolding read_line
produce time lines starting g = producer_at silent lines reading (record g { in_progress = true })
produce time [] reading g = producer_at silent [] finishing (record g { done = true })
produce time (command ∷ rest) reading g = read_line time command rest g
produce time lines (pushing command) g =
    if leb g.max_buffer (length g.buffer)
    then producer_at silent lines (parked command) g
    else producer_at signal lines reading (record g { buffer = g.buffer ++ command ∷ [] })
produce time lines (parked command) g = waits
produce time lines finishing g = producer_at broadcast lines closing g
produce time lines closing g = producer_at silent lines ended (record g { in_progress = false })
produce time lines ended g = waits

abbrev consumer_at : Wake → Consumer → ConsumerAt → Shared → Move (Consumer × Shared)
consumer_at wake c at g = moves wake (record c { at = at }, g)

-- A consumer at the lock takes a command and signals that there is room; without one it ends if the
-- producer is done, and else it waits.
pop : Consumer → List Bytes → Shared → Move (Consumer × Shared)
pop c [] g = if g.done then consumer_at silent c left g else consumer_at silent c sleeping g
pop c (command ∷ rest) g = consumer_at signal c (taken command) (record g { buffer = rest })

receive : Bytes → Consumer → Bytes → ℕ → Shared → Move (Consumer × Shared)
unfolding consumer_log digit
receive time c command n g =
    consumer_at silent c (busy command)
      (record (emit
        (printed (consumer_log time c.id (codes "Receive") (number (digit n)))
          ∷ worked (pos n)
          ∷ [])
        g) { receive_count = g.receive_count + 1 })

abbrev set_count : (ℕ → ℕ) → ℕ → ℕ → ℕ → ℕ
set_count counts id jobs k = if k == id then jobs else counts k

complete : Bytes → Consumer → ℕ → Shared → Move (Consumer × Shared)
unfolding consumer_log digit
complete time c n g = moves silent (
  record c { jobs_complete = c.jobs_complete + 1; at = checking },
  record (emit (printed (consumer_log time c.id (codes "Complete") (number (digit n))) ∷ []) g) {
    complete_count = g.complete_count + 1;
    thread_completed_tasks = set_count g.thread_completed_tasks c.id (c.jobs_complete + 1);
  },
)

abbrev pub with_second : Bytes → (ℕ → Move (Consumer × Shared)) → Move (Consumer × Shared)
with_second command f = elim (second command) [ none ↦ faults | some n ↦ f n ]

-- One step of `consume`.
unfoldable pub consume : Bytes → Consumer → ConsumerAt → Shared → Move (Consumer × Shared)
unfolding pop receive complete second consumer_log
consume time c created g = moves silent (
  record c { id = g.consume_threads; at = checking },
  record g { consume_threads = g.consume_threads + 1 },
)
consume time c checking g =
    if g.in_progress
    then consumer_at silent c asking
        (record (emit (printed (consumer_log time c.id (codes "Ask") (codes "\n")) ∷ []) g) {
          ask_count = g.ask_count + 1;
        })
    else consumer_at silent c left g
consume time c asking g = pop c g.buffer g
consume time c sleeping g = waits
consume time c (taken command) g = with_second command λ n. receive time c command n g
consume time c (busy command) g = with_second command λ n. complete time c n g
consume time c left g = waits

pub record System : Type 0 where
  pub shared : Shared
  pub producer : Producer
  pub consumers : List Consumer

-- A consumer behind a wake-up is at the lock again, where it looks at the buffer once more.
abbrev pub awake : ConsumerAt → ConsumerAt
awake sleeping = asking
awake at = at

abbrev pub wake : Consumer → Consumer
wake c = record c { at = awake c.at }

-- How many consumers wait for `increment`
abbrev pub asleep : ConsumerAt → ℕ
asleep sleeping = 1
asleep at = 0

abbrev pub sleepers : List Consumer → ℕ
sleepers [] = 0
sleepers (c ∷ cs) = asleep c.at + sleepers cs

-- One consumer that waits, whichever, wakes up.
pub data WakesOne : List Consumer → List Consumer → Type 0 where
  here : (c : Consumer) (cs : List Consumer) → c.at ≡ sleeping → WakesOne (c ∷ cs) (wake c ∷ cs)
  there : (c : Consumer) {cs ds : List Consumer} → WakesOne cs ds → WakesOne (c ∷ cs) (c ∷ ds)

-- What a step of the producer does to the consumers: a signal wakes one of those that wait, if there are
-- any, and a broadcast wakes them all.
pub data Notified : Wake → List Consumer → List Consumer → Type 0 where
  not_told : (cs : List Consumer) → Notified silent cs cs
  signalled_one : {cs ds : List Consumer} → WakesOne cs ds → Notified signal cs ds
  signalled_none : (cs : List Consumer) → sleepers cs ≡ 0 → Notified signal cs cs
  woken_all : (cs : List Consumer) → Notified broadcast cs (map wake cs)

-- What a step of a consumer does to the producer, the only thread that waits for `decrement`.
abbrev pub unparked : ProducerAt → ProducerAt
unparked (parked command) = pushing command
unparked at = at

abbrev pub notified : Wake → Producer → Producer
notified silent p = p
notified signal p = record p { at = unparked p.at }
notified broadcast p = record p { at = unparked p.at }

-- One step of one thread, with what it does to the threads that wait.
pub data ThreadStep : System → System → Type 0 where
  by_producer :
      (time : Bytes) (wake : Wake) (s : System) (p : Producer) (g : Shared) (cs : List Consumer)
      → produce time s.producer.lines s.producer.at s.shared ≡ moves wake (p, g)
      → Notified wake s.consumers cs
      → ThreadStep s (record { shared = g; producer = p; consumers = cs })
  by_consumer :
      (time : Bytes) (wake : Wake) (before after : List Consumer) (c d : Consumer) (p : Producer)
      (g h : Shared)
      → consume time c c.at g ≡ moves wake (d, h)
      → ThreadStep
          (record { shared = g; producer = p; consumers = before ++ c ∷ after })
          (record { shared = h; producer = notified wake p; consumers = before ++ d ∷ after })

-- A thread that waits may also wake up without being told, as POSIX allows.
pub data Spurious : System → System → Type 0 where
  consumer_wakes :
      (s : System) {cs : List Consumer}
      → WakesOne s.consumers cs
      → Spurious s (record s { consumers = cs })
  producer_wakes : (s : System) → Spurious s (record s { producer = notified signal s.producer })

pub data Interleaving : System → System → Type 0 where
  stop : (s : System) → Interleaving s s
  go : {s t u : System} → ThreadStep s t → Interleaving t u → Interleaving s u
  wakes : {s t u : System} → Spurious s t → Interleaving t u → Interleaving s u

unfoldable pub new_consumers : ℕ → List Consumer
new_consumers zero = []
new_consumers (suc n) = record { id = 0; jobs_complete = 0; at = created } ∷ new_consumers n

-- The start of `main` with `nthreads` consumers, on the lines of the input.
unfoldable pub start : ℕ → List Bytes → System
unfolding new_consumers
start nthreads lines = record {
  shared = record {
    max_buffer = nthreads * 2;
    buffer = [];
    work_count = 0;
    ask_count = 0;
    receive_count = 0;
    complete_count = 0;
    sleep_count = 0;
    thread_completed_tasks = λ k. 0;
    consume_threads = 1;
    in_progress = false;
    done = false;
    out = [];
  };
  producer = record { lines = lines; at = starting };
  consumers = new_consumers nthreads;
}
