-- ===== src/Transaction/Server.antt =====
-- Assignment_3/server.cpp: the server, as a state machine whose steps are the rounds of its loop.
pub mod Counts
pub mod Sums
pub mod State
use cmput.Common.{
  ℕ, zero, suc, ◌+◌, Bool, true, false, ◌||◌, List, [], ◌∷◌, ◌++◌, Option, none, some, ◌==◌,
  if◌then◌else◌, ℤ, pos, ◌==ℤ◌, ltb_ℤ, get_elem?,
}
use cmput.Text.{Bytes, codes, before, after, c_string, overwrite}
use cmput.Text.Number.{to_string, print_nat, stoi}
use cmput.Text.Buffer.{zeroes}
use cmput.Process.{
  wrote, printed, closes, worked, Outcome, running, exited, undefined, ◌>>=◌, or_undefined, Reading,
  end_of_file, failed, bytes, contains,
}
use cmput.Transaction.{line_size, buffer_size, sprintf}
use cmput.Transaction.Server.State.{
  max_clients, Tasks, count_task, Server, Doubles, Io, Select, store_socket,
}

-- The descriptors that go to `readfds`
unfoldable pub watched : List ℤ → List ℤ
watched [] = []
watched (sd ∷ sockets) = let rest = watched sockets in if ltb_ℤ (pos 0) sd then sd ∷ rest else rest

abbrev pub or_time : Option ℕ → ℕ → Option ℕ
or_time none now = some now
or_time (some t) now = some t

-- A transaction is counted, for the server and for the client.
abbrev pub count_transaction : Bytes → ℕ → Server → Server
count_transaction host now s = record s {
  transaction_count = s.transaction_count + 1;
  client_completed_tasks = count_task host s.client_completed_tasks;
  first_time = or_time s.first_time now;
}

abbrev pub received_line : Bytes → ℕ → ℤ → Bytes → Bytes
received_line time count n host =
    time
    ++ (codes ": # "
        ++ (print_nat count ++ (codes " (T " ++ (to_string n ++ (codes ")\tfrom " ++ host)))))

abbrev pub done_line : Bytes → ℕ → Bytes → Bytes
done_line time count host =
    time ++ (codes ": # " ++ (print_nat count ++ (codes " (Done)\tfrom " ++ host)))

-- The buffer behind `strcpy(buffer, text)`, which was cleared before
abbrev pub filled : Bytes → Bytes
filled text = overwrite text (zeroes buffer_size)

-- `client_socket[i] = 0`
unfoldable pub clear_socket : ℕ → List ℤ → List ℤ
clear_socket i [] = []
clear_socket zero (sd ∷ sockets) = pos 0 ∷ sockets
clear_socket (suc i) (sd ∷ sockets) = sd ∷ clear_socket i sockets

module _ (fl : Doubles) where
  -- The answer to a transaction: the count so far.
  unfoldable pub answer : ℤ → Io → Bytes → Server → Outcome Server
  unfolding overwrite zeroes print_nat
  answer sd io host s =
      let text = print_nat s.transaction_count in
      if io.sends
      then (sprintf line_size (done_line (fl.seconds io.send_time) s.transaction_count host)
          >>= λ line. running (record s {
            buffer = filled text;
            last_time = some io.send_time;
            out = s.out ++ wrote sd text ∷ printed (line ++ codes "\n") ∷ [];
          }))
      else exited 1 s.out

  -- `T` and a number: the transaction is run, logged and answered. `stoi` throws without a number.
  unfoldable pub run_transaction : ℤ → Io → Bytes → Bytes → Server → Outcome Server
  unfolding answer stoi
  run_transaction sd io host argument s = do
    n ← or_undefined (stoi argument)
    line ← sprintf line_size (received_line (fl.seconds io.recv_time) s.transaction_count n host)
    answer sd io host (record s { out = s.out ++ worked n ∷ printed (line ++ codes "\n") ∷ [] })

  unfoldable pub dispatch : ℤ → Io → Bytes → Bytes → Server → Outcome Server
  unfolding run_transaction
  dispatch sd io host [] s = running s
  dispatch sd io host (c ∷ argument) s =
      if c == b'T' then run_transaction sd io host argument s else running s

  -- A text that was received: the client's name, a comma, and the transaction.
  unfoldable pub handle_message : ℤ → Io → Bytes → Server → Outcome Server
  unfolding dispatch before after count_task
  handle_message sd io text s =
      dispatch sd io (before b',' text) (after b',' text)
        (count_transaction (before b',' text) io.recv_time s)

  -- The socket `sd` in place `i` is ready; at the end of file the place is cleared.
  unfoldable pub serve : ℕ → ℤ → Io → Reading → Server → Outcome Server
  unfolding handle_message c_string overwrite clear_socket
  serve i sd io end_of_file s =
      running
        (record s { client_socket = clear_socket i s.client_socket; out = s.out ++ closes sd ∷ [] })
  serve i sd io failed s = handle_message sd io (c_string s.buffer) s
  serve i sd io (bytes b) s =
      let buffer = overwrite b s.buffer in
      handle_message sd io (c_string buffer) (record s { buffer = buffer })

  abbrev ready_socket : ℕ → ℤ → Option Io → Server → Outcome Server
  ready_socket i sd none s = running s
  ready_socket i sd (some io) s = serve i sd io io.reading s

  -- The loop over the places, `n` of them from `i` on; `fds` are the descriptors that `select` was given.
  unfoldable pub serve_places : ℕ → ℕ → List ℤ → (ℤ → Option Io) → Server → Outcome Server
  unfolding serve contains
  serve_places zero i fds ready s = running s
  serve_places (suc n) i fds ready s = do
    sd ← or_undefined (get_elem? s.client_socket i)
    t ← if contains sd fds then ready_socket i sd (ready sd) s else running s
    serve_places n (i + 1) fds ready t

  unfoldable pub summary_lines : Tasks → Bytes
  summary_lines [] = []
  summary_lines ((host, n) ∷ m) =
      codes "\t"
      ++ (print_nat n ++ (codes " transactions from " ++ (host ++ (codes "\n" ++ summary_lines m))))

  -- The summary reads `lastTime` and `firstTime`, which are set only by transactions.
  unfoldable pub summary : Server → Option ℕ → Option ℕ → Outcome Server
  unfolding summary_lines
  summary s (some first) (some last) = exited 0 (
      s.out
      ++ closes s.master_socket
        ∷ printed (
            codes "\nSUMMARY\n"
            ++ (summary_lines s.client_completed_tasks
                ++ fl.rate_line s.transaction_count first last))
        ∷ [])
  summary s _ _ = undefined

  -- The master socket
  unfoldable pub accept_client : Option (Option ℤ) → Bool → Server → Outcome Server
  unfolding store_socket summary
  accept_client none true s = summary s s.first_time s.last_time
  accept_client none false s = running s
  accept_client (some none) nothing_happened s = exited 1 s.out
  accept_client (some (some fd)) nothing_happened s =
      running (record s { client_socket = store_socket fd s.client_socket })

  -- The body of `while (TRUE)`: the timeout of `select` ends the process.
  unfoldable pub round : Select → Server → Outcome Server
  unfolding accept_client serve_places watched
  round sel s =
      let fds = watched s.client_socket in
      do
        t ← accept_client sel.incoming sel.nothing_happened s
        serve_places max_clients 0 fds sel.ready t

  unfoldable pub rounds : List Select → Server → Outcome Server
  unfolding round
  rounds [] s = running s
  rounds (sel ∷ sels) s = do t ← round sel s; rounds sels t

abbrev no_sockets : ℕ → List ℤ
no_sockets zero = []
no_sockets (suc n) = pos 0 ∷ no_sockets n

-- The variables before the loop, with what the buffer held.
abbrev pub initial : ℤ → ℤ → Bytes → Server
initial port master_socket garbage = record {
  master_socket = master_socket;
  client_socket = no_sockets max_clients;
  transaction_count = 0;
  client_completed_tasks = [];
  first_time = none;
  last_time = none;
  buffer = garbage;
  out = printed (codes "Using port " ++ (to_string port ++ codes " \n")) ∷ [];
}

-- The calls before the loop, in their order: `gethostname`, `socket`, `setsockopt`, `ioctl`, `bind` and
-- `listen`.
pub record Setup : Type 0 where
  pub has_hostname : Bool
  pub socket : ℤ
  pub options_set : Bool
  pub non_blocking : Bool
  pub bound : Bool
  pub listening : Bool

-- `server` up to its loop. A port outside 5000 to 64000 is reported on stderr, and used. An address that
-- cannot be bound ends the process with code 0.
unfoldable pub set_up : ℤ → Setup → Bytes → Outcome Server
set_up port p garbage =
    if p.has_hostname
    then if (p.socket ==ℤ pos 0)
        || (if p.options_set then false else true)
        || (if p.non_blocking then false else true)
      then exited 1 []
      else if p.bound
      then if p.listening then running (initial port p.socket garbage) else exited 1 []
      else exited 0 []
    else exited 1 []
