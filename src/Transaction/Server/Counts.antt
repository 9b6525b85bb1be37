-- ===== src/Transaction/Server/Counts.antt =====
-- Assignment_3/server.cpp: the counters of the server over whole runs.
use cmput.Common.{
  ℕ, zero, suc, ◌+◌, ◌≡◌, refl, Bool, true, false, List, [], ◌∷◌, ◌++◌, Option, none, some, ◌==◌, ℤ,
  length, get_elem?,
}
use cmput.Text.{Bytes, codes, before, after}
use cmput.Text.Number.{stoi}
use cmput.Process.{
  Outcome, running, undefined, worked, printed, closes, exited, ◌>>=◌, Reading, end_of_file, failed,
  bytes, contains,
}
use cmput.Process.Ensures.{
  Ensures, runs, exits, faults, bind-Ensures, or_undefined-Ensures, if-Ensures, Ensures-running,
}
use cmput.Transaction.{line_size}
use cmput.Transaction.Server.{
  watched, answer, run_transaction, dispatch, handle_message, serve, ready_socket, serve_places,
  summary, summary_lines, accept_client, round, rounds, Setup, set_up, received_line, done_line,
}
use cmput.Transaction.Server.State.{Server, Doubles, Io, Select, max_clients}
use cmput.Transaction.Server.Sums.{
  total, Inv, Begun, length-store_socket, length-clear_socket, count_transaction-Begun,
  sprintf-Ensures,
}

module _ (fl : Doubles) where
  answer-Ensures :
      (sd : ℤ) (io : Io) (host : Bytes) (s : Server)
      → Begun s
      → Ensures Inv (answer fl sd io host s)
  unfolding answer
  answer-Ensures sd io host s b =
      if-Ensures io.sends
        (bind-Ensures
          (sprintf-Ensures line_size (done_line (fl.seconds io.send_time) s.transaction_count host))
          λ line _.
            runs (record { counted = b.inv.counted; places = b.inv.places; times = rw b.known tt }))
        exits

  run_transaction-Ensures :
      (sd : ℤ) (io : Io) (host argument : Bytes) (s : Server)
      → Begun s
      → Ensures Inv (run_transaction fl sd io host argument s)
  unfolding run_transaction
  run_transaction-Ensures sd io host argument s b =
      bind-Ensures (or_undefined-Ensures (stoi argument)) λ n _.
        bind-Ensures
          (sprintf-Ensures line_size
            (received_line (fl.seconds io.recv_time) s.transaction_count n host))
          λ line _.
            answer-Ensures sd io host
              (record s { out = s.out ++ worked n ∷ printed (line ++ codes "\n") ∷ [] })
              (record {
                inv = record {
                  counted = b.inv.counted;
                  places = b.inv.places;
                  times = b.inv.times;
                };
                time = b.time;
                known = b.known;
              })

  dispatch-Ensures :
      (sd : ℤ) (io : Io) (host transaction : Bytes) (s : Server)
      → Begun s
      → Ensures Inv (dispatch fl sd io host transaction s)
  unfolding dispatch
  dispatch-Ensures sd io host [] s b = runs b.inv
  dispatch-Ensures sd io host (c ∷ argument) s b =
      if-Ensures (c == b'T') (run_transaction-Ensures sd io host argument s b) (runs b.inv)

  handle_message-Ensures :
      (sd : ℤ) (io : Io) (text : Bytes) (s : Server)
      → Inv s
      → Ensures Inv (handle_message fl sd io text s)
  unfolding handle_message
  handle_message-Ensures sd io text s v =
      dispatch-Ensures sd io (before b',' text) (after b',' text) _
        (count_transaction-Begun (before b',' text) io.recv_time s v)

  serve-Ensures :
      (i : ℕ) (sd : ℤ) (io : Io) (reading : Reading) (s : Server)
      → Inv s
      → Ensures Inv (serve fl i sd io reading s)
  unfolding serve
  serve-Ensures i sd io end_of_file s v = runs (record {
    counted = v.counted;
    places = rw (length-clear_socket i s.client_socket) v.places;
    times = v.times;
  })
  serve-Ensures i sd io failed s v = handle_message-Ensures sd io _ s v
  serve-Ensures i sd io (bytes b) s v =
      handle_message-Ensures sd io _ _
        (record { counted = v.counted; places = v.places; times = v.times })

  ready_socket-Ensures :
      (i : ℕ) (sd : ℤ) (o : Option Io) (s : Server) → Inv s → Ensures Inv (ready_socket fl i sd o s)
  ready_socket-Ensures i sd none s v = runs v
  ready_socket-Ensures i sd (some io) s v = serve-Ensures i sd io io.reading s v

  serve_places-Ensures :
      (n i : ℕ) (fds : List ℤ) (ready : ℤ → Option Io) (s : Server)
      → Inv s
      → Ensures Inv (serve_places fl n i fds ready s)
  unfolding serve_places
  serve_places-Ensures zero i fds ready s v = runs v
  serve_places-Ensures (suc n) i fds ready s v =
      bind-Ensures (or_undefined-Ensures (get_elem? s.client_socket i)) λ sd _.
        bind-Ensures {P = Inv}
          (if-Ensures (contains sd fds) (ready_socket-Ensures i sd (ready sd) s v) (runs v))
          λ t w. serve_places-Ensures n (i + 1) fds ready t w

  summary-Ensures : (s : Server) (a b : Option ℕ) → Ensures Inv (summary fl s a b)
  unfolding summary
  summary-Ensures s (some a) (some b) = exits
  summary-Ensures s (some a) none = faults
  summary-Ensures s none b = faults

  accept_client-Ensures :
      (incoming : Option (Option ℤ)) (quiet : Bool) (s : Server)
      → Inv s
      → Ensures Inv (accept_client fl incoming quiet s)
  unfolding accept_client
  accept_client-Ensures none true s v = summary-Ensures s s.first_time s.last_time
  accept_client-Ensures none false s v = runs v
  accept_client-Ensures (some none) quiet s v = exits
  accept_client-Ensures (some (some fd)) quiet s v = runs (record {
    counted = v.counted;
    places = rw (length-store_socket fd s.client_socket) v.places;
    times = v.times;
  })

  rounds-Ensures : (sels : List Select) (s : Server) → Inv s → Ensures Inv (rounds fl sels s)
  unfolding rounds round
  rounds-Ensures [] s v = runs v
  rounds-Ensures (sel ∷ sels) s v =
      bind-Ensures
        (bind-Ensures (accept_client-Ensures sel.incoming sel.nothing_happened s v)
          λ t w. serve_places-Ensures max_clients 0 (watched s.client_socket) sel.ready t w)
        λ t w. rounds-Ensures sels t w

  set_up-Ensures : (port : ℤ) (p : Setup) (garbage : Bytes) → Ensures Inv (set_up port p garbage)
  unfolding set_up total
  set_up-Ensures port p garbage =
      if-Ensures p.has_hostname
        (if-Ensures _ exits (
          if-Ensures p.bound
            (if-Ensures p.listening (runs (record { counted = refl; places = refl; times = tt }))
              exits)
            exits))
        exits

  -- In every run of the server, whatever its clients send and its calls return, as long as it runs: the
  -- number of transactions is the sum of its clients' numbers in the summary, and it has thirty places for
  -- sockets.
  pub server_rounds-Inv :
      (port : ℤ) (p : Setup) (garbage : Bytes) (sels : List Select) (s : Server)
      → (set_up port p garbage >>= rounds fl sels) ≡ running s
      → (s.transaction_count ≡ total s.client_completed_tasks) × (length s.client_socket ≡ 30)
  server_rounds-Inv port p garbage sels s e =
      let v =
        Ensures-running e
          (bind-Ensures (set_up-Ensures port p garbage) λ t w. rounds-Ensures sels t w) in
      (v.counted, v.places)

  -- The outcome of a round in which the server has timed out, by the times that it knows.
  abbrev pub TimedOut : Server → Option ℕ → Option ℕ → Outcome Server → Type 0
  TimedOut s first none outcome = outcome ≡ undefined
  TimedOut s none (some last) outcome = ⊥
  TimedOut s (some first) (some last) outcome =
      outcome
      ≡ exited 0 (
          s.out
          ++ closes s.master_socket
            ∷ printed (
                codes "\nSUMMARY\n"
                ++ (summary_lines fl s.client_completed_tasks
                    ++ fl.rate_line s.transaction_count first last))
            ∷ [])
