-- ===== src/Transaction/Exchange.antt =====
-- Assignment_3: a transaction from the client's command to the answer that it prints.
use cmput.Common.{
  ℕ, zero, suc, ◌+◌, ◌≤◌, ◌<◌, ◌≡◌, ◌≢◌, refl, ap, ◌∙◌, true, [], ◌∷◌, ◌++◌, some, ℤ, pos, IsInt,
  length, drop, All-append, append-nil, append_assoc, arith, int_max,
}
use cmput.Text.{Bytes, codes, Lacks, before-append, after-append, c_string, overwrite}
use cmput.Text.Buffer.{zeroes, c_string-overwrite}
use cmput.Text.Number.{to_string, print_nat, stoi-to_string, to_string-Lacks}
use cmput.Process.{wrote, printed, worked, running, bytes}
use cmput.Transaction.{sprintf}
use cmput.Transaction.Server.{
  serve, handle_message, dispatch, run_transaction, answer, count_transaction, received_line,
  done_line, filled,
}
use cmput.Transaction.Server.State.{Server, Doubles, Io}
use cmput.Transaction.Client.{
  Client, Reply, emit, request, command, transaction, receive, send_line, recv_line,
}

sprintf-fits : (n : ℕ) (text : Bytes) → length text < n → sprintf n text ≡ running text
unfolding sprintf
sprintf-fits n text h = ground arith

drop-all : (n : ℕ) (t : Bytes) → length t ≤ n → drop n t ≡ []
drop-all zero [] h = refl
drop-all zero (x ∷ t) h = absurd (omega arith)
drop-all (suc n) [] h = refl
drop-all (suc n) (x ∷ t) h = drop-all n t (omega arith)

request-Lacks : (host : Bytes) (n : ℤ) → Lacks 0 host → Lacks 0 (request host (b'T' ∷ to_string n))
request-Lacks host n clean =
    All-append (λ x. x ≢ 0) host (b',' ∷ b'T' ∷ to_string n) clean
      (ground arith, (ground arith, to_string-Lacks 0 n refl (ground arith)))

module _ (fl : Doubles) (sd : ℤ) (io : Io) (host : Bytes) where
  -- The state behind an answer, and behind a whole transaction.
  abbrev pub answered : Server → Server
  answered s = record s {
    last_time = some io.send_time;
    buffer = filled (print_nat s.transaction_count);
    out =
        s.out
        ++ wrote sd (print_nat s.transaction_count)
          ∷ printed (done_line (fl.seconds io.send_time) s.transaction_count host ++ codes "\n")
          ∷ [];
  }

  abbrev pub logged : ℤ → Server → Server
  logged n s = record s {
    out =
        s.out
        ++ worked n
          ∷ printed
              (received_line (fl.seconds io.recv_time) s.transaction_count n host ++ codes "\n")
          ∷ [];
  }

  answer_sent :
      (s : Server)
      → io.sends ≡ true
      → length (done_line (fl.seconds io.send_time) s.transaction_count host) < 128
      → answer fl sd io host s ≡ running (answered s)
  unfolding answer
  answer_sent s sent fits =
      rw sent
        (rw (sprintf-fits 128 (done_line (fl.seconds io.send_time) s.transaction_count host) fits))

  run_request :
      (n : ℤ) (s : Server)
      → IsInt n
      → io.sends ≡ true
      → length (received_line (fl.seconds io.recv_time) s.transaction_count n host) < 128
      → length (done_line (fl.seconds io.send_time) s.transaction_count host) < 128
      → run_transaction fl sd io host (to_string n) s ≡ running (answered (logged n s))
  unfolding run_transaction
  run_request n s ints sent fits fits' = rw (stoi-to_string n ints) (
      rw
        (sprintf-fits 128 (received_line (fl.seconds io.recv_time) s.transaction_count n host) fits)
        (answer_sent (logged n s) sent fits'))

  -- A request that a client sends, `host,Tn`, arrives over a buffer whose old text is not longer and has
  -- zeroes behind it; the host's name has no comma and no NUL, `send` succeeds and the log lines fit in
  -- their buffers. Then the server counts one transaction, for itself and for that host, runs it with the
  -- number n, and answers with the number of transactions so far.
  pub serve-request :
      (n : ℤ) (i : ℕ) (t : Bytes) (k : ℕ) (s : Server)
      → s.buffer ≡ t ++ zeroes k
      → Lacks 0 t
      → length t ≤ length (request host (b'T' ∷ to_string n))
      → length (request host (b'T' ∷ to_string n)) < length t + k
      → Lacks b',' host
      → Lacks 0 host
      → IsInt n
      → io.sends ≡ true
      → length (received_line (fl.seconds io.recv_time) (s.transaction_count + 1) n host) < 128
      → length (done_line (fl.seconds io.send_time) (s.transaction_count + 1) host) < 128
      → serve fl i sd io (bytes (request host (b'T' ∷ to_string n))) s
        ≡ running (answered (logged n (count_transaction host io.recv_time s)))
  unfolding serve handle_message dispatch
  serve-request n i t k s e nul short room comma clean ints sent fits fits' =
      rw (e, text)
        (rw
          (
            before-append b',' host (b'T' ∷ to_string n) comma,
            after-append b',' host (b'T' ∷ to_string n) comma,
          )
          (run_request n
            (count_transaction host io.recv_time
              (record s { buffer = overwrite msg (t ++ zeroes k) }))
            ints sent fits fits'))
    where
      msg : Bytes
      msg = request host (b'T' ∷ to_string n)

      text : c_string (overwrite msg (t ++ zeroes k)) ≡ msg
      text =
          c_string-overwrite msg t k (request-Lacks host n clean) nul room
            (omega (arith, short, room))
          ∙ (ap (λ r. msg ++ r) (drop-all (length msg) t short) ∙ append-nil msg)

module _ (reply : Reply) (m : ℕ) where
  read_answer :
      length (print_nat m) < 1024 → c_string (overwrite (print_nat m) (zeroes 1024)) ≡ print_nat m
  unfolding print_nat to_string
  read_answer fits =
      c_string-overwrite (print_nat m) [] 1024 (to_string-Lacks 0 (pos m) refl (ground arith)) tt
        fits (omega arith)
      ∙ (ap (λ r. print_nat m ++ r) (drop-all (length (print_nat m)) [] (omega arith))
          ∙ append-nil (print_nat m))

  receive_answer :
      (d : Client)
      → reply.received ≡ some (print_nat m)
      → m ≤ int_max
      → length (print_nat m) < 1024
      → length (recv_line reply.rec_time (pos m)) < 128
      → receive reply d
        ≡ running (emit (printed (recv_line reply.rec_time (pos m) ++ codes "\n") ∷ []) d)
  unfolding receive print_nat to_string
  receive_answer d got small short fits = rw got (
      rw (read_answer short) (
        rw (stoi-to_string (pos m) small)
          (rw (sprintf-fits 128 (recv_line reply.rec_time (pos m)) fits))))

module _ (reply : Reply) (c : Client) (n : ℤ) (m : ℕ) where
  -- The command `Tn`, when the message and the log lines fit in their buffers, `send` succeeds and `recv`
  -- brings the decimal digits of an `int` m: the client counts one transaction, sends `host,Tn`, and
  -- prints that it sent n and that it received m.
  pub command-answer :
      reply.sends ≡ true
      → reply.received ≡ some (print_nat m)
      → IsInt n
      → m ≤ int_max
      → length (print_nat m) < 1024
      → length (request c.hostname_pid (b'T' ∷ to_string n)) < 1024
      → length (send_line reply.send_time n) < 128
      → length (recv_line reply.rec_time (pos m)) < 128
      → command reply (b'T' ∷ to_string n) c
        ≡ running (record c {
          total_transactions = c.total_transactions + 1;
          out =
              c.out
              ++ wrote c.client_sd (request c.hostname_pid (b'T' ∷ to_string n))
                ∷ printed (send_line reply.send_time n ++ codes "\n")
                ∷ printed (recv_line reply.rec_time (pos m) ++ codes "\n")
                ∷ [];
        })
  unfolding command transaction
  command-answer sent got ints small short fits fits' fits'' =
      rw (sprintf-fits 1024 (request c.hostname_pid (b'T' ∷ to_string n)) fits) (
        rw sent (
          rw (stoi-to_string n ints) (
            rw (sprintf-fits 128 (send_line reply.send_time n) fits') (
              receive_answer (record reply { sends = true }) m _ got small short fits''
              ∙ ap running (rw (append_assoc c.out))))))
