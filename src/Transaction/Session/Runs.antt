-- ===== src/Transaction/Session/Runs.antt =====
-- Assignment_3: runs of a client and the server over several transactions.
use cmput.Common.{
  ℕ, ◌+◌, ◌≤◌, ◌≡◌, refl, sym, ◌∙◌, ap, List, [], ◌∷◌, ◌++◌, ℤ, pos, length, All, append_assoc,
  append-nil, arith, int_max,
}
use cmput.Text.{Bytes, codes}
use cmput.Text.Number.{to_string}
use cmput.Process.{Event, wrote, printed, running, ◌>>=◌, bytes}
use cmput.Process.Sent.{sent, sent-append}
use cmput.Transaction.Server.{serve, count_transaction}
use cmput.Transaction.Server.State.{Server, Doubles}
use cmput.Transaction.Client.{Client, request, command, commands, send_line, recv_line}
use cmput.Transaction.Exchange.{answered, logged, serve-request, command-answer}
use cmput.Transaction.Session.{
  Turn, line_with, work_of, work, Clean, IsHost, IsFair, serve_all, Serving, Ending,
}
use cmput.Transaction.Session.Lines.{
  length-print_nat, filled-Clean, received_line-fits, done_line-fits, send_line-fits,
  recv_line-fits, length-request,
}

work-append : (out es : List Event) → work (out ++ es) ≡ work out ++ work es
work-append [] es = refl
work-append (e ∷ out) es =
    ap (λ tail. work_of e ++ tail) (work-append out es)
    ∙ sym (append_assoc (work_of e) (work out) (work es))

module _ (fl : Doubles) (sd : ℤ) (i : ℕ) (host : Bytes) (named : IsHost host) where
  -- The server behind one request.
  abbrev behind : Turn → Server → Server
  behind t s =
      answered fl sd t.io host
        (logged fl sd t.io host t.n (count_transaction host t.io.recv_time s))

  serve-behind :
      (t : Turn) (s : Server)
      → IsFair fl t
      → Clean s
      → s.transaction_count + 1 ≤ int_max
      → serve fl i sd t.io (bytes (request host (b'T' ∷ to_string t.n))) s ≡ running (behind t s)
  serve-behind t s fair c small =
      let size = length-request host t.n fair.int in
      serve-request fl sd t.io host t.n i c.text c.zeros s c.is_buffer c.no_nul
        (omega (arith, c.short, size, named.at_least)) (omega (arith, c.full, size, named.at_most))
        named.no_comma named.clean fair.int fair.sends
        (received_line-fits _ host (s.transaction_count + 1) t.n fair.recv_short small fair.int
          named.at_most)
        (done_line-fits _ host (s.transaction_count + 1) fair.send_short small named.at_most)

  serve_all-Serving :
      (ts : List Turn) (s : Server)
      → All (IsFair fl) ts
      → Clean s
      → s.transaction_count + length ts ≤ int_max
      → Serving fl sd i host ts s
  serve_all-Serving [] s fair c small =
      (s, refl, omega arith, sym (append-nil (sent s.out)), sym (append-nil (work s.out)))
  serve_all-Serving (t ∷ ts) s (fair, fairs) c small =
      let u = behind t s in
      let (s', e, count, answers, works) =
        serve_all-Serving ts u fairs
          (filled-Clean (s.transaction_count + 1) u (omega (arith, small)) refl)
          (omega (arith, small)) in
      (
        s',
        ap (λ m. m >>= serve_all fl sd i host ts) (serve-behind t s fair c (omega (arith, small)))
            ∙ e,
        omega (arith, count),
        rw (answers, sent-append, append_assoc, sent-append s.out, append-nil) refl,
        rw (works, work-append, append_assoc, work-append s.out, append_assoc) refl,
      )

module _ (m : ℕ) (c : Client) (t : Turn) where
  -- The client behind one command.
  abbrev onward : Client
  onward = record c {
    total_transactions = c.total_transactions + 1;
    out =
        c.out
        ++ wrote c.client_sd (request c.hostname_pid (b'T' ∷ to_string t.n))
          ∷ printed (send_line t.send_time t.n ++ codes "\n")
          ∷ printed (recv_line t.rec_time (pos m) ++ codes "\n")
          ∷ [];
  }

  command-onward :
      (fl : Doubles)
      → IsFair fl t
      → IsHost c.hostname_pid
      → m ≤ int_max
      → command (line_with m t).1 (line_with m t).0 c ≡ running onward
  command-onward fl fair named small =
      let size = length-request c.hostname_pid t.n fair.int in
      command-answer (line_with m t).1 c t.n m refl refl fair.int small
        (let bound = length-print_nat m small in omega (arith, bound))
        (omega (arith, size, named.at_most))
        (send_line-fits t.send_time t.n fair.sent_short fair.int)
        (recv_line-fits t.rec_time (pos m) fair.rec_short small)

commands-Ending :
    (fl : Doubles) (m : ℕ) (ts : List Turn) (c : Client)
    → All (IsFair fl) ts
    → IsHost c.hostname_pid
    → m + length ts ≤ int_max
    → Ending m ts c
unfolding commands
commands-Ending fl m [] c fair named small = (c.out, rw (total) refl, sym (append-nil (sent c.out)))
  where
    total : c.total_transactions + 0 ≡ c.total_transactions
    total = omega arith
commands-Ending fl m (t ∷ ts) c (fair, fairs) named small =
    let (out, e, requested) =
      commands-Ending fl (m + 1) ts (onward (m + 1) c t) fairs named (omega (arith, small)) in
    let total : c.total_transactions + 1 + length ts ≡ c.total_transactions + length (t ∷ ts) =
      omega arith in
    (
      out,
      rw (command-onward (m + 1) c t fl fair named (omega (arith, small)), e, total) refl,
      rw (requested, sent-append, append_assoc) refl,
    )

-- A client whose name has from 9 to 50 bytes, with no comma and no NUL, makes the transactions `Tn` of a list one
-- after the other, and a server whose buffer holds a short text and zeroes serves their requests; the numbers are
-- of type `int`, the calls of `send` succeed, `recv` brings the client what the server wrote, times print in at most twenty
-- bytes, and the server's count stays within `int`. Then the server runs exactly these transactions in their
-- order, counts each once, and answers each with its count so far; the client writes exactly the
-- requests that the server serves, and ends with code 0 and the number of its transactions.
pub serve_all-commands :
    (fl : Doubles) (sd : ℤ) (i : ℕ) (ts : List Turn) (c : Client) (s : Server)
    → IsHost c.hostname_pid
    → All (IsFair fl) ts
    → Clean s
    → s.transaction_count + length ts ≤ int_max
    → Serving fl sd i c.hostname_pid ts s × Ending s.transaction_count ts c
serve_all-commands fl sd i ts c s named fair clean small = (
  serve_all-Serving fl sd i c.hostname_pid named ts s fair clean small,
  commands-Ending fl s.transaction_count ts c fair named small,
)
