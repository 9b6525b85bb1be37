-- ===== src/Transaction/Session/Lines.antt =====
-- Assignment_3: the messages and log lines of the transactions fit in their buffers.
use cmput.Common.{
  ℕ, zero, suc, ◌+◌, ◌-◌, ◌≤◌, ◌<◌, ◌≡◌, refl, ◌∙◌, ap, [], ◌∷◌, ◌++◌, ℤ, pos, IsInt, length,
  length-append, arith, int_max,
}
use cmput.Text.{Bytes, Lacks, overwrite}
use cmput.Text.Buffer.{zeroes}
use cmput.Text.Number.{to_string, print_nat, to_string-Lacks}
use cmput.Text.Number.Length.{length-to_string}
use cmput.Transaction.Server.{filled, received_line, done_line}
use cmput.Transaction.Server.State.{Server}
use cmput.Transaction.Client.{request, send_line, recv_line}
use cmput.Transaction.Session.{Clean}

overwrite-zeroes : (t : Bytes) (n k : ℕ) → length t + k ≡ n → overwrite t (zeroes n) ≡ t ++ zeroes k
unfolding overwrite zeroes
overwrite-zeroes [] n k h = ap zeroes (omega arith)
overwrite-zeroes (c ∷ t) zero k h = absurd (omega arith)
overwrite-zeroes (c ∷ t) (suc n) k h = ap (λ s. c ∷ s) (overwrite-zeroes t n k (omega arith))

pub length-print_nat : (m : ℕ) → m ≤ int_max → length (print_nat m) ≤ 11
unfolding to_string
length-print_nat m h = length-to_string (pos m) h

print_nat-Lacks : (m : ℕ) → Lacks 0 (print_nat m)
unfolding to_string
print_nat-Lacks m = to_string-Lacks 0 (pos m) refl (ground arith)

pub filled-Clean : (m : ℕ) (s : Server) → m ≤ int_max → s.buffer ≡ filled (print_nat m) → Clean s
filled-Clean m s h e =
    let bound = length-print_nat m h in
    record {
      text = print_nat m;
      zeros = 1024 - length (print_nat m);
      is_buffer =
          e
          ∙ overwrite-zeroes (print_nat m) 1024 (1024 - length (print_nat m))
              (omega (arith, bound));
      no_nul = print_nat-Lacks m;
      short = bound;
      full = omega (arith, bound);
    }

pub received_line-fits :
    (time host : Bytes) (m : ℕ) (n : ℤ)
    → length time ≤ 20
    → m ≤ int_max
    → IsInt n
    → length host ≤ 50
    → length (received_line time m n host) < 128
received_line-fits time host m n ht hm hn hh =
    let count = length-print_nat m hm in
    let number = length-to_string n hn in
    rw (length-append time, length-append (print_nat m), length-append (to_string n))
      (omega (arith, ht, count, number, hh))

pub done_line-fits :
    (time host : Bytes) (m : ℕ)
    → length time ≤ 20
    → m ≤ int_max
    → length host ≤ 50
    → length (done_line time m host) < 128
done_line-fits time host m ht hm hh =
    let count = length-print_nat m hm in
    rw (length-append time, length-append (print_nat m)) (omega (arith, ht, count, hh))

pub send_line-fits :
    (time : Bytes) (n : ℤ) → length time ≤ 20 → IsInt n → length (send_line time n) < 128
send_line-fits time n ht hn =
    let number = length-to_string n hn in
    rw (length-append time, length-append (to_string n)) (omega (arith, ht, number))

pub recv_line-fits :
    (time : Bytes) (n : ℤ) → length time ≤ 20 → IsInt n → length (recv_line time n) < 128
recv_line-fits time n ht hn =
    let number = length-to_string n hn in
    rw (length-append time, length-append (to_string n)) (omega (arith, ht, number))

pub length-request :
    (host : Bytes) (n : ℤ)
    → IsInt n
    → (length host + 2 ≤ length (request host (b'T' ∷ to_string n)))
      × (length (request host (b'T' ∷ to_string n)) ≤ length host + 13)
length-request host n hn =
    let number = length-to_string n hn in
    rw (length-append host) (omega arith, omega (arith, number))
