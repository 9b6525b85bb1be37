-- ===== src/Transaction/Client.antt =====
-- Assignment_3/client.cpp: the client, which reads its commands line by line.
use cmput.Common.{ℕ, ◌+◌, Bool, List, [], ◌∷◌, ◌++◌, Option, none, some, ◌==◌, if◌then◌else◌, ℤ}
use cmput.Text.{Bytes, codes, c_string, overwrite}
use cmput.Text.Number.{to_string, print_nat, stoi}
use cmput.Text.Buffer.{zeroes}
use cmput.Process.{
  Event, wrote, printed, closes, idled, Outcome, running, exited, undefined, ◌>>=◌, or_undefined,
}
use cmput.Transaction.{line_size, buffer_size, sprintf}

pub record Client : Type 0 where
  pub client_sd : ℤ
  pub hostname_pid : Bytes
  pub total_transactions : ℕ
  pub out : List Event

-- What the calls for one command bring: `send`, the clock, `recv` (`none` if it fails) and the clock. The
-- times are given as `"%.2f"` prints their seconds.
pub record Reply : Type 0 where
  pub sends : Bool
  pub send_time : Bytes
  pub received : Option Bytes
  pub rec_time : Bytes

abbrev pub emit : List Event → Client → Client
emit es c = record c { out = c.out ++ es }

-- The message of a transaction: the client's name, a comma and the command.
abbrev pub request : Bytes → Bytes → Bytes
request host line = host ++ b',' ∷ line

abbrev pub send_line : Bytes → ℤ → Bytes
send_line time n = time ++ (codes ": Send (T " ++ (to_string n ++ codes ")"))

abbrev pub recv_line : Bytes → ℤ → Bytes
recv_line time n = time ++ (codes ": Recv (D " ++ (to_string n ++ codes ")"))

-- The answer, in a cleared buffer; `stoi` throws without a number, as behind the server's end.
unfoldable pub receive : Reply → Client → Outcome Client
unfolding stoi c_string overwrite zeroes
receive reply c = elim reply.received [
  | none ↦ exited 1 c.out
  | some answer ↦ do
    n ← or_undefined (stoi (c_string (overwrite answer (zeroes buffer_size))))
    line ← sprintf line_size (recv_line reply.rec_time n)
    running (emit (printed (line ++ codes "\n") ∷ []) c)
]

-- `T` and a number: the request is sent, logged and waited for.
unfoldable pub transaction : Reply → Bytes → Client → Outcome Client
unfolding receive
transaction reply argument c =
    let counted = record c { total_transactions = c.total_transactions + 1 } in
    do
      msg ← sprintf buffer_size (request c.hostname_pid (b'T' ∷ argument))
      if reply.sends
          then (or_undefined (stoi argument) >>= λ n.
              sprintf line_size (send_line reply.send_time n) >>= λ line.
              receive reply
                (emit (wrote c.client_sd msg ∷ printed (line ++ codes "\n") ∷ []) counted))
          else exited 1 counted.out

-- `S` and a number
unfoldable pub pause : Bytes → Client → Outcome Client
unfolding stoi
pause argument c = do
  n ← or_undefined (stoi argument)
  running (emit (printed (codes "Sleep " ++ (argument ++ codes " units\n")) ∷ idled n ∷ []) c)

-- One line of the input; what is no transaction and no pause is ignored.
unfoldable pub command : Reply → Bytes → Client → Outcome Client
unfolding transaction pause
command reply [] c = running c
command reply (k ∷ argument) c =
    if k == b'T'
    then transaction reply argument c
    else if k == b'S'
    then pause argument c
    else running c

-- The loop over the lines, and the end of the client.
unfoldable pub commands : List (Bytes × Reply) → Client → Outcome Client
unfolding command
commands [] c = exited 0 (
    c.out
    ++ closes c.client_sd
      ∷ printed (codes "Sent " ++ (print_nat c.total_transactions ++ codes " transactions\n"))
      ∷ [])
commands ((line, reply) ∷ rest) c = do d ← command reply line c; commands rest d

-- The calls before the loop: `gethostname`, whether the server's name is found (`host` is a null pointer
-- else), `socket` and `connect`.
pub record Setup : Type 0 where
  pub has_hostname : Bool
  pub found : Bool
  pub client_sd : ℤ
  pub connected : Bool

-- `client` up to its loop. Without a connection it returns -1, and `main` returns 0 all the same.
unfoldable pub set_up : ℤ → Bytes → Bytes → ℤ → Setup → Outcome Client
set_up port server_ip hostname pid p =
    let host = hostname ++ (codes "." ++ to_string pid) in
    if p.has_hostname
    then if p.found
      then if p.connected
        then running (record {
          client_sd = p.client_sd;
          hostname_pid = host;
          total_transactions = 0;
          out =
              printed (
                codes "Using port "
                ++ (to_string port
                    ++ (codes "\nUsing server address "
                        ++ (server_ip ++ (codes "\nHost " ++ (host ++ codes "\n"))))))
              ∷ [];
        })
        else exited 0 (printed (codes "Error connecting to socket!\n") ∷ [])
      else undefined
    else exited 1 []
