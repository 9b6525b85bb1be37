-- ===== src/Transaction/Session.antt =====
-- Assignment_3: a client with several transactions, and the server that serves them.
pub mod Lines
pub mod Runs
use cmput.Common.{ℕ, ◌+◌, ◌≤◌, ◌≡◌, true, List, [], ◌∷◌, ◌++◌, map, some, ℤ, IsInt, length}
use cmput.Text.{Bytes, codes, Lacks}
use cmput.Text.Buffer.{zeroes}
use cmput.Text.Number.{to_string, print_nat}
use cmput.Process.{Event, printed, closes, worked, Outcome, running, exited, ◌>>=◌, bytes}
use cmput.Process.Sent.{sent}
use cmput.Transaction.Server.{serve}
use cmput.Transaction.Server.State.{Server, Doubles, Io}
use cmput.Transaction.Client.{Client, Reply, request, commands}

-- One transaction `Tn`: what the calls bring on the server's side, and the client's two times.
pub record Turn : Type 0 where
  pub n : ℤ
  pub io : Io
  pub send_time : Bytes
  pub rec_time : Bytes

-- The client's line, and what its calls bring when the server answers `m`.
abbrev pub line_with : ℕ → Turn → Bytes × Reply
line_with m t = (
  b'T' ∷ to_string t.n,
  record {
    sends = true;
    send_time = t.send_time;
    received = some (print_nat m);
    rec_time = t.rec_time;
  },
)

-- The lines when the server has counted `m` transactions before.
abbrev pub lines_from : ℕ → List Turn → List (Bytes × Reply)
lines_from m [] = []
lines_from m (t ∷ ts) = line_with (m + 1) t ∷ lines_from (m + 1) ts

-- The answers of the server that has counted `m` transactions before, and the requests of the client.
abbrev pub answers_from : ℤ → ℕ → List Turn → List (ℤ × Bytes)
answers_from sd m [] = []
answers_from sd m (t ∷ ts) = (sd, print_nat (m + 1)) ∷ answers_from sd (m + 1) ts

abbrev pub requests : Client → List Turn → List (ℤ × Bytes)
requests c ts = map (λ (t : Turn). (c.client_sd, request c.hostname_pid (b'T' ∷ to_string t.n))) ts

-- The transactions that are run.
abbrev pub work_of : Event → List ℤ
work_of (worked n) = n ∷ []
work_of _ = []

abbrev pub work : List Event → List ℤ
work [] = []
work (e ∷ out) = work_of e ++ work out

-- The server's buffer holds a short text with zeroes behind it.
pub record Clean (s : Server) : Type 0 where
  pub text : Bytes
  pub zeros : ℕ
  pub is_buffer : s.buffer ≡ text ++ zeroes zeros
  pub no_nul : Lacks 0 text
  pub short : length text ≤ 11
  pub full : length text + zeros ≡ 1024

-- The name of a client: no comma and no NUL, and from 9 to 50 bytes.
pub record IsHost (host : Bytes) : Type 0 where
  pub no_comma : Lacks b',' host
  pub clean : Lacks 0 host
  pub at_least : 9 ≤ length host
  pub at_most : length host ≤ 50

module _ (fl : Doubles) where
  -- The number is an `int`, the server's `send` succeeds, and the times print in at most twenty bytes.
  pub record IsFair (t : Turn) : Type 0 where
    pub int : IsInt t.n
    pub sends : t.io.sends ≡ true
    pub recv_short : length (fl.seconds t.io.recv_time) ≤ 20
    pub send_short : length (fl.seconds t.io.send_time) ≤ 20
    pub sent_short : length t.send_time ≤ 20
    pub rec_short : length t.rec_time ≤ 20

  module _ (sd : ℤ) (i : ℕ) (host : Bytes) where
    -- The server serves the requests of the client, one after the other.
    abbrev pub serve_all : List Turn → Server → Outcome Server
    serve_all [] s = running s
    serve_all (t ∷ ts) s =
        serve fl i sd t.io (bytes (request host (b'T' ∷ to_string t.n))) s >>= serve_all ts

    -- What serving the requests does.
    abbrev pub Serving : List Turn → Server → Type 0
    Serving ts s =
        (s' : Server) × (serve_all ts s ≡ running s')
        × (s'.transaction_count ≡ s.transaction_count + length ts)
        × (sent s'.out ≡ sent s.out ++ answers_from sd s.transaction_count ts)
        × (work s'.out ≡ work s.out ++ map (λ (t : Turn). t.n) ts)

-- How the client ends when the server has counted `m` transactions before.
abbrev pub Ending : ℕ → List Turn → Client → Type 0
Ending m ts c =
    (out : List Event) × (commands (lines_from m ts) c
      ≡ exited 0 (
          out
          ++ closes c.client_sd
            ∷ printed (
                codes "Sent "
                ++ (print_nat (c.total_transactions + length ts) ++ codes " transactions\n"))
            ∷ []))
    × (sent out ≡ sent c.out ++ requests c ts)
