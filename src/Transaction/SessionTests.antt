-- ===== src/Transaction/SessionTests.antt =====
-- Assignment_3: a client with two transactions.
use cmput.Common.{ℕ, ◌≤◌, ℤ, refl, List, [], ◌∷◌, pos, arith}
use cmput.Text.{codes}
use cmput.Text.Buffer.{zeroes}
use cmput.Transaction.Server.{initial}
use cmput.Transaction.Server.State.{Server}
use cmput.Transaction.Client.{Client}
use cmput.Transaction.Tests.{doubles, io_of}
use cmput.Transaction.Session.{Turn, Clean, IsHost, IsFair, Serving, Ending}
use cmput.Transaction.Session.Runs.{serve_all-commands}

abbrev a_client : Client
a_client = record {
  client_sd = pos 3;
  hostname_pid = codes "machine.17";
  total_transactions = 0;
  out = [];
}

abbrev a_server : Server
a_server = initial (pos 5000) (pos 3) (zeroes 1024)

abbrev turn_of : ℤ → Turn
turn_of n = record { n = n; io = io_of ""; send_time = codes "1.00"; rec_time = codes "1.01" }

abbrev turns : List Turn
turns = turn_of (pos 3) ∷ turn_of (pos 20) ∷ []

machine-IsHost : IsHost a_client.hostname_pid
machine-IsHost = record {
  no_comma = omega arith;
  clean = omega arith;
  at_least = omega arith;
  at_most = omega arith;
}

turn_of-IsFair : (n : ℕ) → n ≤ 100 → IsFair doubles (turn_of (pos n))
turn_of-IsFair n h = record {
  int = omega arith;
  sends = refl;
  recv_short = omega arith;
  send_short = omega arith;
  sent_short = omega arith;
  rec_short = omega arith;
}

a_server-Clean : Clean a_server
a_server-Clean = record {
  text = [];
  zeros = 1024;
  is_buffer = refl;
  no_nul = tt;
  short = omega arith;
  full = omega arith;
}

serve_all-commands_example :
    Serving doubles (pos 5) 0 a_client.hostname_pid turns a_server × Ending 0 turns a_client
serve_all-commands_example =
    serve_all-commands doubles (pos 5) 0 turns a_client a_server machine-IsHost
      (turn_of-IsFair 3 (omega arith), (turn_of-IsFair 20 (omega arith), tt)) a_server-Clean
      (omega arith)
