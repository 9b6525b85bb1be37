-- ===== src/Transaction/Tests.antt =====
-- Assignment_3: runs of the server and the client on concrete inputs, and the theorems of the other
-- modules at such inputs.
use Prim.Native.String.{String}
use cmput.Common.{
  ◌≡◌, refl, true, false, List, [], ◌∷◌, ◌++◌, none, some, if◌then◌else◌, ℤ, pos, ◌==ℤ◌, length,
  arith,
}
use cmput.Text.{codes, same, overwrite, find_char}
use cmput.Text.Buffer.{zeroes}
use cmput.Text.Number.{to_string, print_nat, stoi, read_int, strtol, to_int, atoi}
use cmput.Process.{wrote, printed, worked, running, ◌>>=◌, bytes}
use cmput.Transaction.{sprintf}
use cmput.Transaction.Server
use cmput.Transaction.Server.{Setup, serve, rounds, count_transaction}
use cmput.Transaction.Server.State.{store_socket, Server, Doubles, Io, Select}
use cmput.Transaction.Server.Counts.{server_rounds-Inv}
use cmput.Transaction.Server.Sums.{total}
use cmput.Transaction.Client.{request}
use cmput.Transaction.Exchange.{answered, logged, serve-request}

abbrev pub doubles : Doubles
doubles = record { seconds = λ t. codes "1.00"; rate_line = λ n a b. codes "rate\n" }

abbrev sound : Setup
sound = record {
  has_hostname = true;
  socket = pos 3;
  options_set = true;
  non_blocking = true;
  bound = true;
  listening = true;
}

abbrev pub io_of : String → Io
io_of text = record {
  reading = bytes (codes text);
  recv_time = 1000;
  sends = true;
  send_time = 1001;
}

abbrev polls : List Select
polls =
    record { nothing_happened = false; incoming = some (some (pos 5)); ready = λ fd. none }
    ∷ record {
      nothing_happened = false;
      incoming = none;
      ready = λ fd. if fd ==ℤ pos 5 then some (io_of "pc.7,T3") else none;
    }
    ∷ []

abbrev port : ℤ
port = pos 5000

a_port : atoi (codes "5000") ≡ port
unfolding atoi strtol to_int
a_port = refl

-- One client, which has made one transaction.
abbrev served : Server
served = record {
  master_socket = pos 3;
  client_socket =
      store_socket (pos 5) (Server.initial (pos 5000) (pos 3) (zeroes 16)).client_socket;
  transaction_count = 1;
  client_completed_tasks = (codes "pc.7", 1) ∷ [];
  first_time = some 1000;
  last_time = some 1001;
  buffer = overwrite (codes "1") (zeroes 1024);
  out =
      printed (codes "Using port 5000 \n")
      ∷ worked (pos 3)
      ∷ printed (codes "1.00: # 1 (T 3)\tfrom pc.7\n")
      ∷ wrote (pos 5) (codes "1")
      ∷ printed (codes "1.00: # 1 (Done)\tfrom pc.7\n")
      ∷ [];
}

served_runs : (Server.set_up port sound (zeroes 16) >>= rounds doubles polls) ≡ running served
unfolding Server.set_up rounds zeroes to_string find_char read_int same stoi sprintf
served_runs = refl

server_rounds-Inv_example :
    (served.transaction_count ≡ total served.client_completed_tasks)
    × (length served.client_socket ≡ 30)
server_rounds-Inv_example =
    server_rounds-Inv doubles port sound (zeroes 16) polls served served_runs

abbrev quiet : Select
quiet = record { nothing_happened = true; incoming = none; ready = λ fd. none }

abbrev unused : Server
unused = Server.initial port (pos 3) (zeroes 16)

abbrev ready_server : Server
ready_server = record unused { buffer = codes "1" ++ zeroes 1023 }

serve-request_example :
    serve doubles 0
      (pos 5)
      (io_of "")
      (bytes (request (codes "pc.7") (b'T' ∷ to_string (pos 3))))
      ready_server
    ≡ running (
        answered doubles (pos 5) (io_of "") (codes "pc.7") (
          logged doubles
            (pos 5)
            (io_of "")
            (codes "pc.7")
            (pos 3)
            (count_transaction (codes "pc.7") 1000 ready_server)))
unfolding to_string print_nat
serve-request_example =
    serve-request doubles (pos 5) (io_of "") (codes "pc.7") (pos 3) 0 (codes "1") 1023 ready_server
      refl (omega arith) (omega arith) (omega arith) (omega arith) (omega arith) (omega arith) refl
      (omega arith) (omega arith)
