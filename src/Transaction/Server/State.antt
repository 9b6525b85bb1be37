-- ===== src/Transaction/Server/State.antt =====
-- Assignment_3/server.cpp: the variables of the server, its table of clients and what the calls bring.
use cmput.Common.{
  ℕ, ◌+◌, Bool, true, false, ◌&&◌, ◌||◌, List, [], ◌∷◌, ◌++◌, Option, ◌==◌, ltb, if◌then◌else◌, ℤ,
  pos, ◌==ℤ◌,
}
use cmput.Text.{Bytes, same}
use cmput.Process.{Event, Reading}

abbrev pub max_clients : ℕ
max_clients = 30

-- `map<string, int>` of the transactions of each client, in the order of the clients' names
abbrev pub Tasks : Type 0
Tasks = List (Bytes × ℕ)

-- `<` on strings
unfoldable pub earlier : Bytes → Bytes → Bool
earlier [] [] = false
earlier [] (y ∷ ys) = true
earlier (x ∷ xs) [] = false
earlier (x ∷ xs) (y ∷ ys) = ltb x y || (x == y && earlier xs ys)

-- `client_completed_tasks[name]++`
unfoldable pub count_task : Bytes → Tasks → Tasks
unfolding earlier same
count_task name [] = (name, 1) ∷ []
count_task name ((k, n) ∷ m) =
    let later = (k, n) ∷ count_task name m in
    if earlier name k then (name, 1) ∷ (k, n) ∷ m else if same k name then (k, n + 1) ∷ m else later

-- The variables of `server`. `first_time` is `none` as long as `first` is true, and `last_time` as long as
-- it is not set.
pub record Server : Type 0 where
  pub master_socket : ℤ
  pub client_socket : List ℤ
  pub transaction_count : ℕ
  pub client_completed_tasks : Tasks
  pub first_time : Option ℕ
  pub last_time : Option ℕ
  pub buffer : Bytes
  pub out : List Event

-- How the library prints doubles: `"%.2f"` of a time in milliseconds divided by 1000, and the last line of
-- the summary from the count and the first and last time.
pub record Doubles : Type 0 where
  pub seconds : ℕ → Bytes
  pub rate_line : ℕ → ℕ → ℕ → Bytes

-- What the calls for one client's socket bring: `read`, the clock, `send`, and the clock again.
pub record Io : Type 0 where
  pub reading : Reading
  pub recv_time : ℕ
  pub sends : Bool
  pub send_time : ℕ

-- What `select` brings: nothing within the timeout, or the connection on the master socket if there is one
-- (`none` inside if `accept` fails) and, for the descriptors that it reports, what the calls bring.
pub record Select : Type 0 where
  pub nothing_happened : Bool
  pub incoming : Option (Option ℤ)
  pub ready : ℤ → Option Io

abbrev pub emit : Event → Server → Server
emit e s = record s { out = s.out ++ e ∷ [] }

-- A new socket goes to the first empty place; without one it is kept nowhere.
unfoldable pub store_socket : ℤ → List ℤ → List ℤ
store_socket fd [] = []
store_socket fd (sd ∷ sockets) =
    let later = sd ∷ store_socket fd sockets in if sd ==ℤ pos 0 then fd ∷ sockets else later
