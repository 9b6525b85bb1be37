-- ===== src/Transaction/Server/Sums.antt =====
-- Assignment_3/server.cpp: the sums over the table of clients, and what one count does to them.
use cmput.Common.{
  ℕ, zero, suc, ◌+◌, ◌≡◌, refl, List, [], ◌∷◌, Option, none, some, ltb, ℤ, length, arith,
}
use cmput.Text.{Bytes}
use cmput.Process.Ensures.{Ensures, runs, faults, if-Ensures}
use cmput.Transaction.{sprintf}
use cmput.Transaction.Server.{count_transaction, clear_socket}
use cmput.Transaction.Server.State.{Tasks, count_task, Server, store_socket}

unfoldable pub total : Tasks → ℕ
total [] = 0
total ((name, n) ∷ m) = n + total m

pub total-count_task : (name : Bytes) (m : Tasks) → total (count_task name m) ≡ total m + 1
unfolding total count_task
total-count_task name [] = omega arith
total-count_task name ((k, n) ∷ m) = ground (arith, total-count_task name m)

abbrev pub Ordered : Option ℕ → Option ℕ → Type 0
Ordered (some first) last = Unit {0}
Ordered none none = Unit {0}
Ordered none (some last) = ⊥

-- The server's count is the sum of its clients', it has thirty places for sockets, and it does not know
-- the time of the last transaction without that of the first.
pub record Inv (s : Server) : Type 0 where
  pub counted : s.transaction_count ≡ total s.client_completed_tasks
  pub places : length s.client_socket ≡ 30
  pub times : Ordered s.first_time s.last_time

-- Behind the count of a transaction the time of the first one is known.
pub record Begun (s : Server) : Type 0 where
  pub inv : Inv s
  pub time : ℕ
  pub known : s.first_time ≡ some time

pub length-store_socket :
    (fd : ℤ) (sockets : List ℤ) → length (store_socket fd sockets) ≡ length sockets
unfolding store_socket
length-store_socket fd [] = refl
length-store_socket fd (sd ∷ sockets) = ground (arith, length-store_socket fd sockets)

pub length-clear_socket :
    (i : ℕ) (sockets : List ℤ) → length (clear_socket i sockets) ≡ length sockets
unfolding clear_socket
length-clear_socket i [] = refl
length-clear_socket zero (sd ∷ sockets) = refl
length-clear_socket (suc i) (sd ∷ sockets) = omega (arith, length-clear_socket i sockets)

pub count_transaction-Begun :
    (host : Bytes) (now : ℕ) (s : Server) → Inv s → Begun (count_transaction host now s)
count_transaction-Begun host now s v = begun s.first_time refl
  where
    counted' : s.transaction_count + 1 ≡ total (count_task host s.client_completed_tasks)
    counted' = omega (arith, v.counted, total-count_task host s.client_completed_tasks)

    begun : (o : Option ℕ) → s.first_time ≡ o → Begun (count_transaction host now s)
    begun none e = record {
      inv = record { counted = counted'; places = v.places; times = rw e tt };
      time = now;
      known = rw e;
    }
    begun (some t) e = record {
      inv = record { counted = counted'; places = v.places; times = rw e tt };
      time = t;
      known = rw e;
    }

pub sprintf-Ensures : (n : ℕ) (text : Bytes) → Ensures (λ line. line ≡ text) (sprintf n text)
unfolding sprintf
sprintf-Ensures n text = if-Ensures (ltb (length text) n) (runs refl) faults
