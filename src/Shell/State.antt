-- ===== src/Shell/State.antt =====
-- Assignment_1/2022F: the limits of the shell, its state and what the system does.
use cmput.Common.{ℕ, List, [], ◌∷◌, ◌++◌, ℤ}
use cmput.Text.{Bytes}
use cmput.Process.{Event, printed}
use cmput.Shell.Tasks.{Table}

abbrev pub line_length : ℕ
line_length = 100

abbrev pub max_pt_entries : ℕ
max_pt_entries = 32

abbrev pub max_args : ℕ
max_args = 7

abbrev pub max_length : ℕ
max_length = 20

pub record Shell : Type 0 where
  pub processes : Table
  pub out : List Event

-- One command's view of the system: what `fork` returns to the parent, what `waitpid` returns for a
-- process, the seconds that `ps` gives for one, and the user and system seconds of `getrusage`.
pub record Sys : Type 0 where
  pub fork : ℤ
  pub waitpid : ℤ → ℤ
  pub run_time : ℤ → ℤ
  pub user_time : ℤ
  pub sys_time : ℤ

abbrev pub emit : Event → Shell → Shell
emit e s = record s { out = s.out ++ e ∷ [] }

abbrev pub say : Bytes → Shell → Shell
say text s = emit (printed text) s
