-- ===== src/Shell.antt =====
-- Assignment_1/2022F/Commands.cpp, Process.cpp and Shell.cpp: a shell that keeps a table of the processes
-- it has started. What the system does is the argument `Sys`.
pub mod Tasks
pub mod Invariant
pub mod Commands
pub mod Child
mod Tests
pub mod State
pub mod Jobs
use cmput.Common.{
  ℕ, ◌-◌, ◌%◌, ◌^◌, Bool, true, false, not, List, [], ◌∷◌, ◌++◌, Option, none, some, if◌then◌else◌,
  ltb, leb, ℤ, pos, negsuc, ltb_ℤ, length,
}
use cmput.Text.{Bytes, codes, same, words}
use cmput.Text.Number.{to_string, stoi}
use cmput.Process.{
  Event, printed, signalled, forked, waited, slept, sigkill, sigcont, sigstop, Outcome, running,
  exited, undefined, ◌>>=◌, or_undefined,
}
use cmput.Shell.Tasks.{Task, Table, get_process, emplace, erase, set_running}
use cmput.Shell.State.{line_length, max_pt_entries, max_args, max_length, Shell, Sys, emit, say}
use cmput.Shell.Jobs.{print_cpu_time, list_jobs}

-- The kills of `exit`, in the order of the table.
unfoldable pub kills : Table → List Event
kills [] = []
kills ((k, t) ∷ m) = signalled t.pid sigkill ∷ kills m

unfoldable pub exit_shell : Sys → Shell → Outcome Shell
unfolding kills print_cpu_time
exit_shell sys s = exited 1 (
    s.out ++ (kills s.processes ++ printed (codes "Resources used: \n" ++ print_cpu_time sys) ∷ []))

abbrev pub not_found : ℤ → Bytes
not_found pid = codes "Can not find pid " ++ (to_string pid ++ codes " \n")

-- The argument of a command that takes one process: its number, or the error message that is printed.
-- `stoi` throws where the argument is no number.
unfoldable pub with_process : Bytes → List Bytes → (ℤ → Shell → Shell) → Shell → Outcome Shell
unfolding get_process stoi
with_process message (name ∷ argument ∷ []) f s = do
  pid ← or_undefined (stoi argument)
  running (elim (get_process pid s.processes) [ none ↦ say (not_found pid) s | some t ↦ f pid s ])
with_process message _ f s = running (say message s)

abbrev pub kill_process : ℤ → Shell → Shell
kill_process pid s = record s {
  processes = erase pid s.processes;
  out = s.out ++ signalled pid sigkill ∷ [];
}

abbrev pub resume_process : ℤ → Shell → Shell
resume_process pid s = record s {
  processes = set_running pid true s.processes;
  out = s.out ++ signalled pid sigcont ∷ [];
}

abbrev pub suspend_process : ℤ → Shell → Shell
suspend_process pid s = record s {
  processes = set_running pid false s.processes;
  out = s.out ++ signalled pid sigstop ∷ [];
}

unfoldable pub wait_process : Sys → ℤ → Shell → Shell
unfolding erase
wait_process sys pid s =
    let waiting = emit (waited pid) s in
    if ltb_ℤ (pos 0) (sys.waitpid pid)
    then record waiting { processes = erase pid s.processes }
    else waiting

unfoldable pub kill : List Bytes → Shell → Outcome Shell
unfolding with_process erase
kill tokens = with_process (codes "Invalid argment size for kill. \n") tokens kill_process

unfoldable pub resume : List Bytes → Shell → Outcome Shell
unfolding with_process set_running
resume tokens = with_process (codes "Invalid argment size for resume. \n") tokens resume_process

unfoldable pub suspend : List Bytes → Shell → Outcome Shell
unfolding with_process set_running
suspend tokens = with_process (codes "Invalid argment size for suspend. \n") tokens suspend_process

unfoldable pub wait : Sys → List Bytes → Shell → Outcome Shell
unfolding with_process wait_process
wait sys tokens =
    with_process (codes "Invalid argment size for suspend. \n") tokens (wait_process sys)

-- The `unsigned` that `sleep` takes.
abbrev to_unsigned : ℤ → ℕ
to_unsigned (pos n) = n % 2 ^ 32
to_unsigned (negsuc n) = 2 ^ 32 - 1 - n % 2 ^ 32

unfoldable pub sleep : List Bytes → Shell → Outcome Shell
unfolding stoi
sleep (name ∷ argument ∷ rest) s = do
  seconds ← or_undefined (stoi argument)
  running (emit (slept (to_unsigned seconds)) s)
sleep _ s = running (say (codes "Missing time argument. \n") s)

-- The last token is "&", and there is one before it.
unfoldable pub in_background : List Bytes → Bool
unfolding same
in_background [] = false
in_background (t ∷ []) = false
in_background (t ∷ u ∷ []) = same u (codes "&")
in_background (t ∷ u ∷ v ∷ rest) = in_background (u ∷ v ∷ rest)

-- `cmdStr`: the tokens, a blank before each
unfoldable pub joined : List Bytes → Bytes
joined [] = []
joined (t ∷ tokens) = codes " " ++ (t ++ joined tokens)

abbrev pub new_task : ℤ → List Bytes → Task
new_task pid tokens = record { pid = pid; cmd = joined tokens; running = true }

-- `run` in the shell itself, the parent of the process that `fork` makes; `Child` has the child.
unfoldable pub run : Sys → List Bytes → Shell → Outcome Shell
unfolding emplace erase in_background joined
run sys tokens s =
    let started = record s {
      processes = emplace sys.fork (new_task sys.fork tokens) s.processes;
      out = s.out ++ forked sys.fork ∷ [];
    } in
    if leb max_pt_entries (length s.processes)
    then running (say (codes "More processes than allowed. \n") s)
    else if ltb_ℤ sys.fork (pos 0)
    then exited 1 (s.out ++ printed (codes "Error: Could not fork\n") ∷ [])
    else if in_background tokens
    then running started
    else running
        (record (emit (waited sys.fork) started) { processes = erase sys.fork started.processes })

unfoldable pub check_lengths : List Bytes → Option Bytes
check_lengths [] = none
check_lengths (t ∷ rest) =
    if ltb max_length (length t)
    then some (codes "Argument is too long. \n")
    else check_lengths rest

-- The message that `checkTokenSize` prints, or `none` where it returns true.
unfoldable pub check_token_size : List Bytes → Option Bytes
unfolding check_lengths
check_token_size tokens =
    if ltb max_args (length tokens)
    then some (codes "Too many arguments. \n")
    else check_lengths tokens

abbrev new_line : Bytes
new_line = codes "\n"

-- The command that the first token names; a line without tokens throws at `tokens.at(0)`.
unfoldable pub dispatch : Sys → List Bytes → Shell → Outcome Shell
unfolding exit_shell list_jobs kill resume sleep suspend wait run same
dispatch sys [] s = undefined
dispatch sys (name ∷ args) s =
    if same name (codes "exit")
    then exit_shell sys (say new_line s)
    else if same name (codes "jobs")
    then running (list_jobs sys (say new_line s))
    else if same name (codes "kill")
    then kill (name ∷ args) (say new_line s)
    else if same name (codes "resume")
    then resume (name ∷ args) (say new_line s)
    else if same name (codes "sleep")
    then sleep (name ∷ args) s
    else if same name (codes "suspend")
    then suspend (name ∷ args) (say new_line s)
    else if same name (codes "wait")
    then (wait sys (name ∷ args) s >>= λ t. running (say new_line t))
    else run sys (name ∷ args) s

abbrev checked : Sys → List Bytes → Option Bytes → Shell → Outcome Shell
checked sys tokens none s = dispatch sys tokens s
checked sys tokens (some message) s = running (say message s)

unfoldable pub functions : Sys → Bytes → Shell → Outcome Shell
unfolding dispatch check_token_size words
functions sys cmd s =
    if ltb line_length (length cmd)
    then running (say (codes "Maximum line is 100 characters \n") s)
    else checked sys (words cmd) (check_token_size (words cmd)) s

-- One round of `main`; at the end of the input `getline` leaves the line empty.
unfoldable pub step : Sys → Bytes → Shell → Outcome Shell
unfolding functions
step sys [] s = running (say (codes "Shell379: Empty command\n") s)
step sys (c ∷ cmd) s = functions sys (c ∷ cmd) (say (codes "Shell379: ") s)

unfoldable pub steps : List (Sys × Bytes) → Shell → Outcome Shell
unfolding step
steps [] s = running s
steps ((sys, cmd) ∷ rest) s = do t ← step sys cmd s; steps rest t
