-- ===== src/Msh.antt =====
-- Assignment_1/msh379.cpp (and its copy in 2022W): a shell that keeps a list of the tasks it has started.
-- What the system does for one command is the argument `Sys`.
pub mod Check
pub mod Descent
pub mod Tasks
pub mod Commands
mod Tests
use cmput.Common.{
  ℕ, zero, suc, ◌+◌, Bool, true, false, List, [], ◌∷◌, ◌++◌, Option, none, some, if◌then◌else◌,
  ◌==◌, ltb, ℤ, pos, negsuc, ◌==ℤ◌, length, drop, get_elem?,
}
use cmput.Text.{Bytes, codes, same, before, words}
use cmput.Text.Number.{to_string, print_nat, stoi}
use cmput.Process.{
  Event, printed, signalled, forked, Signal, sigkill, sigcont, sigstop, Outcome, running, exited,
  undefined, ◌>>=◌, or_undefined,
}
use cmput.Msh.Check.{check}

abbrev pub max_tasks : ℕ
max_tasks = 32

pub record Task : Type 0 where
  pub index : ℕ
  pub pid : ℤ
  pub cmd : Bytes
  pub running : Bool

pub record Msh : Type 0 where
  pub task_index : ℕ
  pub all_tasks : List Task
  pub out : List Event

-- What the calls of one command bring: `fork` in the parent, `$HOME` if it is set, whether `chdir` to a path
-- succeeds, the working directory behind it, what `ps` writes, in the pieces that `fgets` returns, and the text of the times
-- that is printed at the end.
pub record Sys : Type 0 where
  pub fork : ℤ
  pub home : Option Bytes
  pub changes : Bytes → Bool
  pub cwd : Bytes
  pub ps : List Bytes
  pub times : Bytes

abbrev pub say : Bytes → Msh → Msh
say text s = record s { out = s.out ++ printed text ∷ [] }

-- `chdir`, and the message
unfoldable pub go_to : Sys → Bytes → Msh → Msh
go_to sys target s =
    if sys.changes target
    then say (codes "cdir: done (pathname= " ++ (sys.cwd ++ codes ") \n")) s
    else say (codes "cdir: failed (pathname= " ++ (target ++ codes ") \n")) s

-- `cdir`: `$HOME` at the front stands for the directory.
unfoldable pub change_directory : Sys → Bytes → Msh → Outcome Msh
unfolding before same go_to
change_directory sys path s = do
  home ← or_undefined sys.home
  running
      (go_to sys (if same (before b'/' path) (codes "$HOME") then home ++ drop 5 path else path) s)

abbrev task_line : Task → Bytes
task_line t =
    print_nat t.index
    ++ (codes ": (pid: " ++ (to_string t.pid ++ (codes " cmd:" ++ (t.cmd ++ codes ")\n"))))

unfoldable pub list_tasks : List Task → Bytes
list_tasks [] = []
list_tasks (t ∷ tasks) =
    let rest = list_tasks tasks in if t.running then task_line t ++ rest else rest

-- `cmdStr`: the tokens behind the first, a blank before each
unfoldable pub joined : List Bytes → Bytes
joined [] = []
joined (t ∷ tokens) = codes " " ++ (t ++ joined tokens)

abbrev pub new_task : ℕ → ℤ → List Bytes → Task
new_task index pid args = record { index = index; pid = pid; cmd = joined args; running = true }

-- `run` in the shell itself, the parent of the process that `fork` makes
unfoldable pub run : Sys → List Bytes → Msh → Msh
unfolding joined
run sys args s =
    if length args == 0
    then say (codes "Error: Missing args\n") s
    else if ltb 5 (length args)
    then say (codes "Error: Too many args\n") s
    else if ltb max_tasks s.task_index
    then say (codes "Error: Too many jobs\n") s
    else if sys.fork ==ℤ negsuc 0
    then say (codes "Error: Could not fork\nError: Issue running command\n") s
    else record s {
      task_index = s.task_index + 1;
      all_tasks = s.all_tasks ++ new_task s.task_index sys.fork args ∷ [];
      out = s.out ++ forked sys.fork ∷ [];
    }

-- The child of `run` becomes the program, or prints an error and goes on as a second shell.
pub data Child : Type 0 where
  becomes : List Bytes → Child
  goes_on : Bytes → Child

unfoldable pub child : (Bytes → Bool) → List Bytes → Child
child finds [] = goes_on (codes "Error: Issue running command\n")
child finds (program ∷ args) =
    if finds program
    then becomes (program ∷ args)
    else goes_on (codes "Error: Issue running command\n")

-- The task of a number: `taskNo < allTasks.size()` compares unsigned numbers, so a negative one is too
-- large.
unfoldable pub find_task : ℤ → List Task → Option Task
find_task (pos n) tasks = get_elem? tasks n
find_task (negsuc n) tasks = none

-- A command on one task. `stoi` throws where the argument is no number.
unfoldable pub with_task : Bytes → List Bytes → (ℤ → Task → Msh → Msh) → Msh → Outcome Msh
unfolding find_task stoi
with_task verb [] f s = running (say (codes "Error: No task number\n") s)
with_task verb (argument ∷ []) f s = do
  number ← or_undefined (stoi argument)
  running (elim (find_task number s.all_tasks) [
    | none ↦
        say
          (codes "Error: Can't find task: "
            ++ (to_string number ++ (codes " - not " ++ (verb ++ codes "\n"))))
          s
    | some t ↦ f number t s
  ])
with_task verb (a ∷ b ∷ args) f s = running (say (codes "Error: Too many args\n") s)

abbrev signal : Signal → Task → Bytes → Msh → Msh
signal sig t text s = record s { out = s.out ++ signalled t.pid sig ∷ printed text ∷ [] }

abbrev pub stop_one : ℤ → Task → Msh → Msh
stop_one number t s =
    signal sigstop t (codes "Stopped task: " ++ (to_string number ++ codes "\n")) s

abbrev pub continue_one : ℤ → Task → Msh → Msh
continue_one number t s =
    signal sigcont t (codes "Continued task: " ++ (to_string number ++ codes "\n")) s

unfoldable pub stop_task : List Bytes → Msh → Outcome Msh
unfolding with_task
stop_task args = with_task (codes "stopping") args stop_one

unfoldable pub continue_task : List Bytes → Msh → Outcome Msh
unfolding with_task
continue_task args = with_task (codes "continuing") args continue_one

-- `allTasks.at(taskNo).running = false`
unfoldable pub set_stopped : ℕ → List Task → List Task
set_stopped n [] = []
set_stopped zero (t ∷ tasks) = record t { running = false } ∷ tasks
set_stopped (suc n) (t ∷ tasks) = t ∷ set_stopped n tasks

abbrev pub magnitude : ℤ → ℕ
magnitude (pos n) = n
magnitude (negsuc n) = n

abbrev pub terminated_line : ℤ → Task → Bytes
terminated_line number t =
    to_string number
    ++ (codes ": (pid= "
        ++ (to_string t.pid ++ (codes ", cmd=" ++ (t.cmd ++ codes ") terminated\n"))))

abbrev pub not_running : ℤ → Bytes
not_running number = codes "Error: Task " ++ (to_string number ++ codes " is not running\n")

abbrev pub terminate_one : ℤ → Task → Msh → Msh
terminate_one number t s =
    if t.running
    then record (signal sigkill t (terminated_line number t) s) {
      all_tasks = set_stopped (magnitude number) s.all_tasks;
    }
    else say (not_running number) s

unfoldable pub terminate : List Bytes → Msh → Outcome Msh
unfolding with_task set_stopped
terminate args = with_task (codes "terminating") args terminate_one

-- `exitLoop`
unfoldable pub exit_events : List Task → List Event
exit_events [] = []
exit_events (t ∷ tasks) =
    let rest = exit_events tasks in
    if t.running
    then signalled t.pid sigkill
      ∷ printed (codes "Task: " ++ (to_string t.pid ++ codes " terminated\n"))
      ∷ rest
    else rest

abbrev pub cdir_args : Sys → List Bytes → Msh → Outcome Msh
cdir_args sys [] s = running (say (codes "not enough arguments for cdir \n") s)
cdir_args sys (path ∷ rest) s = change_directory sys path s

abbrev checked : Sys → List Bytes → Msh → Outcome Msh
checked sys args s = elim (check sys.ps args) [
  | none ↦ undefined
  | some text ↦ running (say text s)
]

-- The command that the first token names. `exit` and `quit` leave the loop: the times are printed, and
-- `main` returns 0.
unfoldable pub dispatch : Sys → List Bytes → Msh → Outcome Msh
unfolding change_directory list_tasks run stop_task continue_task terminate check exit_events same
dispatch sys [] s = running (say (codes "Missing input \n") s)
dispatch sys (name ∷ args) s =
    if same name (codes "cdir")
    then cdir_args sys args s
    else if same name (codes "pdir")
    then running (say (sys.cwd ++ codes "\n") s)
    else if same name (codes "lstasks")
    then running (say (list_tasks s.all_tasks) s)
    else if same name (codes "run")
    then running (run sys args s)
    else if same name (codes "stop")
    then stop_task args s
    else if same name (codes "continue")
    then continue_task args s
    else if same name (codes "terminate")
    then terminate args s
    else if same name (codes "check")
    then checked sys args s
    else if same name (codes "exit")
    then exited 0 (s.out ++ (exit_events s.all_tasks ++ printed sys.times ∷ []))
    else if same name (codes "quit")
    then exited 0 (
        s.out
        ++ printed (codes "WARNING: Exiting mainloop without terminating head processes\n")
          ∷ printed sys.times
          ∷ [])
    else running (say (codes "Invalid Command \n") s)

-- One round of the loop of `main`; `pid` is the shell's number.
unfoldable pub round : ℤ → Sys × Bytes → Msh → Outcome Msh
unfolding dispatch words
round pid (sys, cmd) s =
    dispatch sys (words cmd) (say (codes "msh379 [" ++ (to_string pid ++ codes "]: ")) s)

unfoldable pub rounds : ℤ → List (Sys × Bytes) → Msh → Outcome Msh
unfolding round
rounds pid [] s = running s
rounds pid (line ∷ lines) s = do t ← round pid line s; rounds pid lines t

abbrev pub start : Msh
start = record { task_index = 0; all_tasks = []; out = [] }
