-- ===== src/Msh/Tests.antt =====
-- Assignment_1/msh379.cpp: sessions on concrete inputs, and the theorems of the other modules at such
-- inputs.
use cmput.Common.{
  ℕ, ◌+◌, ◌≤◌, ◌≡◌, refl, true, false, List, [], ◌∷◌, ◌++◌, map, keep, some, if◌then◌else◌, leb, ℤ,
  pos, length, arith,
}
use cmput.Text.{Bytes, codes, same, pieces, words, words_from}
use cmput.Text.Number.{to_string, read_int, stoi}
use cmput.Process.{Event, printed, signalled, sigkill, sigstop, forked, running, exited, ◌>>=◌}
use cmput.Msh.{
  Task, Msh, Sys, start, run, terminate, set_stopped, terminated_line, not_running, round, rounds,
  find_task,
}
use cmput.Msh.Tasks.{NumberedFrom, msh_rounds-Inv}
use cmput.Msh.Commands.{length-run, terminate-terminate, killed, killed-round}
use cmput.Msh.Check.{Parent, get_parent, get_c_processes, get_c_processes-enough}
use cmput.Msh.Descent.{Descends, Prints, get_c_processes-Descends}

abbrev system : ℤ → Sys
system fork = record {
  fork = fork;
  home = some (codes "/home/u");
  changes = λ path. true;
  cwd = codes "/home/u";
  ps = [];
  times = [];
}

abbrev session : List (Sys × Bytes)
session =
    (system (pos 40), codes "run sleep 9")
    ∷ (system (pos 41), codes "run ls")
    ∷ (system (pos 0), codes "terminate 1")
    ∷ (system (pos 0), codes "stop 0")
    ∷ []

abbrev task_of : ℕ → ℤ → Bytes → Task
task_of index pid cmd = record { index = index; pid = pid; cmd = cmd; running = true }

abbrev prompt : Event
prompt = printed (codes "msh379 [7]: ")

abbrev stopped_ls : Task
stopped_ls = record (task_of 1 (pos 41) (codes " ls")) { running = false }

abbrev two_tasks : Msh
two_tasks = record {
  task_index = 2;
  all_tasks = task_of 0 (pos 40) (codes " sleep 9") ∷ stopped_ls ∷ [];
  out =
      prompt
      ∷ forked (pos 40)
      ∷ prompt
      ∷ forked (pos 41)
      ∷ prompt
      ∷ signalled (pos 41) sigkill
      ∷ printed (codes "1: (pid= 41, cmd= ls) terminated\n")
      ∷ prompt
      ∷ signalled (pos 40) sigstop
      ∷ printed (codes "Stopped task: 0\n")
      ∷ [];
}

session_runs : rounds (pos 7) session start ≡ running two_tasks
unfolding rounds same words words_from stoi read_int to_string find_task
session_runs = refl

msh_rounds-Inv_example :
    (two_tasks.task_index ≡ length two_tasks.all_tasks)
    × (length two_tasks.all_tasks ≤ 33)
    × NumberedFrom 0 two_tasks.all_tasks
msh_rounds-Inv_example = msh_rounds-Inv (pos 7) session two_tasks session_runs

length-run_example : length (run (system (pos 42)) (codes "ls" ∷ []) two_tasks).all_tasks ≡ (
    if leb (length two_tasks.all_tasks) 32
    then length two_tasks.all_tasks + 1
    else length two_tasks.all_tasks)
length-run_example =
    length-run (system (pos 42)) (codes "ls" ∷ []) two_tasks refl (omega arith) (omega arith)
      (ground arith)

terminate-terminate_example :
    (terminate (to_string (pos 0) ∷ []) two_tasks >>= terminate (to_string (pos 0) ∷ []))
    ≡ running (record two_tasks {
      all_tasks = set_stopped 0 two_tasks.all_tasks;
      out =
          two_tasks.out
          ++ signalled (pos 40) sigkill
            ∷ printed (terminated_line (pos 0) (task_of 0 (pos 40) (codes " sleep 9")))
            ∷ printed (not_running (pos 0))
            ∷ [];
    })
terminate-terminate_example =
    terminate-terminate 0 (task_of 0 (pos 40) (codes " sleep 9")) two_tasks (omega arith) refl refl

killed-round_example :
    (out : List Event) × (round (pos 7) (system (pos 42), codes "exit") two_tasks ≡ exited 0 out)
    × (killed out
        ≡ killed two_tasks.out ++ map (λ t. t.pid) (keep (λ t. t.running) two_tasks.all_tasks))
killed-round_example = killed-round (pos 7) (system (pos 42)) two_tasks

-- A process 5 and its child 8.
abbrev family : List Parent
family =
    record {
      user = codes "u";
      pid = codes "8";
      ppid = codes "5";
      state = codes "S";
      start = codes "10:00";
      cmd = codes "ls";
      others = codes "\n";
    }
    ∷ []

family_lines : get_parent (codes "u  8 5 S 10:00 ls \n" ∷ []) ≡ family
unfolding get_parent pieces
family_lines = refl

-- Longer numbers rank lower here, and the ones with the greater first digit.
abbrev rank_of : Bytes → ℕ
rank_of [] = 0
rank_of (c ∷ rest) = if leb c b'5' then 1 else 0

get_c_processes-enough_example :
    (text : Bytes) × (get_c_processes 2 family (codes "5") ≡ some text)
    × (get_c_processes 9 family (codes "5") ≡ some text)
get_c_processes-enough_example =
    get_c_processes-enough rank_of 2 9 family (codes "5") (omega arith) (omega arith) (omega arith)

get_c_processes-Descends_example :
    Prints family (get_c_processes 2 family (codes "5")) (Descends family (codes "5"))
get_c_processes-Descends_example =
    get_c_processes-Descends family rank_of 2 (codes "5") (omega arith) (omega arith)
