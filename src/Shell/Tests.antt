-- ===== src/Shell/Tests.antt =====
-- Assignment_1/2022F: sessions of the shell on concrete inputs, and the theorems of the other modules at
-- such inputs.
use mathlib.Core.List.{Memᴰ}
use cmput.Common.{
  ◌≤◌, ◌≡◌, ◌↔◌, refl, Bool, true, false, List, [], ◌∷◌, ◌++◌, none, some, if◌then◌else◌, ℤ, pos,
  ◌==ℤ◌, length, arith,
}
use cmput.Text.{Bytes, codes, same, words_from, words}
use cmput.Text.Number.{to_string, read_int, stoi}
use cmput.Process.{
  Event, printed, signalled, forked, waited, sigkill, sigstop, sigcont, running, exited, undefined,
}
use cmput.Shell.Tasks.{Task, get_process, SortedFrom}
use cmput.Shell.{
  kill, resume, suspend, run, new_task, not_found, functions, steps, in_background,
  check_token_size, check_lengths,
}
use cmput.Shell.State.{Shell, Sys}
use cmput.Shell.Invariant.{start, steps-Inv}
use cmput.Shell.Commands.{
  kill_lem, resume-suspend, run-foreground, run-background, functions_blank, exit-kills,
}
use cmput.Shell.Child.{child, plan_of, returns, child-eq-returns}

abbrev system : ℤ → Sys
system fork = record {
  fork = fork;
  waitpid = λ pid. pid;
  run_time = λ pid. pos 3;
  user_time = pos 0;
  sys_time = pos 0;
}

-- Two processes in the background, one in the foreground, and the first one suspended.
abbrev session : List (Sys × Bytes)
session =
    (system (pos 50), codes "xclock -update 1 &")
    ∷ (system (pos 40), codes "xeyes &")
    ∷ (system (pos 60), codes "ls")
    ∷ (system (pos 0), codes "suspend 50")
    ∷ []

abbrev task_of : ℤ → Bytes → Bool → Task
task_of pid cmd flag = record { pid = pid; cmd = cmd; running = flag }

abbrev two_tasks : Shell
two_tasks = record {
  processes =
      (pos 40, task_of (pos 40) (codes " xeyes &") true)
      ∷ (pos 50, task_of (pos 50) (codes " xclock -update 1 &") false)
      ∷ [];
  out =
      printed (codes "Shell379: ")
      ∷ forked (pos 50)
      ∷ printed (codes "Shell379: ")
      ∷ forked (pos 40)
      ∷ printed (codes "Shell379: ")
      ∷ forked (pos 60)
      ∷ waited (pos 60)
      ∷ printed (codes "Shell379: ")
      ∷ printed (codes "\n")
      ∷ signalled (pos 50) sigstop
      ∷ [];
}

session_runs : steps session start ≡ running two_tasks
unfolding steps words words_from read_int same stoi check_token_size
session_runs = refl

steps-Inv_example : (length two_tasks.processes ≤ 32) × SortedFrom none two_tasks.processes
steps-Inv_example = steps-Inv session two_tasks session_runs

kill_lem_example :
    (t : Shell) × (kill (codes "kill" ∷ to_string (pos 50) ∷ []) two_tasks ≡ running t)
    × ((q : ℤ)
        → get_process q t.processes
          ≡ (if pos 50 ==ℤ q then none else get_process q two_tasks.processes))
    × (t.out
        ≡ two_tasks.out
          ++ elim (get_process (pos 50) two_tasks.processes) [
            | none ↦ printed (not_found (pos 50))
            | some task ↦ signalled (pos 50) sigkill
          ]
            ∷ [])
kill_lem_example = kill_lem (codes "kill") (pos 50) two_tasks (omega arith) steps-Inv_example.1

resume-suspend_example :
    (t : Shell) × (u : Shell) × (suspend (codes "suspend" ∷ to_string (pos 40) ∷ []) two_tasks
      ≡ running t)
    × (resume (codes "suspend" ∷ to_string (pos 40) ∷ []) t ≡ running u)
    × (t.out ≡ two_tasks.out ++ signalled (pos 40) sigstop ∷ [])
    × (u.out ≡ t.out ++ signalled (pos 40) sigcont ∷ [])
    × ((q : ℤ)
        → (get_process q t.processes ≡ (
            if pos 40 ==ℤ q
            then some (task_of (pos 40) (codes " xeyes &") false)
            else get_process q two_tasks.processes))
          × (get_process q u.processes ≡ (
              if pos 40 ==ℤ q
              then some (task_of (pos 40) (codes " xeyes &") true)
              else get_process q two_tasks.processes)))
unfolding get_process
resume-suspend_example =
    resume-suspend (codes "suspend") (pos 40) (task_of (pos 40) (codes " xeyes &") true) two_tasks
      (omega arith) refl

run-foreground_example :
    run (system (pos 70)) (codes "ls" ∷ codes "-l" ∷ []) two_tasks
    ≡ running (record two_tasks { out = two_tasks.out ++ forked (pos 70) ∷ waited (pos 70) ∷ [] })
unfolding get_process in_background same
run-foreground_example =
    run-foreground (system (pos 70)) (codes "ls" ∷ codes "-l" ∷ []) two_tasks (omega arith)
      (omega arith) refl refl

run-background_example :
    (t : Shell) × (run (system (pos 70)) (codes "xeyes" ∷ codes "&" ∷ []) two_tasks ≡ running t)
    × (t.out ≡ two_tasks.out ++ forked (pos 70) ∷ [])
    × ((q : ℤ)
        → get_process q t.processes ≡ (
            if pos 70 ==ℤ q
            then some (new_task (pos 70) (codes "xeyes" ∷ codes "&" ∷ []))
            else get_process q two_tasks.processes))
unfolding get_process in_background same
run-background_example =
    run-background (system (pos 70)) (codes "xeyes" ∷ codes "&" ∷ []) two_tasks (omega arith)
      (omega arith) refl refl

functions_blank_example : functions (system (pos 70)) (codes "  ") two_tasks ≡ undefined
functions_blank_example =
    functions_blank (system (pos 70)) (codes "  ") two_tasks (omega arith) (refl, (refl, tt))

exit-kills_example :
    (out : List Event) × (functions (system (pos 70)) (codes "exit") two_tasks ≡ exited 1 out)
    × Memᴰ (signalled (pos 50) sigkill) out
unfolding get_process
exit-kills_example =
    exit-kills (system (pos 70)) (pos 50) (task_of (pos 50) (codes " xclock -update 1 &") false)
      two_tasks steps-Inv_example.1 refl

child-eq-returns_example :
    (child (λ name. true) (codes ">out" ∷ codes "&" ∷ []) ≡ returns)
    ↔ ((plan_of (codes ">out" ∷ codes "&" ∷ [])).cmd_list ≡ [])
unfolding check_token_size check_lengths
child-eq-returns_example = child-eq-returns (λ name. true) (codes ">out" ∷ codes "&" ∷ []) refl
