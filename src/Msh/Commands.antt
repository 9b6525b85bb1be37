-- ===== src/Msh/Commands.antt =====
-- Assignment_1/msh379.cpp: what single commands do to the list of tasks.
use cmput.Common.{
  ℕ, zero, suc, ◌+◌, ◌≤◌, ◌≡◌, ◌≢◌, refl, ap, ◌∙◌, Bool, true, false, List, [], ◌∷◌, ◌++◌, map,
  keep, some, if◌then◌else◌, leb, ℤ, pos, negsuc, ◌==ℤ◌, ==ℤ_iff, append_assoc, append-nil, length,
  length-append, get_elem?, IsInt, arith,
}
use mathlib.Core.Option
use cmput.Text.{Bytes, codes, same, words, words_from}
use cmput.Text.Number.{to_string, stoi-to_string}
use cmput.Process.{Event, printed, signalled, sigkill, sigstop, sigcont, running, exited, ◌>>=◌}
use cmput.Msh.{
  Task, Msh, Sys, run, new_task, find_task, with_task, set_stopped, terminate, terminate_one,
  terminated_line, not_running, exit_events, round, dispatch,
}

-- `run` with one to five words, when the counter is the number of tasks and `fork` succeeds: with up to 32
-- tasks there is one more behind it, and with 33 or more there is not. So a 33rd task is started, one more
-- than the 32 of MAXTASKS.
pub length-run :
    (sys : Sys) (args : List Bytes) (s : Msh)
    → s.task_index ≡ length s.all_tasks
    → 1 ≤ length args
    → length args ≤ 5
    → sys.fork ≢ negsuc 0
    → length (run sys args s).all_tasks
      ≡ (if leb (length s.all_tasks) 32 then length s.all_tasks + 1 else length s.all_tasks)
unfolding run
length-run sys args s e some_args few forks =
    rw (forked_ok (sys.fork ==ℤ negsuc 0) refl)
      (ground (arith, length-append s.all_tasks (new_task s.task_index sys.fork args ∷ [])))
  where
    forked_ok : (b : Bool) → (sys.fork ==ℤ negsuc 0) ≡ b → (sys.fork ==ℤ negsuc 0) ≡ false
    forked_ok true f = absurd (forks ((==ℤ_iff sys.fork (negsuc 0)).0 f))
    forked_ok false f = f

abbrev stopped : Task → Task
stopped t = record t { running = false }

get_elem?-set_stopped :
    (n : ℕ) (tasks : List Task) (t : Task)
    → get_elem? tasks n ≡ some t
    → get_elem? (set_stopped n tasks) n ≡ some (record t { running = false })
unfolding set_stopped
get_elem?-set_stopped n [] t e = ground arith
get_elem?-set_stopped zero (u ∷ tasks) t e = ap (Option.map stopped) e
get_elem?-set_stopped (suc n) (u ∷ tasks) t e = get_elem?-set_stopped n tasks t e

terminate_at :
    (n : ℕ) (t : Task) (s : Msh)
    → IsInt (pos n)
    → get_elem? s.all_tasks n ≡ some t
    → terminate (to_string (pos n) ∷ []) s ≡ running (terminate_one (pos n) t s)
unfolding terminate with_task find_task
terminate_at n t s small e = rw (stoi-to_string (pos n) small) (rw e)

-- `terminate N` twice, for a task N that runs: the first one sends SIGKILL and marks the task as stopped, and
-- the second one only reports that the task is not running.
pub terminate-terminate :
    (n : ℕ) (t : Task) (s : Msh)
    → IsInt (pos n)
    → get_elem? s.all_tasks n ≡ some t
    → t.running ≡ true
    → (terminate (to_string (pos n) ∷ []) s >>= terminate (to_string (pos n) ∷ []))
      ≡ running (record s {
        all_tasks = set_stopped n s.all_tasks;
        out =
            s.out
            ++ signalled t.pid sigkill
              ∷ printed (terminated_line (pos n) t)
              ∷ printed (not_running (pos n))
              ∷ [];
      })
terminate-terminate n t s small e live =
    let u : Msh = record s {
      all_tasks = set_stopped n s.all_tasks;
      out = s.out ++ signalled t.pid sigkill ∷ printed (terminated_line (pos n) t) ∷ [];
    } in
    let first : terminate_one (pos n) t s ≡ u = rw live in
    rw (terminate_at n t s small e, first)
      (terminate_at n (stopped t) u small (get_elem?-set_stopped n s.all_tasks t e)
        ∙ ap (λ out. running (record u { out = out }))
            (append_assoc s.out (signalled t.pid sigkill ∷ printed (terminated_line (pos n) t) ∷ [])
              (printed (not_running (pos n)) ∷ [])))

-- The processes that got SIGKILL.
abbrev pub killed : List Event → List ℤ
killed [] = []
killed (signalled pid sigkill ∷ out) = pid ∷ killed out
killed (e ∷ out) = killed out

killed-append : (xs ys : List Event) → killed (xs ++ ys) ≡ killed xs ++ killed ys
killed-append [] ys = refl
killed-append (signalled pid sigkill ∷ xs) ys = ap (λ l. pid ∷ l) (killed-append xs ys)
killed-append (signalled pid sigstop ∷ xs) ys = killed-append xs ys
killed-append (signalled pid sigcont ∷ xs) ys = killed-append xs ys
killed-append (e ∷ xs) ys = killed-append xs ys

killed-exit_events :
    (tasks : List Task)
    → killed (exit_events tasks) ≡ map (λ t. t.pid) (keep (λ t. t.running) tasks)
unfolding exit_events
killed-exit_events [] = refl
killed-exit_events (t ∷ tasks) = ground (arith, killed-exit_events tasks)

-- The line `exit` ends the shell with code 0, and with it SIGKILL is sent to the tasks that are marked as
-- running, once each and in their order, and to no other process.
pub killed-round :
    (pid : ℤ) (sys : Sys) (s : Msh)
    → (out : List Event) × (round pid (sys, codes "exit") s ≡ exited 0 out)
      × (killed out ≡ killed s.out ++ map (λ t. t.pid) (keep (λ t. t.running) s.all_tasks))
unfolding round dispatch same words words_from
killed-round pid sys s =
    let before = s.out ++ printed (codes "msh379 [" ++ (to_string pid ++ codes "]: ")) ∷ [] in
    (
      before ++ (exit_events s.all_tasks ++ printed sys.times ∷ []),
      refl,
      rw
          (
            killed-append before (exit_events s.all_tasks ++ printed sys.times ∷ []),
            killed-append s.out,
            killed-append (exit_events s.all_tasks),
            killed-exit_events s.all_tasks,
            append-nil (killed s.out),
            append-nil (map (λ t. t.pid) (keep (λ t. t.running) s.all_tasks)),
          )
          refl,
    )
