-- ===== src/Msh/Tasks.antt =====
-- Assignment_1/msh379.cpp: the list of tasks over whole sessions, and what the commands do to it.
use cmput.Common.{
  ℕ, zero, suc, ◌+◌, ◌≤◌, ◌≡◌, refl, sym, ap, ◌∙◌, inl, inr, Bool, true, false, List, [], ◌∷◌, ◌++◌,
  Option, none, some, if◌then◌else◌, ◌==◌, ltb, ℤ, negsuc, ◌==ℤ◌, length, length-append, arith,
  Option-cases,
}
use cmput.Text.{Bytes, codes, same, words}
use cmput.Text.Number.{stoi}
use cmput.Process.{running, undefined}
use cmput.Process.Ensures.{
  Ensures, runs, exits, faults, bind-Ensures, or_undefined-Ensures, if-Ensures, Ensures-running,
}
use cmput.Msh.{
  Task, Msh, Sys, say, run, new_task, find_task, with_task, stop_one, continue_one, stop_task,
  continue_task, set_stopped, magnitude, terminate, terminate_one, go_to, change_directory,
  dispatch, round, rounds, start, cdir_args,
}
use cmput.Msh.Check.{check}

-- The tasks have the numbers from `n` on.
abbrev pub NumberedFrom : ℕ → List Task → Type 0
NumberedFrom n [] = Unit {0}
NumberedFrom n (t ∷ tasks) = (t.index ≡ n) × NumberedFrom (suc n) tasks

-- The counter is the number of tasks, at most 33, and each task has its place as its number.
record Inv (s : Msh) : Type 0 where
  counted : s.task_index ≡ length s.all_tasks
  few : length s.all_tasks ≤ 33
  numbered : NumberedFrom 0 s.all_tasks

NumberedFrom-append :
    (n : ℕ) (tasks : List Task) (t : Task)
    → t.index ≡ n + length tasks
    → NumberedFrom n tasks
    → NumberedFrom n (tasks ++ t ∷ [])
NumberedFrom-append n [] t e h = (omega (arith, e), tt)
NumberedFrom-append n (u ∷ tasks) t e h =
    (h.0, NumberedFrom-append (suc n) tasks t (omega (arith, e)) h.1)

set_stopped-NumberedFrom :
    (k n : ℕ) (tasks : List Task) → NumberedFrom n tasks → NumberedFrom n (set_stopped k tasks)
unfolding set_stopped
set_stopped-NumberedFrom k n [] h = tt
set_stopped-NumberedFrom zero n (t ∷ tasks) h = (h.0, h.1)
set_stopped-NumberedFrom (suc k) n (t ∷ tasks) h =
    (h.0, set_stopped-NumberedFrom k (suc n) tasks h.1)

length-set_stopped : (k : ℕ) (tasks : List Task) → length (set_stopped k tasks) ≡ length tasks
unfolding set_stopped
length-set_stopped k [] = refl
length-set_stopped zero (t ∷ tasks) = refl
length-set_stopped (suc k) (t ∷ tasks) = omega (arith, length-set_stopped k tasks)

same_tasks : (s t : Msh) → t.task_index ≡ s.task_index → t.all_tasks ≡ s.all_tasks → Inv s → Inv t
same_tasks s t e f v = record {
  counted = e ∙ (v.counted ∙ ap length (sym f));
  few = rw f v.few;
  numbered = rw f v.numbered;
}

if-Inv :
    (b : Bool) {s t : Msh} → (b ≡ true → Inv s) → (b ≡ false → Inv t) → Inv (if b then s else t)
if-Inv true p q = p refl
if-Inv false p q = q refl

run-Inv : (sys : Sys) (args : List Bytes) (s : Msh) → Inv s → Inv (run sys args s)
unfolding run
run-Inv sys args s v =
    if-Inv (length args == 0) (λ _. same_tasks s _ refl refl v)
      λ _.
        if-Inv (ltb 5 (length args)) (λ _. same_tasks s _ refl refl v)
          λ _.
            if-Inv (ltb 32 s.task_index) (λ _. same_tasks s _ refl refl v)
              λ room.
                if-Inv (sys.fork ==ℤ negsuc 0) (λ _. same_tasks s _ refl refl v)
                  λ _. record {
                    counted = omega (arith, v.counted, added);
                    few = omega (arith, v.counted, below room, added);
                    numbered =
                        NumberedFrom-append 0 s.all_tasks task (omega (arith, v.counted))
                          v.numbered;
                  }
  where
    task : Task
    task = new_task s.task_index sys.fork args

    added : length (s.all_tasks ++ task ∷ []) ≡ length s.all_tasks + 1
    added = length-append s.all_tasks (task ∷ [])

    below : ltb 32 s.task_index ≡ false → s.task_index ≤ 32
    below e = ground arith

with_task-Ensures :
    (verb : Bytes) (args : List Bytes) (f : ℤ → Task → Msh → Msh) (s : Msh)
    → ((number : ℤ) (t : Task) → Inv (f number t s))
    → Inv s
    → Ensures Inv (with_task verb args f s)
unfolding with_task
with_task-Ensures verb [] f s h v = runs (same_tasks s _ refl refl v)
with_task-Ensures verb (argument ∷ []) f s h v =
    bind-Ensures (or_undefined-Ensures (stoi argument)) λ number _.
      elim (Option-cases (find_task number s.all_tasks)) [
        | inl e ↦ rw e (runs (same_tasks s _ refl refl v))
        | inr (t, e) ↦ rw e (runs (h number t))
      ]
with_task-Ensures verb (a ∷ b ∷ args) f s h v = runs (same_tasks s _ refl refl v)

terminate_one-Inv : (number : ℤ) (t : Task) (s : Msh) → Inv s → Inv (terminate_one number t s)
terminate_one-Inv number t s v =
    if-Inv t.running
      (λ _. record {
        counted = v.counted ∙ sym (length-set_stopped (magnitude number) s.all_tasks);
        few = omega (arith, v.few, length-set_stopped (magnitude number) s.all_tasks);
        numbered = set_stopped-NumberedFrom (magnitude number) 0 s.all_tasks v.numbered;
      })
      λ _. same_tasks s _ refl refl v

go_to-Inv : (sys : Sys) (target : Bytes) (s : Msh) → Inv s → Inv (go_to sys target s)
unfolding go_to
go_to-Inv sys target s v =
    if-Inv (sys.changes target) (λ _. same_tasks s _ refl refl v) λ _. same_tasks s _ refl refl v

change_directory-Ensures :
    (sys : Sys) (path : Bytes) (s : Msh) → Inv s → Ensures Inv (change_directory sys path s)
unfolding change_directory
change_directory-Ensures sys path s v =
    bind-Ensures (or_undefined-Ensures sys.home) λ home _. runs (go_to-Inv sys _ s v)

dispatch-Ensures :
    (sys : Sys) (tokens : List Bytes) (s : Msh) → Inv s → Ensures Inv (dispatch sys tokens s)
unfolding dispatch stop_task continue_task terminate
dispatch-Ensures sys [] s v = runs (same_tasks s _ refl refl v)
dispatch-Ensures sys (name ∷ args) s v = if-Ensures (same name (codes "cdir")) (cdir args) (
    if-Ensures (same name (codes "pdir")) (said _) (
      if-Ensures (same name (codes "lstasks")) (said _) (
        if-Ensures (same name (codes "run")) (runs (run-Inv sys args s v)) (
          if-Ensures (same name (codes "stop"))
            (with_task-Ensures (codes "stopping") args stop_one s
              (λ n t. same_tasks s _ refl refl v) v)
            (if-Ensures (same name (codes "continue"))
              (with_task-Ensures (codes "continuing") args continue_one s
                (λ n t. same_tasks s _ refl refl v) v)
              (if-Ensures (same name (codes "terminate"))
                (with_task-Ensures (codes "terminating") args terminate_one s
                  (λ n t. terminate_one-Inv n t s v) v)
                (if-Ensures (same name (codes "check")) (check_args (check sys.ps args)) (
                  if-Ensures (same name (codes "exit")) exits
                    (if-Ensures (same name (codes "quit")) exits (said _))))))))))
  where
    said : (text : Bytes) → Ensures Inv (running (say text s))
    said text = runs (same_tasks s _ refl refl v)

    cdir : (args : List Bytes) → Ensures Inv (cdir_args sys args s)
    cdir [] = said _
    cdir (path ∷ rest) = change_directory-Ensures sys path s v

    check_args :
        (o : Option Bytes)
        → Ensures Inv (elim o [ none ↦ undefined | some text ↦ running (say text s) ])
    check_args none = faults
    check_args (some text) = said text

rounds-Ensures :
    (pid : ℤ) (lines : List (Sys × Bytes)) (s : Msh) → Inv s → Ensures Inv (rounds pid lines s)
unfolding rounds round
rounds-Ensures pid [] s v = runs v
rounds-Ensures pid ((sys, cmd) ∷ lines) s v =
    bind-Ensures (dispatch-Ensures sys (words cmd) _ (same_tasks s _ refl refl v))
      λ t w. rounds-Ensures pid lines t w

-- In every session, as long as it runs: the counter is the number of tasks, each task has its place in the
-- list as its number, and there are at most 33 of them.
pub msh_rounds-Inv :
    (pid : ℤ) (lines : List (Sys × Bytes)) (s : Msh)
    → rounds pid lines start ≡ running s
    → (s.task_index ≡ length s.all_tasks) × (length s.all_tasks ≤ 33) × NumberedFrom 0 s.all_tasks
msh_rounds-Inv pid lines s e =
    let v = Ensures-running e (
      rounds-Ensures pid lines start
        (record { counted = refl; few = omega arith; numbered = tt })) in
    (v.counted, v.few, v.numbered)
