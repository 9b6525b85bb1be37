-- ===== src/Shell/Invariant.antt =====
-- Assignment_1/2022F: the table of processes over whole sessions of the shell.
use cmput.Common.{
  ◌≤◌, ◌<◌, ◌≡◌, refl, inl, inr, true, false, List, [], ◌∷◌, none, leb, ltb, ℤ, pos, ltb_ℤ, length,
  arith, Option-cases, Bool-cases,
}
use cmput.Text.{Bytes, codes, same, words}
use cmput.Text.Number.{stoi}
use cmput.Process.{running}
use cmput.Process.Ensures.{
  Ensures, runs, exits, faults, bind-Ensures, or_undefined-Ensures, if-Ensures, Ensures-running,
}
use cmput.Shell.Tasks.{
  get_process, emplace, SortedFrom, emplace-SortedFrom, erase-SortedFrom, set_running-SortedFrom,
  length-emplace, length-erase, length-set_running,
}
use cmput.Shell.{
  with_process, kill, resume, suspend, wait, wait_process, sleep, run, in_background, new_task,
  exit_shell, dispatch, check_token_size, functions, step, steps, kill_process, resume_process,
  suspend_process,
}
use cmput.Shell.State.{Shell, Sys, max_pt_entries, say}
use cmput.Shell.Jobs.{list_jobs}

-- At most 32 processes, in the order of their numbers, each under its own.
pub record Inv (s : Shell) : Type 0 where
  pub room : length s.processes ≤ 32
  pub sorted : SortedFrom none s.processes

say-Inv : (text : Bytes) (s : Shell) → Inv s → Inv (say text s)
say-Inv text s v = record { room = v.room; sorted = v.sorted }

with_process-Ensures :
    (message : Bytes) (tokens : List Bytes) (f : ℤ → Shell → Shell) (s : Shell)
    → ((pid : ℤ) → Inv (f pid s))
    → Inv s
    → Ensures Inv (with_process message tokens f s)
unfolding with_process
with_process-Ensures message [] f s h v = runs (say-Inv message s v)
with_process-Ensures message (name ∷ []) f s h v = runs (say-Inv message s v)
with_process-Ensures message (name ∷ argument ∷ []) f s h v =
    bind-Ensures (or_undefined-Ensures (stoi argument)) λ pid _.
      elim (Option-cases (get_process pid s.processes)) [
        | inl e ↦ rw e (runs (say-Inv _ s v))
        | inr (t, e) ↦ rw e (runs (h pid))
      ]
with_process-Ensures message (name ∷ argument ∷ x ∷ rest) f s h v = runs (say-Inv message s v)

kill_process-Inv : (pid : ℤ) (s : Shell) → Inv s → Inv (kill_process pid s)
kill_process-Inv pid s v = record {
  room = omega (arith, v.room, length-erase pid s.processes);
  sorted = erase-SortedFrom none pid s.processes v.sorted;
}

resume_process-Inv : (pid : ℤ) (s : Shell) → Inv s → Inv (resume_process pid s)
resume_process-Inv pid s v = record {
  room = rw (length-set_running pid true s.processes) v.room;
  sorted = set_running-SortedFrom none pid true s.processes v.sorted;
}

suspend_process-Inv : (pid : ℤ) (s : Shell) → Inv s → Inv (suspend_process pid s)
suspend_process-Inv pid s v = record {
  room = rw (length-set_running pid false s.processes) v.room;
  sorted = set_running-SortedFrom none pid false s.processes v.sorted;
}

wait_process-Inv : (sys : Sys) (pid : ℤ) (s : Shell) → Inv s → Inv (wait_process sys pid s)
unfolding wait_process
wait_process-Inv sys pid s v = elim (Bool-cases (ltb_ℤ (pos 0) (sys.waitpid pid))) [
  | inl e ↦ rw e (record {
    room = omega (arith, v.room, length-erase pid s.processes);
    sorted = erase-SortedFrom none pid s.processes v.sorted;
  })
  | inr e ↦ rw e (record { room = v.room; sorted = v.sorted })
]

sleep-Ensures : (tokens : List Bytes) (s : Shell) → Inv s → Ensures Inv (sleep tokens s)
unfolding sleep
sleep-Ensures [] s v = runs (say-Inv _ s v)
sleep-Ensures (name ∷ []) s v = runs (say-Inv _ s v)
sleep-Ensures (name ∷ argument ∷ rest) s v =
    bind-Ensures (or_undefined-Ensures (stoi argument))
      λ n _. runs (record { room = v.room; sorted = v.sorted })

run-Ensures : (sys : Sys) (tokens : List Bytes) (s : Shell) → Inv s → Ensures Inv (run sys tokens s)
unfolding run
run-Ensures sys tokens s v = elim (Bool-cases (leb max_pt_entries (length s.processes))) [
  | inl full ↦ rw full (runs (say-Inv _ s v))
  | inr free ↦
      let t = new_task sys.fork tokens in
      let started = emplace sys.fork t s.processes in
      let below : length s.processes < 32 = ground arith in
      let room : length started ≤ 32 =
        omega (arith, below, length-emplace sys.fork t s.processes) in
      let sorted : SortedFrom none started =
        emplace-SortedFrom none sys.fork t s.processes refl tt v.sorted in
      rw free (
        if-Ensures (ltb_ℤ sys.fork (pos 0)) exits (
          if-Ensures (in_background tokens) (runs (record { room = room; sorted = sorted })) (
            runs (record {
              room = omega (arith, room, length-erase sys.fork started);
              sorted = erase-SortedFrom none sys.fork started sorted;
            }))))
]

dispatch-Ensures :
    (sys : Sys) (tokens : List Bytes) (s : Shell) → Inv s → Ensures Inv (dispatch sys tokens s)
unfolding dispatch kill resume suspend wait exit_shell list_jobs
dispatch-Ensures sys [] s v = faults
dispatch-Ensures sys (name ∷ args) s v =
    let w = say-Inv (codes "\n") s v in
    if-Ensures (same name (codes "exit")) exits (
      if-Ensures (same name (codes "jobs")) (runs (say-Inv _ _ w)) (
        if-Ensures (same name (codes "kill"))
          (with_process-Ensures _ (name ∷ args) kill_process _ (λ pid. kill_process-Inv pid _ w) w)
          (if-Ensures (same name (codes "resume"))
            (with_process-Ensures _ (name ∷ args) resume_process _
              (λ pid. resume_process-Inv pid _ w) w)
            (if-Ensures (same name (codes "sleep")) (sleep-Ensures (name ∷ args) s v) (
              if-Ensures (same name (codes "suspend"))
                (with_process-Ensures _ (name ∷ args) suspend_process _
                  (λ pid. suspend_process-Inv pid _ w) w)
                (if-Ensures (same name (codes "wait"))
                  (bind-Ensures
                    (with_process-Ensures _ (name ∷ args) (wait_process sys) s
                      (λ pid. wait_process-Inv sys pid s v) v)
                    λ t u. runs (say-Inv _ t u))
                  (run-Ensures sys (name ∷ args) s v)))))))

functions-Ensures :
    (sys : Sys) (cmd : Bytes) (s : Shell) → Inv s → Ensures Inv (functions sys cmd s)
unfolding functions
functions-Ensures sys cmd s v =
    if-Ensures (ltb 100 (length cmd)) (runs (say-Inv _ s v))
      (elim (Option-cases (check_token_size (words cmd))) [
        | inl e ↦ rw e (dispatch-Ensures sys (words cmd) s v)
        | inr (message, e) ↦ rw e (runs (say-Inv message s v))
      ])

step-Ensures : (sys : Sys) (cmd : Bytes) (s : Shell) → Inv s → Ensures Inv (step sys cmd s)
unfolding step
step-Ensures sys [] s v = runs (say-Inv _ s v)
step-Ensures sys (c ∷ cmd) s v = functions-Ensures sys (c ∷ cmd) _ (say-Inv _ s v)

steps-Ensures : (rest : List (Sys × Bytes)) (s : Shell) → Inv s → Ensures Inv (steps rest s)
unfolding steps
steps-Ensures [] s v = runs v
steps-Ensures ((sys, cmd) ∷ rest) s v =
    bind-Ensures (step-Ensures sys cmd s v) λ t w. steps-Ensures rest t w

abbrev pub start : Shell
start = record { processes = []; out = [] }

-- Whatever lines a shell is given and whatever the system calls return, as long as it runs its table
-- holds at most 32 processes, in ascending order and each under its own number, so none twice.
pub steps-Inv :
    (lines : List (Sys × Bytes)) (s : Shell)
    → steps lines start ≡ running s
    → (length s.processes ≤ 32) × SortedFrom none s.processes
unfolding SortedFrom
steps-Inv lines s e =
    let v =
      Ensures-running e (steps-Ensures lines start (record { room = omega arith; sorted = tt })) in
    (v.room, v.sorted)
