-- ===== src/Shell/Commands.antt =====
-- Assignment_1/2022F/Commands.cpp and Process.cpp: what the commands do to the table of processes.
use cmput.Common.{
  ◌≤◌, ◌<◌, ◌≡◌, refl, sym, ◌∙◌, ap, ==ℤ_iff, ==ℤ_refl, inl, inr, Bool, true, false, List, [], ◌∷◌,
  ◌++◌, append_assoc, Option, none, some, if◌then◌else◌, ℤ, pos, ◌==ℤ◌, ◌≤ℤ◌, length, arith,
  Option-cases, Bool-cases, IsInt, All,
}
use mathlib.Core.List.{Memᴰ}
use mathlib.Core.List.Memᴰ
use cmput.Text.{Bytes, codes, same, words, words_from, is_space}
use cmput.Text.Number.{to_string, stoi-to_string}
use cmput.Process.{
  Event, printed, signalled, forked, waited, sigkill, sigstop, sigcont, running, exited, undefined,
}
use cmput.Shell.Tasks.{
  Task, Table, get_process, emplace, set_running, SortedFrom, erase-emplace, get_process-erase,
  get_process-set_running, get_process-emplace,
}
use cmput.Shell.{
  with_process, kill, resume, suspend, run, in_background, new_task, not_found, kill_process,
  resume_process, kills, exit_shell, functions, dispatch, check_token_size, check_lengths,
}
use cmput.Shell.State.{Shell, Sys, say}
use cmput.Shell.Jobs.{print_cpu_time}

-- `kill P`, for any number P: a process of that number gets SIGKILL, and else an error is printed; behind
-- it no process of that number is in the table, and every other one is there as before.
pub kill_lem :
    (name : Bytes) (pid : ℤ) (s : Shell)
    → IsInt pid
    → SortedFrom none s.processes
    → (t : Shell) × (kill (name ∷ to_string pid ∷ []) s ≡ running t)
      × ((q : ℤ)
          → get_process q t.processes ≡ (if pid ==ℤ q then none else get_process q s.processes))
      × (t.out
          ≡ s.out
            ++ elim (get_process pid s.processes) [
              | none ↦ printed (not_found pid)
              | some task ↦ signalled pid sigkill
            ]
              ∷ [])
unfolding kill with_process
kill_lem name pid s h sorted = elim (Option-cases (get_process pid s.processes)) [
  | inl e ↦ (say (not_found pid) s, rw (stoi-to_string pid h, e), λ q. stays q e, rw e)
  | inr (task, e) ↦ (
    kill_process pid s,
    rw (stoi-to_string pid h, e),
    λ q. get_process-erase none pid q s.processes sorted,
    rw e,
  )
]
  where
    stays :
        (q : ℤ)
        → get_process pid s.processes ≡ none
        → get_process q s.processes ≡ (if pid ==ℤ q then none else get_process q s.processes)
    stays q e = elim (Bool-cases (pid ==ℤ q)) [
      | inl f ↦ rw (f, ← (==ℤ_iff pid q).0 f) e
      | inr f ↦ rw f
    ]

marked_alone :
    (pid q : ℤ) (r : Bool) (task : Task) (m : Table)
    → get_process pid m ≡ some task
    → get_process q (set_running pid r m)
      ≡ (if pid ==ℤ q then some (record task { running = r }) else get_process q m)
marked_alone pid q r task m e = elim (Bool-cases (pid ==ℤ q)) [
  | inl f ↦ rw (get_process-set_running pid q r m, f, ← (==ℤ_iff pid q).0 f, e) refl
  | inr f ↦ rw (get_process-set_running pid q r m, f) refl
]

-- `suspend P` and then `resume P`, for a process P in the table. The first sends SIGSTOP and marks P as not
-- running, the second sends SIGCONT and marks it as running; each sends this one signal only, and behind each
-- every other process is in the table as it was before.
pub resume-suspend :
    (name : Bytes) (pid : ℤ) (task : Task) (s : Shell)
    → IsInt pid
    → get_process pid s.processes ≡ some task
    → (t : Shell) × (u : Shell) × (suspend (name ∷ to_string pid ∷ []) s ≡ running t)
      × (resume (name ∷ to_string pid ∷ []) t ≡ running u)
      × (t.out ≡ s.out ++ signalled pid sigstop ∷ [])
      × (u.out ≡ t.out ++ signalled pid sigcont ∷ [])
      × ((q : ℤ)
          → (get_process q t.processes ≡ (
              if pid ==ℤ q
              then some (record task { running = false })
              else get_process q s.processes))
            × (get_process q u.processes ≡ (
                if pid ==ℤ q
                then some (record task { running = true })
                else get_process q s.processes)))
unfolding suspend resume with_process
resume-suspend name pid task s h e =
    let t : Shell = record s {
      processes = set_running pid false s.processes;
      out = s.out ++ signalled pid sigstop ∷ [];
    } in
    let marked : get_process pid t.processes ≡ some (record task { running = false }) =
      rw (get_process-set_running pid pid false s.processes, ==ℤ_refl pid, e) refl in
    let u : Shell = record t {
      processes = set_running pid true t.processes;
      out = t.out ++ signalled pid sigcont ∷ [];
    } in
    (
      t,
      u,
      rw (stoi-to_string pid h, e) refl,
      rw (stoi-to_string pid h, marked, resume_process) refl,
      refl,
      refl,
      λ q. (stopped q, continued q),
    )
  where
    stopped :
        (q : ℤ)
        → get_process q (set_running pid false s.processes) ≡ (
            if pid ==ℤ q then some (record task { running = false }) else get_process q s.processes)
    stopped q = marked_alone pid q false task s.processes e

    continued :
        (q : ℤ)
        → get_process q (set_running pid true (set_running pid false s.processes))
          ≡ (if pid ==ℤ q then some (record task { running = true }) else get_process q s.processes)
    continued q = ground (
      arith,
      stopped pid,
      stopped q,
      ==ℤ_refl pid,
      marked_alone pid q true (record task { running = false }) (set_running pid false s.processes),
    )

module _ (sys : Sys) (tokens : List Bytes) (s : Shell) where
  -- A line that starts a process, when the table has room and `fork` gives a number that is not in it: if
  -- the last of its tokens is not "&", the shell waits for the process, and the table is as before.
  pub run-foreground :
      length s.processes < 32
      → pos 0 ≤ℤ sys.fork
      → get_process sys.fork s.processes ≡ none
      → in_background tokens ≡ false
      → run sys tokens s
        ≡ running (record s { out = s.out ++ forked sys.fork ∷ waited sys.fork ∷ [] })
  unfolding run
  run-foreground room h fresh front =
      rw
        (
          front,
          erase-emplace sys.fork (new_task sys.fork tokens) s.processes fresh,
          append_assoc s.out,
        )
        (ground arith)

  -- If the last of its several tokens is "&", the shell does not wait: the process is in the table, as
  -- running and under its number, and no other entry changes.
  pub run-background :
      length s.processes < 32
      → pos 0 ≤ℤ sys.fork
      → get_process sys.fork s.processes ≡ none
      → in_background tokens ≡ true
      → (t : Shell) × (run sys tokens s ≡ running t)
        × (t.out ≡ s.out ++ forked sys.fork ∷ [])
        × ((q : ℤ)
            → get_process q t.processes ≡ (
                if sys.fork ==ℤ q
                then some (new_task sys.fork tokens)
                else get_process q s.processes))
  unfolding run
  run-background room h fresh back = (
    record s {
      processes = emplace sys.fork (new_task sys.fork tokens) s.processes;
      out = s.out ++ forked sys.fork ∷ [];
    },
    rw back (ground arith),
    refl,
    λ q. get_process-emplace sys.fork q (new_task sys.fork tokens) s.processes fresh,
  )

-- A line of white space only.
words_blank : (line : Bytes) → All (λ c. is_space c ≡ true) line → words line ≡ []
unfolding words words_from
words_blank line h = blank line h
  where
    blank : (line : Bytes) → All (λ c. is_space c ≡ true) line → words_from [] line ≡ []
    blank [] h = refl
    blank (c ∷ line) h = rw h.0 (blank line h.1)

-- A line of at most 100 characters that is not empty but holds white space only ends the shell by an
-- exception that nothing catches.
pub functions_blank :
    (sys : Sys) (line : Bytes) (s : Shell)
    → length line ≤ 100
    → All (λ c. is_space c ≡ true) line
    → functions sys line s ≡ undefined
unfolding functions dispatch check_token_size
functions_blank sys line s short blank = rw (words_blank line blank) (ground arith)

kills-Mem :
    (low : Option ℤ) (pid : ℤ) (t : Task) (m : Table)
    → SortedFrom low m
    → get_process pid m ≡ some t
    → Memᴰ (signalled pid sigkill) (kills m)
unfolding SortedFrom get_process kills
kills-Mem low pid t [] s e = ground arith
kills-Mem low pid t ((k, u) ∷ m) s e = elim (Bool-cases (k ==ℤ pid)) [
  | inl f ↦ Memᴰ.head (ap (λ p. signalled p sigkill) (sym (s.1 ∙ (==ℤ_iff k pid).0 f)))
  | inr f ↦ Memᴰ.tail (kills-Mem (some k) pid t m s.2 (rw f at e))
]

-- `exit` ends the shell with code 1, and every process in the table has got SIGKILL.
pub exit-kills :
    (sys : Sys) (pid : ℤ) (t : Task) (s : Shell)
    → SortedFrom none s.processes
    → get_process pid s.processes ≡ some t
    → (out : List Event) × (functions sys (codes "exit") s ≡ exited 1 out)
      × Memᴰ (signalled pid sigkill) out
unfolding functions dispatch exit_shell check_token_size words words_from same check_lengths
exit-kills sys pid t s sorted e =
    let s' = say (codes "\n") s in
    let rest = printed (codes "Resources used: \n" ++ print_cpu_time sys) ∷ [] in
    (
      s'.out ++ (kills s.processes ++ rest),
      refl,
      Memᴰ.append_right s'.out (Memᴰ.append_left rest (kills-Mem none pid t s.processes sorted e)),
    )
