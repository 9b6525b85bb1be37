-- ===== src/ProdCon/Main.antt =====
-- Assignment_2/f22/main.cpp and outfile.cpp: the arguments of the program, the join of its threads and the
-- summary.
use cmput.Common.{
  ℕ, zero, suc, ◌+◌, Bool, true, false, ◌&&◌, List, [], ◌∷◌, ◌++◌, Option, none, some,
  if◌then◌else◌, ℤ, pos, ◌==ℤ◌,
}
use cmput.Text.{Bytes, codes}
use cmput.Text.Number.{to_string, print_nat, atoi}
use cmput.Process.{Outcome, running, exited}
use cmput.ProdCon.{System}
use cmput.ProdCon.State.{
  Shared, Consumer, ConsumerAt, left, created, checking, asking, sleeping, taken, busy,
}

-- The name of the log
output_file : ℤ → Bytes
output_file thread_id =
    if thread_id ==ℤ pos 0
    then codes "prodcon.log"
    else codes "prodcon." ++ (to_string thread_id ++ codes ".log")

-- `main` up to the threads: their number and the name of the log. (The message goes to stderr.)
unfoldable pub arguments : List Bytes → Outcome (ℤ × Bytes)
unfolding output_file atoi
arguments [] = exited 1 []
arguments (nthreads ∷ []) = running (atoi nthreads, output_file (pos 0))
arguments (nthreads ∷ thread_id ∷ rest) = running (atoi nthreads, output_file (atoi thread_id))

has_left : ConsumerAt → Bool
has_left left = true
has_left created = false
has_left checking = false
has_left asking = false
has_left sleeping = false
has_left (taken command) = false
has_left (busy command) = false

-- `main` joins the threads of the array `threads`. The first consumer takes the place of the producer
-- there, so that the consumers are waited for and the producer is not.
unfoldable pub joined : List Consumer → Bool
unfolding has_left
joined [] = true
joined (c ∷ cs) = has_left c.at && joined cs

thread_lines : ℕ → ℕ → (ℕ → ℕ) → Bytes
thread_lines zero i counts = []
thread_lines (suc n) i counts =
    codes "\tThread "
    ++ (print_nat i
        ++ (codes ":\t" ++ (print_nat (counts i) ++ (codes "\n" ++ thread_lines n (i + 1) counts))))

-- `rate` is how the library prints the work count divided by the time of the run.
unfoldable pub output_stats : ℕ → Bytes → Shared → Bytes
unfolding thread_lines
output_stats nthreads rate g =
    codes "Summary:\n\tWork\t\t"
    ++ (print_nat g.work_count
        ++ (codes "\n\tAsk\t\t\t"
            ++ (print_nat g.ask_count
                ++ (codes "\n\tReceive\t\t"
                    ++ (print_nat g.receive_count
                        ++ (codes "\n\tComplete\t"
                            ++ (print_nat g.complete_count
                                ++ (codes "\n\tSleep\t\t"
                                    ++ (print_nat g.sleep_count
                                        ++ (codes "\n"
                                            ++ (thread_lines nthreads 1 g.thread_completed_tasks
                                                ++ (codes "Transactions per second:\t"
                                                    ++ (rate ++ codes "\n")))))))))))))

-- What `main` prints when the threads that it joins have ended, and `none` as long as one has not.
unfoldable pub finish : ℕ → Bytes → System → Option Bytes
unfolding joined output_stats
finish nthreads rate s =
    if joined s.consumers then some (output_stats nthreads rate s.shared) else none
