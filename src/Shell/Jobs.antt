-- ===== src/Shell/Jobs.antt =====
-- Assignment_1/2022F/Commands.cpp: `listJobs` and `printCPUTime`.
use cmput.Common.{ℕ, zero, suc, ◌+◌, [], ◌∷◌, ◌++◌, if◌then◌else◌, ltb, length}
use cmput.Text.{Bytes, codes}
use cmput.Text.Number.{to_string, print_nat}
use cmput.Shell.Tasks.{Task, Table}
use cmput.Shell.State.{Shell, Sys, say}

-- `%Nd` with the field width `n`: blanks in front
unfoldable pub padded : ℕ → Bytes → Bytes
padded zero text = text
padded (suc n) text = if ltb n (length text) then text else b' ' ∷ padded n text

unfoldable pub print_cpu_time : Sys → Bytes
print_cpu_time sys =
    codes "User time: "
    ++ (to_string sys.user_time
        ++ (codes " s\nSys time: " ++ (to_string sys.sys_time ++ codes " s\n")))

unfoldable pub job_line : Sys → ℕ → Task → Bytes
unfolding padded
job_line sys index t =
    padded 2 (print_nat index)
    ++ (codes ": "
        ++ (padded 7 (to_string t.pid)
            ++ (codes (if t.running then " R " else " S ")
                ++ (padded 3 (to_string (sys.run_time t.pid))
                    ++ (codes " " ++ (t.cmd ++ codes "\n"))))))

unfoldable pub job_lines : Sys → ℕ → Table → Bytes
unfolding job_line
job_lines sys index [] = []
job_lines sys index ((k, t) ∷ m) = job_line sys index t ++ job_lines sys (index + 1) m

unfoldable pub job_table : Sys → Table → Bytes
unfolding job_lines
job_table sys [] = []
job_table sys (e ∷ m) = codes " #      PID S SEC COMMAND\n" ++ job_lines sys 0 (e ∷ m)

unfoldable pub list_jobs : Sys → Shell → Shell
unfolding job_table print_cpu_time
list_jobs sys s =
    say
      (codes "Running processes: \n"
        ++ (job_table sys s.processes
            ++ (codes "Processes = "
                ++ (print_nat (length s.processes)
                    ++ (codes " active \nCompleted processes: \n"
                        ++ (print_cpu_time sys ++ codes "\n"))))))
      s
