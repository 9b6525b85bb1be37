-- ===== src/Shell/Child.antt =====
-- Assignment_1/2022F/Process.cpp: what the child of `run` does: redirections and the program it becomes.
use cmput.Common.{
  ◌+◌, ◌≤◌, ◌≡◌, ◌↔◌, Bool, List, [], ◌∷◌, ◌++◌, none, if◌then◌else◌, ◌==◌, leb, length, arith,
  length-append,
}
use cmput.Text.{Bytes, codes, same}
use cmput.Shell.{check_token_size}

-- `cmdList`, `inputFile` and `outputFile`
pub record Plan : Type 0 where
  pub cmd_list : List Bytes
  pub input_file : Bytes
  pub output_file : Bytes

-- One token: `>F` and `<F` name a file, the last of each counts, and "&" is dropped.
place : Bytes → Plan → Plan
unfolding same
place [] plan = record plan { cmd_list = plan.cmd_list ++ [] ∷ [] }
place (c ∷ item) plan =
    if c == b'>'
    then record plan { output_file = item }
    else if c == b'<'
    then record plan { input_file = item }
    else if same (c ∷ item) (codes "&")
    then plan
    else record plan { cmd_list = plan.cmd_list ++ (c ∷ item) ∷ [] }

place_all : List Bytes → Plan → Plan
unfolding place
place_all [] plan = plan
place_all (t ∷ tokens) plan = place_all tokens (place t plan)

unfoldable pub plan_of : List Bytes → Plan
unfolding place_all
plan_of tokens = place_all tokens (record { cmd_list = []; input_file = []; output_file = [] })

-- The child becomes the program with these arguments, gives up with a message and code 1, or returns
-- from `run`, to go on as a second shell. In the first two cases the files are those of its standard input
-- and output, an empty name standing for the shell's own.
pub data Child : Type 0 where
  becomes : Bytes → Bytes → List Bytes → Child
  gives_up : Bytes → Bytes → Bytes → Child
  returns : Child

-- The `switch` has a case for each number of arguments from 1 to 7. `finds` tells whether `execlp`
-- succeeds.
unfoldable pub exec : (Bytes → Bool) → Bytes → Bytes → List Bytes → Child
exec finds input output [] = returns
exec finds input output (program ∷ args) =
    if leb (length args) 6
    then if finds program
      then becomes input output (program ∷ args)
      else gives_up input output (codes "Could not execute " ++ (program ++ codes "\n"))
    else returns

unfoldable pub child : (Bytes → Bool) → List Bytes → Child
unfolding exec plan_of
child finds tokens =
    let plan = plan_of tokens in exec finds plan.input_file plan.output_file plan.cmd_list

place-length : (t : Bytes) (plan : Plan) → length (place t plan).cmd_list ≤ length plan.cmd_list + 1
unfolding place
place-length [] plan = ground (arith, length-append plan.cmd_list ([] ∷ []))
place-length (c ∷ item) plan = ground (arith, length-append plan.cmd_list ((c ∷ item) ∷ []))

place_all-length :
    (tokens : List Bytes) (plan : Plan)
    → length (place_all tokens plan).cmd_list ≤ length plan.cmd_list + length tokens
unfolding place_all
place_all-length [] plan = omega arith
place_all-length (t ∷ tokens) plan =
    omega (arith, place_all-length tokens (place t plan), place-length t plan)

few_tokens : (tokens : List Bytes) → check_token_size tokens ≡ none → length tokens ≤ 7
unfolding check_token_size
few_tokens tokens h = ground arith

plan_fits : (tokens : List Bytes) → length (plan_of tokens).cmd_list ≤ length tokens
unfolding plan_of
plan_fits tokens =
    omega
      (arith, place_all-length tokens (record { cmd_list = []; input_file = []; output_file = [] }))

exec-returns :
    (finds : Bytes → Bool) (input output : Bytes) (args : List Bytes)
    → length args ≤ 7
    → (exec finds input output args ≡ returns) ↔ (args ≡ [])
unfolding exec
exec-returns finds input output [] k = ground arith
exec-returns finds input output (program ∷ args) k = ground arith

-- A line that passes `checkTokenSize` has at most seven arguments, which the `switch` covers: the child
-- returns from `run` exactly if no argument is left behind the redirections and "&".
pub child-eq-returns :
    (finds : Bytes → Bool) (tokens : List Bytes)
    → check_token_size tokens ≡ none
    → (child finds tokens ≡ returns) ↔ ((plan_of tokens).cmd_list ≡ [])
unfolding child
child-eq-returns finds tokens h =
    exec-returns finds (plan_of tokens).input_file (plan_of tokens).output_file
      (plan_of tokens).cmd_list (omega (arith, few_tokens tokens h, plan_fits tokens))
