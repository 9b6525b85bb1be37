-- ===== src/Msh/Check.antt =====
-- Assignment_1/msh379.cpp: `check`, which prints a process and its descendants from the output of `ps`.
use cmput.Common.{
  ℕ, zero, suc, ◌+◌, ◌<◌, ◌≡◌, refl, inl, inr, Bool, true, List, [], ◌∷◌, ◌++◌, Option, none, some,
  if◌then◌else◌, length, take, All, arith, Bool-cases,
}
use mathlib.Core.Path.{subst}
use cmput.Text.{Bytes, codes, same, same_iff, pieces}

pub record Parent : Type 0 where
  pub user : Bytes
  pub pid : Bytes
  pub ppid : Bytes
  pub state : Bytes
  pub start : Bytes
  pub cmd : Bytes
  pub others : Bytes

abbrev blank : Parent
blank = record { user = []; pid = []; ppid = []; state = []; start = []; cmd = []; others = [] }

-- The token number `i` of a line
store_token : ℕ → Bytes → Parent → Parent
store_token zero token p = record p { user = token }
store_token (suc zero) token p = record p { pid = token }
store_token (suc (suc zero)) token p = record p { ppid = token }
store_token (suc (suc (suc zero))) token p = record p { state = token }
store_token (suc (suc (suc (suc zero)))) token p = record p { start = token }
store_token (suc (suc (suc (suc (suc zero))))) token p = record p { cmd = token }
store_token (suc (suc (suc (suc (suc (suc i)))))) token p = record p { others = p.others ++ token }

store_tokens : ℕ → List Bytes → Parent → Parent
unfolding store_token
store_tokens i [] p = p
store_tokens i ([] ∷ tokens) p = store_tokens i tokens p
store_tokens i ((c ∷ token) ∷ tokens) p = store_tokens (i + 1) tokens (store_token i (c ∷ token) p)

unfoldable pub process_buffer : Bytes → Parent
unfolding store_tokens pieces
process_buffer buffer = store_tokens 0 (pieces b' ' buffer) blank

unfoldable pub get_parent : List Bytes → List Parent
unfolding process_buffer
get_parent [] = []
get_parent (line ∷ ps) = process_buffer line ∷ get_parent ps

-- `s.find(part) != npos`
unfoldable pub has_part : Bytes → Bytes → Bool
unfolding same
has_part part [] = same part []
has_part part (c ∷ s) =
    let later = has_part part s in if same part (take (length part) (c ∷ s)) then true else later

abbrev pub process_line : Parent → Bytes
process_line p =
    codes "    "
    ++ (p.user
        ++ (codes " "
            ++ (p.pid
                ++ (codes " "
                    ++ (p.ppid
                        ++ (codes " "
                            ++ (p.state
                                ++ (codes " "
                                    ++ (p.start
                                        ++ (codes " "
                                            ++ (p.cmd ++ (codes " " ++ p.others))))))))))))

state_of : Parent → Bytes
unfolding has_part
state_of p =
    codes "    target_pid= "
    ++ (p.pid
        ++ (codes
              (if has_part (codes "defunct") p.others then " terminated\n" else " is running:\n")
            ++ (codes "    USER       PID    PPID S  STARTED CMD\n" ++ process_line p)))

unfoldable pub get_state : Bytes → List Parent → Bytes
unfolding state_of
get_state target [] = []
get_state target (p ∷ ps) =
    let rest = get_state target ps in if same p.pid target then state_of p ++ rest else rest

-- Two texts one after the other, if both are there.
abbrev both : Option Bytes → Option Bytes → Option Bytes
both none rest = none
both (some a) none = none
both (some a) (some b) = some (a ++ b)

abbrev under : Bytes → Option Bytes → Option Bytes
under line none = none
under line (some t) = some (line ++ t)

-- The loop of `get_c_processes`, with its recursive call as a function.
unfoldable pub children_of : (Bytes → Option Bytes) → Bytes → List Parent → Option Bytes
unfolding same
children_of call target [] = some []
children_of call target (p ∷ ps) =
    let rest = children_of call target ps in
    if same p.ppid target then both (under (process_line p) (call p.pid)) rest else rest

-- `get_c_processes`, `fuel` calls deep at most: `none` where that is not enough.
unfoldable pub get_c_processes : ℕ → List Parent → Bytes → Option Bytes
unfolding children_of
get_c_processes zero processes target = none
get_c_processes (suc fuel) processes target =
    children_of (get_c_processes fuel processes) target processes

-- `check`; among n processes no chain of children without a repetition is longer than n. With a
-- repetition the source's recursion does not end, which is `none`.
unfoldable pub check : List Bytes → List Bytes → Option Bytes
unfolding get_parent get_state get_c_processes
check ps [] = some (codes "Error: No task number\n")
check ps (target ∷ []) =
    let processes = get_parent ps in
    both (some (get_state target processes))
      (get_c_processes (suc (length processes)) processes target)
check ps (a ∷ b ∷ args) = some (codes "Error: Too many args\n")

-- Every chain of children is finite: each process ranks below its parent.
abbrev pub Ranked : (Bytes → ℕ) → List Parent → Type 0
Ranked rank = All (λ p. rank p.pid < rank p.ppid)

-- Two results that are there, and the same.
abbrev Agree : Option Bytes → Option Bytes → Type 0
Agree a b = (text : Bytes) × (a ≡ some text) × (b ≡ some text)

children_of-Agree :
    (rank : Bytes → ℕ) (call call' : Bytes → Option Bytes) (target : Bytes) (ps : List Parent)
    → Ranked rank ps
    → ((pid : Bytes) → rank pid < rank target → Agree (call pid) (call' pid))
    → Agree (children_of call target ps) (children_of call' target ps)
unfolding children_of
children_of-Agree rank call call' target [] h k = ([], refl, refl)
children_of-Agree rank call call' target (p ∷ ps) h k =
    let (rest, e, e') = children_of-Agree rank call call' target ps h.1 k in
    elim (Bool-cases (same p.ppid target)) [
      | inl child ↦
          let (text, f, f') =
            k p.pid (subst (λ t. rank p.pid < rank t) ((same_iff p.ppid target).0 child) h.0) in
          (process_line p ++ text ++ rest, rw (child, e, f), rw (child, e', f'))
      | inr other ↦ (rest, rw (other, e), rw (other, e'))
    ]

-- When each process ranks below its parent, the recursion that prints the descendants of a process ends,
-- and how deep it may go does not change what it prints, as long as that is more than the rank of the
-- process.
pub get_c_processes-enough :
    (rank : Bytes → ℕ) (f g : ℕ) (processes : List Parent) (target : Bytes)
    → Ranked rank processes
    → rank target < f
    → rank target < g
    → (text : Bytes) × (get_c_processes f processes target ≡ some text)
      × (get_c_processes g processes target ≡ some text)
unfolding get_c_processes
get_c_processes-enough rank zero g processes target r h k = elim h [ ]
get_c_processes-enough rank (suc f) zero processes target r h k = elim k [ ]
get_c_processes-enough rank (suc f) (suc g) processes target r h k =
    children_of-Agree rank (get_c_processes f processes) (get_c_processes g processes) target
      processes r
      λ pid below.
        get_c_processes-enough rank f g processes pid r (omega (arith, h, below))
          (omega (arith, k, below))
