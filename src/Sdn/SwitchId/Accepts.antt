-- ===== src/Sdn/SwitchId/Accepts.antt =====
-- test2/util.cpp: which texts `parseSwitchId` accepts.
use cmput.Common.{
  ℕ, ◌≤◌, ◌≡◌, refl, false, ◌&&◌, [], ◌∷◌, ◌++◌, append-nil, leb, if◌then◌else◌, pos, arith,
  int_max,
}
use cmput.Text.{Bytes, codes, same}
use cmput.Text.Number.{strtol, to_int, to_string, scan_number-to_string}
use cmput.Process.{running, exited}
use cmput.Sdn.SwitchId.{parse_switch_id, invalid_id}

pub strtol-to_string : (n : ℕ) → n ≤ int_max → strtol (to_string (pos n)) ≡ (pos n, false)
unfolding strtol
strtol-to_string n h =
    rw (← append-nil (to_string (pos n)), scan_number-to_string (pos n) [] tt, strtol)
      (ground arith)

-- `swN` is accepted, as the number N, exactly for N from 1 to 7; for any other N in the range of `int`
-- the process prints an error and exits with code 1.
pub parse_switch_id-to_string :
    (n : ℕ)
    → n ≤ int_max
    → parse_switch_id (codes "sw" ++ to_string (pos n))
      ≡ (if leb 1 n && leb n 7 then running (pos n) else exited 1 (invalid_id (pos n) ∷ []))
unfolding parse_switch_id to_int same
parse_switch_id-to_string n h = rw (strtol-to_string n h) (ground arith)

strtol-other : (rest : Bytes) → strtol (b'w' ∷ rest) ≡ (pos 0, false)
unfolding strtol
strtol-other rest = refl

-- A name of the form `psw…`, which the traffic files beside the program use, is refused whatever
-- follows: the process prints that the number is 0 and exits with code 1.
parse_switch_id-psw :
    (rest : Bytes) → parse_switch_id (codes "psw" ++ rest) ≡ exited 1 (invalid_id (pos 0) ∷ [])
unfolding parse_switch_id to_int same
parse_switch_id-psw rest = rw (strtol-other rest) (ground arith)
