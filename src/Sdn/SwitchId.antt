-- ===== src/Sdn/SwitchId.antt =====
-- test2/util.cpp: `parseSwitchId`.
pub mod Accepts
use cmput.Common.{
  Bool, ◌||◌, [], ◌∷◌, ◌++◌, ltb, if◌then◌else◌, ℤ, pos, negsuc, ltb_ℤ, length, drop,
}
use cmput.Text.{Bytes, codes, same}
use cmput.Text.Number.{strtol, to_int, to_string}
use cmput.Process.{Event, printed, Outcome, running, exited, undefined}

abbrev pub invalid_id : ℤ → Event
invalid_id id =
    printed (codes "Error: Invalid switch ID " ++ (to_string id ++ codes ". Expected 1-7.\n"))

checked_id : ℤ → Bool → Outcome ℤ
checked_id id errno =
    if ltb_ℤ id (pos 1) || ltb_ℤ (pos 7) id || errno
    then exited 1 (invalid_id id ∷ [])
    else running id

-- The number behind two characters; `substr(2, …)` of a shorter text throws.
unfoldable pub parse_switch_id : Bytes → Outcome ℤ
unfolding checked_id
parse_switch_id input =
    if same input (codes "null")
    then running (negsuc 0)
    else if ltb (length input) 2
    then undefined
    else let (value, errno) = strtol (drop 2 input) in checked_id (to_int value) errno
