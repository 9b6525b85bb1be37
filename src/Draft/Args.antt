-- ===== src/Draft/Args.antt =====
-- test/a3w22.cpp: the command line.
use cmput.Common.{
  ℕ, Bool, false, ◌&&◌, ◌||◌, List, [], ◌∷◌, ◌++◌, ◌==◌, ltb, if◌then◌else◌, ℤ, pos, negsuc, ltb_ℤ,
  length, take, drop, get_elem?,
}
use cmput.Text.{Bytes, codes, same, pieces}
use cmput.Text.Number.{strtol, stoi, to_int}
use cmput.Process.{Event, printed, Outcome, running, exited, undefined, ◌>>=◌, or_undefined}

abbrev pub max_nsw : ℕ
max_nsw = 7

-- The loop that `main` ends with, with its arguments, and what was printed before.
pub data Launch : Type 0 where
  master_loop : ℤ → ℤ → Launch
  switch_loop : ℤ → ℤ → ℤ → ℤ × ℤ → Bytes → ℤ → List Event → Launch

abbrev fail {ℓ} : {A : Type ℓ} → Bytes → Outcome A
fail message = exited 1 (printed message ∷ [])

abbrev number : Bytes → Outcome ℤ
number text = or_undefined (stoi text)

unfoldable pub get_ip_range : Bytes → Outcome (ℤ × ℤ)
get_ip_range input = do
  low ← or_undefined (get_elem? (pieces b'-' input) 0)
  ip_low ← number low
  high ← or_undefined (get_elem? (pieces b'-' input) 1)
  ip_high ← number high
  if ltb_ℤ ip_high ip_low then fail (codes "Error: Invalid range.\n") else running (ip_low, ip_high)

contains_sw : Bytes → Bool
contains_sw (c ∷ d ∷ s) = (c == b's' && d == b'w') || contains_sw (d ∷ s)
contains_sw _ = false

-- `substr(3)` of a shorter text throws.
behind_three : Bytes → Outcome Bytes
behind_three name = if ltb (length name) 3 then undefined else running (drop 3 name)

port_of : Bytes → Outcome ℤ
unfolding behind_three
port_of name =
    if same name (codes "null")
    then running (negsuc 0)
    else behind_three name >>= λ rest. number (take 1 rest)

invalid_entry : Outcome Launch
invalid_entry = fail (codes "Error: Invalid entry.\n")

-- `strtol` reads the first argument before their number is tested; without one it is undefined.
launch_master : List Bytes → Outcome Launch
unfolding invalid_entry
launch_master [] = undefined
launch_master (count ∷ port ∷ []) =
    let (value, errno) = strtol count in
    let num_switches = to_int value in
    if ltb_ℤ (pos max_nsw) num_switches || ltb_ℤ num_switches (pos 1) || errno
    then invalid_entry
    else number port >>= λ port_number. running (master_loop num_switches port_number)
launch_master _ = invalid_entry

found_ip : Bytes → List Event
found_ip address =
    printed (address ++ codes "\n") ∷ printed (codes "Found IP: " ++ (address ++ codes "\n")) ∷ []

launch_switch : Bytes → List Bytes → Outcome Launch
unfolding behind_three port_of get_ip_range found_ip
launch_switch mode (file ∷ port1 ∷ port2 ∷ range ∷ server ∷ port ∷ []) = do
  id ← behind_three mode
  switch_id ← number id
  switch_id1 ← port_of port1
  switch_id2 ← port_of port2
  ip_range ← get_ip_range range
  port_number ← number port
  running
      (switch_loop switch_id switch_id1 switch_id2 ip_range server port_number (found_ip server))
launch_switch mode _ = fail (codes "Error: Invalid argument.\n")

-- `main`, on the arguments behind the program's name.
unfoldable pub launch : List Bytes → Outcome Launch
unfolding launch_master launch_switch contains_sw
launch [] = fail (codes "Too few arguments.\n")
launch (mode ∷ args) =
    if same mode (codes "master")
    then launch_master args
    else if contains_sw mode
    then launch_switch mode args
    else fail (codes "Error: Invalid mode specified. Expected master or pswi.\n")
