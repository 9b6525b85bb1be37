-- ===== src/Sdn/Args.antt =====
-- test2/a3sdn.cpp: the command line.
pub mod IpRange
pub mod Launched
use cmput.Common.{
  ◌-◌, ℕ, zero, suc, ◌%◌, ◌^◌, Bool, true, false, ◌&&◌, ◌||◌, List, [], ◌∷◌, ◌++◌, ◌==◌,
  if◌then◌else◌, ℤ, pos, negsuc, ltb_ℤ,
}
use cmput.Text.{Bytes, codes, same, pieces}
use cmput.Text.Number.{strtol, to_int}
use cmput.Sdn.SwitchId.{parse_switch_id}
use cmput.Sdn.Address.{Resolved, get_address_info}
use cmput.Process.{Event, printed, Outcome, running, exited, ◌>>=◌}

abbrev pub max_nsw : ℕ
max_nsw = 7

abbrev pub max_ip : ℕ
max_ip = 1000

abbrev fail {ℓ} : {A : Type ℓ} → Bytes → Outcome A
fail message = exited 1 (printed message ∷ [])

abbrev invalid_ip : ℤ → Bool → Bool
invalid_ip ip errno = ltb_ℤ ip (pos 0) || ltb_ℤ (pos max_ip) ip || errno

checked_ip : Bytes → Outcome ℤ
checked_ip token =
    let (value, errno) = strtol token in
    let ip = to_int value in
    if invalid_ip ip errno then fail (codes "Error: Invalid IP lower bound.\n") else running ip

-- One round of the loop over the pieces: the counter `i` and the two bounds so far.
read_bound : ℕ → ℤ → ℤ → Bytes → Outcome (ℤ × ℤ)
unfolding checked_ip
read_bound zero low high token = checked_ip token >>= λ ip. running (ip, high)
read_bound (suc zero) low high token = checked_ip token >>= λ ip. running (low, ip)
read_bound (suc (suc i)) low high token = running (low, high)

read_bounds : ℕ → ℤ → ℤ → List Bytes → Outcome (ℤ × ℤ)
unfolding read_bound
read_bounds i low high [] = running (low, high)
read_bounds i low high ([] ∷ tokens) = fail (codes "Error: Malformed IP range.\n")
read_bounds i low high ((c ∷ token) ∷ tokens) = do
  bounds ← read_bound i low high (c ∷ token)
  read_bounds (suc i) bounds.0 bounds.1 tokens

check_order : ℤ × ℤ → Outcome (ℤ × ℤ)
check_order (low, high) =
    if ltb_ℤ high low then fail (codes "Error: Invalid range.\n") else running (low, high)

unfoldable pub parse_ip_range : Bytes → Outcome (ℤ × ℤ)
unfolding read_bounds check_order
parse_ip_range input = read_bounds 0 (pos 0) (pos 0) (pieces b'-' input) >>= check_order

-- What `main` goes on to: the loop of the controller or of a switch, with its arguments.
pub data Launch : Type 0 where
  controller_loop : ℤ → ℕ → Launch
  switch_loop : ℤ → ℤ → ℤ → ℤ × ℤ → Bytes → ℕ → Launch

-- `(uint16_t) strtol(…)`
port_number : Bytes → ℕ
port_number token = residue (to_int (strtol token).0)
  where
    residue : ℤ → ℕ
    residue (pos n) = n % 2 ^ 16
    residue (negsuc n) = (2 ^ 32 - 1 - n) % 2 ^ 16

contains_sw : Bytes → Bool
contains_sw [] = false
contains_sw (c ∷ []) = false
contains_sw (c ∷ d ∷ s) = (c == b's' && d == b'w') || contains_sw (d ∷ s)

launch_controller : List Bytes → Outcome Launch
unfolding port_number
launch_controller (count ∷ port ∷ []) =
    let (value, errno) = strtol count in
    let num_switches = to_int value in
    if ltb_ℤ (pos max_nsw) num_switches || ltb_ℤ num_switches (pos 1) || errno
    then fail (codes "Error: Invalid number of switches. Must be 1-7.\n")
    else running (controller_loop num_switches (port_number port))
launch_controller _ = fail (codes "Error: Invalid number of arguments. Expected 4.\n")

require_file : Bool → Outcome (Unit {0})
require_file true = running tt
require_file false = fail (codes "Error: Cannot open file.\n")

-- `opens` tells whether the traffic file can be opened.
launch_switch :
    (Bytes → Bool) → (Bytes → Resolved) → Bytes → List Bytes → Outcome (Launch × List Event)
unfolding port_number parse_ip_range require_file get_address_info
launch_switch opens getaddrinfo mode (file ∷ port1 ∷ port2 ∷ range ∷ server ∷ port ∷ []) = do
  switch_id ← parse_switch_id mode
  readable ← require_file (opens file)
  switch_id1 ← parse_switch_id port1
  switch_id2 ← parse_switch_id port2
  ip_range ← parse_ip_range range
  found ← get_address_info getaddrinfo server
  running (
    switch_loop switch_id switch_id1 switch_id2 ip_range found.0 (port_number port),
    found.1 ++ printed (codes "Found IP: " ++ (found.0 ++ codes "\n")) ∷ [],
  )
launch_switch opens getaddrinfo mode _ =
    fail (codes "Error: Invalid number of arguments. Expected 8.\n")

-- `main`, on the arguments behind the program's name: the loop that it goes on to, and what it printed before.
unfoldable pub launch :
    (Bytes → Bool) → (Bytes → Resolved) → List Bytes → Outcome (Launch × List Event)
unfolding launch_controller launch_switch contains_sw
launch opens getaddrinfo [] = fail (codes "Too few arguments.\n")
launch opens getaddrinfo (mode ∷ args) =
    if same mode (codes "cont")
    then (launch_controller args >>= λ loop. running (loop, []))
    else if contains_sw mode
    then launch_switch opens getaddrinfo mode args
    else fail (codes "Error: Invalid mode specified. Expected cont or swi.\n")
