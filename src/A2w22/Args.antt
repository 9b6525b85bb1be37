-- ===== src/A2w22/Args.antt =====
-- Assignment_2/w22/a2w22.cpp: `main`, on the arguments behind the program's name.
use cmput.Common.{
  Bool, false, ◌&&◌, ◌||◌, List, [], ◌∷◌, ◌==◌, ltb, if◌then◌else◌, ℤ, pos, negsuc, leb_ℤ, length,
  take, drop,
}
use cmput.Text.{Bytes, codes, same}
use cmput.Process.{printed, Outcome, running, exited, undefined, ◌>>=◌}
use cmput.A2w22.{Ips, max_switch, number, split_ip}

-- The call that `main` ends with, with its arguments.
pub data Launch : Type 0 where
  controller : ℤ → Launch
  master_switch : ℤ → ℤ → ℤ → Bytes → Ips → Launch

abbrev usage : Bytes
usage =
    codes
      "ERROR: invalid argument format:\n    a2w22 master nSwitch\n    a2w22 psw1 dataFile (null|pswj) (null|pswk) IPlow-IPhigh\n"

abbrev refuse : Bytes → Outcome Launch
refuse text = exited 0 (printed text ∷ [])

-- `find("psw") != npos`
contains_psw : Bytes → Bool
contains_psw (c ∷ d ∷ e ∷ s) = (c == b'p' && (d == b's' && e == b'w')) || contains_psw (d ∷ e ∷ s)
contains_psw _ = false

-- `stoi(string(…).substr(3))`; `substr(3)` of a shorter text throws.
number_behind : Bytes → Outcome ℤ
number_behind name = if ltb (length name) 3 then undefined else number (drop 3 name)

-- The switch at a port, from one digit; -1 for `null`.
unfoldable pub port_of : Bytes → Outcome ℤ
port_of name =
    if same name (codes "null")
    then running (negsuc 0)
    else if ltb (length name) 3
    then undefined
    else number (take 1 (drop 3 name))

invalid : Outcome Launch
invalid = refuse (codes "Invalid argument\n")

-- The arguments of a switch.
run_switch : Bytes → Bytes → Bytes → Bytes → Bytes → Outcome Launch
unfolding number_behind port_of split_ip
run_switch mode file port1 port2 range = do
  switch_id ← number_behind mode
  pswj ← port_of port1
  pswk ← port_of port2
  ip_range ← split_ip range
  running (master_switch switch_id pswj pswk file ip_range)

-- The `else if` branch and the last one.
launch_switch : Bytes → List Bytes → Outcome Launch
unfolding contains_psw run_switch invalid
launch_switch mode (file ∷ port1 ∷ port2 ∷ range ∷ []) =
    if contains_psw mode then run_switch mode file port1 port2 range else invalid
launch_switch mode _ = invalid

-- `master` with a number of switches; a larger number goes on to the other branches.
launch_controller : Bytes → Bytes → Outcome Launch
unfolding launch_switch
launch_controller mode count = do
  switches ← number count
  if leb_ℤ switches (pos max_switch)
      then running (controller switches)
      else launch_switch mode (count ∷ [])

launch_mode : Bytes → List Bytes → Outcome Launch
unfolding launch_switch launch_controller
launch_mode mode (count ∷ []) =
    if same mode (codes "master")
    then launch_controller mode count
    else launch_switch mode (count ∷ [])
launch_mode mode args = launch_switch mode args

-- The number of arguments is 2 to 5.
unfoldable pub launch : List Bytes → Outcome Launch
unfolding launch_mode
launch (mode ∷ arg ∷ rest) =
    if ltb 3 (length rest) then refuse usage else launch_mode mode (arg ∷ rest)
launch _ = refuse usage
