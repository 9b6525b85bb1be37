-- ===== src/Draft/Switch/Traffic.antt =====
-- test/switch.cpp: the lines of the traffic file, and what the switch does with one.
use cmput.Common.{
  ◌+◌, Bool, true, false, ◌&&◌, List, [], ◌∷◌, ◌++◌, Option, none, some, ◌==◌, ltb, if◌then◌else◌,
  ℤ, pos, negsuc, ◌==ℤ◌, leb_ℤ, length, take, drop,
}
use cmput.Text.{Bytes, codes, same, words}
use cmput.Text.Number.{stoi, to_string}
use cmput.Process.{printed, Outcome, running, undefined, ◌>>=◌, or_undefined}
use cmput.Draft.Switch.{
  ActionType, forward, drop_it, ForwardRule, Switch, emit, relay_to, ask_master,
}

abbrev number : Bytes → Outcome ℤ
number text = or_undefined (stoi text)

-- A line that `continue` passes over, a delay, or a packet, with the number of its switch.
pub data Line : Type 0 where
  skipped : Line
  delay_line : ℤ → ℤ → Line
  action_line : ℤ → ℤ → ℤ → Line

-- The switch of a line, from one digit; -1 for `null`.
unfoldable pub traffic_id : Bytes → Outcome ℤ
traffic_id name =
    if same name (codes "null")
    then running (negsuc 0)
    else if ltb (length name) 3
    then undefined
    else number (take 1 (drop 3 name))

read_delay : ℤ → Bytes → Outcome Line
read_delay id token = number token >>= λ ms. running (delay_line id ms)

read_action : ℤ → Bytes → Bytes → Outcome Line
read_action id src dest = do
  src_ip ← number src
  dest_ip ← number dest
  running (action_line id src_ip dest_ip)

-- The tokens of a line; a line with fewer than three is read beyond its end.
unfoldable pub read_tokens : List Bytes → Outcome Line
unfolding traffic_id read_delay read_action
read_tokens (first ∷ second ∷ third ∷ rest) = do
  id ← traffic_id first
  if same second (codes "delay") then read_delay id third else read_action id second third
read_tokens _ = undefined

unfoldable pub parse_line : Bytes → Outcome Line
unfolding read_tokens words
parse_line [] = running skipped
parse_line (c ∷ line) = if c == b'#' then running skipped else read_tokens (words (c ∷ line))

abbrev pub matches : ℤ → ForwardRule → Bool
matches dest_ip rule = leb_ℤ rule.dest_ip_low dest_ip && leb_ℤ dest_ip rule.dest_ip_high

-- The first rule for the destination, and the table with that rule counted.
unfoldable pub find_rule : ℤ → List ForwardRule → Option ForwardRule
find_rule dest_ip [] = none
find_rule dest_ip (rule ∷ table) =
    if matches dest_ip rule then some rule else find_rule dest_ip table

unfoldable pub bump_rule : ℤ → List ForwardRule → List ForwardRule
bump_rule dest_ip [] = []
bump_rule dest_ip (rule ∷ table) =
    if matches dest_ip rule
    then record rule { pkt_count = rule.pkt_count + 1 } ∷ table
    else rule ∷ bump_rule dest_ip table

abbrev pub count_admit : Switch → Switch
count_admit s = record s { counts = record counts { admit = counts.admit + 1 } }
  where
    open s use {counts}

abbrev pub count_ask : Switch → Switch
count_ask s = record s { add_received = false; counts = record counts { ask = counts.ask + 1 } }
  where
    open s use {counts}

delay_notice : ℤ → Bytes
delay_notice ms = codes "Entering a delay period of " ++ (to_string ms ++ codes " milliseconds.\n")

module _ (opens : Bytes → ℤ) where
  unfoldable pub apply_rule : ActionType → ℤ → ℤ → ℤ → ℤ → Switch → Outcome Switch
  unfolding relay_to
  apply_rule drop_it id val src_ip dest_ip s = running s
  apply_rule forward id val src_ip dest_ip s =
      if val ==ℤ pos 3 then running s else relay_to opens id val src_ip dest_ip s

  -- A packet that is admitted. `id` is the number of the line: it hides the switch's own number there.
  unfoldable pub admit : ℤ → ℤ → ℤ → Switch → Outcome Switch
  unfolding apply_rule find_rule bump_rule ask_master
  admit id src_ip dest_ip s =
      let admitted = record (count_admit s) { table = bump_rule dest_ip s.table } in
      elim (find_rule dest_ip s.table) [
        | none ↦ ask_master id src_ip dest_ip admitted >>= λ asked. running (count_ask asked)
        | some rule ↦ apply_rule rule.action_type id rule.action_val src_ip dest_ip admitted
      ]

  -- The Boolean tells whether the round of the loop is left by `continue`. The line's number is compared
  -- with the variable `id` that was set to it, and not with the switch's number, so that the test always
  -- succeeds.
  unfoldable pub handle_line : Line → Switch → Outcome (Bool × Switch)
  unfolding admit delay_notice
  handle_line skipped s = running (true, s)
  handle_line (delay_line id ms) s =
      if id ==ℤ id
      then running (false, emit (printed (delay_notice ms)) (record s { delay = ms }))
      else running (false, s)
  handle_line (action_line id src_ip dest_ip) s =
      if id ==ℤ id
      then (admit id src_ip dest_ip s >>= λ t. running (false, t))
      else running (false, s)

  unfoldable pub next_line : Option (List Bytes) → Switch → Outcome (Bool × Switch)
  unfolding parse_line handle_line
  next_line none s = running (false, s)
  next_line (some []) s = running (false, record s { traffic = none })
  next_line (some (text ∷ rest)) s = do
    line ← parse_line text
    handle_line line (record s { traffic = some rest })

  -- `if (hello_ackReceived && addReceived && delay==0)`
  unfoldable pub traffic_step : Switch → Outcome (Bool × Switch)
  unfolding next_line
  traffic_step s =
      if s.hello_ack_received && s.add_received && (s.delay ==ℤ pos 0)
      then next_line s.traffic s
      else running (false, s)
