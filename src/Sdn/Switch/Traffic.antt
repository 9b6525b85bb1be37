-- ===== src/Sdn/Switch/Traffic.antt =====
-- test2/switch.cpp: the lines of the traffic file, and step 1 of the event loop, which admits one
-- packet. `errno` is 0 when a line is parsed, as every failure before it ends the process.
pub mod Admit
use cmput.Common.{
  ℕ, ◌+◌, Bool, false, not, ◌&&◌, ◌||◌, List, [], ◌∷◌, ◌++◌, Option, none, some, ◌==◌, ltb,
  if◌then◌else◌, ℤ, pos, ◌==ℤ◌, ltb_ℤ, get_elem?, pos_part, neg_part,
}
use cmput.Text.{Bytes, codes, same, words}
use cmput.Text.Number.{strtol, to_int, to_string}
use cmput.Sdn.SwitchId.{parse_switch_id}
use cmput.Process.{Event, printed, Outcome, running, ◌>>=◌, or_undefined, behind, at, contains}
use cmput.Sdn.Switch.State.{
  ActionType, forward, drop_it, max_ip, Switch, Sys, send_query_packet, ensure_fifo, relay_to,
  count_relay_out,
}
use cmput.Sdn.Switch.Table.{find_rule, bump_rule}

-- The texts that `parseTrafficFileLine` returns for its first part.
pub data LineType : Type 0 where
  empty comment delay action error : LineType

-- The type of a line, its numbers, and what the parser printed.
pub record Line : Type 0 where
  pub type : LineType
  pub content : List ℤ
  pub prints : List Event

abbrev is_address : ℤ → Bool → Bool
is_address ip errno = not (ltb_ℤ ip (pos 0) || ltb_ℤ (pos max_ip) ip || errno)

abbrev invalid_bound : Event
invalid_bound = printed (codes "Error: Invalid IP lower bound.\n")

-- One of the two addresses: it goes to the numbers if it is valid, and else makes the line an error.
read_address : Bytes → Line → Line
read_address token line =
    let (value, errno) = strtol token in
    let ip = to_int value in
    if is_address ip errno
    then record line { content = line.content ++ ip ∷ [] }
    else record line { type = error; prints = line.prints ++ invalid_bound ∷ [] }

read_delay : Bytes → Line → Line
read_delay token line =
    let (value, errno) = strtol token in
    let ms = to_int value in
    if ltb_ℤ ms (pos 0) || errno
    then record line {
      type = error;
      prints = line.prints ++ printed (codes "Error: Invalid delay. Skipping line.\n") ∷ [];
    }
    else record line { content = line.content ++ ms ∷ [] }

abbrev started : LineType → ℤ → Line
started type id = record { type = type; content = id ∷ []; prints = [] }

-- The tokens behind the first.
read_rest : ℤ → List Bytes → Outcome Line
unfolding read_address read_delay
read_rest id tokens = do
  second ← or_undefined (get_elem? tokens 1)
  third ← or_undefined (get_elem? tokens 2)
  if same second (codes "delay")
      then running (read_delay third (started delay id))
      else running (read_address third (read_address second (started action id)))

read_tokens : List Bytes → Outcome Line
unfolding read_rest
read_tokens tokens = do
  first ← or_undefined (get_elem? tokens 0)
  id ← parse_switch_id first
  read_rest id tokens

abbrev nothing : LineType → Line
nothing type = record { type = type; content = []; prints = [] }

unfoldable pub parse_traffic_file_line : Bytes → Outcome Line
unfolding read_tokens words
parse_traffic_file_line [] = running (nothing empty)
parse_traffic_file_line (c ∷ line) =
    if c == b'#' then running (nothing comment) else read_tokens (words (c ∷ line))

-- `now` in milliseconds
unfoldable pub is_delayed : ℕ → ℕ → ℤ → Bool
is_delayed now start_time duration =
    if duration ==ℤ pos 0
    then false
    else ltb (now + neg_part duration) (start_time + pos_part duration)

abbrev pub count_admit : Switch → Switch
count_admit s = record s { counts = record counts { admit = counts.admit + 1 } }
  where
    open s use {counts}

abbrev pub count_query : Switch → Switch
count_query s = record s {
  add_received = false;
  counts = record counts { query = counts.query + 1 };
}
  where
    open s use {counts}

unfoldable pub begin_delay : ℕ → ℤ → Switch → Switch
begin_delay now ms s = record s {
  delay_start = now;
  delay_duration = ms;
  out = s.out ++ printed notice ∷ [];
}
  where
    notice : Bytes
    notice = codes "Entering a delay period of " ++ (to_string ms ++ codes " milliseconds.\n")

module _ (sys : Sys) where
  -- `sendRelayPacket` unless the port is closed.
  unfoldable pub relay_if_open : ℤ → ℤ → ℤ → Switch → Outcome Switch
  unfolding contains
  relay_if_open port src_ip dest_ip s =
      if contains port s.closed then running s else relay_to sys port src_ip dest_ip s

  -- A packet that goes out at a port; port 3 stands for this switch.
  unfoldable pub forward_packet : ℤ → ℤ → ℤ → Switch → Outcome Switch
  unfolding relay_if_open
  forward_packet port src_ip dest_ip s =
      if port ==ℤ pos 3
      then running s
      else (ensure_fifo sys port s >>= λ t.
          relay_if_open port src_ip dest_ip t >>= λ u. running (count_relay_out u))

  unfoldable pub apply_rule : ActionType → ℤ → ℤ → ℤ → Switch → Outcome Switch
  unfolding forward_packet
  apply_rule drop_it val src_ip dest_ip s = running s
  apply_rule forward val src_ip dest_ip s = forward_packet val src_ip dest_ip s

  unfoldable pub ask_controller : ℤ → ℤ → Switch → Outcome Switch
  unfolding at
  ask_controller src_ip dest_ip s = do
    sent ← send_query_packet sys (at (pos 0) s.port_to_fd) s.id (pos 0) src_ip dest_ip s
    running (count_query sent)

  -- The search of the flow table, for a packet that is admitted.
  unfoldable pub admit : ℤ → ℤ → Switch → Outcome Switch
  unfolding apply_rule ask_controller find_rule bump_rule
  admit src_ip dest_ip s =
      let admitted = record (count_admit s) { flow_table = bump_rule dest_ip s.flow_table } in
      elim (find_rule dest_ip s.flow_table) [
        | none ↦ ask_controller src_ip dest_ip admitted
        | some rule ↦ apply_rule rule.action_type rule.action_val src_ip dest_ip admitted
      ]

  unfoldable pub handle_action : List ℤ → Switch → Outcome Switch
  unfolding admit
  handle_action content s = do
    traffic_id ← or_undefined (get_elem? content 0)
    src_ip ← or_undefined (get_elem? content 1)
    dest_ip ← or_undefined (get_elem? content 2)
    if s.id ==ℤ traffic_id then admit src_ip dest_ip s else running s

  unfoldable pub handle_delay : ℕ → List ℤ → Switch → Outcome Switch
  unfolding begin_delay
  handle_delay now content s = do
    traffic_id ← or_undefined (get_elem? content 0)
    if s.id ==ℤ traffic_id
        then (or_undefined (get_elem? content 1) >>= λ ms. running (begin_delay now ms s))
        else running s

  unfoldable pub handle_line : ℕ → LineType → List ℤ → Switch → Outcome Switch
  unfolding handle_action handle_delay
  handle_line now action content s = handle_action content s
  handle_line now delay content s = handle_delay now content s
  handle_line now _ content s = running s

  unfoldable pub read_line : ℕ → Bytes → Switch → Outcome Switch
  unfolding parse_traffic_file_line handle_line
  read_line now text s = do
    line ← behind s.out (parse_traffic_file_line text)
    handle_line now line.type line.content (record s { out = s.out ++ line.prints })

  unfoldable pub next_line : ℕ → Option (List Bytes) → Switch → Outcome Switch
  unfolding read_line
  next_line now none s = running s
  next_line now (some []) s = running (record s { traffic = none })
  next_line now (some (text ∷ rest)) s = read_line now text (record s { traffic = some rest })

  -- Step 1 of the loop.
  unfoldable pub traffic_step : ℕ → Switch → Outcome Switch
  unfolding next_line is_delayed
  traffic_step now s =
      if s.ack_received && s.add_received && not (is_delayed now s.delay_start s.delay_duration)
      then next_line now s.traffic (record s { delay_start = 0; delay_duration = pos 0 })
      else running s
