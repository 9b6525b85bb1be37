-- ===== src/Sdn/Switch/Traffic/Admit.antt =====
-- test2/switch.cpp: what step 1 of the loop keeps of the counters and the flow table.
use cmput.Common.{
  ap, ℕ, ◌+◌, ◌≡◌, refl, not, ◌&&◌, List, [], ◌∷◌, ◌++◌, Option, none, some, ◌==◌, ℤ, pos, ◌==ℤ◌,
  length, get_elem?, arith,
}
use cmput.Text.{Bytes}
use cmput.Sdn.Packet.{make_fifo_name}
use cmput.Sdn.Packet.Log.{print_packet_message}
use cmput.Process.{
  printed, wrote, Outcome, running, exited, undefined, behind, at, find, touch, contains,
}
use cmput.Process.Ensures.{
  Ensures, runs, exits, faults, bind-Ensures, or_undefined-Ensures, if-Ensures,
}
use cmput.Sdn.Switch.State.{
  ActionType, forward, drop_it, FlowRule, Switch, Sys, Opened, descriptor, refused, emit,
  log_packet, send, send_query_packet, send_relay_packet, open_port, ensure_fifo, relay_to,
  count_relay_out,
}
use cmput.Sdn.Switch.Table.{find_rule, bump_rule, total, total-bump_rule, bump_rule-none}
use cmput.Sdn.Switch.Traffic.{
  LineType, empty, comment, delay, action, error, parse_traffic_file_line, is_delayed, count_admit,
  begin_delay, relay_if_open, forward_packet, apply_rule, ask_controller, admit, handle_action,
  handle_delay, handle_line, read_line, next_line, traffic_step,
}

-- The flow table has the switch's own rule and one for each ADD, and the packets counted at its rules
-- and the queries are those admitted and those that an ADD answered.
pub record Inv (s : Switch) : Type 0 where
  pub one_rule_each : length s.flow_table ≡ s.counts.add + 1
  pub accounted : total s.flow_table + s.counts.query ≡ s.counts.admit + s.counts.add

length-bump_rule :
    (dest_ip : ℤ) (table : List FlowRule) → length (bump_rule dest_ip table) ≡ length table
unfolding bump_rule
length-bump_rule dest_ip [] = refl
length-bump_rule dest_ip (rule ∷ table) = ground (arith, length-bump_rule dest_ip table)

-- A predicate that speaks of the flow table, the counters of admitted packets, queries and ADDs, and
-- the wait for an ADD alone.
abbrev pub Reads : (Switch → Type 0) → Type 0
Reads P =
    (s t : Switch)
    → t.flow_table ≡ s.flow_table
    → t.counts.admit ≡ s.counts.admit
    → t.counts.query ≡ s.counts.query
    → t.counts.add ≡ s.counts.add
    → t.add_received ≡ s.add_received
    → P s
    → P t

pub Inv-Reads : Reads Inv
Inv-Reads s t e a q d r v = record {
  one_rule_each = rw (e, d) v.one_rule_each;
  accounted = rw (e, a, q, d) v.accounted;
}

module _ {P : Switch → Type 0} (reads : Reads P) where
  pub log_packet-Ensures :
      (direction : Bytes) (src dest : ℤ) (type : Bytes) (msg : List ℤ) (s : Switch)
      → P s
      → Ensures P (log_packet direction src dest type msg s)
  unfolding log_packet
  log_packet-Ensures direction src dest type msg s p =
      bind-Ensures (or_undefined-Ensures (print_packet_message direction src dest type msg))
        λ line _. runs (reads s (emit (printed line) s) refl refl refl refl refl p)

  pub send-Ensures :
      (sys : Sys) (fd src dest : ℤ) (type text : Bytes) (s : Switch)
      → P s
      → Ensures P (send sys fd src dest type text s)
  unfolding send
  send-Ensures sys fd src dest type text s p =
      let t = emit (wrote fd text) s in
      if-Ensures (sys.errno_after_write fd text == 0)
        (log_packet-Ensures _ src dest type _ t (reads s t refl refl refl refl refl p)) exits

  open_port-Ensures : (port : ℤ) (o : Opened) (s : Switch) → P s → Ensures P (open_port port o s)
  unfolding open_port
  open_port-Ensures port (descriptor fd) s p = runs (reads s _ refl refl refl refl refl p)
  open_port-Ensures port (refused errno) s p = exits

  pub ensure_fifo-Ensures :
      (sys : Sys) (port : ℤ) (s : Switch) → P s → Ensures P (ensure_fifo sys port s)
  unfolding ensure_fifo
  ensure_fifo-Ensures sys port s p = split (find port s.port_to_fd)
    where
      absent : Switch
      absent = record s { port_to_id = touch port s.port_to_id }

      opened : Opened
      opened = sys.open_fifo (make_fifo_name s.id (at port s.port_to_id))

      split :
          (o : Option ℤ)
          → Ensures P (elim o [ some fd ↦ running s | none ↦ open_port port opened absent ])
      split (some fd) = runs p
      split none = open_port-Ensures port opened absent (reads s absent refl refl refl refl refl p)

  pub relay_to-Ensures :
      (sys : Sys) (port src dest : ℤ) (s : Switch) → P s → Ensures P (relay_to sys port src dest s)
  unfolding relay_to send_relay_packet
  relay_to-Ensures sys port src dest s p =
      send-Ensures sys _ _ _ _ _ _ (reads s _ refl refl refl refl refl p)

-- Between the count of an admitted packet and that of its query.
record Asking (s : Switch) : Type 0 where
  one_rule_each : length s.flow_table ≡ s.counts.add + 1
  query_due : total s.flow_table + s.counts.query + 1 ≡ s.counts.admit + s.counts.add

Asking-Reads : Reads Asking
Asking-Reads s t e a q d r v = record {
  one_rule_each = rw (e, d) v.one_rule_each;
  query_due = rw (e, a, q, d) v.query_due;
}

module _ (sys : Sys) where
  relay_if_open-Ensures :
      {P : Switch → Type 0} (reads : Reads P) (port src dest : ℤ) (s : Switch)
      → P s
      → Ensures P (relay_if_open sys port src dest s)
  unfolding relay_if_open
  relay_if_open-Ensures reads port src dest s p =
      if-Ensures (contains port s.closed) (runs p) (relay_to-Ensures reads sys port src dest s p)

  forward_packet-Ensures :
      {P : Switch → Type 0} (reads : Reads P) (port src dest : ℤ) (s : Switch)
      → P s
      → Ensures P (forward_packet sys port src dest s)
  unfolding forward_packet
  forward_packet-Ensures reads port src dest s p = if-Ensures (port ==ℤ pos 3) (runs p) (
      bind-Ensures (ensure_fifo-Ensures reads sys port s p) λ t q.
        bind-Ensures (relay_if_open-Ensures reads port src dest t q)
          λ u r. runs (reads u (count_relay_out u) refl refl refl refl refl r))

  apply_rule-Ensures :
      {P : Switch → Type 0} (reads : Reads P) (a : ActionType) (val src dest : ℤ) (s : Switch)
      → P s
      → Ensures P (apply_rule sys a val src dest s)
  unfolding apply_rule
  apply_rule-Ensures reads drop_it val src dest s p = runs p
  apply_rule-Ensures reads forward val src dest s p = forward_packet-Ensures reads val src dest s p

  ask_controller-Ensures :
      (src dest : ℤ) (s : Switch) → Asking s → Ensures Inv (ask_controller sys src dest s)
  unfolding ask_controller send_query_packet
  ask_controller-Ensures src dest s v =
      bind-Ensures (send-Ensures Asking-Reads sys _ _ _ _ _ s v) λ t w. runs (omega arith)

  admit-Ensures : (src dest : ℤ) (s : Switch) → Inv s → Ensures Inv (admit sys src dest s)
  unfolding admit
  admit-Ensures src dest s v = split (find_rule dest s.flow_table) refl
    where
      admitted : Switch
      admitted = record (count_admit s) { flow_table = bump_rule dest s.flow_table }

      split :
          (o : Option FlowRule)
          → find_rule dest s.flow_table ≡ o
          → Ensures Inv (elim o [
            | none ↦ ask_controller sys src dest admitted
            | some rule ↦ apply_rule sys rule.action_type rule.action_val src dest admitted
          ])
      split none e = ask_controller-Ensures src dest admitted (
          omega (
            arith,
            ap length (bump_rule-none dest s.flow_table e),
            ap total (bump_rule-none dest s.flow_table e),
          ))
      split (some rule) e =
          apply_rule-Ensures Inv-Reads rule.action_type rule.action_val src dest admitted (
            omega
              (arith, length-bump_rule dest s.flow_table, total-bump_rule dest s.flow_table rule e))

  handle_action-Ensures :
      (content : List ℤ) (s : Switch) → Inv s → Ensures Inv (handle_action sys content s)
  unfolding handle_action
  handle_action-Ensures content s v =
      bind-Ensures (or_undefined-Ensures (get_elem? content 0)) λ id _.
        bind-Ensures (or_undefined-Ensures (get_elem? content 1)) λ src _.
          bind-Ensures (or_undefined-Ensures (get_elem? content 2))
            λ dest _. if-Ensures (s.id ==ℤ id) (admit-Ensures src dest s v) (runs v)

  handle_delay-Ensures :
      (now : ℕ) (content : List ℤ) (s : Switch)
      → Inv s
      → Ensures Inv (handle_delay sys now content s)
  unfolding handle_delay begin_delay
  handle_delay-Ensures now content s v =
      bind-Ensures (or_undefined-Ensures (get_elem? content 0)) λ id _.
        if-Ensures (s.id ==ℤ id)
          (bind-Ensures (or_undefined-Ensures (get_elem? content 1)) λ ms _. runs (omega arith))
          (runs v)

  handle_line-Ensures :
      (now : ℕ) (type : LineType) (content : List ℤ) (s : Switch)
      → Inv s
      → Ensures Inv (handle_line sys now type content s)
  unfolding handle_line
  handle_line-Ensures now action content s v = handle_action-Ensures content s v
  handle_line-Ensures now delay content s v = handle_delay-Ensures now content s v
  handle_line-Ensures now empty content s v = runs v
  handle_line-Ensures now comment content s v = runs v
  handle_line-Ensures now error content s v = runs v

  anything : {A : Type 0} (m : Outcome A) → Ensures (λ a. Unit {0}) m
  anything (running a) = runs tt
  anything (exited code out) = exits
  anything undefined = faults

  next_line-Ensures :
      (now : ℕ) (traffic : Option (List Bytes)) (s : Switch)
      → Inv s
      → Ensures Inv (next_line sys now traffic s)
  unfolding next_line read_line
  next_line-Ensures now none s v = runs v
  next_line-Ensures now (some []) s v = runs (omega arith)
  next_line-Ensures now (some (text ∷ rest)) s v =
      bind-Ensures
        {f = λ line.
          handle_line sys now line.type line.content
            (record s { traffic = some rest; out = s.out ++ line.prints })}
        (anything (behind s.out (parse_traffic_file_line text)))
        λ line _.
          handle_line-Ensures now line.type line.content
            (record s { traffic = some rest; out = s.out ++ line.prints }) (omega arith)

  pub traffic_step-Ensures : (now : ℕ) (s : Switch) → Inv s → Ensures Inv (traffic_step sys now s)
  unfolding traffic_step
  traffic_step-Ensures now s v =
      if-Ensures
        (s.ack_received && s.add_received && not (is_delayed now s.delay_start s.delay_duration))
        (next_line-Ensures now s.traffic _ (omega arith)) (runs v)
