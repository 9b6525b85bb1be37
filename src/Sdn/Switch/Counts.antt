-- ===== src/Sdn/Switch/Counts.antt =====
-- test2/switch.cpp: the counters and the flow table of a switch over whole runs.
use cmput.Common.{
  true, ℕ, zero, suc, ◌+◌, ◌≡◌, List, [], ◌∷◌, ◌++◌, Option, none, some, ◌==◌, ℤ, pos, negsuc,
  ◌==ℤ◌, ltb_ℤ, length-append, get_elem?, arith, not, ◌&&◌, ◌||◌,
}
use cmput.Text.{Bytes, codes, same, overwrite}
use cmput.Sdn.Packet.{parse_packet_string, make_fifo_name}
use cmput.Process.{
  printed, running, ◌>>=◌, Reading, end_of_file, failed, bytes, at, touch, insert, contains,
}
use cmput.Process.Ensures.{
  Ensures, runs, exits, bind-Ensures, or_undefined-Ensures, if-Ensures, Ensures-running,
}
use cmput.Sdn.Switch.State.{
  ActionType, forward, drop_it, FlowRule, Switch, Sys, Opened, descriptor, refused, emit,
  count_relay_out, added_rule, add_rule, send_open_packet, controller_slot,
}
use cmput.Sdn.Switch.Table.{total}
use cmput.Sdn.Switch.Traffic.Admit.{
  Inv, Inv-Reads, log_packet-Ensures, send-Ensures, ensure_fifo-Ensures, relay_to-Ensures,
  traffic_step-Ensures,
}
use cmput.Sdn.Switch.{
  switch_list, counted_relay, relay_waiting, add_forward, add_drop, handle_add, pass_on, is_for_us,
  count_relay_in, handle_relay, dispatch, handle_text, closed_slot, serve, serve_slots,
}
use cmput.Sdn.Switch.Loop.{
  command, keyboard, clear_buffer, Poll, poll_failed, polled, round, rounds, Config, Setup, initial,
  open_slot, create_fifo, connect_port, set_up, unknown_command, count_open,
}

total-append :
    (table : List FlowRule) (rule : FlowRule)
    → total (table ++ rule ∷ []) ≡ total table + rule.pkt_count
unfolding total
total-append [] rule = omega arith
total-append (r ∷ table) rule = omega (arith, total-append table rule)

add_rule-Inv :
    (action : ActionType) (low high val : ℤ) (s : Switch)
    → Inv s
    → Inv (add_rule action low high val s)
add_rule-Inv action low high val s v =
    let rule = added_rule action low high val in
    omega (arith, total-append s.flow_table rule, length-append s.flow_table (rule ∷ []))

module _ (sys : Sys) where
  counted_relay-Ensures :
      (port src dest : ℤ) (s : Switch) → Inv s → Ensures Inv (counted_relay sys port src dest s)
  unfolding counted_relay
  counted_relay-Ensures port src dest s v =
      bind-Ensures (relay_to-Ensures Inv-Reads sys port src dest s v) λ t w. runs (omega arith)

  relay_waiting-Ensures :
      (port : ℤ) (msg : List ℤ) (dest : ℤ) (s : Switch)
      → Inv s
      → Ensures Inv (relay_waiting sys port msg dest s)
  unfolding relay_waiting
  relay_waiting-Ensures port msg dest s v =
      bind-Ensures (or_undefined-Ensures (get_elem? msg 4))
        λ src _. relay_to-Ensures Inv-Reads sys port src dest s v

  add_forward-Ensures :
      (i : ℕ) (msg : List ℤ) (s : Switch) → Inv s → Ensures Inv (add_forward sys i msg s)
  unfolding add_forward
  add_forward-Ensures i msg s v = bind-Ensures (or_undefined-Ensures (get_elem? msg 1)) λ low _.
      bind-Ensures (or_undefined-Ensures (get_elem? msg 2)) λ high _.
        bind-Ensures (or_undefined-Ensures (get_elem? msg 3)) λ port _.
          bind-Ensures (ensure_fifo-Ensures Inv-Reads sys port s v) λ t w.
            bind-Ensures {P = Inv}
              (if-Ensures (contains (pos i) t.closed) (runs w)
                (relay_waiting-Ensures port msg low t w))
              λ u x. runs (add_rule-Inv forward low high port (count_relay_out u) (omega arith))

  add_drop-Ensures : (msg : List ℤ) (s : Switch) → Inv s → Ensures Inv (add_drop sys msg s)
  unfolding add_drop
  add_drop-Ensures msg s v = bind-Ensures (or_undefined-Ensures (get_elem? msg 1)) λ low _.
      bind-Ensures (or_undefined-Ensures (get_elem? msg 2)) λ high _.
        bind-Ensures (or_undefined-Ensures (get_elem? msg 3))
          λ val _. runs (add_rule-Inv drop_it low high val s v)

  handle_add-Ensures :
      (i : ℕ) (msg : List ℤ) (s : Switch) → Inv s → Ensures Inv (handle_add sys i msg s)
  unfolding handle_add
  handle_add-Ensures i msg s v =
      let heard = record s { add_received = true } in
      let w : Inv heard = omega arith in
      bind-Ensures (or_undefined-Ensures (get_elem? msg 0)) λ action _.
        if-Ensures (action ==ℤ pos 0) (add_drop-Ensures msg heard w)
          (if-Ensures (action ==ℤ pos 1) (add_forward-Ensures i msg heard w) (runs (omega arith)))

  pass_on-Ensures :
      (i : ℕ) (src dest : ℤ) (s : Switch) → Inv s → Ensures Inv (pass_on sys i src dest s)
  unfolding pass_on
  pass_on-Ensures i src dest s v = if-Ensures (contains (pos i) s.closed) (runs v) (
      if-Ensures (ltb_ℤ (pos i) s.id) (counted_relay-Ensures (pos 1) src dest s v)
        (if-Ensures (ltb_ℤ s.id (pos i)) (counted_relay-Ensures (pos 2) src dest s v) (runs v)))

  handle_relay-Ensures :
      (i : ℕ) (msg : List ℤ) (s : Switch) → Inv s → Ensures Inv (handle_relay sys i msg s)
  unfolding handle_relay
  handle_relay-Ensures i msg s v =
      let w : Inv (count_relay_in s) = omega arith in
      bind-Ensures (or_undefined-Ensures (get_elem? msg 1)) λ dest _.
        bind-Ensures (or_undefined-Ensures (get_elem? msg 0)) λ src _.
          if-Ensures (is_for_us dest s) (runs w) (pass_on-Ensures i src dest (count_relay_in s) w)

  dispatch-Ensures :
      (i : ℕ) (type : Bytes) (msg : List ℤ) (s : Switch)
      → Inv s
      → Ensures Inv (dispatch sys i type msg s)
  unfolding dispatch
  dispatch-Ensures i type msg s v = if-Ensures (same type (codes "ACK")) (runs (omega arith)) (
      if-Ensures (same type (codes "ADD")) (handle_add-Ensures i msg s v) (
        if-Ensures (same type (codes "RELAY")) (handle_relay-Ensures i msg s v)
          (runs (omega arith))))

  handle_text-Ensures :
      (i : ℕ) (text : Bytes) (s : Switch) → Inv s → Ensures Inv (handle_text sys i text s)
  unfolding handle_text
  handle_text-Ensures i text s v =
      let packet = parse_packet_string text in
      bind-Ensures {f = dispatch sys i packet.0 packet.1}
        (log_packet-Ensures Inv-Reads (codes "Received") (at (pos i) s.port_to_id) s.id packet.0
          packet.1 (record s { port_to_id = touch (pos i) s.port_to_id }) (omega arith))
        λ t w. dispatch-Ensures i packet.0 packet.1 t w

  serve-Ensures :
      (i : ℕ) (reading : Reading) (s : Switch) → Inv s → Ensures Inv (serve sys i reading s)
  unfolding serve closed_slot
  serve-Ensures i end_of_file s v = if-Ensures (i == controller_slot) exits (runs (omega arith))
  serve-Ensures i failed s v = handle_text-Ensures i _ s v
  serve-Ensures i (bytes b) s v =
      handle_text-Ensures i _ (record s { buffer = overwrite b s.buffer }) (omega arith)

  serve_slots-Ensures :
      (n i : ℕ) (ready : ℕ → Option Reading) (s : Switch)
      → Inv s
      → Ensures Inv (serve_slots sys n i ready s)
  unfolding serve_slots
  serve_slots-Ensures zero i ready s v = runs v
  serve_slots-Ensures (suc n) i ready s v =
      bind-Ensures (slot (ready i)) λ t w. serve_slots-Ensures n (i + 1) ready t w
    where
      slot :
          (r : Option Reading)
          → Ensures Inv (elim r [ none ↦ running s | some reading ↦ serve sys i reading s ])
      slot none = runs v
      slot (some reading) = serve-Ensures i reading s v

command-Ensures : (cmd : Bytes) (s : Switch) → Inv s → Ensures Inv (command cmd s)
unfolding command
command-Ensures cmd s v =
    let listed = emit (printed (switch_list s.flow_table s.counts)) s in
    let w : Inv listed = omega arith in
    if-Ensures (same cmd (codes "list")) (runs w) (
      if-Ensures (same cmd (codes "exit")) exits
        (runs {a = emit (printed unknown_command) s} (omega arith)))

keyboard-Ensures : (r : Option Reading) (s : Switch) → Inv s → Ensures Inv (keyboard r s)
unfolding keyboard
keyboard-Ensures none s v = runs v
keyboard-Ensures (some end_of_file) s v = exits
keyboard-Ensures (some failed) s v = command-Ensures _ s v
keyboard-Ensures (some (bytes b)) s v = command-Ensures _ _ (omega arith)

round-Ensures : (p : Poll) (s : Switch) → Inv s → Ensures Inv (round p s)
unfolding round clear_buffer
round-Ensures (poll_failed now sys errno) s v =
    bind-Ensures (traffic_step-Ensures sys now s v) λ a w. exits
round-Ensures (polled now sys stdin ready) s v =
    bind-Ensures (traffic_step-Ensures sys now s v) λ a wa.
      bind-Ensures (keyboard-Ensures stdin a wa) λ b wb.
        bind-Ensures
          (serve_slots-Ensures sys controller_slot 1 ready (clear_buffer b) (omega arith))
          λ c wc. runs (omega arith)

rounds-Ensures : (ps : List Poll) (s : Switch) → Inv s → Ensures Inv (rounds ps s)
unfolding rounds
rounds-Ensures [] s v = runs v
rounds-Ensures (p ∷ ps) s v = bind-Ensures (round-Ensures p s v) λ t w. rounds-Ensures ps t w

open_slot-Ensures : (port : ℕ) (o : Opened) (s : Switch) → Inv s → Ensures Inv (open_slot port o s)
unfolding open_slot
open_slot-Ensures port (descriptor fd) s v = runs (omega arith)
open_slot-Ensures port (refused errno) s v = exits

connect_port-Ensures :
    (p : Setup) (port : ℕ) (port_id : ℤ) (s : Switch)
    → Inv s
    → Ensures Inv (connect_port p port port_id s)
unfolding connect_port create_fifo
connect_port-Ensures p port port_id s v =
    let name = make_fifo_name port_id s.id in
    let known = record s { port_to_id = insert (pos port) port_id s.port_to_id } in
    if-Ensures (port_id ==ℤ negsuc 0) (runs v) (
      if-Ensures (p.make_fifo name == 0)
        (open_slot-Ensures port (p.open_reading name) known (omega arith)) exits)

set_up-Ensures :
    (c : Config) (p : Setup) (garbage : ℕ → ℤ) (buffer : Bytes)
    → Ensures Inv (set_up c p garbage buffer)
unfolding set_up send_open_packet
set_up-Ensures c p garbage buffer =
    let s = initial c p.fd garbage buffer in
    if-Ensures (p.fd ==ℤ pos 0 || not (p.address_valid && p.connected)) exits (
      bind-Ensures (send-Ensures Inv-Reads p.sys _ _ _ _ _ s start) λ a wa.
        if-Ensures p.non_blocking
          (bind-Ensures (connect_port-Ensures p 1 c.port1_id (count_open a) (omega arith))
            λ b wb. connect_port-Ensures p 2 c.port2_id b wb)
          exits)
  where
    start : Inv (initial c p.fd garbage buffer)
    start = unfold total in omega arith

-- Whatever a switch reads, is sent, asked or refused in any number of rounds after its set-up, as
-- long as it runs: its flow table has its own rule and one for each ADD counted, and the packets
-- counted at the rules of the table together with the queries counted are the packets counted as
-- admitted together with the ADDs counted. It speaks of these counters, and not of what is sent.
pub switch_rounds-Inv :
    (c : Config) (p : Setup) (garbage : ℕ → ℤ) (buffer : Bytes) (ps : List Poll) (s : Switch)
    → (set_up c p garbage buffer >>= rounds ps) ≡ running s
    → Inv s
switch_rounds-Inv c p garbage buffer ps s e =
    Ensures-running e
      (bind-Ensures (set_up-Ensures c p garbage buffer) λ t v. rounds-Ensures ps t v)
