-- ===== src/Sdn/Switch.antt =====
-- test2/switch.cpp: the switch of the network, as a state machine whose steps are the bodies of its
-- event loop.
pub mod State
pub mod Traffic
pub mod Table
pub mod Loop
pub mod Counts
use Prim.Native.String.{String}
use cmput.Common.{
  ℕ, zero, suc, ◌+◌, Bool, true, ◌&&◌, List, [], ◌∷◌, ◌++◌, Option, none, some, ◌==◌, if◌then◌else◌,
  ℤ, pos, ◌==ℤ◌, leb_ℤ, ltb_ℤ, get_elem?,
}
use cmput.Text.{Bytes, codes, same, c_string, overwrite}
use cmput.Text.Number.{to_string, print_nat}
use cmput.Sdn.Packet.{parse_packet_string}
use cmput.Process.{
  ◌>>=◌, printed, closes, Outcome, running, exited, or_undefined, Reading, end_of_file, failed,
  bytes, at, touch, contains,
}
use cmput.Sdn.Switch.State.{
  ActionType, forward, drop_it, FlowRule, SwitchPacketCounts, Switch, Sys, emit, log_packet,
  ensure_fifo, relay_to, add_rule, count_relay_out, controller_slot,
}

abbrev pub count_relay_in : Switch → Switch
count_relay_in s = record s { counts = record counts { relay_in = counts.relay_in + 1 } }
  where
    open s use {counts}

abbrev pub count_ack : Switch → Switch
count_ack s = record s { ack_received = true; counts = record counts { ack = counts.ack + 1 } }
  where
    open s use {counts}

abbrev closed_warning : ℤ → Bytes
closed_warning id = codes "Warning: Connection to sw" ++ (to_string id ++ codes " closed.\n")

action_name : ActionType → Bytes
action_name forward = codes "FORWARD"
action_name drop_it = codes "DROP"

rule_line : ℕ → FlowRule → Bytes
unfolding action_name
rule_line i rule =
    codes "["
    ++ (print_nat i
        ++ (codes "] (srcIp= "
            ++ (to_string rule.src_ip_low
                ++ (codes "-"
                    ++ (to_string rule.src_ip_high
                        ++ (codes ", destIp= "
                            ++ (to_string rule.dest_ip_low
                                ++ (codes "-"
                                    ++ (to_string rule.dest_ip_high
                                        ++ (codes ", action= "
                                            ++ (action_name rule.action_type
                                                ++ (codes ":"
                                                    ++ (to_string rule.action_val
                                                        ++ (codes ", pri= "
                                                            ++ (print_nat rule.pri
                                                            ++ (codes ", pktCount= "
                                                            ++ (print_nat rule.pkt_count
                                                            ++ codes ")\n")))))))))))))))))

rule_lines : ℕ → List FlowRule → Bytes
unfolding rule_line
rule_lines i [] = []
rule_lines i (rule ∷ table) = rule_line i rule ++ rule_lines (i + 1) table

abbrev counted : String → ℕ → Bytes → Bytes
counted label n rest = codes label ++ (print_nat n ++ rest)

unfoldable pub switch_list : List FlowRule → SwitchPacketCounts → Bytes
unfolding rule_lines
switch_list table counts =
    codes "Flow table:\n"
    ++ (rule_lines 0 table
        ++ counted "\nPacket Stats:\n\tReceived:    ADMIT:" counts.admit (
            counted ", ACK:" counts.ack (
              counted ", ADDRULE:" counts.add (
                counted ", RELAYIN:" counts.relay_in (
                  counted "\n\tTransmitted: OPEN:" counts.opens (
                    counted ", QUERY:" counts.query
                      (counted ", RELAYOUT:" counts.relay_out (codes "\n"))))))))

abbrev pub is_for_us : ℤ → Switch → Bool
is_for_us dest_ip s = leb_ℤ s.ip_low dest_ip && leb_ℤ dest_ip s.ip_high

module _ (sys : Sys) where
  -- A relay that is counted.
  unfoldable pub counted_relay : ℤ → ℤ → ℤ → Switch → Outcome Switch
  counted_relay port src_ip dest_ip s = do
    sent ← relay_to sys port src_ip dest_ip s
    running (count_relay_out sent)

  -- The relay of the packet that waited for a rule.
  unfoldable pub relay_waiting : ℤ → List ℤ → ℤ → Switch → Outcome Switch
  relay_waiting port msg dest_ip s = do
    src_ip ← or_undefined (get_elem? msg 4)
    relay_to sys port src_ip dest_ip s

  -- `msg[0] == 1`: a FORWARD rule; the packet that waited is relayed, unless slot `i` is closed.
  unfoldable pub add_forward : ℕ → List ℤ → Switch → Outcome Switch
  unfolding contains relay_waiting
  add_forward i msg s = do
    low ← or_undefined (get_elem? msg 1)
    high ← or_undefined (get_elem? msg 2)
    port ← or_undefined (get_elem? msg 3)
    reachable ← ensure_fifo sys port s
    relayed ←
        if contains (pos i) reachable.closed
        then running reachable
        else relay_waiting port msg low reachable
    running (add_rule forward low high port (count_relay_out relayed))

  -- `msg[0] == 0`: a DROP rule.
  unfoldable pub add_drop : List ℤ → Switch → Outcome Switch
  add_drop msg s = do
    low ← or_undefined (get_elem? msg 1)
    high ← or_undefined (get_elem? msg 2)
    val ← or_undefined (get_elem? msg 3)
    running (add_rule drop_it low high val s)

  -- `else if (packetType == "ADD")`
  unfoldable pub handle_add : ℕ → List ℤ → Switch → Outcome Switch
  unfolding add_forward add_drop
  handle_add i msg s = do
    action ← or_undefined (get_elem? msg 0)
    let heard = record s { add_received = true }
    if action ==ℤ pos 0
        then add_drop msg heard
        else (if action ==ℤ pos 1
            then add_forward i msg heard
            else running (emit (printed (codes "Error: Invalid rule to add.\n")) heard))

  -- The packet goes on if it is not for this switch: to port 1 if the switch's number is above the
  -- slot's, to port 2 if it is below.
  unfoldable pub pass_on : ℕ → ℤ → ℤ → Switch → Outcome Switch
  unfolding contains counted_relay
  pass_on i src_ip dest_ip s =
      if contains (pos i) s.closed
      then running s
      else if ltb_ℤ (pos i) s.id
      then counted_relay (pos 1) src_ip dest_ip s
      else if ltb_ℤ s.id (pos i)
      then counted_relay (pos 2) src_ip dest_ip s
      else running s

  -- `else if (packetType == "RELAY")`
  unfoldable pub handle_relay : ℕ → List ℤ → Switch → Outcome Switch
  unfolding pass_on
  handle_relay i msg s = do
    dest_ip ← or_undefined (get_elem? msg 1)
    src_ip ← or_undefined (get_elem? msg 0)
    let counted = count_relay_in s
    if is_for_us dest_ip s then running counted else pass_on i src_ip dest_ip counted

  unfoldable pub dispatch : ℕ → Bytes → List ℤ → Switch → Outcome Switch
  unfolding handle_add handle_relay
  dispatch i type msg s =
      if same type (codes "ACK")
      then running (count_ack s)
      else if same type (codes "ADD")
      then handle_add i msg s
      else if same type (codes "RELAY")
      then handle_relay i msg s
      else running (emit (printed (codes "Received " ++ (type ++ codes " packet. Ignored.\n"))) s)

  -- The text of a packet from slot `i`.
  unfoldable pub handle_text : ℕ → Bytes → Switch → Outcome Switch
  unfolding dispatch log_packet at
  handle_text i text s =
      let (type, msg) = parse_packet_string text in
      do
        logged ←
            log_packet (codes "Received") (at (pos i) s.port_to_id) s.id type msg
              (record s { port_to_id = touch (pos i) s.port_to_id })
        dispatch i type msg logged

  -- End of file: from the controller it ends the process, from a neighbour it closes the slot.
  unfoldable pub closed_slot : ℕ → Switch → Outcome Switch
  unfolding switch_list at touch
  closed_slot i s =
      if i == controller_slot
      then exited 0 (
          s.out
          ++ printed (codes "Controller closed. Exiting.\n")
            ∷ printed (switch_list s.flow_table s.counts)
            ∷ [])
      else running (record s {
        port_to_id = touch (pos i) s.port_to_id;
        closed = s.closed ++ pos i ∷ [];
        out = s.out ++ printed (closed_warning (at (pos i) s.port_to_id)) ∷ closes (s.pfds i) ∷ [];
      })

  -- Slot `i` is ready, and `read` brings `reading`.
  unfoldable pub serve : ℕ → Reading → Switch → Outcome Switch
  unfolding handle_text closed_slot c_string overwrite
  serve i end_of_file s = closed_slot i s
  serve i failed s = handle_text i (c_string s.buffer) s
  serve i (bytes b) s =
      let buffer = overwrite b s.buffer in
      handle_text i (c_string buffer) (record s { buffer = buffer })

  -- The `for` loop over the slots, `n` of them from `i` on.
  unfoldable pub serve_slots : ℕ → ℕ → (ℕ → Option Reading) → Switch → Outcome Switch
  unfolding serve
  serve_slots zero i ready s = running s
  serve_slots (suc n) i ready s = do
    t ← elim (ready i) [ none ↦ running s | some reading ↦ serve i reading s ]
    serve_slots n (i + 1) ready t
