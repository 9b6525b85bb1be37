-- ===== src/Draft/Switch/Packets.antt =====
-- test/switch.cpp: the packets that a switch receives.
use cmput.Common.{
  ℕ, zero, suc, ◌+◌, true, List, [], ◌∷◌, ◌++◌, Option, none, some, ◌==◌, if◌then◌else◌, ℤ, pos,
  ◌==ℤ◌, get_elem?,
}
use cmput.Text.{Bytes, codes, same}
use cmput.Text.Buffer.{terminated}
use cmput.Text.Number.{to_string}
use cmput.Process.{
  printed, closes, Outcome, running, exited, undefined, ◌>>=◌, or_undefined, Reading, end_of_file,
  failed, bytes, at, touch,
}
use cmput.Draft.{read_pkt, max_ip, filled}
use cmput.Draft.Switch.{
  ActionType, forward, drop_it, ForwardRule, Switch, emit, print_info, relay_to,
}

abbrev pub socket_index : ℕ
socket_index = 4

abbrev pub count_hello_ack : Switch → Switch
count_hello_ack s = record s {
  hello_ack_received = true;
  counts = record counts { hello_ack = counts.hello_ack + 1 };
}
  where
    open s use {counts}

abbrev pub count_relay_in : Switch → Switch
count_relay_in s = record s { counts = record counts { relay_in = counts.relay_in + 1 } }
  where
    open s use {counts}

-- A rule from an ADD packet, counted as one packet seen.
abbrev pub added_rule : ActionType → ℤ → ℤ → ℤ → ForwardRule
added_rule action low high val = record {
  src_ip_low = pos 0;
  src_ip_high = pos max_ip;
  dest_ip_low = low;
  dest_ip_high = high;
  action_type = action;
  action_val = val;
  pkt_count = 1;
}

abbrev pub add_rule : ForwardRule → Switch → Switch
add_rule rule s = record s {
  table = s.table ++ rule ∷ [];
  counts = record counts { add = counts.add + 1 };
}
  where
    open s use {counts}

received_line : ℤ → Bytes
received_line id =
    codes "Received (src= master, dest= psw" ++ (to_string id ++ codes ") [HELLO_ACK]\n")

closed_warning : ℤ → Bytes
closed_warning id = codes "Warning: Connection to sw" ++ (to_string id ++ codes " closed.\n")

module _ (opens : Bytes → ℤ) where
  -- The second to fourth number of the packet, and the fifth where it is relayed.
  unfoldable pub add_forward : List ℤ → Switch → Outcome Switch
  add_forward msg s = do
    low ← or_undefined (get_elem? msg 1)
    high ← or_undefined (get_elem? msg 2)
    port ← or_undefined (get_elem? msg 3)
    src_ip ← or_undefined (get_elem? msg 4)
    relayed ← relay_to opens s.id port src_ip low s
    running (add_rule (added_rule forward low high port) relayed)

  unfoldable pub add_drop : List ℤ → Switch → Outcome Switch
  add_drop msg s = do
    low ← or_undefined (get_elem? msg 1)
    high ← or_undefined (get_elem? msg 2)
    val ← or_undefined (get_elem? msg 3)
    running (add_rule (added_rule drop_it low high val) s)

  -- With another first number than 0 and 1 a rule is added whose fields are not set.
  unfoldable pub handle_add : List ℤ → Switch → Outcome Switch
  unfolding add_forward add_drop relay_to
  handle_add msg s = do
    action ← or_undefined (get_elem? msg 0)
    let heard = record s { add_received = true }
    if action ==ℤ pos 0
        then add_drop msg heard
        else (if action ==ℤ pos 1 then add_forward msg heard else undefined)

  unfoldable pub dispatch : Bytes → List ℤ → Switch → Outcome Switch
  unfolding handle_add
  dispatch type msg s =
      if same type (codes "HELLO_ACK")
      then running (count_hello_ack s)
      else if same type (codes "ADD")
      then handle_add msg s
      else if same type (codes "RELAY")
      then running (count_relay_in s)
      else running s

  -- The text of a packet from slot `i`.
  unfoldable pub handle_text : ℕ → Bytes → Switch → Outcome Switch
  unfolding dispatch received_line read_pkt at touch
  handle_text i text s =
      let (type, msg) = read_pkt text in
      dispatch type msg (
        emit (printed (received_line (at (pos i) s.swid)))
          (record s { swid = touch (pos i) s.swid }))

  -- End of file: from the master it ends the process, from a neighbour it closes the slot.
  unfoldable pub closed_slot : ℕ → Switch → Outcome Switch
  unfolding print_info closed_warning at touch
  closed_slot i s =
      if i == socket_index
      then exited 0 (
          s.out
          ++ printed (codes "master closed. Exiting.\n")
            ∷ printed (print_info s.table s.counts)
            ∷ [])
      else running (record s {
        swid = touch (pos i) s.swid;
        out = s.out ++ printed (closed_warning (at (pos i) s.swid)) ∷ closes (s.pfds i) ∷ [];
      })

  unfoldable pub handle_buffer : ℕ → Bytes → Switch → Outcome Switch
  unfolding handle_text terminated
  handle_buffer i buffer s = do
    text ← or_undefined (terminated buffer)
    handle_text i text (record s { buffer = buffer })

  -- Slot `i` is ready, and `read` brings `reading`.
  unfoldable pub serve : ℕ → Reading → Switch → Outcome Switch
  unfolding handle_buffer closed_slot
  serve i end_of_file s = closed_slot i s
  serve i failed s = handle_buffer i s.buffer s
  serve i (bytes b) s = handle_buffer i (filled (bytes b) s.buffer) s

  -- The `for` loop over the slots, `n` of them from `i` on.
  unfoldable pub serve_slots : ℕ → ℕ → (ℕ → Option Reading) → Switch → Outcome Switch
  unfolding serve
  serve_slots zero i ready s = running s
  serve_slots (suc n) i ready s = do
    t ← elim (ready i) [ none ↦ running s | some reading ↦ serve i reading s ]
    serve_slots n (i + 1) ready t
