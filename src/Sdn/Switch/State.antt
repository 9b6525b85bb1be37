-- ===== src/Sdn/Switch/State.antt =====
-- test2/switch.cpp: the variables of a switch, the packets that it sends and its flow table.
use cmput.Common.{
  ℕ, ◌+◌, Bool, List, [], ◌∷◌, ◌++◌, Option, none, some, ◌==◌, if◌then◌else◌, ℤ, pos,
}
use cmput.Text.{Bytes, codes}
use cmput.Sdn.Packet.{parse_packet_string, make_fifo_name, open_string, query_string, relay_string}
use cmput.Sdn.Packet.Log.{print_packet_message}
use cmput.Process.{
  ◌>>=◌, Event, wrote, printed, Outcome, running, exited, or_undefined, IntMap, find, insert, at,
  touch,
}

abbrev pub max_ip : ℕ
max_ip = 1000

abbrev pub min_pri : ℕ
min_pri = 4

abbrev pub controller_slot : ℕ
controller_slot = 4

abbrev pub max_buffer : ℕ
max_buffer = 1024

pub record SwitchPacketCounts : Type 0 where
  pub admit : ℕ
  pub ack : ℕ
  pub add : ℕ
  pub relay_in : ℕ
  pub opens : ℕ
  pub query : ℕ
  pub relay_out : ℕ

-- The texts "FORWARD" and "DROP"; no rule has another.
pub data ActionType : Type 0 where
  forward drop_it : ActionType

pub record FlowRule : Type 0 where
  pub src_ip_low : ℤ
  pub src_ip_high : ℤ
  pub dest_ip_low : ℤ
  pub dest_ip_high : ℤ
  pub action_type : ActionType
  pub action_val : ℤ
  pub pri : ℕ
  pub pkt_count : ℕ

-- The variables of `switchLoop`. `traffic` holds the lines not read yet, while the file is open.
pub record Switch : Type 0 where
  pub id : ℤ
  pub ip_low : ℤ
  pub ip_high : ℤ
  pub flow_table : List FlowRule
  pub port_to_fd : IntMap
  pub port_to_id : IntMap
  pub counts : SwitchPacketCounts
  pub pfds : ℕ → ℤ
  pub delay_start : ℕ
  pub delay_duration : ℤ
  pub ack_received : Bool
  pub add_received : Bool
  pub closed : List ℤ
  pub traffic : Option (List Bytes)
  pub buffer : Bytes
  pub out : List Event

-- What `open` brings: a descriptor, or the `errno` with which it fails.
pub data Opened : Type 0 where
  descriptor : ℤ → Opened
  refused : ℕ → Opened

-- The system calls of one step: `errno` after a `write` (0 if it is not set), and `open` of a FIFO.
pub record Sys : Type 0 where
  pub errno_after_write : ℤ → Bytes → ℕ
  pub open_fifo : Bytes → Opened

abbrev pub emit : Event → Switch → Switch
emit e s = record s { out = s.out ++ e ∷ [] }

unfoldable pub log_packet : Bytes → ℤ → ℤ → Bytes → List ℤ → Switch → Outcome Switch
log_packet direction src dest type msg s = do
  line ← or_undefined (print_packet_message direction src dest type msg)
  running (emit (printed line) s)

-- `openFifo`, which ends the process where `open` sets `errno`, and the entry in `portToFd`.
unfoldable pub open_port : ℤ → Opened → Switch → Outcome Switch
unfolding insert
open_port port (descriptor fd) s = running (record s { port_to_fd = insert port fd s.port_to_fd })
open_port port (refused errno) s = exited errno s.out

module _ (sys : Sys) where
  -- `write`, the check of `errno` behind it, and the log of the packet.
  unfoldable pub send : ℤ → ℤ → ℤ → Bytes → Bytes → Switch → Outcome Switch
  unfolding log_packet
  send fd src_id dest_id type text s =
      let errno = sys.errno_after_write fd text in
      if errno == 0
      then log_packet (codes "Transmitted") src_id dest_id type (parse_packet_string text).1
          (emit (wrote fd text) s)
      else exited errno s.out

  unfoldable pub send_open_packet : ℤ → ℤ → ℤ → ℤ → ℤ → ℤ → Switch → Outcome Switch
  unfolding send
  send_open_packet fd id port1_id port2_id ip_low ip_high =
      send fd id (pos 0) (codes "OPEN") (open_string id port1_id port2_id ip_low ip_high)

  unfoldable pub send_query_packet : ℤ → ℤ → ℤ → ℤ → ℤ → Switch → Outcome Switch
  unfolding send
  send_query_packet fd src_id dest_id src_ip dest_ip =
      send fd src_id dest_id (codes "QUERY") (query_string src_ip dest_ip)

  unfoldable pub send_relay_packet : ℤ → ℤ → ℤ → ℤ → ℤ → Switch → Outcome Switch
  unfolding send
  send_relay_packet fd src_id dest_id src_ip dest_ip =
      send fd src_id dest_id (codes "RELAY") (relay_string src_ip dest_ip)

  -- `if (!portToFd.count(port))`: open the FIFO to the switch at the port.
  unfoldable pub ensure_fifo : ℤ → Switch → Outcome Switch
  unfolding open_port touch at find
  ensure_fifo port s = elim (find port s.port_to_fd) [
    | some fd ↦ running s
    | none ↦
        open_port port (sys.open_fifo (make_fifo_name s.id (at port s.port_to_id)))
          (record s { port_to_id = touch port s.port_to_id })
  ]

  -- `sendRelayPacket(portToFd[port], id, portToId[port], …)`
  unfoldable pub relay_to : ℤ → ℤ → ℤ → Switch → Outcome Switch
  unfolding send_relay_packet touch at
  relay_to port src_ip dest_ip s =
      send_relay_packet (at port s.port_to_fd) s.id (at port s.port_to_id) src_ip dest_ip
        (record s { port_to_fd = touch port s.port_to_fd; port_to_id = touch port s.port_to_id })

abbrev pub count_relay_out : Switch → Switch
count_relay_out s = record s { counts = record counts { relay_out = counts.relay_out + 1 } }
  where
    open s use {counts}

-- A rule from an ADD packet, counted as one packet seen.
abbrev pub added_rule : ActionType → ℤ → ℤ → ℤ → FlowRule
added_rule action low high val = record {
  src_ip_low = pos 0;
  src_ip_high = pos max_ip;
  dest_ip_low = low;
  dest_ip_high = high;
  action_type = action;
  action_val = val;
  pri = min_pri;
  pkt_count = 1;
}

abbrev pub add_rule : ActionType → ℤ → ℤ → ℤ → Switch → Switch
add_rule action low high val s = record s {
  flow_table = s.flow_table ++ added_rule action low high val ∷ [];
  counts = record counts { add = counts.add + 1 };
}
  where
    open s use {counts}
