-- ===== src/Sdn/Controller/State.antt =====
-- test2/controller.cpp: the variables of the controller, and the packets that it sends.
-- `writes fd text` tells whether the call of `write` leaves `errno` at 0.
use cmput.Common.{ℕ, zero, suc, ◌+◌, Bool, List, [], ◌∷◌, ◌++◌, if◌then◌else◌, ℤ, pos}
use cmput.Text.{Bytes, codes}
use cmput.Text.Buffer.{zeroes}
use cmput.Sdn.Packet.{parse_packet_string, ack_string, add_string}
use cmput.Sdn.Packet.Log.{print_packet_message}
use cmput.Process.{
  ◌>>=◌, Event, wrote, printed, closes, Outcome, running, exited, or_undefined, IntMap,
}

abbrev pub max_ip : ℕ
max_ip = 1000

abbrev pub max_buffer : ℕ
max_buffer = 1024

pub record ControllerPacketCounts : Type 0 where
  pub opens : ℕ
  pub query : ℕ
  pub add : ℕ
  pub ack : ℕ

pub record SwitchInfo : Type 0 where
  pub id : ℤ
  pub port1_id : ℤ
  pub port2_id : ℤ
  pub ip_low : ℤ
  pub ip_high : ℤ

-- The variables of `controllerLoop`: `pfds` gives the descriptor in each slot, and slots that no
-- connection has filled hold what was there before. `out` is what the process did, oldest first.
pub record Controller : Type 0 where
  pub num_switches : ℕ
  pub table : List SwitchInfo
  pub id_to_fd : IntMap
  pub counts : ControllerPacketCounts
  pub pfds : ℕ → ℤ
  pub socket_idx : ℕ
  pub closed : List ℤ
  pub buffer : Bytes
  pub out : List Event

abbrev pub emit : Event → Controller → Controller
emit e c = record c { out = c.out ++ e ∷ [] }

-- `memset(buffer, 0, sizeof(buffer))`
unfoldable pub clear_buffer : Controller → Controller
unfolding zeroes
clear_buffer c = record c { buffer = zeroes max_buffer }

-- The closes of `cleanup`, for the slots from `i` on.
unfoldable pub close_slots : ℕ → ℕ → (ℕ → ℤ) → List Event
close_slots zero i pfds = []
close_slots (suc n) i pfds = closes (pfds i) ∷ close_slots n (i + 1) pfds

-- `cleanup` ends the process with EXIT_SUCCESS, so the `exit(errno)` behind its calls is not reached.
unfoldable pub cleanup : Controller → Outcome Controller
unfolding close_slots
cleanup c = exited 0 (c.out ++ close_slots (c.num_switches + 2) 0 c.pfds)

-- The print of a packet sent, which parses the text again.
unfoldable pub log_packet : Bytes → ℤ → ℤ → Bytes → List ℤ → Controller → Outcome Controller
unfolding print_packet_message
log_packet direction src dest type msg c = do
  line ← or_undefined (print_packet_message direction src dest type msg)
  running (emit (printed line) c)

module _ (writes : ℤ → Bytes → Bool) where
  unfoldable pub send_ack_packet : ℤ → ℤ → Controller → Outcome Controller
  unfolding log_packet cleanup
  send_ack_packet fd dest_id c =
      let sent = emit (wrote fd ack_string) c in
      if writes fd ack_string
      then log_packet (codes "Transmitted") (pos 0) dest_id (codes "ACK")
          (parse_packet_string ack_string).1 sent
      else cleanup c

  unfoldable pub send_add_packet : ℤ → ℤ → ℤ → ℤ → ℤ → ℤ → ℤ → Controller → Outcome Controller
  unfolding log_packet cleanup
  send_add_packet fd dest_id action ip_low ip_high relay_port src_ip c =
      let text = add_string action ip_low ip_high relay_port src_ip in
      let sent = emit (wrote fd text) c in
      if writes fd text
      then log_packet (codes "Transmitted") (pos 0) dest_id (codes "ADD")
          (parse_packet_string text).1 sent
      else cleanup c
