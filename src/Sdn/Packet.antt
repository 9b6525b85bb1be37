-- ===== src/Sdn/Packet.antt =====
-- test2/util.cpp: packets as text, their parser, FIFO names, `trim`; and the packet strings that
-- controller.cpp and switch.cpp write.
pub mod Parse
pub mod RoundTrip
pub mod Log
use mathlib.Core.List.{reverse}
use cmput.Common.{ℕ, zero, suc, List, [], ◌∷◌, ◌++◌, none, some, ◌==◌, if◌then◌else◌, ℤ, length}
use cmput.Text.{Bytes, codes, before, after, skip_space}
use cmput.Text.Number.{to_string, read_int}

-- `if (ss.peek() == ',') ss.ignore()`
unfoldable pub skip_comma : Bytes → Bytes
skip_comma [] = []
skip_comma (c ∷ s) = if c == b',' then s else c ∷ s

-- The loop of `parsePacketMessage`, `fuel` rounds at most.
unfoldable pub read_ints : ℕ → Bytes → List ℤ
unfolding skip_comma
read_ints zero s = []
read_ints (suc fuel) s = elim (read_int s) [
  | none ↦ []
  | some (i, rest) ↦ i ∷ read_ints fuel (skip_comma rest)
]

-- Each round reads a byte at least.
unfoldable pub parse_packet_message : Bytes → List ℤ
unfolding read_ints
parse_packet_message message = read_ints (suc (length message)) message

unfoldable pub parse_packet_string : Bytes → Bytes × List ℤ
unfolding before after parse_packet_message
parse_packet_string s = (before b':' s, parse_packet_message (after b':' s))

unfoldable pub make_fifo_name : ℤ → ℤ → Bytes
make_fifo_name sender_id receiver_id =
    codes "fifo-" ++ (to_string sender_id ++ (codes "-" ++ to_string receiver_id))

unfoldable pub trim : Bytes → Bytes
unfolding skip_space
trim s = reverse (skip_space (reverse (skip_space s)))

unfoldable pub open_string : ℤ → ℤ → ℤ → ℤ → ℤ → Bytes
open_string id port1_id port2_id ip_low ip_high =
    codes "OPEN:"
    ++ (to_string id
        ++ (codes ","
            ++ (to_string port1_id
                ++ (codes ","
                    ++ (to_string port2_id
                        ++ (codes ","
                            ++ (to_string ip_low ++ (codes "," ++ to_string ip_high))))))))

unfoldable pub query_string : ℤ → ℤ → Bytes
query_string src_ip dest_ip =
    codes "QUERY:" ++ (to_string src_ip ++ (codes "," ++ to_string dest_ip))

unfoldable pub relay_string : ℤ → ℤ → Bytes
relay_string src_ip dest_ip =
    codes "RELAY:" ++ (to_string src_ip ++ (codes "," ++ to_string dest_ip))

unfoldable pub ack_string : Bytes
ack_string = codes "ACK:"

unfoldable pub add_string : ℤ → ℤ → ℤ → ℤ → ℤ → Bytes
add_string action ip_low ip_high relay_port src_ip =
    codes "ADD:"
    ++ (to_string action
        ++ (codes ","
            ++ (to_string ip_low
                ++ (codes ","
                    ++ (to_string ip_high
                        ++ (codes ","
                            ++ (to_string relay_port ++ (codes "," ++ to_string src_ip))))))))
