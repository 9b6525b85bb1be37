-- ===== src/Sdn/Packet/RoundTrip.antt =====
-- The packets that test2/controller.cpp and test2/switch.cpp write are read back by
-- `parsePacketString`.
use cmput.Common.{arith, ◌≡◌, refl, ◌∙◌, List, [], ◌∷◌, ◌++◌, append-nil, ℤ, IsInt, All}
use cmput.Text.{Bytes, before-append, after-append, Lacks}
use cmput.Text.Number.{read_int, to_string, read_int-to_string}
use cmput.Text.{codes}
use cmput.Sdn.Packet.{
  open_string, ack_string, query_string, relay_string, add_string, skip_comma, parse_packet_message,
  parse_packet_string,
}
use cmput.Sdn.Packet.Parse.{parse_packet_message_loop}

-- Numbers with commas between them.
abbrev pub comma_list : List ℤ → Bytes
comma_list [] = []
comma_list (z ∷ []) = to_string z
comma_list (z ∷ y ∷ zs) = to_string z ++ b',' ∷ comma_list (y ∷ zs)

skip_comma-nil : skip_comma [] ≡ []
unfolding skip_comma
skip_comma-nil = refl

skip_comma-comma : (s : Bytes) → skip_comma (b',' ∷ s) ≡ s
unfolding skip_comma
skip_comma-comma s = refl

message-nil : parse_packet_message [] ≡ []
unfolding parse_packet_message
message-nil = unfold read_int in refl

message-comma_list : (zs : List ℤ) → All IsInt zs → parse_packet_message (comma_list zs) ≡ zs
message-comma_list [] h = message-nil
message-comma_list (z ∷ []) h =
    parse_packet_message_loop (to_string z)
    ∙ rw (← append-nil (to_string z), read_int-to_string z [] h.0 tt, skip_comma-nil, message-nil)
message-comma_list (z ∷ y ∷ zs) h =
    parse_packet_message_loop (to_string z ++ b',' ∷ comma_list (y ∷ zs))
    ∙ rw (
      read_int-to_string z (b',' ∷ comma_list (y ∷ zs)) h.0 refl,
      skip_comma-comma (comma_list (y ∷ zs)),
      message-comma_list (y ∷ zs) h.1,
    )

pub packet_string-parts :
    (type : Bytes) (zs : List ℤ)
    → Lacks b':' type
    → All IsInt zs
    → parse_packet_string (type ++ b':' ∷ comma_list zs) ≡ (type, zs)
unfolding parse_packet_string
packet_string-parts type zs lacks ints = rw (
  before-append b':' type (comma_list zs) lacks,
  after-append b':' type (comma_list zs) lacks,
  message-comma_list zs ints,
)

-- The packets that the program writes, with their numbers in the order of the text.
pub data Packet : Type 0 where
  opens : ℤ → ℤ → ℤ → ℤ → ℤ → Packet
  ack : Packet
  query relay : ℤ → ℤ → Packet
  add : ℤ → ℤ → ℤ → ℤ → ℤ → Packet

abbrev pub packet_string : Packet → Bytes
packet_string (opens id port1_id port2_id ip_low ip_high) =
    open_string id port1_id port2_id ip_low ip_high
packet_string ack = ack_string
packet_string (query src_ip dest_ip) = query_string src_ip dest_ip
packet_string (relay src_ip dest_ip) = relay_string src_ip dest_ip
packet_string (add action ip_low ip_high relay_port src_ip) =
    add_string action ip_low ip_high relay_port src_ip

abbrev pub packet_type : Packet → Bytes
packet_type (opens _ _ _ _ _) = codes "OPEN"
packet_type ack = codes "ACK"
packet_type (query _ _) = codes "QUERY"
packet_type (relay _ _) = codes "RELAY"
packet_type (add _ _ _ _ _) = codes "ADD"

abbrev pub numbers : Packet → List ℤ
numbers (opens id p1 p2 low high) = id ∷ p1 ∷ p2 ∷ low ∷ high ∷ []
numbers ack = []
numbers (query src dest) = src ∷ dest ∷ []
numbers (relay src dest) = src ∷ dest ∷ []
numbers (add action low high port src) = action ∷ low ∷ high ∷ port ∷ src ∷ []

-- A packet of any of the five kinds, with numbers in the range of `int`, is read back from the text
-- that the program writes for it: the parser returns its type and its numbers.
pub parse-packet_string :
    (p : Packet)
    → All IsInt (numbers p)
    → parse_packet_string (packet_string p) ≡ (packet_type p, numbers p)
unfolding open_string ack_string query_string relay_string add_string
parse-packet_string (opens id p1 p2 low high) h =
    packet_string-parts (codes "OPEN") (id ∷ p1 ∷ p2 ∷ low ∷ high ∷ []) (omega arith) h
parse-packet_string ack h = packet_string-parts (codes "ACK") [] (omega arith) h
parse-packet_string (query src dest) h =
    packet_string-parts (codes "QUERY") (src ∷ dest ∷ []) (omega arith) h
parse-packet_string (relay src dest) h =
    packet_string-parts (codes "RELAY") (src ∷ dest ∷ []) (omega arith) h
parse-packet_string (add action low high port src) h =
    packet_string-parts (codes "ADD") (action ∷ low ∷ high ∷ port ∷ src ∷ []) (omega arith) h
