-- ===== src/Sdn/Packet/Log.antt =====
-- `printPacketMessage` of test2/util.cpp: the line it prints, or `none` where it reads a number
-- that the packet does not have (`msg[i]` beyond the end, which is undefined in C++).
pub mod Defined
use cmput.Common.{
  ◌||◌, List, [], ◌++◌, Option, none, some, if◌then◌else◌, ℤ, pos, negsuc, ◌==ℤ◌, get_elem?,
}
use cmput.Text.{Bytes, codes, same}
use cmput.Text.Number.{to_string}

infixl 5 ◌>>=◌
abbrev ◌>>=◌ : Option ℤ → (ℤ → Option Bytes) → Option Bytes
none >>= f = none
some z >>= f = f z

-- `port1` and `port2` of an OPEN packet
port_name : ℤ → Bytes
port_name port = if port ==ℤ negsuc 0 then codes "null" else codes "sw" ++ to_string port

open_text : List ℤ → Option Bytes
unfolding port_name
open_text msg = do
  port1 ← get_elem? msg 1
  port2 ← get_elem? msg 2
  low ← get_elem? msg 3
  high ← get_elem? msg 4
  some (
      codes ":\n         (port0= cont, port1= "
      ++ (port_name port1
          ++ (codes ", port2= "
              ++ (port_name port2
                  ++ (codes ", port3= "
                      ++ (to_string low ++ (codes "-" ++ (to_string high ++ codes ")"))))))))

header_text : List ℤ → Option Bytes
header_text msg = do
  src_ip ← get_elem? msg 0
  dest_ip ← get_elem? msg 1
  some (
      codes ":  header= (srcIP= "
      ++ (to_string src_ip ++ (codes ", destIP= " ++ (to_string dest_ip ++ codes ")"))))

action_name : ℤ → Bytes
action_name action =
    if action ==ℤ pos 0 then codes "DROP" else if action ==ℤ pos 1 then codes "FORWARD" else []

add_text : List ℤ → Option Bytes
unfolding action_name
add_text msg = do
  action ← get_elem? msg 0
  low ← get_elem? msg 1
  high ← get_elem? msg 2
  port ← get_elem? msg 3
  some (
      codes ":\n         (srcIp= 0-1000, destIp= "
      ++ (to_string low
          ++ (codes "-"
              ++ (to_string high
                  ++ (codes ", action= "
                      ++ (action_name action
                          ++ (codes ":" ++ (to_string port ++ codes ", pri= 4, pktCount= 0"))))))))

packet_text : Bytes → List ℤ → Option Bytes
unfolding open_text header_text add_text
packet_text type msg =
    if same type (codes "OPEN")
    then open_text msg
    else if same type (codes "ACK")
    then some []
    else if same type (codes "QUERY")
    then header_text msg
    else if same type (codes "ADD")
    then add_text msg
    else if same type (codes "RELAY")
    then header_text msg
    else some []

source_name : ℤ → Bytes → Bytes
source_name src_id type =
    if same type (codes "ACK") || same type (codes "ADD")
    then codes "cont"
    else codes "sw" ++ to_string src_id

dest_name : ℤ → Bytes → Bytes
dest_name dest_id type =
    if same type (codes "OPEN") || same type (codes "QUERY")
    then codes "cont"
    else codes "sw" ++ to_string dest_id

log_line : Bytes → ℤ → ℤ → Bytes → Bytes → Bytes
unfolding source_name dest_name
log_line direction src_id dest_id type text =
    direction
    ++ (codes " (src= "
        ++ (source_name src_id type
            ++ (codes ", dest= "
                ++ (dest_name dest_id type
                    ++ (codes ") [" ++ (type ++ (codes "]" ++ (text ++ codes "\n"))))))))

abbrev with_text : Option Bytes → (Bytes → Bytes) → Option Bytes
with_text none f = none
with_text (some t) f = some (f t)

unfoldable pub print_packet_message : Bytes → ℤ → ℤ → Bytes → List ℤ → Option Bytes
unfolding packet_text log_line
print_packet_message direction src_id dest_id type msg =
    with_text (packet_text type msg) (log_line direction src_id dest_id type)
