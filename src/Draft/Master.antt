-- ===== src/Draft/Master.antt =====
-- test/master.cpp: the variables of `MasterLoop`, what it prints and the packets that it handles. The
-- results of its calls of `write` are not looked at.
pub mod Loop
pub mod Asked
use cmput.Common.{
  ℕ, zero, suc, ◌+◌, ◌&&◌, List, [], ◌∷◌, ◌++◌, Option, none, some, if◌then◌else◌, ℤ, pos, leb_ℤ,
  get_elem?,
}
use cmput.Text.{Bytes, codes, same}
use cmput.Text.Buffer.{zeroes, terminated}
use cmput.Text.Number.{to_string, print_nat}
use cmput.Process.{
  Event, wrote, printed, closes, Outcome, running, exited, undefined, ◌>>=◌, or_undefined, Reading,
  end_of_file, IntMap, insert, at, touch,
}
use cmput.Draft.{max_buffer, read_pkt, port_name, filled}

pub record MasterPacketCounts : Type 0 where
  pub hello : ℕ
  pub ask : ℕ
  pub add : ℕ
  pub hello_ack : ℕ

pub record SwitchInfo : Type 0 where
  pub id : ℤ
  pub port1_id : ℤ
  pub port2_id : ℤ
  pub ip_low : ℤ
  pub ip_high : ℤ

pub record Master : Type 0 where
  pub num_switches : ℕ
  pub table : List SwitchInfo
  pub id_to_fd : IntMap
  pub counts : MasterPacketCounts
  pub pfds : ℕ → ℤ
  pub socket_index : ℕ
  pub buffer : Bytes
  pub out : List Event

abbrev pub emit : Event → Master → Master
emit e m = record m { out = m.out ++ e ∷ [] }

info_line : SwitchInfo → Bytes
info_line info =
    codes "[psw"
    ++ (to_string info.id
        ++ (codes "]: port1= "
            ++ (to_string info.port1_id
                ++ (codes ", port2= "
                    ++ (to_string info.port2_id
                        ++ (codes ", port3= "
                            ++ (to_string info.ip_low
                                ++ (codes "-" ++ (to_string info.ip_high ++ codes "\n")))))))))

info_lines : List SwitchInfo → Bytes
unfolding info_line
info_lines [] = []
info_lines (info ∷ table) = info_line info ++ info_lines table

unfoldable pub print_info : List SwitchInfo → MasterPacketCounts → Bytes
unfolding info_lines
print_info table counts =
    codes "Switch information:\n"
    ++ (info_lines table
        ++ (codes "\nPacket stats:\n    Received:    HELLO:"
            ++ (print_nat counts.hello
                ++ (codes ", ASK:"
                    ++ (print_nat counts.ask
                        ++ (codes "\n    Transmitted: HELLO_ACK:"
                            ++ (print_nat counts.hello_ack
                                ++ (codes ", ADD:" ++ (print_nat counts.add ++ codes "\n")))))))))

-- The closes of all descriptors, for the slots from `i` on, and the end of the process.
close_slots : ℕ → ℕ → (ℕ → ℤ) → List Event
close_slots zero i pfds = []
close_slots (suc n) i pfds = closes (pfds i) ∷ close_slots n (i + 1) pfds

unfoldable pub close_all : ℕ → Master → Outcome Master
unfolding close_slots
close_all code m = exited code (m.out ++ close_slots (m.num_switches + 2) 0 m.pfds)

-- The two lines that are printed for each packet, of whatever type: its second to fifth number are read.
unfoldable pub received_lines : ℕ → List ℤ → Outcome Bytes
received_lines i (first ∷ port1 ∷ port2 ∷ low ∷ high ∷ rest) = running (
    codes "Received (src= psw"
    ++ (print_nat i
        ++ (codes ", dest= master) [HELLO]:\n\t (port0= master, port1= "
            ++ (port_name port1
                ++ (codes ", port2= "
                    ++ (port_name port2
                        ++ (codes ", port3= "
                            ++ (to_string low
                                ++ (codes "-" ++ (to_string high ++ codes ")\n"))))))))))
received_lines i _ = undefined

unfoldable pub switch_info : List ℤ → Option SwitchInfo
switch_info (id ∷ port1_id ∷ port2_id ∷ ip_low ∷ ip_high ∷ rest) = some (record {
  id = id;
  port1_id = port1_id;
  port2_id = port2_id;
  ip_low = ip_low;
  ip_high = ip_high;
})
switch_info _ = none

abbrev pub count_hello : Master → Master
count_hello m = record m { counts = record counts { hello = counts.hello + 1 } }
  where
    open m use {counts}

abbrev pub count_hello_ack : Master → Master
count_hello_ack m = record m { counts = record counts { hello_ack = counts.hello_ack + 1 } }
  where
    open m use {counts}

abbrev pub count_ask : Master → Master
count_ask m = record m { counts = record counts { ask = counts.ask + 1 } }
  where
    open m use {counts}

abbrev pub count_add : Master → Master
count_add m = record m { counts = record counts { add = counts.add + 1 } }
  where
    open m use {counts}

hello_ack_line : ℕ → Bytes
hello_ack_line i =
    codes "Transmitted (src= master, dest= psw" ++ (print_nat i ++ codes ") [HELLO_ACK]\n")

-- `if (pktType == "HELLO")`
unfoldable pub handle_hello : ℕ → List ℤ → Master → Outcome Master
unfolding switch_info insert hello_ack_line
handle_hello i msg m = do
  info ← or_undefined (switch_info msg)
  let known = record (count_hello m) {
    table = m.table ++ info ∷ [];
    id_to_fd = insert (pos i) (m.pfds i) m.id_to_fd;
  }
  running (
      count_hello_ack
        (emit (printed (hello_ack_line i)) (emit (wrote (m.pfds i) (codes "HELLO_ACK:")) known)))

-- The first switch whose range holds the address.
unfoldable pub find_info : ℤ → List SwitchInfo → Option SwitchInfo
find_info dest_ip [] = none
find_info dest_ip (info ∷ table) =
    if leb_ℤ info.ip_low dest_ip && leb_ℤ dest_ip info.ip_high
    then some info
    else find_info dest_ip table

-- The port is always 0.
unfoldable pub add_string : SwitchInfo → ℤ → Bytes
add_string info src_ip =
    codes "ADD:1,"
    ++ (to_string info.ip_low
        ++ (codes "," ++ (to_string info.ip_high ++ (codes ",0," ++ to_string src_ip))))

-- The lines about an ADD packet, which is parsed again.
unfoldable pub add_lines : List ℤ → Outcome Bytes
add_lines (action ∷ low ∷ high ∷ port ∷ rest) = running (
    codes "Transmitted (src= psw0, dest= psw1) [ADD]:\n\t (srcIp= 0-1000, destIp= "
    ++ (to_string low
        ++ (codes "-"
            ++ (to_string high
                ++ (codes ",, action= " ++ (to_string port ++ codes ", pktCount= 0\n"))))))
add_lines _ = undefined

-- The answer, if a switch holds the destination; else there is none.
unfoldable pub answer_ask : ℕ → ℤ → Option SwitchInfo → Master → Outcome Master
unfolding add_string add_lines read_pkt touch at
answer_ask i src_ip none m = running m
answer_ask i src_ip (some info) m = do
  let text = add_string info src_ip
  let sent =
      emit (wrote (at (pos i) m.id_to_fd) text) (record m { id_to_fd = touch (pos i) m.id_to_fd })
  lines ← add_lines (read_pkt text).1
  running (emit (printed lines) sent)

-- `else if (pktType == "ASK")`
unfoldable pub handle_ask : ℕ → List ℤ → Master → Outcome Master
unfolding answer_ask find_info
handle_ask i msg m = do
  src_ip ← or_undefined (get_elem? msg 0)
  dest_ip ← or_undefined (get_elem? msg 1)
  answered ← answer_ask i src_ip (find_info dest_ip m.table) (count_ask m)
  running (count_add answered)

unfoldable pub dispatch : ℕ → Bytes → List ℤ → Master → Outcome Master
unfolding handle_hello handle_ask
dispatch i type msg m =
    if same type (codes "HELLO")
    then handle_hello i msg m
    else if same type (codes "ASK")
    then handle_ask i msg m
    else running m

-- A packet from slot `i`, by its type and its numbers.
unfoldable pub handle_packet : ℕ → Bytes × List ℤ → Master → Outcome Master
unfolding dispatch received_lines
handle_packet i (type, msg) m = do
  lines ← received_lines i msg
  dispatch i type msg (emit (printed lines) m)

unfoldable pub handle_text : ℕ → Bytes → Master → Outcome Master
unfolding handle_packet read_pkt
handle_text i text m = handle_packet i (read_pkt text) m

lost_line : ℕ → Bytes
lost_line i = codes "Lost connection to sw" ++ (print_nat i ++ codes ".\n")

-- Slot `i` is ready, and `read` brings `reading`. At the end of file the slot is closed, and the buffer
-- handled as a packet all the same.
unfoldable pub serve : ℕ → Reading → Master → Outcome Master
unfolding handle_text lost_line terminated
serve i reading m = do
  let buffer = filled reading m.buffer
  let noted : List Event = elim reading [
    | end_of_file ↦ m.out ++ printed (lost_line i) ∷ closes (m.pfds i) ∷ []
    | _ ↦ m.out
  ]
  text ← or_undefined (terminated buffer)
  handle_text i text (record m { buffer = buffer; out = noted })

-- The `for` loop over the slots, `n` of them from `i` on.
unfoldable pub serve_slots : ℕ → ℕ → (ℕ → Option Reading) → Master → Outcome Master
unfolding serve
serve_slots zero i ready m = running m
serve_slots (suc n) i ready m = do
  d ← elim (ready i) [ none ↦ running m | some reading ↦ serve i reading m ]
  serve_slots n (i + 1) ready d

-- `memset(buffer, 0, sizeof(buffer))`
unfoldable pub clear_buffer : Master → Master
unfolding zeroes
clear_buffer m = record m { buffer = zeroes max_buffer }
