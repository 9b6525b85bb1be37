-- ===== src/Sdn/Controller.antt =====
-- test2/controller.cpp: the controller of the network, as a state machine whose steps are the
-- bodies of its event loop.
pub mod State
pub mod Loop
pub mod Counts
pub mod Phases
pub mod Buffer
pub mod Query
pub mod Accept
use cmput.Common.{
  ℕ, zero, suc, ◌+◌, Bool, ◌&&◌, List, [], ◌∷◌, ◌++◌, Option, none, some, if◌then◌else◌, ℤ, pos,
  leb_ℤ, ltb_ℤ, get_elem?,
}
use cmput.Text.{Bytes, codes, same, c_string, overwrite}
use cmput.Text.Number.{to_string, print_nat}
use cmput.Sdn.Packet.{parse_packet_string}
use cmput.Process.{
  ◌>>=◌, Event, printed, closes, Outcome, running, or_undefined, Reading, end_of_file, failed,
  bytes, insert, at, touch, contains,
}
use cmput.Sdn.Controller.State.{
  ControllerPacketCounts, SwitchInfo, Controller, emit, max_ip, log_packet, send_ack_packet,
  send_add_packet,
}

-- The line of `controllerList` for one switch.
info_line : SwitchInfo → Bytes
info_line info =
    codes "[sw"
    ++ (to_string info.id
        ++ (codes "]: port1= "
            ++ (to_string info.port1_id
                ++ (codes ", port2= "
                    ++ (to_string info.port2_id
                        ++ (codes ", port3= "
                            ++ (to_string info.ip_low
                                ++ (codes "-" ++ (to_string info.ip_high ++ codes "\n")))))))))

info_lines : List SwitchInfo → Bytes
unfolding info_line
info_lines [] = []
info_lines (info ∷ table) = info_line info ++ info_lines table

unfoldable pub controller_list : List SwitchInfo → ControllerPacketCounts → Bytes
unfolding info_lines
controller_list table counts =
    codes "Switch information:\n"
    ++ (info_lines table
        ++ (codes "\nPacket stats:\n\tReceived:    OPEN:"
            ++ (print_nat counts.opens
                ++ (codes ", QUERY:"
                    ++ (print_nat counts.query
                        ++ (codes "\n\tTransmitted: ACK:"
                            ++ (print_nat counts.ack
                                ++ (codes ", ADD:" ++ (print_nat counts.add ++ codes "\n")))))))))

-- The first switch whose range holds the address.
unfoldable pub find_info : ℤ → List SwitchInfo → Option SwitchInfo
find_info dest_ip [] = none
find_info dest_ip (info ∷ table) =
    if leb_ℤ info.ip_low dest_ip && leb_ℤ dest_ip info.ip_high
    then some info
    else find_info dest_ip table

-- The five numbers of an OPEN packet; a shorter packet is read beyond its end.
unfoldable pub switch_info : List ℤ → Option SwitchInfo
switch_info (id ∷ port1_id ∷ port2_id ∷ ip_low ∷ ip_high ∷ rest) = some (record {
  id = id;
  port1_id = port1_id;
  port2_id = port2_id;
  ip_low = ip_low;
  ip_high = ip_high;
})
switch_info _ = none

unfoldable pub register : ℕ → SwitchInfo → Controller → Controller
unfolding insert
register i info c = record c {
  counts = record counts { opens = counts.opens + 1 };
  table = table ++ info ∷ [];
  id_to_fd = insert (pos i) (pfds i) id_to_fd;
}
  where
    open c use {counts, table, id_to_fd, pfds}

abbrev pub count_ack : Controller → Controller
count_ack c = record c { counts = record counts { ack = counts.ack + 1 } }
  where
    open c use {counts}

abbrev pub count_add : Controller → Controller
count_add c = record c { counts = record counts { add = counts.add + 1 } }
  where
    open c use {counts}

abbrev pub count_query : Controller → Controller
count_query c = record c { counts = record counts { query = counts.query + 1 } }
  where
    open c use {counts}

abbrev pub is_ip : ℤ → Bool
is_ip ip = leb_ℤ ip (pos max_ip) && leb_ℤ (pos 0) ip

-- `idToFd[i]` adds the key.
unfoldable pub touch_id : ℕ → Controller → Controller
unfolding touch
touch_id i c = record c { id_to_fd = touch (pos i) c.id_to_fd }

abbrev pub relay_port_of : SwitchInfo → ℕ → ℤ
relay_port_of info i = if ltb_ℤ (pos i) info.id then pos 2 else pos 1

abbrev invalid_ip : Event
invalid_ip = printed (codes "Error: Invalid IP for QUERY. Dropping.\n")

module _ (writes : ℤ → Bytes → Bool) where
  -- `if (packetType == "OPEN")`
  unfoldable pub handle_open : ℕ → List ℤ → Controller → Outcome Controller
  unfolding register contains
  handle_open i msg c = do
    info ← or_undefined (switch_info msg)
    let d = register i info c
    acked ←
        if contains (pos i) d.closed then running d else send_ack_packet writes (d.pfds i) (pos i) d
    running (count_ack acked)

  -- The answer to a query: a FORWARD rule for the range of the switch found, or a DROP rule.
  unfoldable pub answer_query : ℕ → ℤ → ℤ → Option SwitchInfo → Controller → Outcome Controller
  unfolding touch_id at
  answer_query i src_ip dest_ip none c =
      send_add_packet writes (at (pos i) c.id_to_fd) (pos i) (pos 0) dest_ip dest_ip (pos 0) src_ip
        (touch_id i c)
  answer_query i src_ip dest_ip (some info) c =
      send_add_packet writes (at (pos i) c.id_to_fd) (pos i) (pos 1) info.ip_low info.ip_high
        (relay_port_of info i) src_ip (touch_id i c)

  -- A query whose two addresses are valid.
  unfoldable pub answer_valid : ℕ → ℤ → ℤ → Controller → Outcome Controller
  unfolding answer_query contains find_info
  answer_valid i src_ip dest_ip c = do
    answered ←
        if contains (pos i) c.closed
        then running c
        else answer_query i src_ip dest_ip (find_info dest_ip c.table) c
    running (count_add answered)

  -- A query whose source is valid.
  unfoldable pub answer_from : ℕ → ℤ → List ℤ → Controller → Outcome Controller
  unfolding answer_valid
  answer_from i src_ip msg c = do
    dest_ip ← or_undefined (get_elem? msg 1)
    if is_ip dest_ip then answer_valid i src_ip dest_ip c else running (emit invalid_ip c)

  -- `else if (packetType == "QUERY")`
  unfoldable pub handle_query : ℕ → List ℤ → Controller → Outcome Controller
  unfolding answer_from
  handle_query i msg c = do
    src_ip ← or_undefined (get_elem? msg 0)
    let d = count_query c
    if is_ip src_ip then answer_from i src_ip msg d else running (emit invalid_ip d)

  unfoldable pub dispatch : ℕ → Bytes → List ℤ → Controller → Outcome Controller
  unfolding handle_open handle_query
  dispatch i type msg c =
      if same type (codes "OPEN")
      then handle_open i msg c
      else if same type (codes "QUERY")
      then handle_query i msg c
      else running (emit (printed (codes "Received " ++ (type ++ codes " packet. Ignored.\n"))) c)

  -- The text of a packet from slot `i`.
  unfoldable pub handle_text : ℕ → Bytes → Controller → Outcome Controller
  unfolding dispatch log_packet
  handle_text i text c =
      let (type, msg) = parse_packet_string text in
      do
        logged ← log_packet (codes "Received") (pos i) (pos 0) type msg c
        dispatch i type msg logged

  -- The packet in the buffer is a C string.
  unfoldable pub handle_packet : ℕ → Controller → Outcome Controller
  unfolding handle_text c_string
  handle_packet i c = handle_text i (c_string c.buffer) c

  -- Slot `i` is ready, and `read` brings `reading`.
  unfoldable pub serve : ℕ → Reading → Controller → Outcome Controller
  unfolding handle_packet overwrite
  serve i end_of_file c = running (record c {
    closed = c.closed ++ pos i ∷ [];
    out = c.out ++ printed warning ∷ closes (c.pfds i) ∷ [];
  })
    where
      warning : Bytes
      warning = codes "Warning: Connection to sw" ++ (print_nat i ++ codes " closed.\n")
  serve i failed c = handle_packet i c
  serve i (bytes b) c = handle_packet i (record c { buffer = overwrite b c.buffer })

  -- The `for` loop over the slots, `n` of them from `i` on; `ready` tells what `poll` and `read`
  -- bring for each.
  unfoldable pub serve_slots : ℕ → ℕ → (ℕ → Option Reading) → Controller → Outcome Controller
  unfolding serve
  serve_slots zero i ready c = running c
  serve_slots (suc n) i ready c = do
    d ← elim (ready i) [ none ↦ running c | some reading ↦ serve i reading c ]
    serve_slots n (i + 1) ready d
