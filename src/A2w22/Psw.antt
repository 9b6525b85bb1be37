-- ===== src/A2w22/Psw.antt =====
-- Assignment_2/w22/switch.cpp: a switch: its forwarding table, its sessions and the messages that it
-- receives. The lines that `perror` writes to stderr are left out.
pub mod Traffic
pub mod Loop
pub mod Counts
pub mod Table
pub mod Dropped
use mathlib.Core.Option
use cmput.Common.{
  ℕ, zero, suc, ◌+◌, Bool, ◌&&◌, List, [], ◌∷◌, ◌++◌, Option, none, some, if◌then◌else◌, ℤ, pos,
  leb_ℤ, ◌==ℤ◌, get_elem?, length,
}
use cmput.Text.{Bytes, codes, same}
use cmput.Text.Number.{to_string}
use cmput.Process.{Event, printed, Outcome, running, ◌>>=◌, or_undefined}
use cmput.A2w22.{
  ActionType, forward, drop_it, PktType, hello, hello_ack, ask, add, relay_in, admit, PacketCounts,
  PacketInfo, count, Ips, Session, max_ip, number, name_fifo, send_packet,
}

-- `struct ft`; each source range is 0 to MAXIP.
pub record Ft : Type 0 where
  pub src_range : Ips
  pub dest_range : Ips
  pub action_type : ActionType
  pub action_value : ℤ
  pub pkt_count : ℕ

-- The globals of the file, the arguments of `masterSwitch`, the lines of the traffic file and how many of
-- them are read, and what the process did.
pub record Psw : Type 0 where
  pub switch_id : ℤ
  pub ip_range : Ips
  pub sessions : List Session
  pub table : List Ft
  pub stats : PacketInfo
  pub lines : List Bytes
  pub rule_cnt : ℕ
  pub out : List Event

abbrev pub emit : List Event → Psw → Psw
emit es s = record s { out = s.out ++ es }

abbrev pub count_received : PktType → Psw → Psw
count_received k s = record s { stats = record stats { received = count k stats.received } }
  where
    open s use {stats}

abbrev pub count_transmitted : PktType → Psw → Psw
count_transmitted k s = record s {
  stats = record stats { transmitted = count k stats.transmitted };
}
  where
    open s use {stats}

abbrev pub all_ips : Ips
all_ips = record { low = pos 0; high = pos max_ip }

-- `rule.low <= ip && ip <= rule.high`
abbrev pub in_ips : ℤ → Ips → Bool
in_ips ip r = leb_ℤ r.low ip && leb_ℤ ip r.high

abbrev pub own_rule : Ips → Ft
own_rule ip_range = record {
  src_range = all_ips;
  dest_range = ip_range;
  action_type = forward;
  action_value = pos 3;
  pkt_count = 0;
}

unfoldable pub init_forwarding_table : Ips → List Ft
init_forwarding_table ip_range = own_rule ip_range ∷ []

abbrev zero_received : PacketCounts
zero_received hello = none
zero_received ask = none
zero_received _ = some 0

abbrev zero_transmitted : PacketCounts
zero_transmitted hello = some 0
zero_transmitted ask = some 0
zero_transmitted relay_in = some 0
zero_transmitted _ = none

abbrev pub init_switch_stats : PacketInfo
init_switch_stats = record { received = zero_received; transmitted = zero_transmitted }

-- A session over the two FIFOs between this switch and another process.
abbrev session_with : (Bytes → ℤ) → ℤ → ℤ → ℤ → Session
session_with opens switch_id other port =
    let in_fifo = name_fifo other switch_id in
    let out_fifo = name_fifo switch_id other in
    record {
      in_fifo = in_fifo;
      out_fifo = out_fifo;
      in_fd = opens in_fifo;
      out_fd = opens out_fifo;
      port = port;
    }

unfoldable pub init_session : (Bytes → ℤ) → ℤ → ℤ → ℤ → List Session
init_session opens switch_id left right =
    session_with opens switch_id (pos 0) (pos 0)
    ∷ ((if leb_ℤ left (pos 0) then [] else session_with opens switch_id left (pos 1) ∷ [])
        ++ (if leb_ℤ right (pos 0) then [] else session_with opens switch_id right (pos 2) ∷ []))

abbrev pub forward_rule : ℤ → Ips → Ft
forward_rule port dest = record {
  src_range = all_ips;
  dest_range = dest;
  action_type = forward;
  action_value = port;
  pkt_count = 0;
}

abbrev pub drop_rule : ℤ → Ft
drop_rule ip = record {
  src_range = all_ips;
  dest_range = record { low = ip; high = ip };
  action_type = drop_it;
  action_value = pos 0;
  pkt_count = 1;
}

abbrev pub add_rule : Ft → Psw → Psw
add_rule rule s = record s { table = s.table ++ rule ∷ [] }

-- The table and the index of the new rule, `forwardingTable.size() - 1`.
unfoldable pub add_forward_rule : ℤ → Ips → Psw → ℕ × Psw
add_forward_rule port dest s = (length s.table, add_rule (forward_rule port dest) s)

unfoldable pub add_drop_rule : ℤ → Psw → Psw
add_drop_rule ip s = add_rule (drop_rule ip) s

-- The index of the first rule for the destination; `none` is -1.
unfoldable pub find_matching_rule : ℤ → List Ft → Option ℕ
find_matching_rule dest_ip [] = none
find_matching_rule dest_ip (entry ∷ table) =
    if in_ips dest_ip entry.dest_range
    then some 0
    else Option.map suc (find_matching_rule dest_ip table)

-- The index of the first session at the port; `none` is -1.
unfoldable pub find_matching_session : ℤ → List Session → Option ℕ
find_matching_session port [] = none
find_matching_session port (s ∷ sessions) =
    if s.port ==ℤ port then some 0 else Option.map suc (find_matching_session port sessions)

-- `forwardingTable[i].pktCount += 1`
unfoldable pub bump_at : ℕ → List Ft → List Ft
bump_at i [] = []
bump_at zero (entry ∷ table) = record entry { pkt_count = entry.pkt_count + 1 } ∷ table
bump_at (suc i) (entry ∷ table) = entry ∷ bump_at i table

abbrev pub bump : ℕ → Psw → Psw
bump i s = record s { table = bump_at i s.table }

-- `"RELAY " << switchID`
unfoldable pub relay_text : ℤ → Bytes
relay_text switch_id = codes "RELAY " ++ to_string switch_id

unfoldable pub ask_text : ℤ → ℤ → Bytes
ask_text switch_id dest_ip =
    codes "ASK " ++ (to_string switch_id ++ (codes " " ++ to_string dest_ip))

unfoldable pub hello_text : ℤ → ℤ → ℤ → Ips → Bytes
hello_text sid pswj pswk r =
    codes "HELLO "
    ++ (to_string sid
        ++ (codes " "
            ++ (to_string pswj
                ++ (codes " "
                    ++ (to_string pswk
                        ++ (codes " " ++ (to_string r.low ++ (codes " " ++ to_string r.high))))))))

-- `name_pkt_map[name]`: a name that is not in the map is added with the value 0, which is HELLO.
unfoldable pub type_of : Bytes → PktType
type_of name =
    if same name (codes "HELLO_ACK")
    then hello_ack
    else if same name (codes "ASK")
    then ask
    else if same name (codes "ADD")
    then add
    else if same name (codes "RELAY")
    then relay_in
    else if same name (codes "ADMIT")
    then admit
    else hello

abbrev pub added_line : Bytes → Bytes → Event
added_line id type =
    printed
      (codes "Received: (src= master, dest= sw" ++ (id ++ (codes ") [" ++ (type ++ codes "]\n"))))

abbrev pub relayed_line : Bytes → Event
relayed_line id = printed (codes "Received: (src= sw" ++ (id ++ codes ") [RELAY]\n"))

module _ (writes : ℤ → Bytes → Bool) where
  -- A RELAY to the session found, if it is not that of the controller.
  unfoldable pub relay_from : Option ℕ → Psw → Outcome Psw
  unfolding send_packet relay_text
  relay_from (some (suc i)) s = do
    session ← or_undefined (get_elem? s.sessions (suc i))
    running (emit (send_packet writes session.out_fd relay_in (relay_text s.switch_id)) s)
  relay_from _ s = running s

  -- The six words of an ADD with a route, from the third on.
  unfoldable pub add_route : Bytes → Bytes → Bytes → Psw → Outcome Psw
  unfolding add_forward_rule find_matching_session relay_from bump_at
  add_route port1 low high s = do
    port1_id ← number port1
    let forwarding_port : ℤ = if port1_id ==ℤ s.switch_id then pos 2 else pos 1
    low_ip ← number low
    high_ip ← number high
    let added = add_forward_rule forwarding_port (record { low = low_ip; high = high_ip }) s
    relayed ← relay_from (find_matching_session forwarding_port added.1.sessions) added.1
    running (bump added.0 (count_transmitted relay_in relayed))

  -- `case ADD`, by the number of words.
  unfoldable pub handle_add : List Bytes → Psw → Outcome Psw
  unfolding add_drop_rule add_route
  handle_add (ip ∷ []) s = do dest_ip ← number ip; running (add_drop_rule dest_ip s)
  handle_add (port1 ∷ port2 ∷ low ∷ high ∷ []) s = add_route port1 low high s
  handle_add _ s = running s

  -- `switch (type)`; no other type has a case.
  unfoldable pub dispatch : PktType → Bytes → List Bytes → Psw → Outcome Psw
  unfolding handle_add bump_at
  dispatch add id rest s = handle_add rest (emit (added_line id (codes "ADD") ∷ []) s)
  dispatch hello_ack id rest s = running (emit (added_line id (codes "HELLO_ACK") ∷ []) s)
  dispatch relay_in id rest s = running (bump 0 (emit (relayed_line id ∷ []) s))
  dispatch _ id rest s = running s

  -- A message of one word is ignored.
  unfoldable pub switch_receive : List Bytes → Psw → Outcome Psw
  unfolding type_of dispatch
  switch_receive (name ∷ id ∷ rest) s =
      dispatch (type_of name) id rest (count_received (type_of name) s)
  switch_receive _ s = running s
