-- ===== src/A2w22/Controller.antt =====
-- Assignment_2/w22/controller.cpp: the controller. `opens name` is the descriptor that `open` gives
-- for a FIFO, -1 where it fails; the lines that `perror` writes to stderr are left out.
pub mod Loop
use cmput.Common.{
  ℕ, zero, suc, ◌+◌, Bool, ◌&&◌, List, [], ◌∷◌, ◌++◌, Option, none, some, ◌==◌, if◌then◌else◌, ℤ,
  pos, negsuc, leb_ℤ, get_elem?,
}
use cmput.Text.{Bytes, codes, same}
use cmput.Text.Number.{to_string, print_nat}
use cmput.Process.{Event, printed, Outcome, running, undefined, ◌>>=◌, or_undefined}
use cmput.A2w22.{
  PktType, hello, hello_ack, ask, add, PacketCounts, PacketInfo, count, all_types, size_of, Switch,
  Session, at_index, pred_ℤ, number, name_fifo, send_packet,
}

-- The globals of the file, and what the process did.
pub record Controller : Type 0 where
  pub info : PacketInfo
  pub switches : List Switch
  pub sessions : List Session
  pub out : List Event

abbrev pub emit : List Event → Controller → Controller
emit es c = record c { out = c.out ++ es }

abbrev pub count_received : PktType → Controller → Controller
count_received k c = record c { info = record info { received = count k info.received } }
  where
    open c use {info}

abbrev pub count_transmitted : PktType → Controller → Controller
count_transmitted k c = record c { info = record info { transmitted = count k info.transmitted } }
  where
    open c use {info}

abbrev zero_received : PacketCounts
zero_received hello = some 0
zero_received ask = some 0
zero_received _ = none

abbrev zero_transmitted : PacketCounts
zero_transmitted hello_ack = some 0
zero_transmitted add = some 0
zero_transmitted _ = none

abbrev pub stats : PacketInfo
stats = record { received = zero_received; transmitted = zero_transmitted }

-- The loop that makes and opens the FIFOs, `n` of them from switch `i + 1` on.
unfoldable pub init_sessions : (Bytes → ℤ) → ℕ → ℕ → List Session
unfolding name_fifo
init_sessions opens zero i = []
init_sessions opens (suc n) i =
    let in_fifo = name_fifo (pos (i + 1)) (pos 0) in
    let out_fifo = name_fifo (pos 0) (pos (i + 1)) in
    let session : Session = record {
      in_fifo = in_fifo;
      out_fifo = out_fifo;
      in_fd = opens in_fifo;
      out_fd = opens out_fifo;
      port = pos 0;
    } in
    session ∷ init_sessions opens n (i + 1)

switch_line : Switch → Bytes
switch_line s =
    codes "[psw"
    ++ (to_string s.switch_id
        ++ (codes "]: port1= "
            ++ (to_string s.port1
                ++ (codes ", port2= "
                    ++ (to_string s.port2
                        ++ (codes ", port3= "
                            ++ (to_string s.ipranges.low
                                ++ (codes "-" ++ (to_string s.ipranges.high ++ codes "\n")))))))))

switch_lines : List Switch → Bytes
unfolding switch_line
switch_lines [] = []
switch_lines (s ∷ rest) = switch_line s ++ switch_lines rest

-- One round of the loops of `receivedInfo` and `transmittedInfo`. Their counter is 0 in every round,
-- so the comma is left out only where `received` has one key.
stat_text : (PktType → Bytes) → ℕ → PktType → ℕ → Bytes
stat_text name size k n =
    (if same (name k) [] then [] else name k ++ (codes ":" ++ print_nat n))
    ++ (if size == 1 then [] else codes ", ")

stat_texts : (PktType → Bytes) → ℕ → PacketCounts → List PktType → Bytes
unfolding stat_text
stat_texts name size m [] = []
stat_texts name size m (k ∷ ks) = elim (m k) [
  | none ↦ stat_texts name size m ks
  | some n ↦ stat_text name size k n ++ stat_texts name size m ks
]

received_name : PktType → Bytes
received_name hello = codes "HELLO"
received_name ask = codes "ASK"
received_name _ = []

transmitted_name : PktType → Bytes
transmitted_name hello_ack = codes "HELLO_ACK"
transmitted_name add = codes "ADD"
transmitted_name _ = []

received_info : PacketInfo → Bytes
unfolding stat_texts received_name size_of
received_info info =
    codes "\tReceived: "
    ++ (stat_texts received_name (size_of info.received all_types) info.received all_types
        ++ codes "\n")

transmitted_info : PacketInfo → Bytes
unfolding stat_texts transmitted_name size_of
transmitted_info info =
    codes "\tTransmitted: "
    ++ (stat_texts transmitted_name (size_of info.received all_types) info.transmitted all_types
        ++ codes "\n")

unfoldable pub print_info : Controller → Bytes
unfolding switch_lines received_info transmitted_info
print_info c =
    codes "Switch information: \n"
    ++ (switch_lines c.switches
        ++ (codes "\nPacket stats:\n" ++ (received_info c.info ++ transmitted_info c.info)))

abbrev pub port_or_none : ℤ → ℤ
port_or_none p = if leb_ℤ p (pos 0) then negsuc 0 else p

-- The five numbers behind HELLO.
unfoldable pub announced : List Bytes → Outcome Switch
announced (id ∷ port1 ∷ port2 ∷ low ∷ high ∷ rest) = do
  switch_id ← number id
  port1_id ← number port1
  port2_id ← number port2
  ip_low ← number low
  ip_high ← number high
  running (record {
    switch_id = switch_id;
    port1 = port_or_none port1_id;
    port2 = port_or_none port2_id;
    ipranges = record { low = ip_low; high = ip_high };
  })
announced _ = undefined

-- The loop over `switches`; the destination is read as a number in each round.
unfoldable pub find_switch : Bytes → List Switch → Outcome (Option Switch)
find_switch dest [] = running none
find_switch dest (sw ∷ rest) = do
  dest_ip ← number dest
  let more = find_switch dest rest
  if leb_ℤ sw.ipranges.low dest_ip && leb_ℤ dest_ip sw.ipranges.high
      then running (some sw)
      else more

abbrev pub route_text : Bytes → Option Switch → Bytes
route_text dest none = dest
route_text dest (some sw) =
    to_string sw.port1
    ++ (codes " "
        ++ (to_string sw.port2
            ++ (codes " "
                ++ (to_string sw.ipranges.low ++ (codes " " ++ to_string sw.ipranges.high)))))

unfoldable pub answer_text : Bytes → Bytes → Option Switch → Bytes
answer_text id dest found = codes "ADD " ++ (id ++ (codes " " ++ route_text dest found))

abbrev pub received_line : Bytes → Bytes → Bytes
received_line id type =
    codes "Received: (src= master, dest= sw" ++ (id ++ (codes ") [" ++ (type ++ codes "]\n")))

module _ (writes : ℤ → Bytes → Bool) where
  -- `if (type == "HELLO")`
  unfoldable pub handle_hello : List Bytes → Controller → Outcome Controller
  unfolding announced send_packet
  handle_hello message c = do
    sw ← announced message
    session ← at_index c.sessions (pred_ℤ sw.switch_id)
    let registered = record (count_received hello c) { switches = c.switches ++ sw ∷ [] }
    running (
        count_transmitted hello_ack
          (emit (send_packet writes session.out_fd hello_ack (codes "HELLO_ACK 0")) registered))

  -- `else if (type == "ASK")`
  unfoldable pub handle_ask : List Bytes → Controller → Outcome Controller
  unfolding find_switch answer_text send_packet
  handle_ask message c = do
    id ← or_undefined (get_elem? message 0)
    switch_id ← number id
    dest ← or_undefined (get_elem? message 1)
    found ← find_switch dest c.switches
    session ← at_index c.sessions (pred_ℤ switch_id)
    running (
        emit (send_packet writes session.out_fd add (answer_text id dest found))
          (count_transmitted add (count_received ask c)))

  -- A message of fewer than two words is read beyond its end.
  unfoldable pub controller_receive : List Bytes → Controller → Outcome Controller
  unfolding handle_hello handle_ask
  controller_receive (type ∷ id ∷ rest) c =
      let logged = emit (printed (received_line id type) ∷ []) c in
      if same type (codes "HELLO")
      then handle_hello (id ∷ rest) logged
      else if same type (codes "ASK")
      then handle_ask (id ∷ rest) logged
      else running logged
  controller_receive _ c = undefined
