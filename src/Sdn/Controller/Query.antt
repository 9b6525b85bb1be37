-- ===== src/Sdn/Controller/Query.antt =====
-- test2/controller.cpp: what the controller answers to a query.
use cmput.Common.{
  ℕ, ◌+◌, ◌≡◌, refl, ◌∙◌, Bool, true, false, inl, inr, List, [], ◌∷◌, ◌++◌, Option, none, some, ℤ,
  pos, IsInt, ◌≤ℤ◌, arith, Option-cases, All,
}
use cmput.Text.{Bytes, codes, same}
use cmput.Sdn.Packet.{add_string}
use cmput.Sdn.Packet.RoundTrip.{Packet, add, numbers, parse-packet_string, packet_string}
use cmput.Sdn.Packet.Log.{print_packet_message}
use cmput.Sdn.Packet.Log.Defined.{print_packet_message-eq-none}
use cmput.Process.{wrote, printed, running, at, contains}
use cmput.Sdn.Controller.State.{SwitchInfo, Controller, log_packet, send_add_packet}
use cmput.Sdn.Controller.{
  count_add, count_query, touch_id, find_info, is_ip, relay_port_of, answer_query, answer_valid,
  answer_from, handle_query,
}

-- The first entry of the table whose range holds the address.
pub data FirstHolder (dest_ip : ℤ) : List SwitchInfo → SwitchInfo → Type 0 where
  here :
      {info : SwitchInfo} {table : List SwitchInfo}
      → info.ip_low ≤ℤ dest_ip
      → dest_ip ≤ℤ info.ip_high
      → FirstHolder dest_ip (info ∷ table) info
  later :
      {info holder : SwitchInfo} {table : List SwitchInfo}
      → ¬ ((info.ip_low ≤ℤ dest_ip) × (dest_ip ≤ℤ info.ip_high))
      → FirstHolder dest_ip table holder
      → FirstHolder dest_ip (info ∷ table) holder

abbrev pub Outside : ℤ → SwitchInfo → Type 0
Outside dest_ip info = ¬ ((info.ip_low ≤ℤ dest_ip) × (dest_ip ≤ℤ info.ip_high))

find_info-FirstHolder :
    (dest_ip : ℤ) {table : List SwitchInfo} {info : SwitchInfo}
    → FirstHolder dest_ip table info
    → find_info dest_ip table ≡ some info
unfolding find_info
find_info-FirstHolder dest_ip (here low high) = ground arith
find_info-FirstHolder dest_ip (later out rest) = ground (arith, find_info-FirstHolder dest_ip rest)

find_info-Outside :
    (dest_ip : ℤ) (table : List SwitchInfo)
    → All (Outside dest_ip) table
    → find_info dest_ip table ≡ none
unfolding find_info
find_info-Outside dest_ip [] h = refl
find_info-Outside dest_ip (info ∷ table) h = ground (arith, find_info-Outside dest_ip table h.1)

-- The packet that answers a query for `dest_ip` from the switch in slot `i`.
pub data Answer (table : List SwitchInfo) (i : ℕ) (src_ip dest_ip : ℤ) : Packet → Type 0 where
  forward :
      (holder : SwitchInfo)
      → FirstHolder dest_ip table holder
      → Answer table i src_ip dest_ip
          (add (pos 1) holder.ip_low holder.ip_high (relay_port_of holder i) src_ip)
  drop_it :
      All (Outside dest_ip) table
      → Answer table i src_ip dest_ip (add (pos 0) dest_ip dest_ip (pos 0) src_ip)

-- A packet with the five numbers of an ADD can be printed.
print_add :
    (dest_id a b c d e : ℤ)
    → (line : Bytes) × (print_packet_message
          (codes "Transmitted")
          (pos 0)
          dest_id
          (codes "ADD")
          (a ∷ b ∷ c ∷ d ∷ e ∷ [])
        ≡ some line)
unfolding same
print_add dest_id a b c d e = elim (Option-cases line?) [
  | inl missing ↦ absurd (omega (arith, (print_packet_message-eq-none _ _ _ _ _).0 missing))
  | inr found ↦ found
]
  where
    line? : Option Bytes
    line? =
        print_packet_message (codes "Transmitted") (pos 0) dest_id (codes "ADD")
          (a ∷ b ∷ c ∷ d ∷ e ∷ [])

abbrev log_out : Controller → ℤ → Bytes → Bytes → Controller
log_out c fd text line = record c { out = (c.out ++ wrote fd text ∷ []) ++ printed line ∷ [] }

module _ (writes : ℤ → Bytes → Bool) where
  send_add_packet-running :
      (fd dest_id action low high port src : ℤ) (c : Controller)
      → All IsInt (action ∷ low ∷ high ∷ port ∷ src ∷ [])
      → writes fd (add_string action low high port src) ≡ true
      → (line : Bytes) × (send_add_packet writes fd dest_id action low high port src c
          ≡ running (log_out c fd (add_string action low high port src) line))
  unfolding send_add_packet log_packet
  send_add_packet-running fd dest_id action low high port src c ints ok =
      let (line, e) = print_add dest_id action low high port src in
      (line, rw (ok, parse-packet_string (add action low high port src) ints, e))

abbrev pub IsAddress : ℤ → Type 0
IsAddress ip = (pos 0 ≤ℤ ip) × (ip ≤ℤ pos 1000)

-- What is known of the state behind an answered query.
pub record Answered (c d : Controller) (fd : ℤ) (text : Bytes) : Type 0 where
  pub same_table : d.table ≡ c.table
  pub one_query : d.counts.query ≡ c.counts.query + 1
  pub one_add : d.counts.add ≡ c.counts.add + 1
  pub line : Bytes
  pub sent : d.out ≡ (c.out ++ wrote fd text ∷ []) ++ printed line ∷ []

is_ip_lem : (ip : ℤ) → IsAddress ip → is_ip ip ≡ true
is_ip_lem ip h = ground arith

module _ (writes : ℤ → Bytes → Bool) where
  answer_valid-found :
      (i : ℕ) (src dest : ℤ) (c d : Controller)
      → contains (pos i) c.closed ≡ false
      → answer_query writes i src dest (find_info dest c.table) c ≡ running d
      → answer_valid writes i src dest c ≡ running (count_add d)
  unfolding answer_valid
  answer_valid-found i src dest c d live e = rw (live, e)

  handle_query-valid :
      (i : ℕ) (src dest : ℤ) (c : Controller)
      → IsAddress src
      → IsAddress dest
      → handle_query writes i (src ∷ dest ∷ []) c ≡ answer_valid writes i src dest (count_query c)
  unfolding handle_query answer_from
  handle_query-valid i src dest c hs hd = rw (is_ip_lem src hs, is_ip_lem dest hd)

  -- The state behind the answer, before it is counted.
  abbrev answered_state : ℕ → Controller → Bytes → Bytes → Controller
  answered_state i c text line =
      log_out (touch_id i (count_query c)) (at (pos i) c.id_to_fd) text line

  answered :
      (i : ℕ) (c : Controller) (text line : Bytes)
      → Answered c (count_add (answered_state i c text line)) (at (pos i) c.id_to_fd) text
  unfolding touch_id
  answered i c text line = record {
    same_table = refl;
    one_query = refl;
    one_add = refl;
    line = line;
    sent = refl;
  }

  module _ (i : ℕ) (src dest : ℤ) (c : Controller) where
    abbrev AnsweredBy : Packet → Type 0
    AnsweredBy p =
        (line : Bytes) × (answer_query writes i src dest (find_info dest c.table) (count_query c)
          ≡ running (answered_state i c (packet_string p) line))

    forwarded :
        (holder : SwitchInfo)
        → FirstHolder dest c.table holder
        → let p = add (pos 1) holder.ip_low holder.ip_high (relay_port_of holder i) src in
          All IsInt (numbers p)
          → writes (at (pos i) c.id_to_fd) (packet_string p) ≡ true
          → AnsweredBy p
    unfolding answer_query
    forwarded holder first ints ok =
        let (line, e) =
          send_add_packet-running writes (at (pos i) c.id_to_fd) (pos i) (pos 1) holder.ip_low
            holder.ip_high (relay_port_of holder i) src (touch_id i (count_query c)) ints ok in
        (line, rw (find_info-FirstHolder dest first) e)

    dropped :
        All (Outside dest) c.table
        → let p = add (pos 0) dest dest (pos 0) src in
          All IsInt (numbers p)
          → writes (at (pos i) c.id_to_fd) (packet_string p) ≡ true
          → AnsweredBy p
    unfolding answer_query
    dropped outside ints ok =
        let (line, e) =
          send_add_packet-running writes (at (pos i) c.id_to_fd) (pos i) (pos 0) dest dest (pos 0)
            src (touch_id i (count_query c)) ints ok in
        (line, rw (find_info-Outside dest c.table outside) e)

  -- A query whose source and destination lie in 0 to 1000, from a slot that is not closed and can be
  -- written to, is answered: the controller goes on, its table is as it was, it has counted one QUERY
  -- and one ADD more, and it has written to the descriptor stored for the slot exactly one packet (and
  -- printed one line). The packet installs FORWARD for the range of the first switch in the table that
  -- holds the destination, to port 2 if that switch's number is above the slot's and else to port 1;
  -- or DROP for the destination alone, if no switch holds it.
  pub handle_query-Answer :
      (i : ℕ) (src dest : ℤ) (c : Controller) (p : Packet)
      → IsAddress src
      → IsAddress dest
      → contains (pos i) c.closed ≡ false
      → Answer c.table i src dest p
      → All IsInt (numbers p)
      → writes (at (pos i) c.id_to_fd) (packet_string p) ≡ true
      → (d : Controller) × (handle_query writes i (src ∷ dest ∷ []) c ≡ running d)
        × Answered c d (at (pos i) c.id_to_fd) (packet_string p)
  handle_query-Answer i src dest c p hs hd live (forward holder first) ints ok =
      let (line, e) = forwarded i src dest c holder first ints ok in
      (
        _,
        handle_query-valid i src dest c hs hd
            ∙ answer_valid-found i src dest (count_query c) _ live e,
        answered i c _ line,
      )
  handle_query-Answer i src dest c p hs hd live (drop_it outside) ints ok =
      let (line, e) = dropped i src dest c outside ints ok in
      (
        _,
        handle_query-valid i src dest c hs hd
            ∙ answer_valid-found i src dest (count_query c) _ live e,
        answered i c _ line,
      )
