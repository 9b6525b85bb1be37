-- ===== src/Sdn/Exchange.antt =====
-- test2/: a packet to a destination for which a switch has no rule, through the controller and back.
use cmput.Common.{
  ℕ, ◌≤◌, ◌≡◌, refl, ◌∙◌, inl, inr, Bool, true, false, List, [], ◌∷◌, ◌++◌, none, negsuc, some, ℤ,
  pos, IsInt, length, arith, All, append-nil, Option-cases,
}
use cmput.Text.{Bytes, codes, same, overwrite}
use cmput.Text.Buffer.{zeroes, c_string-zeroed}
use cmput.Process.{wrote, printed, running, bytes, at, contains}
use cmput.Process.Sent.{sent, sent-append}
use cmput.Sdn.Packet.{query_string, parse_packet_string}
use cmput.Sdn.Packet.RoundTrip.{Packet, query, numbers, packet_string, parse-packet_string}
use cmput.Sdn.Packet.Log.{print_packet_message}
use cmput.Sdn.Packet.Log.Defined.{print_packet_message-eq-none, numbers_needed}
use cmput.Sdn.Controller as Cont
use cmput.Sdn.Controller.{handle_packet, dispatch}
use cmput.Sdn.Controller.State.{Controller}
use cmput.Sdn.Controller.Query.{Answer, IsAddress, handle_query-Answer}
use cmput.Sdn.Switch as Swi
use cmput.Sdn.Switch.State.{Sys, Switch, send_query_packet, send, log_packet}
use cmput.Sdn.Switch.Table.{find_rule, bump_rule-none}
use cmput.Sdn.Switch.Traffic.{admit, ask_controller, count_admit, count_query}
use cmput.Sdn.Network.{Works, rule_of, Answer-Settles}
use cmput.Sdn.Answers.{HasInts, Fits, answer_for, query-Fits}

print_enough :
    (direction : Bytes) (src dest : ℤ) (type : Bytes) (msg : List ℤ)
    → numbers_needed type ≤ length msg
    → (line : Bytes) × (print_packet_message direction src dest type msg ≡ some line)
print_enough direction src dest type msg enough =
    elim (Option-cases (print_packet_message direction src dest type msg)) [
      | inl missing ↦
          absurd
            (omega (arith, (print_packet_message-eq-none direction src dest type msg).0 missing))
      | inr found ↦ found
    ]

-- The log of a packet with enough numbers, in the switch and in the controller.
pub switch_logs :
    (direction : Bytes) (src dest : ℤ) (type : Bytes) (msg : List ℤ) (s : Switch)
    → numbers_needed type ≤ length msg
    → (line : Bytes) × (log_packet direction src dest type msg s
        ≡ running (record s { out = s.out ++ printed line ∷ [] }))
unfolding log_packet
switch_logs direction src dest type msg s enough =
    let (line, e) = print_enough direction src dest type msg enough in (line, rw e)

handle_text-logged :
    (writes : ℤ → Bytes → Bool) (i : ℕ) (text type : Bytes) (msg : List ℤ) (c : Controller)
    → parse_packet_string text ≡ (type, msg)
    → numbers_needed type ≤ length msg
    → (line : Bytes) × (Cont.handle_text writes i text c
        ≡ dispatch writes i type msg (record c { out = c.out ++ printed line ∷ [] }))
unfolding Cont.handle_text Cont.State.log_packet
handle_text-logged writes i text type msg c parsed enough =
    let (line, e) = print_enough (codes "Received") (pos i) (pos 0) type msg enough in
    (line, rw (parsed, e))

module _ (sys : Sys) (works : Works sys) (src dest : ℤ) (s : Switch) where
  -- The switch behind its query.
  abbrev asking : Bytes → Switch
  asking line =
      let admitted = count_admit s in
      count_query (record admitted {
        out =
            (s.out ++ wrote (at (pos 0) s.port_to_fd) (query_string src dest) ∷ [])
            ++ printed line ∷ [];
      })

  admit-asks :
      IsInt src
      → IsInt dest
      → find_rule dest s.flow_table ≡ none
      → (line : Bytes) × (admit sys src dest s ≡ running (asking line))
  unfolding admit ask_controller send_query_packet send same
  admit-asks hs hd unknown =
      let (line, e) =
        switch_logs (codes "Transmitted") s.id (pos 0) (codes "QUERY") (src ∷ dest ∷ [])
          (record (count_admit s) {
            out = s.out ++ wrote (at (pos 0) s.port_to_fd) (query_string src dest) ∷ [];
          })
          (omega arith) in
      (
        line,
        rw (
          unknown,
          admit,
          bump_rule-none dest s.flow_table unknown,
          works.writes _ _,
          parse-packet_string (query src dest) (hs, (hd, tt)),
          e,
        ),
      )

module _ (writes : ℤ → Bytes → Bool) (src dest : ℤ) (i : ℕ) (c : Controller) where
  -- The controller behind the line that it prints for the query.
  abbrev heard : Bytes → Bytes → Controller
  heard buffer line = record c { buffer = buffer; out = c.out ++ printed line ∷ [] }

  serve-heard :
      IsInt src
      → IsInt dest
      → c.buffer ≡ zeroes 1024
      → (buffer : Bytes) × (line : Bytes) × (Cont.serve writes i (bytes (query_string src dest)) c
          ≡ Cont.handle_query writes i (src ∷ dest ∷ []) (heard buffer line))
  unfolding Cont.serve handle_packet dispatch same Fits
  serve-heard hs hd cleared =
      let (clean, fits) = query-Fits src dest hs hd in
      let text = query_string src dest in
      let buffer = overwrite text (zeroes 1024) in
      let (line, e) =
        handle_text-logged writes i text (codes "QUERY") (src ∷ dest ∷ [])
          (record c { buffer = buffer }) (parse-packet_string (query src dest) (hs, (hd, tt)))
          (omega arith) in
      (buffer, line, rw (cleared, c_string-zeroed text 1024 clean fits) e)

pub serve-text :
    (sys : Sys) (i : ℕ) (text : Bytes) (s : Switch)
    → s.buffer ≡ zeroes 1024
    → Fits text
    → (buffer : Bytes) × (Swi.serve sys i (bytes text) s
        ≡ Swi.handle_text sys i text (record s { buffer = buffer }))
unfolding Swi.serve Fits
serve-text sys i text s cleared (clean, fits) =
    (overwrite text (zeroes 1024), rw (cleared, c_string-zeroed text 1024 clean fits))

IsAddress-IsInt : (ip : ℤ) → IsAddress ip → IsInt ip
IsAddress-IsInt (pos n) h = omega (arith, h)
IsAddress-IsInt (negsuc n) h = absurd (omega (arith, h))

module _ (sys : Sys) (works : Works sys) (writes : ℤ → Bytes → Bool) (src dest : ℤ) (i : ℕ) where
  controller_answers :
      (c : Controller)
      → IsAddress src
      → IsAddress dest
      → c.buffer ≡ zeroes 1024
      → contains (pos i) c.closed ≡ false
      → All HasInts c.table
      → ((fd : ℤ) (text : Bytes) → writes fd text ≡ true)
      → (d : Controller) × (p : Packet) × (Cont.serve writes i (bytes (query_string src dest)) c
          ≡ running d)
        × (sent d.out ≡ sent c.out ++ (at (pos i) c.id_to_fd, packet_string p) ∷ [])
        × Answer c.table i src dest p
        × All IsInt (numbers p)
        × Fits (packet_string p)
  controller_answers c hs hd cleared live ints ok =
      let int_s = IsAddress-IsInt src hs in
      let int_d = IsAddress-IsInt dest hd in
      let (p, answer, nums, fits) = answer_for c.table i src dest ints int_s int_d in
      let (buffer, line, e) = serve-heard writes src dest i c int_s int_d cleared in
      let (d, f, done) =
        handle_query-Answer writes i src dest (heard writes src dest i c buffer line) p hs hd live
          answer nums (ok _ _) in
      (
        d,
        p,
        e ∙ f,
        rw (done.sent, sent-append, append-nil, sent-append, sent-append, append-nil) refl,
        answer,
        nums,
        fits,
      )

  -- Let a switch admit a packet to a destination for which it has no rule, let its system calls and the
  -- writes of the controller not fail, let both addresses lie in 0 to 1000, the numbers in the controller's
  -- table be of type `int` and the switch's slot be open, and let both receive buffers be clear. The switch then
  -- writes one QUERY packet, to the descriptor of the controller. The controller, when it reads that,
  -- writes one packet, to the descriptor stored for the slot: FORWARD for the first switch in its table that
  -- holds the destination, or DROP. The switch, when it reads that packet, goes on with its traffic, and the rule that it
  -- finds for the destination is the one that the packet stands for.
  pub admit-Settles :
      (s : Switch) (c : Controller)
      → IsAddress src
      → IsAddress dest
      → find_rule dest s.flow_table ≡ none
      → s.buffer ≡ zeroes 1024
      → c.buffer ≡ zeroes 1024
      → contains (pos i) c.closed ≡ false
      → All HasInts c.table
      → ((fd : ℤ) (text : Bytes) → writes fd text ≡ true)
      → (u : Switch) × (d : Controller) × (t : Switch) × (p : Packet) × (admit sys src dest s
          ≡ running u)
        × (sent u.out ≡ sent s.out ++ (at (pos 0) s.port_to_fd, query_string src dest) ∷ [])
        × (Cont.serve writes i (bytes (query_string src dest)) c ≡ running d)
        × (sent d.out ≡ sent c.out ++ (at (pos i) c.id_to_fd, packet_string p) ∷ [])
        × Answer c.table i src dest p
        × (Swi.serve sys 4 (bytes (packet_string p)) u ≡ running t)
        × (t.add_received ≡ true)
        × (find_rule dest t.flow_table ≡ rule_of p)
  admit-Settles s c hs hd unknown cleared cleared' live ints ok =
      let (line, e) =
        admit-asks sys works src dest s (IsAddress-IsInt src hs) (IsAddress-IsInt dest hd)
          unknown in
      let u = asking sys works src dest s line in
      let (d, p, f, answered, answer, nums, fits) =
        controller_answers c hs hd cleared' live ints ok in
      let (buffer, g) = serve-text sys 4 (packet_string p) u cleared fits in
      let (t, h, settled, finds) =
        Answer-Settles sys works c.table i src dest p (record u { buffer = buffer }) answer nums
          unknown in
      (
        u,
        d,
        t,
        p,
        e,
        rw (sent-append, sent-append, append-nil) refl,
        f,
        answered,
        answer,
        g ∙ h,
        settled,
        finds,
      )
