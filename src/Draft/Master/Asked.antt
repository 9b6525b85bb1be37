-- ===== src/Draft/Master/Asked.antt =====
-- test/master.cpp: a question of a switch. The numbers of a HELLO packet are printed for it first.
use cmput.Common.{ℕ, ◌≡◌, ◌<◌, refl, ◌∙◌, ap, [], ◌∷◌, some, ℤ, IsInt, length, All-append, arith}
use cmput.Text.{codes, Lacks, overwrite}
use cmput.Text.Buffer.{zeroes, terminated, terminated-zeroes}
use cmput.Text.Number.{to_string, to_string-Lacks}
use cmput.Sdn.Packet.{parse_packet_string}
use cmput.Sdn.Packet.RoundTrip.{packet_string-parts}
use cmput.Process.{undefined, bytes, ◌>>=◌, or_undefined}
use cmput.Draft.{read_pkt}
use cmput.Draft.Switch.{ask_string}
use cmput.Draft.Master.{Master, received_lines, handle_packet, handle_text, serve}

read_pkt-ask_string :
    (src dest : ℤ)
    → IsInt src
    → IsInt dest
    → read_pkt (ask_string src dest) ≡ (codes "ASK", src ∷ dest ∷ [])
unfolding read_pkt parse_packet_string ask_string
read_pkt-ask_string src dest hs hd =
    packet_string-parts (codes "ASK") (src ∷ dest ∷ []) (omega arith) (hs, (hd, tt))

ask_string-Lacks : (src dest : ℤ) → Lacks 0 (ask_string src dest)
unfolding ask_string
ask_string-Lacks src dest = All-append _ (codes "ASK:") _ (omega arith) (
    All-append _ (to_string src) _ (to_string-Lacks 0 src refl (ground arith))
      (omega arith, to_string-Lacks 0 dest refl (ground arith)))

handle_text-ask_string :
    (i : ℕ) (src dest : ℤ) (m : Master)
    → IsInt src
    → IsInt dest
    → handle_text i (ask_string src dest) m ≡ undefined
unfolding handle_text received_lines
handle_text-ask_string i src dest m hs hd =
    ap (λ packet. handle_packet i packet m) (read_pkt-ask_string src dest hs hd)

-- No question is answered. When the question of a switch, in the text in which test/switch.cpp writes
-- it and with addresses of type `int`, arrives from any slot and finds the buffer cleared and long enough,
-- the master reads beyond the two numbers of the packet, whatever it has in its tables.
pub serve-ask_string :
    (i n : ℕ) (src dest : ℤ) (m : Master)
    → IsInt src
    → IsInt dest
    → m.buffer ≡ zeroes n
    → length (ask_string src dest) < n
    → serve i (bytes (ask_string src dest)) m ≡ undefined
unfolding serve
serve-ask_string i n src dest m hs hd cleared fits =
    let text = ask_string src dest in
    let m' = record m { buffer = overwrite text m.buffer } in
    let e : terminated (overwrite text m.buffer) ≡ some text =
      rw cleared (terminated-zeroes text n (ask_string-Lacks src dest) fits) in
    ap (λ o. or_undefined o >>= λ t. handle_text i t m') e
    ∙ handle_text-ask_string i src dest m' hs hd
