-- ===== src/A2w22/Messages.antt =====
-- Assignment_2/w22: the messages of the network and the words that the receiver finds in them.
use cmput.Common.{◌≡◌, refl, ◌∙◌, ap, List, [], ◌∷◌, ◌++◌, none, some, ℤ, All-append, arith}
use mathlib.Core.Path.{subst}
use cmput.Text.{Bytes, codes, pieces, Lacks}
use cmput.Text.Number.{to_string, to_string_head, to_string-Lacks}
use cmput.Text.Pieces.{pieces-append, pieces-whole}
use cmput.A2w22.{Ips, Switch}
use cmput.A2w22.Controller.{answer_text}
use cmput.A2w22.Psw.{hello_text, ask_text}
use cmput.A2w22.Directory.{Answer, acknowledged, route, unknown, message_of}

last_number : (z : ℤ) → pieces b' ' (to_string z) ≡ to_string z ∷ []
last_number z =
    let (c, s, e) = to_string_head z in
    rw e (pieces-whole b' ' c s (subst (Lacks b' ') e (to_string-Lacks b' ' z refl (ground arith))))

next_word :
    (p rest : Bytes) {ws : List Bytes}
    → Lacks b' ' p
    → pieces b' ' rest ≡ ws
    → pieces b' ' (p ++ b' ' ∷ rest) ≡ p ∷ ws
next_word p rest h e = pieces-append b' ' p rest h ∙ ap (λ ws. p ∷ ws) e

next_number :
    (z : ℤ) (rest : Bytes) {ws : List Bytes}
    → pieces b' ' rest ≡ ws
    → pieces b' ' (to_string z ++ b' ' ∷ rest) ≡ to_string z ∷ ws
next_number z rest = next_word (to_string z) rest (to_string-Lacks b' ' z refl (ground arith))

pub pieces-ask_text :
    (switch_id dest_ip : ℤ)
    → pieces b' ' (ask_text switch_id dest_ip)
      ≡ codes "ASK" ∷ to_string switch_id ∷ to_string dest_ip ∷ []
unfolding ask_text
pieces-ask_text switch_id dest_ip =
    next_word (codes "ASK") _ (omega arith) (next_number switch_id _ (last_number dest_ip))

pub pieces-hello_text :
    (sid pswj pswk : ℤ) (r : Ips)
    → pieces b' ' (hello_text sid pswj pswk r)
      ≡ codes "HELLO"
        ∷ to_string sid
        ∷ to_string pswj
        ∷ to_string pswk
        ∷ to_string r.low
        ∷ to_string r.high
        ∷ []
unfolding hello_text
pieces-hello_text sid pswj pswk r = next_word (codes "HELLO") _ (omega arith) (
    next_number sid _
      (next_number pswj _ (next_number pswk _ (next_number r.low _ (last_number r.high)))))

-- The answer with the route to a switch.
pub pieces-answer_text :
    (id : ℤ) (dest : Bytes) (sw : Switch)
    → pieces b' ' (answer_text (to_string id) dest (some sw))
      ≡ codes "ADD"
        ∷ to_string id
        ∷ to_string sw.port1
        ∷ to_string sw.port2
        ∷ to_string sw.ipranges.low
        ∷ to_string sw.ipranges.high
        ∷ []
unfolding answer_text
pieces-answer_text id dest sw = next_word (codes "ADD") _ (omega arith) (
    next_number id _ (
      next_number sw.port1 _
        (next_number sw.port2 _ (next_number sw.ipranges.low _ (last_number sw.ipranges.high)))))

-- The answer without a route.
pub pieces-answer_text-none :
    (id dest : ℤ)
    → pieces b' ' (answer_text (to_string id) (to_string dest) none)
      ≡ codes "ADD" ∷ to_string id ∷ to_string dest ∷ []
unfolding answer_text
pieces-answer_text-none id dest =
    next_word (codes "ADD") _ (omega arith) (next_number id _ (last_number dest))

-- A number in a message has no NUL.
pub number-Lacks : (z : ℤ) → Lacks 0 (to_string z)
number-Lacks z = to_string-Lacks 0 z refl (ground arith)

spaced : (p rest : Bytes) → Lacks 0 p → Lacks 0 rest → Lacks 0 (p ++ b' ' ∷ rest)
spaced p rest h k = All-append _ p (b' ' ∷ rest) h (omega arith, k)

pub ask_text-Lacks : (switch_id dest_ip : ℤ) → Lacks 0 (ask_text switch_id dest_ip)
unfolding ask_text
ask_text-Lacks switch_id dest_ip =
    spaced (codes "ASK") _ (omega arith)
      (spaced (to_string switch_id) _ (number-Lacks switch_id) (number-Lacks dest_ip))

pub hello_text-Lacks : (sid pswj pswk : ℤ) (r : Ips) → Lacks 0 (hello_text sid pswj pswk r)
unfolding hello_text
hello_text-Lacks sid pswj pswk r = spaced (codes "HELLO") _ (omega arith) (
    spaced (to_string sid) _ (number-Lacks sid) (
      spaced (to_string pswj) _ (number-Lacks pswj) (
        spaced (to_string pswk) _ (number-Lacks pswk)
          (spaced (to_string r.low) _ (number-Lacks r.low) (number-Lacks r.high)))))

-- Each answer of the controller.
pub message_of-Lacks : (id : ℤ) (a : Answer) → Lacks 0 (message_of id a)
message_of-Lacks id acknowledged = omega arith
message_of-Lacks id (unknown dest) =
    spaced (codes "ADD") _ (omega arith)
      (spaced (to_string id) _ (number-Lacks id) (number-Lacks dest))
message_of-Lacks id (route sw) = spaced (codes "ADD") _ (omega arith) (
    spaced (to_string id) _ (number-Lacks id) (
      spaced (to_string sw.port1) _ (number-Lacks sw.port1) (
        spaced (to_string sw.port2) _ (number-Lacks sw.port2) (
          spaced (to_string sw.ipranges.low) _ (number-Lacks sw.ipranges.low)
            (number-Lacks sw.ipranges.high)))))
