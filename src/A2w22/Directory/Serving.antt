-- ===== src/A2w22/Directory/Serving.antt =====
-- Assignment_2/w22/controller.cpp: one message that the controller receives, against the directory.
use cmput.Common.{
  ℕ, zero, suc, ◌+◌, ◌<◌, ◌≡◌, refl, sym, ◌∙◌, ap, Bool, ◌&&◌, inl, inr, List, [], ◌∷◌, ◌++◌, map,
  append-nil, Option, none, some, ℤ, pos, leb_ℤ, IsInt, get_elem?, All, arith, Bool-cases,
}
use mathlib.Core.List.{map-append}
use mathlib.Core.Path.{subst}
use cmput.Text.{Bytes, codes, same, pieces}
use cmput.Text.Number.{to_string, stoi-to_string}
use cmput.Process.{Event, printed, running}
use cmput.Process.Sent.{sent, sent-append}
use cmput.A2w22.{PktType, hello, hello_ack, ask, add, Ips, Switch, Session, name_fifo, send_packet}
use cmput.A2w22.Messages.{pieces-ask_text, pieces-hello_text}
use cmput.A2w22.Controller
use cmput.A2w22.Controller.{
  Controller, emit, init_sessions, find_switch, answer_text, handle_hello, handle_ask,
  controller_receive, count_received, count_transmitted, received_line,
}
use cmput.A2w22.Directory.{
  Request, announce, locate, request_text, Answer, acknowledged, route, unknown, Directory, Located,
  nowhere, here, later, member, Serves, announced, located, message_of, frame_of,
}

sent-send_packet :
    (writes : ℤ → Bytes → Bool) (fd : ℤ) (type : PktType) (message : Bytes)
    → sent (send_packet writes fd type message) ≡ (fd, message ++ 0 ∷ []) ∷ []
unfolding send_packet
sent-send_packet writes fd type message = elim (Bool-cases (writes fd (message ++ 0 ∷ []))) [
  | inl e ↦ rw e
  | inr e ↦ rw e
]

-- The session of the switch with the number `j + i + 1`.
session_of :
    (opens : Bytes → ℤ) (n j i : ℕ)
    → i < n
    → (s : Session) × (get_elem? (init_sessions opens n j) i ≡ some s)
      × (s.out_fd ≡ opens (name_fifo (pos 0) (pos (j + i + 1))))
unfolding init_sessions
session_of opens zero j i h = absurd (omega arith)
session_of opens (suc n) j zero h =
    (_, refl, ap (λ (k : ℕ). opens (name_fifo (pos 0) (pos k))) (omega arith))
session_of opens (suc n) j (suc i) h =
    let (s, e, f) = session_of opens n (j + 1) i (omega arith) in
    (s, e, f ∙ ap (λ (k : ℕ). opens (name_fifo (pos 0) (pos k))) (omega arith))

abbrev answer_of : ℤ → Option Switch → Answer
answer_of dest none = unknown dest
answer_of dest (some sw) = route sw

find_switch-Located :
    (dest : ℤ) (members : List Switch)
    → IsInt dest
    → (found : Option Switch) × (find_switch (to_string dest) members ≡ running found)
      × Located dest members (answer_of dest found)
unfolding find_switch
find_switch-Located dest [] h = (none, refl, nowhere)
find_switch-Located dest (sw ∷ rest) h =
    let (found, e, l) = find_switch-Located dest rest h in
    elim (Bool-cases (leb_ℤ sw.ipranges.low dest && leb_ℤ dest sw.ipranges.high)) [
      | inl q ↦ (some sw, rw (stoi-to_string dest h, q), here sw rest (ground arith))
      | inr q ↦ (found, rw (stoi-to_string dest h, q, e), later sw rest (λ k. ground arith) l)
    ]

answer_text-message_of :
    (id dest : ℤ) (found : Option Switch)
    → answer_text (to_string id) (to_string dest) found ≡ message_of id (answer_of dest found)
unfolding answer_text
answer_text-message_of id dest none = refl
answer_text-message_of id dest (some sw) = refl

module _ (writes : ℤ → Bytes → Bool) (i : ℕ) (s : Session) (c : Controller) where
  -- The controller behind an announcement, and behind a question.
  abbrev registered : Switch → Controller
  registered sw = count_transmitted hello_ack (
      emit (send_packet writes s.out_fd hello_ack (codes "HELLO_ACK 0"))
        (record (count_received hello c) { switches = c.switches ++ sw ∷ [] }))

  abbrev told : Bytes → Bytes → Option Switch → Controller
  told id dest found =
      emit (send_packet writes s.out_fd add (answer_text id dest found))
        (count_transmitted add (count_received ask c))

  handle_hello-registered :
      (pswj pswk : ℤ) (r : Ips)
      → get_elem? c.sessions i ≡ some s
      → All IsInt (pos (suc i) ∷ pswj ∷ pswk ∷ r.low ∷ r.high ∷ [])
      → handle_hello writes (map to_string (pos (suc i) ∷ pswj ∷ pswk ∷ r.low ∷ r.high ∷ [])) c
        ≡ running (registered (member (pos (suc i)) pswj pswk r))
  unfolding handle_hello Controller.announced
  handle_hello-registered pswj pswk r e (hs, (hj, (hk, (hl, (hh, u))))) = rw (
    stoi-to_string (pos (suc i)) hs,
    stoi-to_string pswj hj,
    stoi-to_string pswk hk,
    stoi-to_string r.low hl,
    stoi-to_string r.high hh,
    e,
  )

  handle_ask-told :
      (dest : ℤ) (found : Option Switch)
      → get_elem? c.sessions i ≡ some s
      → IsInt (pos (suc i))
      → find_switch (to_string dest) c.switches ≡ running found
      → handle_ask writes (to_string (pos (suc i)) ∷ to_string dest ∷ []) c
        ≡ running (told (to_string (pos (suc i))) (to_string dest) found)
  unfolding handle_ask
  handle_ask-told dest found e hs f = rw (stoi-to_string (pos (suc i)) hs, f, e)

-- A request of one of the switches whose sessions the controller has.
pub data IsRequest (num : ℕ) : Request → Type 0 where
  announces :
      (i : ℕ) (pswj pswk : ℤ) (r : Ips)
      → i < num
      → All IsInt (pos (suc i) ∷ pswj ∷ pswk ∷ r.low ∷ r.high ∷ [])
      → IsRequest num (announce (pos (suc i)) pswj pswk r)
  locates :
      (i : ℕ) (dest : ℤ)
      → i < num
      → All IsInt (pos (suc i) ∷ dest ∷ [])
      → IsRequest num (locate (pos (suc i)) dest)

module _ (opens : Bytes → ℤ) (num : ℕ) where
  -- The controller and the directory agree.
  pub record Agrees (c : Controller) (d : Directory) : Type 0 where
    pub same_members : c.switches ≡ d.members
    pub same_sessions : c.sessions ≡ init_sessions opens num 0
    pub same_answers : sent c.out ≡ map (frame_of opens) d.answers

  answered :
      (id : ℤ) (a : Answer) (line : Bytes) (writes : ℤ → Bytes → Bool) (fd : ℤ) (type : PktType)
      (message : Bytes) (out : List Event) (answers : List (ℤ × Answer))
      → sent out ≡ map (frame_of opens) answers
      → fd ≡ opens (name_fifo (pos 0) id)
      → message ≡ message_of id a
      → sent ((out ++ printed line ∷ []) ++ send_packet writes fd type message)
        ≡ map (frame_of opens) (answers ++ (id, a) ∷ [])
  answered id a line writes fd type message out answers h f m =
      sent-append (out ++ printed line ∷ []) (send_packet writes fd type message)
      ∙ rw (sent-send_packet, sent-append out (printed line ∷ []), append-nil, h, f, m)
          (sym (map-append (frame_of opens) answers ((id, a) ∷ [])))

  module _ (writes : ℤ → Bytes → Bool) (c : Controller) (d : Directory) (agrees : Agrees c d) where
    -- The controller serves the request as the directory does.
    abbrev Served : Request → Type 0
    Served r =
        (c' : Controller) × (d' : Directory) × (controller_receive writes
            (pieces b' ' (request_text r)) c
          ≡ running c')
        × Serves d r d'
        × Agrees c' d'

    session_found :
        (i : ℕ)
        → i < num
        → (s : Session) × (get_elem? c.sessions i ≡ some s)
          × (s.out_fd ≡ opens (name_fifo (pos 0) (pos (suc i))))
    session_found i h =
        let (s, e, f) = session_of opens num 0 i h in
        (
          s,
          ap (λ sessions. get_elem? sessions i) agrees.same_sessions ∙ e,
          f ∙ ap (λ (k : ℕ). opens (name_fifo (pos 0) (pos k))) (omega arith),
        )

    serves_announce :
        (i : ℕ) (pswj pswk : ℤ) (r : Ips)
        → i < num
        → All IsInt (pos (suc i) ∷ pswj ∷ pswk ∷ r.low ∷ r.high ∷ [])
        → Served (announce (pos (suc i)) pswj pswk r)
    unfolding controller_receive same
    serves_announce i pswj pswk r h ints =
        let (s, e, f) = session_found i h in
        let line =
          emit (printed (received_line (to_string (pos (suc i))) (codes "HELLO")) ∷ []) c in
        (
          registered writes i s line (member (pos (suc i)) pswj pswk r),
          _,
          ap (λ message. controller_receive writes message c)
                (pieces-hello_text (pos (suc i)) pswj pswk r)
              ∙ handle_hello-registered writes i s line pswj pswk r e ints,
          announced d (pos (suc i)) pswj pswk r,
          record {
            same_members =
                ap (λ ms. ms ++ member (pos (suc i)) pswj pswk r ∷ []) agrees.same_members;
            same_sessions = agrees.same_sessions;
            same_answers =
                answered (pos (suc i)) acknowledged _ writes s.out_fd hello_ack
                  (codes "HELLO_ACK 0") c.out d.answers agrees.same_answers f refl;
          },
        )

    serves_locate :
        (i : ℕ) (dest : ℤ)
        → i < num
        → All IsInt (pos (suc i) ∷ dest ∷ [])
        → Served (locate (pos (suc i)) dest)
    unfolding controller_receive same
    serves_locate i dest h (hs, (hd, u)) =
        let (s, e, f) = session_found i h in
        let id = to_string (pos (suc i)) in
        let line = emit (printed (received_line id (codes "ASK")) ∷ []) c in
        let (found, g, l) = find_switch-Located dest c.switches hd in
        let a = answer_of dest found in
        (
          told writes i s line id (to_string dest) found,
          _,
          ap (λ message. controller_receive writes message c) (pieces-ask_text (pos (suc i)) dest)
              ∙ handle_ask-told writes i s line dest found e hs g,
          located d (pos (suc i)) dest a (subst (λ ms. Located dest ms a) agrees.same_members l),
          record {
            same_members = agrees.same_members;
            same_sessions = agrees.same_sessions;
            same_answers =
                answered (pos (suc i)) a _ writes s.out_fd add
                  (answer_text id (to_string dest) found) c.out d.answers agrees.same_answers f
                  (answer_text-message_of (pos (suc i)) dest found);
          },
        )

    pub serves_request : {r : Request} → IsRequest num r → Served r
    serves_request (announces i pswj pswk r h ints) = serves_announce i pswj pswk r h ints
    serves_request (locates i dest h ints) = serves_locate i dest h ints
