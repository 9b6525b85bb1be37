-- ===== src/A2w22/Network.antt =====
-- Assignment_2/w22: a packet to a destination that a switch does not know, from the switch to the
-- controller and back.
use cmput.Common.{
  ℕ, ◌<◌, ◌≡◌, refl, ◌∙◌, ap, Bool, false, [], ◌∷◌, ◌++◌, none, some, ℤ, pos, IsInt, length, All,
  arith,
}
use mathlib.Core.List.{map-append}
use cmput.Text.{Bytes, pieces, Lacks}
use cmput.Process.{running, ◌>>=◌, bytes}
use cmput.A2w22.{hello, admit, ask, name_fifo, Arrival, receive, send_packet}
use cmput.A2w22.Frames.{receive_frame}
use cmput.A2w22.Messages.{ask_text-Lacks, message_of-Lacks}
use cmput.A2w22.Controller.{Controller, controller_receive}
use cmput.Process.Sent.{sent}
use cmput.A2w22.Directory.{
  locate, Answer, Directory, Located, Serves, located, message_of, frame_of,
}
use cmput.A2w22.Directory.Serving.{Agrees, IsRequest, locates, serves_request}
use cmput.A2w22.Psw.{
  Ft, Psw, emit, count_received, count_transmitted, in_ips, find_matching_rule, init_session,
  ask_text, switch_receive,
}
use cmput.A2w22.Psw.Traffic.{TrafficRule, forward_packet, admit_packet}
use cmput.A2w22.Psw.Dropped.{admit_beyond, controller_session}
use cmput.A2w22.Route.{rule_for, Located-Learns}
use cmput.A2w22.Sizes.{
  HasInts, Located-IsInt, answer_numbers-IsInt, length-message_of, length-ask_text,
}

request-IsInt :
    {num : ℕ} {id dest : ℤ} → IsRequest num (locate id dest) → All IsInt (id ∷ dest ∷ [])
request-IsInt (locates i dest h ints) = ints

-- One `read` into a buffer of MAXBUF bytes that brings a message and its NUL.
pub record Room : Type 0 where
  pub held : Bytes
  pub max_buf : length held ≡ 1024

abbrev pub framed : Bytes → Room → Arrival
framed text room = record { reading = bytes (text ++ 0 ∷ []); garbage = room.held }

receive-framed :
    (text : Bytes) (room : Room)
    → Lacks 0 text
    → length text < 1024
    → receive (framed text room) ≡ running (pieces b' ' text)
receive-framed text room h fits =
    receive_frame text [] room.held h (omega (arith, fits, room.max_buf))

-- The answer in a course of the directory that serves one question.
answer_in :
    {id dest : ℤ} {d e : Directory}
    → Serves d (locate id dest) e
    → (a : Answer) × Located dest d.members a × (e.answers ≡ d.answers ++ (id, a) ∷ [])
answer_in (located d id dest a l) = (a, l, refl)

module _ (writes : ℤ → Bytes → Bool) where
  -- The state behind a packet that is counted and asked about.
  abbrev asking : Bytes → ℤ → Psw → Psw
  asking text fd s =
      emit (send_packet writes fd hello text) (count_transmitted ask (count_received admit s))

  admit_packet-asks :
      (opens : Bytes → ℤ) (left right : ℤ) (rule : TrafficRule) (s : Psw)
      → s.sessions ≡ init_session opens s.switch_id left right
      → rule.switch_id ≡ s.switch_id
      → in_ips rule.dest_ip s.ip_range ≡ false
      → find_matching_rule rule.dest_ip s.table ≡ none
      → admit_packet writes rule s
        ≡ running
            (asking (ask_text s.switch_id rule.dest_ip) (opens (name_fifo s.switch_id (pos 0))) s)
  unfolding forward_packet
  admit_packet-asks opens left right rule s sessions own outside unseen =
      let (c, more, same, port, fd) = controller_session writes opens s left right sessions in
      admit_beyond writes rule s own outside ∙ rw (unseen, same, fd) refl

module _ (opens : Bytes → ℤ) (num : ℕ) (writes writes' : ℤ → Bytes → Bool) (room room' : Room) where
  answer_sent :
      (c : Controller) (d : Directory) (id dest : ℤ)
      → IsRequest num (locate id dest)
      → Agrees opens num c d
      → (c' : Controller) × (a : Answer) × ((receive (framed (ask_text id dest) room) >>= λ message.
            controller_receive writes' message c)
          ≡ running c')
        × Located dest d.members a
        × (sent c'.out ≡ sent c.out ++ frame_of opens (id, a) ∷ [])
  answer_sent c d id dest asks agrees =
      let (hi, (hd, u)) = request-IsInt asks in
      let (c', d', e, serves, agrees') = serves_request opens num writes' c d agrees asks in
      let (a, l, last) = answer_in serves in
      (
        c',
        a,
        ap (λ m. m >>= λ message. controller_receive writes' message c)
              (receive-framed (ask_text id dest) room (ask_text-Lacks id dest)
                (length-ask_text id dest hi hd))
            ∙ e,
        l,
        rw (agrees'.same_answers, last, agrees.same_answers)
            (map-append (frame_of opens) d.answers ((id, a) ∷ [])),
      )

  -- Let the traffic of a switch bring a packet to a destination outside its own range that no rule holds;
  -- let the controller agree with a directory, have a session for this switch, and its members' numbers and
  -- the two numbers of the question be of type `int`. The switch then writes a question to the FIFO of the
  -- controller. The controller, which reads it into a buffer of MAXBUF bytes whatever that held, writes one
  -- message, to the FIFO of this switch: the directory's answer about the destination. The switch, which reads that into a
  -- buffer of MAXBUF bytes, adds at the end of its table exactly the rule for the answer, and finds it
  -- for the destination. Both messages are shorter than the buffers, and it does not matter whether the writes succeed.
  pub admit_packet-Learns :
      (left right : ℤ) (rule : TrafficRule) (s : Psw) (c : Controller) (d : Directory)
      → s.sessions ≡ init_session opens s.switch_id left right
      → IsRequest num (locate s.switch_id rule.dest_ip)
      → rule.switch_id ≡ s.switch_id
      → in_ips rule.dest_ip s.ip_range ≡ false
      → find_matching_rule rule.dest_ip s.table ≡ none
      → Agrees opens num c d
      → All HasInts d.members
      → (u : Psw) × (c' : Controller) × (t : Psw) × (a : Answer) × (new : Ft) × (admit_packet writes
            rule s
          ≡ running u)
        × (u.out
            ≡ s.out
              ++ send_packet writes
                  (opens (name_fifo s.switch_id (pos 0)))
                  hello
                  (ask_text s.switch_id rule.dest_ip))
        × ((receive (framed (ask_text s.switch_id rule.dest_ip) room) >>= λ message.
              controller_receive writes' message c)
            ≡ running c')
        × (sent c'.out ≡ sent c.out ++ frame_of opens (s.switch_id, a) ∷ [])
        × Located rule.dest_ip d.members a
        × ((receive (framed (message_of s.switch_id a) room') >>= λ message.
              switch_receive writes message u)
            ≡ running t)
        × (rule_for s.switch_id a ≡ some new)
        × (t.table ≡ s.table ++ new ∷ [])
        × (find_matching_rule rule.dest_ip t.table ≡ some (length s.table))
  admit_packet-Learns left right rule s c d sessions asks own outside unseen agrees ints =
      let (hi, (hd, z)) = request-IsInt asks in
      let u =
        asking writes (ask_text s.switch_id rule.dest_ip) (opens (name_fifo s.switch_id (pos 0)))
          s in
      let (c', a, e, l, answered) = answer_sent c d s.switch_id rule.dest_ip asks agrees in
      let numbers = Located-IsInt l hd ints in
      let (t, new, learns, for_a, table, finds) =
        Located-Learns writes rule.dest_ip d.members a u l (answer_numbers-IsInt a numbers)
          unseen in
      (
        u,
        c',
        t,
        a,
        new,
        admit_packet-asks writes opens left right rule s sessions own outside unseen,
        refl,
        e,
        answered,
        l,
        ap (λ m. m >>= λ message. switch_receive writes message u)
              (receive-framed (message_of s.switch_id a) room' (message_of-Lacks s.switch_id a)
                (length-message_of s.switch_id a hi numbers))
            ∙ learns,
        for_a,
        table,
        finds,
      )
