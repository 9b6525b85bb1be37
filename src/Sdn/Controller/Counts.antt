-- ===== src/Sdn/Controller/Counts.antt =====
-- test2/controller.cpp: the counters, the table of switches and the slots over whole runs.
use cmput.Common.{
  ℕ, zero, suc, ◌+◌, ◌≡◌, Bool, inl, inr, List, [], ◌∷◌, Option, none, some, ◌==◌, leb, ℤ, pos,
  length-append, get_elem?, arith, Bool-cases, leb→le,
}
use cmput.Text.{Bytes, codes, same}
use cmput.Sdn.Packet.{parse_packet_string, ack_string, add_string}
use cmput.Process.{wrote, printed, running, ◌>>=◌, Reading, end_of_file, failed, bytes, contains}
use cmput.Process.Ensures.{
  Ensures, runs, exits, faults, bind-Ensures, or_undefined-Ensures, Ensures-running, if-Ensures,
}
use cmput.Sdn.Controller.State.{
  SwitchInfo, Controller, emit, clear_buffer, send_ack_packet, send_add_packet,
}
use cmput.Sdn.Controller.{
  register, count_query, switch_info, is_ip, controller_list, handle_open, answer_query,
  answer_valid, answer_from, handle_query, dispatch, handle_text, handle_packet, serve, serve_slots,
}
use cmput.Sdn.Controller.Loop.{
  Accepted, refused, connected, accept_switch, command, keyboard, Poll, round, rounds, Setup,
  set_up, initial, unknown_command,
}
use cmput.Sdn.Controller.Phases.{
  Inv, Registered, Asked, Ignores, log_packet-Ensures, cleanup-Ensures,
}

module _ (writes : ℤ → Bytes → Bool) where
  send_ack_packet-Ensures :
      {P : Controller → Type 0} (ig : Ignores P) (fd dest : ℤ) (c : Controller)
      → P c
      → Ensures P (send_ack_packet writes fd dest c)
  unfolding send_ack_packet
  send_ack_packet-Ensures ig fd dest c p =
      let d = emit (wrote fd ack_string) c in
      if-Ensures (writes fd ack_string)
        (log_packet-Ensures ig (codes "Transmitted") (pos 0) dest (codes "ACK") _ d (ig c d.out p))
        (cleanup-Ensures c)

  send_add_packet-Ensures :
      {P : Controller → Type 0} (ig : Ignores P) (fd dest action low high port src : ℤ)
      (c : Controller)
      → P c
      → Ensures P (send_add_packet writes fd dest action low high port src c)
  unfolding send_add_packet
  send_add_packet-Ensures ig fd dest action low high port src c p =
      let d = emit (wrote fd (add_string action low high port src)) c in
      if-Ensures (writes fd (add_string action low high port src))
        (log_packet-Ensures ig (codes "Transmitted") (pos 0) dest (codes "ADD") _ d (ig c d.out p))
        (cleanup-Ensures c)

  register-Registered :
      (i : ℕ) (info : SwitchInfo) (c : Controller) → Inv c → Registered (register i info c)
  unfolding register
  register-Registered i info c v = omega (arith, length-append c.table (info ∷ []))

  handle_open-Ensures :
      (i : ℕ) (msg : List ℤ) (c : Controller) → Inv c → Ensures Inv (handle_open writes i msg c)
  unfolding handle_open
  handle_open-Ensures i msg c v = bind-Ensures (or_undefined-Ensures (switch_info msg)) λ info _.
      let d = register i info c in
      let r = register-Registered i info c v in
      bind-Ensures {P = Registered}
        (if-Ensures (contains (pos i) d.closed) (runs r)
          (send_ack_packet-Ensures (λ c out k. omega arith) (d.pfds i) (pos i) d r))
        λ a r'. runs (omega arith)

  answer_query-Asked :
      (i : ℕ) (src dest : ℤ) (found : Option SwitchInfo) (c : Controller)
      → Asked c
      → Ensures Asked (answer_query writes i src dest found c)
  unfolding answer_query
  answer_query-Asked i src dest none c k =
      send_add_packet-Ensures (λ c out k. omega arith) _ _ _ _ _ _ _ _ (omega arith)
  answer_query-Asked i src dest (some info) c k =
      send_add_packet-Ensures (λ c out k. omega arith) _ _ _ _ _ _ _ _ (omega arith)

  answer_valid-Ensures :
      (i : ℕ) (src dest : ℤ) (c : Controller)
      → Asked c
      → Ensures Inv (answer_valid writes i src dest c)
  unfolding answer_valid
  answer_valid-Ensures i src dest c k =
      bind-Ensures {P = Asked}
        (if-Ensures (contains (pos i) c.closed) (runs k) (answer_query-Asked i src dest _ c k))
        λ a k'. runs (omega arith)

  answer_from-Ensures :
      (i : ℕ) (src : ℤ) (msg : List ℤ) (c : Controller)
      → Asked c
      → Ensures Inv (answer_from writes i src msg c)
  unfolding answer_from
  answer_from-Ensures i src msg c k =
      bind-Ensures (or_undefined-Ensures (get_elem? msg 1))
        λ dest _. if-Ensures (is_ip dest) (answer_valid-Ensures i src dest c k) (runs (omega arith))

  handle_query-Ensures :
      (i : ℕ) (msg : List ℤ) (c : Controller) → Inv c → Ensures Inv (handle_query writes i msg c)
  unfolding handle_query
  handle_query-Ensures i msg c v = bind-Ensures (or_undefined-Ensures (get_elem? msg 0)) λ src _.
      if-Ensures (is_ip src) (answer_from-Ensures i src msg (count_query c) (omega arith))
        (runs (omega arith))

  dispatch-Ensures :
      (i : ℕ) (type : Bytes) (msg : List ℤ) (c : Controller)
      → Inv c
      → Ensures Inv (dispatch writes i type msg c)
  unfolding dispatch
  dispatch-Ensures i type msg c v =
      if-Ensures (same type (codes "OPEN")) (handle_open-Ensures i msg c v) (
        if-Ensures (same type (codes "QUERY")) (handle_query-Ensures i msg c v)
          (runs (omega arith)))

  handle_text-Ensures :
      (i : ℕ) (text : Bytes) (c : Controller) → Inv c → Ensures Inv (handle_text writes i text c)
  unfolding handle_text
  handle_text-Ensures i text c v =
      let packet = parse_packet_string text in
      bind-Ensures {f = dispatch writes i packet.0 packet.1}
        (log_packet-Ensures (λ c out k. omega arith) (codes "Received") (pos i) (pos 0) packet.0
          packet.1 c v)
        λ d w. dispatch-Ensures i packet.0 packet.1 d w

  serve-Ensures :
      (i : ℕ) (reading : Reading) (c : Controller) → Inv c → Ensures Inv (serve writes i reading c)
  unfolding serve handle_packet
  serve-Ensures i end_of_file c v = runs (omega arith)
  serve-Ensures i failed c v = handle_text-Ensures i _ c v
  serve-Ensures i (bytes b) c v = handle_text-Ensures i _ _ (omega arith)

  serve_slots-Ensures :
      (n i : ℕ) (ready : ℕ → Option Reading) (c : Controller)
      → Inv c
      → Ensures Inv (serve_slots writes n i ready c)
  unfolding serve_slots
  serve_slots-Ensures zero i ready c v = runs v
  serve_slots-Ensures (suc n) i ready c v =
      bind-Ensures (slot (ready i)) λ d w. serve_slots-Ensures n (i + 1) ready d w
    where
      slot :
          (r : Option Reading)
          → Ensures Inv (elim r [ none ↦ running c | some reading ↦ serve writes i reading c ])
      slot none = runs v
      slot (some reading) = serve-Ensures i reading c v

command-Ensures : (cmd : Bytes) (c : Controller) → Inv c → Ensures Inv (command cmd c)
unfolding command
command-Ensures cmd c v =
    let listed = emit (printed (controller_list c.table c.counts)) c in
    let w : Inv listed = omega arith in
    if-Ensures (same cmd (codes "list")) (runs w) (
      if-Ensures (same cmd (codes "exit")) (cleanup-Ensures listed)
        (runs {a = emit (printed unknown_command) c} (omega arith)))

keyboard-Ensures : (r : Option Reading) (c : Controller) → Inv c → Ensures Inv (keyboard r c)
unfolding keyboard
keyboard-Ensures none c v = runs v
keyboard-Ensures (some end_of_file) c v = exits
keyboard-Ensures (some failed) c v = command-Ensures _ c v
keyboard-Ensures (some (bytes b)) c v = command-Ensures _ _ (omega arith)

accept_switch-Ensures :
    (a : Option Accepted) (c : Controller) → Inv c → Ensures Inv (accept_switch a c)
unfolding accept_switch
accept_switch-Ensures none c v = runs v
accept_switch-Ensures (some refused) c v =
    if-Ensures (leb c.socket_idx c.num_switches) (cleanup-Ensures c) faults
accept_switch-Ensures (some (connected fd errno)) c v =
    elim (Bool-cases (leb c.socket_idx c.num_switches)) [
      | inl room ↦ rw room (
          if-Ensures (errno == 0) (runs (omega (arith, leb→le c.socket_idx c.num_switches room)))
            exits)
      | inr full ↦ rw full faults
    ]

round-Ensures : (p : Option Poll) (c : Controller) → Inv c → Ensures Inv (round p c)
unfolding round clear_buffer
round-Ensures none c v = cleanup-Ensures c
round-Ensures (some p) c v = bind-Ensures (keyboard-Ensures p.stdin c v) λ a wa.
    bind-Ensures
      (serve_slots-Ensures p.writes c.num_switches 1 p.ready (clear_buffer a) (omega arith))
      λ b wb.
        bind-Ensures (accept_switch-Ensures p.incoming (clear_buffer b) (omega arith))
          λ d wd. runs (omega arith)

rounds-Ensures : (ps : List (Option Poll)) (c : Controller) → Inv c → Ensures Inv (rounds ps c)
unfolding rounds
rounds-Ensures [] c v = runs v
rounds-Ensures (p ∷ ps) c v = bind-Ensures (round-Ensures p c v) λ d w. rounds-Ensures ps d w

set_up-Ensures :
    (n : ℕ) (s : Setup) (garbage : ℕ → ℤ) (buffer : Bytes) → Ensures Inv (set_up n s garbage buffer)
unfolding set_up
set_up-Ensures n s garbage buffer =
    if-Ensures _ (runs (omega arith)) (cleanup-Ensures (initial n s.fd garbage buffer))

-- Whatever a controller is sent, read, refused or asked in any number of rounds after its set-up, as
-- long as it runs: it has counted one OPEN and one ACK for each switch in its table, no more ADDs
-- than QUERYs, and the next connection goes to a slot between 1 and the one behind the switches'.
pub rounds-Inv :
    (n : ℕ) (s : Setup) (garbage : ℕ → ℤ) (buffer : Bytes) (ps : List (Option Poll))
    (c : Controller)
    → (set_up n s garbage buffer >>= rounds ps) ≡ running c
    → Inv c
rounds-Inv n s garbage buffer ps c e =
    Ensures-running e
      (bind-Ensures (set_up-Ensures n s garbage buffer) λ d v. rounds-Ensures ps d v)
