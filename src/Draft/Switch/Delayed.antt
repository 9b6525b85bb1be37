-- ===== src/Draft/Switch/Delayed.antt =====
-- test/switch.cpp: a delay in the traffic file. Nothing sets `delay` back to 0.
use cmput.Common.{
  ℕ, zero, suc, ◌+◌, ◌≡◌, ◌≢◌, refl, ◌∙◌, true, false, List, [], ◌∷◌, Option, none, some, ◌==◌, ℤ,
  pos, ◌==ℤ◌, ==ℤ_iff, ==ℤ_refl, get_elem?, Option-cases, inl, inr, arith,
}
use cmput.Text.{Bytes, codes, same}
use cmput.Text.Buffer.{terminated}
use cmput.Process.{running, Reading, end_of_file, failed, bytes, find}
use cmput.Process.Ensures.{
  Ensures, any-Ensures, runs, exits, faults, bind-Ensures, or_undefined-Ensures, if-Ensures,
  Ensures-running,
}
use cmput.Draft.{read_pkt, command_in, filled}
use cmput.Draft.Switch.{Switch, ensure_fifo, relay_to, relay_string, header_text}
use cmput.Draft.Switch.Traffic.{delay_line, parse_line, handle_line, next_line, traffic_step}
use cmput.Draft.Switch.Packets.{
  socket_index, handle_add, add_forward, add_drop, handle_buffer, dispatch, handle_text,
  closed_slot, serve, serve_slots,
}
use cmput.Draft.Switch.Loop.{
  keyboard, command, read_command, clear_buffer, Poll, poll_failed, polled, poll_step, opens_of,
  round, rounds,
}

-- What is left of the traffic file and what came of it, while the delay lasts.
pub record Waits (ms : ℤ) (traffic : Option (List Bytes)) (admitted asked : ℕ) (s : Switch)
    : Type 0 where
  pub delayed : s.delay ≡ ms
  pub unread : s.traffic ≡ traffic
  pub no_more_admitted : s.counts.admit ≡ admitted
  pub no_more_asked : s.counts.ask ≡ asked

module _ (ms : ℤ) (traffic : Option (List Bytes)) (admitted asked : ℕ) where
  abbrev W : Switch → Type 0
  W = Waits ms traffic admitted asked

  -- A state with the same delay, file and counters.
  same_waits :
      {s t : Switch}
      → t.delay ≡ s.delay
      → t.traffic ≡ s.traffic
      → t.counts.admit ≡ s.counts.admit
      → t.counts.ask ≡ s.counts.ask
      → W s
      → W t
  same_waits d f a k w = record {
    delayed = d ∙ w.delayed;
    unread = f ∙ w.unread;
    no_more_admitted = a ∙ w.no_more_admitted;
    no_more_asked = k ∙ w.no_more_asked;
  }

  module _ (opens : Bytes → ℤ) where
    ensure_fifo-Waits : (id port : ℤ) (s : Switch) → W s → W (ensure_fifo opens id port s)
    unfolding ensure_fifo
    ensure_fifo-Waits id port s w = elim (Option-cases (find port s.fdid)) [
      | inl e ↦ rw (e, ensure_fifo) (same_waits refl refl refl refl w)
      | inr (fd, e) ↦ rw (e, ensure_fifo) w
    ]

    relay_to-Waits :
        (id port src_ip dest_ip : ℤ) (s : Switch)
        → W s
        → Ensures W (relay_to opens id port src_ip dest_ip s)
    unfolding relay_to
    relay_to-Waits id port src_ip dest_ip s w =
        bind-Ensures (any-Ensures (header_text (read_pkt (relay_string src_ip dest_ip)).1))
          λ header _. runs (
            same_waits {s = ensure_fifo opens id port s} refl refl refl refl
              (ensure_fifo-Waits id port s w))

    handle_add-Waits : (msg : List ℤ) (s : Switch) → W s → Ensures W (handle_add opens msg s)
    unfolding handle_add add_forward add_drop
    handle_add-Waits msg s w = bind-Ensures (or_undefined-Ensures (get_elem? msg 0)) λ action _.
        if-Ensures (action ==ℤ pos 0)
          (bind-Ensures (or_undefined-Ensures (get_elem? msg 1)) λ low _.
            bind-Ensures (or_undefined-Ensures (get_elem? msg 2)) λ high _.
              bind-Ensures (or_undefined-Ensures (get_elem? msg 3))
                λ val _. runs (same_waits {s = s} refl refl refl refl w))
          (if-Ensures (action ==ℤ pos 1)
            (bind-Ensures (or_undefined-Ensures (get_elem? msg 1)) λ low _.
              bind-Ensures (or_undefined-Ensures (get_elem? msg 2)) λ high _.
                bind-Ensures (or_undefined-Ensures (get_elem? msg 3)) λ port _.
                  bind-Ensures (or_undefined-Ensures (get_elem? msg 4)) λ src _.
                    bind-Ensures
                      (relay_to-Waits s.id port src low (record s { add_received = true })
                        (same_waits {s = s} refl refl refl refl w))
                      λ t v. runs (same_waits {s = t} refl refl refl refl v))
            faults)

    dispatch-Waits :
        (type : Bytes) (msg : List ℤ) (s : Switch) → W s → Ensures W (dispatch opens type msg s)
    unfolding dispatch
    dispatch-Waits type msg s w =
        if-Ensures (same type (codes "HELLO_ACK")) (runs (same_waits {s = s} refl refl refl refl w))
          (if-Ensures (same type (codes "ADD")) (handle_add-Waits msg s w) (
            if-Ensures (same type (codes "RELAY")) (runs (same_waits {s = s} refl refl refl refl w))
              (runs w)))

    handle_buffer-Waits :
        (i : ℕ) (buffer : Bytes) (s : Switch) → W s → Ensures W (handle_buffer opens i buffer s)
    unfolding handle_buffer handle_text
    handle_buffer-Waits i buffer s w =
        bind-Ensures (or_undefined-Ensures (terminated buffer)) λ text _.
          dispatch-Waits (read_pkt text).0 (read_pkt text).1 _
            (same_waits {s = s} refl refl refl refl w)

    serve-Waits :
        (i : ℕ) (reading : Reading) (s : Switch) → W s → Ensures W (serve opens i reading s)
    unfolding serve closed_slot
    serve-Waits i end_of_file s w =
        if-Ensures (i == socket_index) exits (runs (same_waits {s = s} refl refl refl refl w))
    serve-Waits i failed s w = handle_buffer-Waits i s.buffer s w
    serve-Waits i (bytes b) s w = handle_buffer-Waits i (filled (bytes b) s.buffer) s w

    slot-Waits :
        (o : Option Reading) (i : ℕ) (s : Switch)
        → W s
        → Ensures W (elim o [ none ↦ running s | some reading ↦ serve opens i reading s ])
    slot-Waits none i s w = runs w
    slot-Waits (some reading) i s w = serve-Waits i reading s w

    serve_slots-Waits :
        (n i : ℕ) (ready : ℕ → Option Reading) (s : Switch)
        → W s
        → Ensures W (serve_slots opens n i ready s)
    unfolding serve_slots
    serve_slots-Waits zero i ready s w = runs w
    serve_slots-Waits (suc n) i ready s w =
        bind-Ensures (slot-Waits (ready i) i s w) λ t v. serve_slots-Waits n (i + 1) ready t v

  read_command-Waits : (buffer : Bytes) (s : Switch) → W s → Ensures W (read_command buffer s)
  unfolding read_command command
  read_command-Waits buffer s w = bind-Ensures (any-Ensures (command_in buffer)) λ cmd _.
      if-Ensures (same cmd (codes "info")) (runs (same_waits {s = s} refl refl refl refl w)) (
        if-Ensures (same cmd (codes "exit")) exits
          (runs (same_waits {s = s} refl refl refl refl w)))

  keyboard-Waits : (stdin : Option Reading) (s : Switch) → W s → Ensures W (keyboard stdin s)
  unfolding keyboard
  keyboard-Waits none s w = runs w
  keyboard-Waits (some end_of_file) s w = exits
  keyboard-Waits (some failed) s w = read_command-Waits s.buffer s w
  keyboard-Waits (some (bytes b)) s w = read_command-Waits (filled (bytes b) s.buffer) s w

  poll_step-Waits : (p : Poll) (s : Switch) → W s → Ensures W (poll_step p s)
  unfolding poll_step clear_buffer
  poll_step-Waits (poll_failed opens errno) s w = exits
  poll_step-Waits (polled opens stdin ready) s w = bind-Ensures (keyboard-Waits stdin s w) λ t v.
      bind-Ensures
        (serve_slots-Waits opens socket_index 1 ready (clear_buffer t)
          (same_waits {s = t} refl refl refl refl v))
        λ u x. runs (same_waits {s = u} refl refl refl refl x)

  -- With a delay the file is not looked at.
  traffic_step-delayed :
      (opens : Bytes → ℤ) (s : Switch)
      → ms ≢ pos 0
      → s.delay ≡ ms
      → traffic_step opens s ≡ running (false, s)
  unfolding traffic_step
  traffic_step-delayed opens s nonzero e = ground (arith, ==ℤ_iff s.delay (pos 0))

  round-Waits : (p : Poll) (s : Switch) → ms ≢ pos 0 → W s → Ensures W (round p s)
  unfolding round
  round-Waits p s nonzero w =
      rw (traffic_step-delayed (opens_of p) s nonzero w.delayed) (poll_step-Waits p s w)

  rounds-Waits : (ps : List Poll) (s : Switch) → ms ≢ pos 0 → W s → Ensures W (rounds ps s)
  unfolding rounds
  rounds-Waits [] s nonzero w = runs w
  rounds-Waits (p ∷ ps) s nonzero w =
      bind-Ensures (round-Waits p s nonzero w) λ t v. rounds-Waits ps t nonzero v

-- The round that reads a delay.
read_delay-Waits :
    (ms id : ℤ) (text : Bytes) (rest : List Bytes) (p : Poll) (s : Switch)
    → s.hello_ack_received ≡ true
    → s.add_received ≡ true
    → s.delay ≡ pos 0
    → s.traffic ≡ some (text ∷ rest)
    → parse_line text ≡ running (delay_line id ms)
    → Ensures (Waits ms (some rest) s.counts.admit s.counts.ask) (round p s)
unfolding round traffic_step next_line handle_line
read_delay-Waits ms id text rest p s ack added none_yet file line =
    rw (ack, added, none_yet, file, next_line, line, ==ℤ_refl id)
      (poll_step-Waits ms (some rest) s.counts.admit s.counts.ask p _
        (record { delayed = refl; unread = refl; no_more_admitted = refl; no_more_asked = refl }))

-- A delay never ends. Let a switch that waits for nothing have a line of its traffic file next that holds a
-- delay, for whatever switch, of another length than 0. However many rounds follow, and whatever they bring: as long as the
-- switch runs, the delay is as it was, all lines behind that one are unread, and no packet of the file is admitted or asked about any more.
pub rounds-delayed :
    (ms id : ℤ) (text : Bytes) (rest : List Bytes) (p : Poll) (ps : List Poll) (s t : Switch)
    → ms ≢ pos 0
    → s.hello_ack_received ≡ true
    → s.add_received ≡ true
    → s.delay ≡ pos 0
    → s.traffic ≡ some (text ∷ rest)
    → parse_line text ≡ running (delay_line id ms)
    → rounds (p ∷ ps) s ≡ running t
    → (t.delay ≡ ms)
      × (t.traffic ≡ some rest)
      × (t.counts.admit ≡ s.counts.admit)
      × (t.counts.ask ≡ s.counts.ask)
unfolding rounds
rounds-delayed ms id text rest p ps s t nonzero ack added none_yet file line run =
    let w = Ensures-running run (
      bind-Ensures (read_delay-Waits ms id text rest p s ack added none_yet file line)
        λ u v. rounds-Waits ms (some rest) s.counts.admit s.counts.ask ps u nonzero v) in
    (w.delayed, w.unread, w.no_more_admitted, w.no_more_asked)
