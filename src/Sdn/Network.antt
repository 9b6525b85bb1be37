-- ===== src/Sdn/Network.antt =====
-- test2/: a query of a switch, the answer of the controller and the rule that the switch installs.
use cmput.Common.{
  ℕ, ◌≤◌, ◌≡◌, refl, ◌∙◌, ap, inl, inr, true, List, [], ◌∷◌, ◌++◌, Option, none, some,
  if◌then◌else◌, ℤ, pos, ◌==ℤ◌, IsInt, ◌≤ℤ◌, length, arith, All, Option-cases,
}
use cmput.Text.{Bytes, codes, same}
use cmput.Sdn.Packet.{make_fifo_name}
use cmput.Sdn.Packet.RoundTrip.{Packet, add, relay, numbers, packet_string, parse-packet_string}
use cmput.Sdn.Packet.Log.{print_packet_message}
use cmput.Sdn.Packet.Log.Defined.{print_packet_message-eq-none, numbers_needed}
use cmput.Process.{printed, running, find, at, touch, contains}
use cmput.Process.Ensures.{
  Ensures, runs, bind-Ensures, if-Ensures, Ensures-running, Runs, bind-Runs, if-Runs,
}
use cmput.Sdn.Controller.State.{SwitchInfo}
use cmput.Sdn.Controller.{relay_port_of}
use cmput.Sdn.Controller.Query.{FirstHolder, here, later, Answer, forward, drop_it}
use cmput.Sdn.Switch.State.{
  ActionType, FlowRule, Switch, Sys, descriptor, emit, log_packet, send, send_relay_packet,
  open_port, ensure_fifo, relay_to, added_rule, add_rule,
}
use cmput.Sdn.Switch.Table.{matches, find_rule, find_rule-append}
use cmput.Sdn.Switch.Traffic.Admit.{
  Reads, log_packet-Ensures, ensure_fifo-Ensures, relay_to-Ensures,
}
use cmput.Sdn.Switch.{relay_waiting, add_forward, add_drop, handle_add, dispatch, handle_text}

-- System calls that do not fail.
pub record Works (sys : Sys) : Type 0 where
  pub writes : (fd : ℤ) (text : Bytes) → sys.errno_after_write fd text ≡ 0
  pub fifos : (name : Bytes) → (fd : ℤ) × (sys.open_fifo name ≡ descriptor fd)

log_packet-Runs :
    (direction : Bytes) (src dest : ℤ) (type : Bytes) (msg : List ℤ) (s : Switch)
    → numbers_needed type ≤ length msg
    → Runs (log_packet direction src dest type msg s)
unfolding log_packet
log_packet-Runs direction src dest type msg s enough =
    elim (Option-cases (print_packet_message direction src dest type msg)) [
      | inl missing ↦
          absurd
            (omega (arith, (print_packet_message-eq-none direction src dest type msg).0 missing))
      | inr (line, e) ↦ (emit (printed line) s, rw e)
    ]

module _ (sys : Sys) (works : Works sys) where
  relay_to-Runs :
      (port src dest : ℤ) (s : Switch)
      → IsInt src
      → IsInt dest
      → Runs (relay_to sys port src dest s)
  unfolding relay_to send_relay_packet send same
  relay_to-Runs port src dest s hs hd =
      rw (works.writes _ _, parse-packet_string (relay src dest) (hs, (hd, tt)))
        (log_packet-Runs _ _ _ (codes "RELAY") (src ∷ dest ∷ []) _ (omega arith))

  ensure_fifo-Runs : (port : ℤ) (s : Switch) → Runs (ensure_fifo sys port s)
  unfolding ensure_fifo open_port
  ensure_fifo-Runs port s = elim (Option-cases (find port s.port_to_fd)) [
    | inl e ↦
        rw (e, ensure_fifo, (works.fifos (make_fifo_name s.id (at port s.port_to_id))).1) (_, refl)
    | inr (fd, e) ↦ rw (e, ensure_fifo) (s, refl)
  ]

  add_forward-Runs :
      (i : ℕ) (action low high port src : ℤ) (s : Switch)
      → IsInt low
      → IsInt src
      → Runs (add_forward sys i (action ∷ low ∷ high ∷ port ∷ src ∷ []) s)
  unfolding add_forward relay_waiting
  add_forward-Runs i action low high port src s hl hs =
      bind-Runs (ensure_fifo sys port s) _ (ensure_fifo-Runs port s) λ t.
        bind-Runs (if contains (pos i) t.closed then running t else relay_to sys port src low t) _
          (if-Runs (contains (pos i) t.closed) _ _ (t, refl) (relay_to-Runs port src low t hs hl))
          λ u. (_, refl)

  -- What a switch holds behind an ADD packet: the rules it had and the new one, and no wait.
  record Installed (before : List FlowRule) (rule : FlowRule) (s : Switch) : Type 0 where
    rules : s.flow_table ≡ before ++ rule ∷ []
    waits_no_more : s.add_received ≡ true

  abbrev Kept : List FlowRule → Switch → Type 0
  Kept table s = (s.flow_table ≡ table) × (s.add_received ≡ true)

  Kept-Reads : (table : List FlowRule) → Reads (Kept table)
  Kept-Reads table s t e a q d r k = (e ∙ k.0, r ∙ k.1)

  add_forward-Ensures :
      (i : ℕ) (action low high port src : ℤ) (s : Switch)
      → s.add_received ≡ true
      → Ensures
          (Installed s.flow_table (added_rule ActionType.forward low high port))
          (add_forward sys i (action ∷ low ∷ high ∷ port ∷ src ∷ []) s)
  unfolding add_forward relay_waiting
  add_forward-Ensures i action low high port src s h =
      bind-Ensures (ensure_fifo-Ensures (Kept-Reads s.flow_table) sys port s (refl, h)) λ t k.
        bind-Ensures {P = Kept s.flow_table}
          (if-Ensures (contains (pos i) t.closed) (runs k)
            (relay_to-Ensures (Kept-Reads s.flow_table) sys port src low t k))
          λ u k'. runs (record {
            rules = ap (λ table. table ++ added_rule ActionType.forward low high port ∷ []) (k'.0);
            waits_no_more = k'.1;
          })

  -- The text of an ADD packet from the controller, up to the rule.
  handle_text_add :
      (action low high port src : ℤ) (s : Switch)
      → All IsInt (action ∷ low ∷ high ∷ port ∷ src ∷ [])
      → (t : Switch) × (t.flow_table ≡ s.flow_table)
        × (handle_text sys 4 (packet_string (add action low high port src)) s
            ≡ handle_add sys 4 (action ∷ low ∷ high ∷ port ∷ src ∷ []) t)
  unfolding handle_text dispatch same
  handle_text_add action low high port src s ints =
      let msg = action ∷ low ∷ high ∷ port ∷ src ∷ [] in
      let touched = record s { port_to_id = touch (pos 4) s.port_to_id } in
      let (t, e) =
        log_packet-Runs (codes "Received") (at (pos 4) s.port_to_id) s.id (codes "ADD") msg touched
          (omega arith) in
      (
        t,
        Ensures-running {P = λ u. u.flow_table ≡ s.flow_table} e
            (log_packet-Ensures (λ a b p _ _ _ _ q. p ∙ q) _ _ _ _ _ touched refl),
        rw (parse-packet_string (add action low high port src) ints, e),
      )

-- The rule that an ADD packet stands for.
abbrev pub rule_of : Packet → Option FlowRule
rule_of (add action low high port src) =
    some (
      added_rule (if action ==ℤ pos 0 then ActionType.drop_it else ActionType.forward) low high
        port)
rule_of _ = none

module _ (sys : Sys) (works : Works sys) where
  -- The state behind an ADD packet whose rule holds the destination.
  abbrev Settles : Packet → ℤ → Switch → Type 0
  Settles p dest s =
      (t : Switch) × (handle_text sys 4 (packet_string p) s ≡ running t)
      × (t.add_received ≡ true)
      × (find_rule dest t.flow_table ≡ rule_of p)

  find_installed :
      (dest : ℤ) (s t : Switch) (rule : FlowRule)
      → find_rule dest s.flow_table ≡ none
      → matches dest rule ≡ true
      → t.flow_table ≡ s.flow_table ++ rule ∷ []
      → find_rule dest t.flow_table ≡ some rule
  find_installed dest s t rule unknown hit e =
      rw (e, find_rule-append dest s.flow_table rule, unknown, hit)

  settle_forward :
      (low high port src dest : ℤ) (s : Switch)
      → All IsInt (pos 1 ∷ low ∷ high ∷ port ∷ src ∷ [])
      → low ≤ℤ dest
      → dest ≤ℤ high
      → find_rule dest s.flow_table ≡ none
      → Settles (add (pos 1) low high port src) dest s
  unfolding handle_add
  settle_forward low high port src dest s ints hl hh unknown =
      let (t, same_table, e) = handle_text_add sys works (pos 1) low high port src s ints in
      let heard = record t { add_received = true } in
      let (u, f) =
        add_forward-Runs sys works 4 (pos 1) low high port src heard (ints.1).0
          ((((ints.1).1).1).1).0 in
      let done =
        Ensures-running f (add_forward-Ensures sys works 4 (pos 1) low high port src heard refl) in
      (
        u,
        e ∙ f,
        done.waits_no_more,
        find_installed dest s u (added_rule ActionType.forward low high port) unknown (ground arith)
            (done.rules
              ∙ ap (λ table. table ++ added_rule ActionType.forward low high port ∷ []) same_table),
      )

  settle_drop :
      (src dest : ℤ) (s : Switch)
      → All IsInt (pos 0 ∷ dest ∷ dest ∷ pos 0 ∷ src ∷ [])
      → find_rule dest s.flow_table ≡ none
      → Settles (add (pos 0) dest dest (pos 0) src) dest s
  unfolding handle_add add_drop
  settle_drop src dest s ints unknown =
      let (t, same_table, e) = handle_text_add sys works (pos 0) dest dest (pos 0) src s ints in
      let rule = added_rule ActionType.drop_it dest dest (pos 0) in
      let u = add_rule ActionType.drop_it dest dest (pos 0) (record t { add_received = true }) in
      (
        u,
        e,
        refl,
        find_installed dest s u rule unknown (ground arith)
            (ap (λ table. table ++ rule ∷ []) same_table),
      )

  -- When no rule of a switch holds a destination and no system call fails: the packet with which the
  -- controller answers a query for that destination makes the switch go on with its traffic, and the
  -- rule that the switch then finds for the destination is the one that the packet stands for. So a
  -- packet to the same destination does not cause a second query.
  pub Answer-Settles :
      (table : List SwitchInfo) (i : ℕ) (src dest : ℤ) (p : Packet) (s : Switch)
      → Answer table i src dest p
      → All IsInt (numbers p)
      → find_rule dest s.flow_table ≡ none
      → (t : Switch) × (handle_text sys 4 (packet_string p) s ≡ running t)
        × (t.add_received ≡ true)
        × (find_rule dest t.flow_table ≡ rule_of p)
  Answer-Settles table i src dest p s (forward holder first) ints unknown =
      let held = holds first in
      settle_forward holder.ip_low holder.ip_high (relay_port_of holder i) src dest s ints held.0
        held.1 unknown
    where
      holds :
          {table : List SwitchInfo} {info : SwitchInfo}
          → FirstHolder dest table info
          → (info.ip_low ≤ℤ dest) × (dest ≤ℤ info.ip_high)
      holds (here low high) = (low, high)
      holds (later out rest) = holds rest
  Answer-Settles table i src dest p s (drop_it outside) ints unknown =
      settle_drop src dest s ints unknown
