-- ===== src/A2w22/Psw/Counts.antt =====
-- Assignment_2/w22/switch.cpp: the packet counters of a switch and those of its forwarding table.
use cmput.Common.{
  ℕ, zero, suc, ◌+◌, ◌≡◌, refl, Bool, List, [], ◌∷◌, ◌++◌, Option, none, some, if◌then◌else◌, ℤ,
  pos, negsuc, ◌==ℤ◌, length, get_elem?, arith, Option-cases, inl, inr,
}
use cmput.Text.{Bytes, codes, same}
use cmput.Text.Number.{stoi}
use cmput.Process.{running}
use cmput.Process.Ensures.{
  Ensures, runs, exits, faults, bind-Ensures, any-Ensures, or_undefined-Ensures, if-Ensures,
  Ensures-running,
}
use cmput.A2w22.{PktType, hello, hello_ack, ask, add, relay_in, admit, count, Ips, Arrival, receive}
use cmput.A2w22.Psw.{
  Psw, count_received, count_transmitted, bump, in_ips, forward_rule, find_matching_rule, add_rule,
  add_forward_rule, add_drop_rule, relay_from, add_route, handle_add, dispatch, type_of,
  switch_receive, find_matching_session, init_forwarding_table, init_switch_stats, init_session,
}
use cmput.A2w22.Psw.Traffic.{
  TrafficRule, forward_packet, admit_packet, handle_rule, parse_traffic_rule, traffic_step,
}
use cmput.A2w22.Psw.Loop.{
  start, send_open_to_controller, keyboard, switch_list_handler, Poll, serve, serve_fifos, round,
  rounds,
}
use cmput.A2w22.Psw.Table.{
  InvOf, Inv, total, drops, found_below, received_one, own_admit, own_relay, relayed, asked,
  dropped, forwarded,
}

module _ (writes : ℤ → Bytes → Bool) where
  relay_from-Ensures :
      (found : Option ℕ) (s : Psw)
      → Ensures (λ t. (t.table ≡ s.table) × (t.stats ≡ s.stats)) (relay_from writes found s)
  unfolding relay_from
  relay_from-Ensures none s = runs (refl, refl)
  relay_from-Ensures (some zero) s = runs (refl, refl)
  relay_from-Ensures (some (suc i)) s =
      bind-Ensures (or_undefined-Ensures (get_elem? s.sessions (suc i)))
        λ session e. runs (refl, refl)

  -- The end of `case ADD` with a route, behind the message that is relayed.
  routed :
      (port : ℤ) (dest : Ips) (s t : Psw)
      → Inv s
      → (t.table ≡ s.table ++ forward_rule port dest ∷ []) × (t.stats ≡ s.stats)
      → Inv (bump (length s.table) (count_transmitted relay_in t))
  routed port dest s t v e =
      rw (e.0, e.1) (forwarded s.stats.received s.stats.transmitted port dest s.table v)

  add_route-Ensures :
      (port1 low high : Bytes) (s : Psw) → Inv s → Ensures Inv (add_route writes port1 low high s)
  unfolding add_route add_forward_rule
  add_route-Ensures port1 low high s v = bind-Ensures (or_undefined-Ensures (stoi port1)) λ p _.
      bind-Ensures (or_undefined-Ensures (stoi low)) λ l _.
        bind-Ensures (or_undefined-Ensures (stoi high)) λ h _.
          let port : ℤ = if p ==ℤ s.switch_id then pos 2 else pos 1 in
          let dest : Ips = record { low = l; high = h } in
          bind-Ensures {f = λ t. running (bump (length s.table) (count_transmitted relay_in t))}
            (relay_from-Ensures (find_matching_session port s.sessions)
              (add_rule (forward_rule port dest) s))
            λ t e. runs (routed port dest s t v e)

  handle_add-Ensures :
      (rest : List Bytes) (s : Psw) → Inv s → Ensures Inv (handle_add writes rest s)
  unfolding handle_add add_drop_rule
  handle_add-Ensures [] s v = runs v
  handle_add-Ensures (ip ∷ []) s v =
      bind-Ensures (or_undefined-Ensures (stoi ip))
        λ z _. runs (dropped s.stats.received s.stats.transmitted z s.table v)
  handle_add-Ensures (a ∷ b ∷ []) s v = runs v
  handle_add-Ensures (a ∷ b ∷ c ∷ []) s v = runs v
  handle_add-Ensures (a ∷ b ∷ c ∷ d ∷ []) s v = add_route-Ensures a c d s v
  handle_add-Ensures (a ∷ b ∷ c ∷ d ∷ e ∷ rest) s v = runs v

  -- Other packets than RELAY and ADMIT change no counter of the invariant.
  dispatch-Ensures :
      (k : PktType) (id : Bytes) (rest : List Bytes) (s : Psw)
      → Inv s
      → Ensures Inv (dispatch writes k id rest (count_received k s))
  unfolding dispatch count
  dispatch-Ensures hello id rest s v =
      runs (received_one s.stats.received s.stats.transmitted hello s.table v)
  dispatch-Ensures hello_ack id rest s v =
      runs (received_one s.stats.received s.stats.transmitted hello_ack s.table v)
  dispatch-Ensures ask id rest s v =
      runs (received_one s.stats.received s.stats.transmitted ask s.table v)
  dispatch-Ensures add id rest s v =
      handle_add-Ensures rest _ (received_one s.stats.received s.stats.transmitted add s.table v)
  dispatch-Ensures relay_in id rest s v =
      runs (own_relay s.stats.received s.stats.transmitted s.table v)
  dispatch-Ensures admit id rest s v =
      runs (received_one s.stats.received s.stats.transmitted admit s.table v)

  switch_receive-Ensures :
      (message : List Bytes) (s : Psw) → Inv s → Ensures Inv (switch_receive writes message s)
  unfolding switch_receive
  switch_receive-Ensures [] s v = runs v
  switch_receive-Ensures (name ∷ []) s v = runs v
  switch_receive-Ensures (name ∷ id ∷ rest) s v = dispatch-Ensures (type_of name) id rest s v

  forward_packet-Ensures :
      (dest : ℤ) (found : Option ℕ) (s : Psw)
      → find_matching_rule dest s.table ≡ found
      → Inv s
      → Ensures Inv (forward_packet writes dest found (count_received admit s))
  unfolding forward_packet
  forward_packet-Ensures dest none s e v =
      bind-Ensures (or_undefined-Ensures (get_elem? s.sessions 0))
        λ session _. runs (asked s.stats.received s.stats.transmitted s.table v)
  forward_packet-Ensures dest (some zero) s e v =
      bind-Ensures (or_undefined-Ensures (get_elem? s.sessions 0))
        λ session _. runs (asked s.stats.received s.stats.transmitted s.table v)
  forward_packet-Ensures dest (some (suc i)) s e v =
      bind-Ensures (or_undefined-Ensures (get_elem? s.table (suc i))) λ rule _.
        bind-Ensures (or_undefined-Ensures (find_matching_session rule.action_value s.sessions))
          λ j _. bind-Ensures (or_undefined-Ensures (get_elem? s.sessions j)) λ session _. runs (
            relayed s.stats.received s.stats.transmitted i s.table
              (found_below dest s.table (suc i) e) v)

  handle_rule-Ensures :
      (rule : Option TrafficRule) (s : Psw) → Inv s → Ensures Inv (handle_rule writes rule s)
  unfolding handle_rule admit_packet
  handle_rule-Ensures none s v = if-Ensures (s.switch_id ==ℤ negsuc 0) faults (runs v)
  handle_rule-Ensures (some rule) s v =
      if-Ensures (rule.switch_id ==ℤ s.switch_id)
        (if-Ensures (in_ips rule.dest_ip s.ip_range)
          (runs (own_admit s.stats.received s.stats.transmitted s.table v))
          (forward_packet-Ensures rule.dest_ip (find_matching_rule rule.dest_ip s.table) s refl v))
        (runs v)

  traffic_step-Ensures : (s : Psw) → Inv s → Ensures Inv (traffic_step writes s)
  unfolding traffic_step
  traffic_step-Ensures s v = elim (Option-cases (get_elem? s.lines s.rule_cnt)) [
    | inl e ↦ rw (e, traffic_step) (runs v)
    | inr (line, e) ↦
        rw (e, traffic_step)
          (bind-Ensures (any-Ensures (parse_traffic_rule line))
            λ rule _. bind-Ensures (handle_rule-Ensures rule s v) λ t w. runs w)
  ]

  serve-Ensures : (a : Option Arrival) (s : Psw) → Inv s → Ensures Inv (serve writes a s)
  unfolding serve
  serve-Ensures none s v = runs v
  serve-Ensures (some a) s v =
      bind-Ensures (any-Ensures (receive a)) λ message _. switch_receive-Ensures message s v

  serve_fifos-Ensures :
      (n i : ℕ) (ready : ℕ → Option Arrival) (s : Psw)
      → Inv s
      → Ensures Inv (serve_fifos writes n i ready s)
  unfolding serve_fifos
  serve_fifos-Ensures zero i ready s v = runs v
  serve_fifos-Ensures (suc n) i ready s v =
      bind-Ensures (serve-Ensures (ready i) s v) λ t w. serve_fifos-Ensures n (i + 1) ready t w

keyboard-Ensures : (cmd : Option Bytes) (s : Psw) → Inv s → Ensures Inv (keyboard cmd s)
unfolding keyboard switch_list_handler
keyboard-Ensures none s v = runs v
keyboard-Ensures (some cmd) s v =
    if-Ensures (same cmd (codes "info")) (runs v)
      (if-Ensures (same cmd (codes "exit")) exits (runs v))

rounds-Ensures : (ps : List Poll) (s : Psw) → Inv s → Ensures Inv (rounds ps s)
unfolding rounds round
rounds-Ensures [] s v = runs v
rounds-Ensures (p ∷ ps) s v =
    bind-Ensures
      (bind-Ensures (traffic_step-Ensures p.writes s v) λ t w.
        bind-Ensures (keyboard-Ensures p.stdin t w)
          λ u x. serve_fifos-Ensures p.writes (length u.sessions) 0 p.ready u x)
      λ t w. rounds-Ensures ps t w

start_counts :
    (ip_range : Ips)
    → InvOf
        (init_forwarding_table ip_range)
        init_switch_stats.received
        (count hello init_switch_stats.transmitted)
unfolding init_forwarding_table total drops count
start_counts ip_range = omega arith

start-Ensures :
    (writes : ℤ → Bytes → Bool) (opens : Bytes → ℤ) (sid pswj pswk : ℤ) (file : Option Bytes)
    (ip_range : Ips)
    → Ensures Inv (start writes opens sid pswj pswk file ip_range)
unfolding start send_open_to_controller init_session init_forwarding_table
start-Ensures writes opens sid pswj pswk file ip_range = runs (start_counts ip_range)

-- In every run of a switch, for all traffic files, messages and results of the system calls:
-- its count of RELAY messages as transmitted, and the number of its DROP rules, make up the packets that
-- are counted at the rules it was sent; no rule of its own is DROP; and all packets counted in the table,
-- with the ASK messages counted as transmitted, are at most those counted as admitted or relayed to it and
-- one for each rule that it was sent. It speaks of these counters: the one of RELAY messages goes up also
-- where none is sent.
pub psw_rounds-Inv :
    (writes : ℤ → Bytes → Bool) (opens : Bytes → ℤ) (sid pswj pswk : ℤ) (file : Option Bytes)
    (ip_range : Ips) (ps : List Poll) (s t : Psw)
    → start writes opens sid pswj pswk file ip_range ≡ running s
    → rounds ps s ≡ running t
    → InvOf t.table t.stats.received t.stats.transmitted
psw_rounds-Inv writes opens sid pswj pswk file ip_range ps s t e f = Ensures-running f (
    rounds-Ensures ps s
      (Ensures-running e (start-Ensures writes opens sid pswj pswk file ip_range)))
