-- ===== src/A2w22/Route.antt =====
-- Assignment_2/w22: the controller's answer about a destination, and the rule that the switch makes of it.
use cmput.Common.{
  ℕ, zero, suc, ◌+◌, ◌≡◌, refl, ◌∙◌, ap, Bool, true, inl, inr, List, [], ◌∷◌, ◌++◌, Option, none,
  some, append-nil, if◌then◌else◌, ℤ, pos, ◌==ℤ◌, IsInt, length, get_elem?, All, arith,
  Option-cases,
}
use cmput.Text.{Bytes, codes, same, pieces}
use cmput.Text.Number.{to_string, stoi-to_string}
use cmput.Process.{Event, running}
use cmput.A2w22.{Switch, Session, add, relay_in, send_packet}
use cmput.A2w22.Messages.{pieces-answer_text, pieces-answer_text-none}
use cmput.A2w22.Controller.{answer_text}
use cmput.A2w22.Directory.{
  Answer, acknowledged, route, unknown, Located, nowhere, here, later, Holds, message_of,
}
use cmput.A2w22.Psw.{
  Ft, Psw, emit, count_received, count_transmitted, bump, bump_at, in_ips, forward_rule, drop_rule,
  add_rule, add_forward_rule, add_drop_rule, added_line, dispatch, find_matching_rule,
  find_matching_session, relay_from, relay_text, add_route, handle_add, switch_receive,
}
use cmput.A2w22.Psw.Dropped.{find_matching_rule-append}

session_there :
    (port : ℤ) (sessions : List Session) (i : ℕ)
    → find_matching_session port sessions ≡ some i
    → (s : Session) × (get_elem? sessions i ≡ some s)
unfolding find_matching_session
session_there port [] i h = cc
session_there port (s ∷ sessions) zero h = (s, refl)
session_there port (s ∷ sessions) (suc i) h =
    let found : find_matching_session port sessions ≡ some i =
      elim (Option-cases (find_matching_session port sessions)) [
        | inl e ↦ ground (arith, e)
        | inr (j, e) ↦ ground (arith, e)
      ] in
    session_there port sessions i found

bump_at-last :
    (table : List Ft) (rule : Ft)
    → bump_at (length table) (table ++ rule ∷ [])
      ≡ table ++ record rule { pkt_count = rule.pkt_count + 1 } ∷ []
unfolding bump_at
bump_at-last [] rule = refl
bump_at-last (e ∷ table) rule = ap (λ t. e ∷ t) (bump_at-last table rule)

-- The rule for an answer: FORWARD to port 2 if the left neighbour of the switch found is the one that
-- asked, and else to port 1; or DROP.
abbrev pub rule_for : ℤ → Answer → Option Ft
rule_for me acknowledged = none
rule_for me (unknown dest) = some (drop_rule dest)
rule_for me (route sw) =
    let port : ℤ = if sw.port1 ==ℤ me then pos 2 else pos 1 in
    let rule = forward_rule port sw.ipranges in some (record rule { pkt_count = 1 })

-- The numbers of an answer.
abbrev pub answer_numbers : Answer → List ℤ
answer_numbers acknowledged = []
answer_numbers (unknown dest) = dest ∷ []
answer_numbers (route sw) = sw.port1 ∷ sw.ipranges.low ∷ sw.ipranges.high ∷ []

module _ (writes : ℤ → Bytes → Bool) where
  relay_from-found :
      (port : ℤ) (s : Psw)
      → (es : List Event) × (relay_from writes (find_matching_session port s.sessions) s
          ≡ running (emit es s))
  unfolding relay_from
  relay_from-found port s = elim (Option-cases (find_matching_session port s.sessions)) [
    | inl e ↦ ([], rw (e, relay_from, append-nil))
    | inr (zero, e) ↦ ([], rw (e, relay_from, append-nil))
    | inr (suc i, e) ↦
        let (c, f) = session_there port s.sessions (suc i) e in
        (send_packet writes c.out_fd relay_in (relay_text s.switch_id), rw (e, relay_from, f))
  ]

  -- The state behind an ADD with a route; `es` is what relaying the packet did.
  abbrev routed : Switch → List Event → Psw → Psw
  routed sw es s =
      let port : ℤ = if sw.port1 ==ℤ s.switch_id then pos 2 else pos 1 in
      bump (length s.table)
        (count_transmitted relay_in (emit es (add_rule (forward_rule port sw.ipranges) s)))

  add_route-routed :
      (sw : Switch) (s : Psw)
      → All IsInt (answer_numbers (route sw))
      → (es : List Event) × (add_route writes
            (to_string sw.port1)
            (to_string sw.ipranges.low)
            (to_string sw.ipranges.high)
            s
          ≡ running (routed sw es s))
  unfolding add_route add_forward_rule
  add_route-routed sw s (hp, (hl, (hh, u))) =
      let port : ℤ = if sw.port1 ==ℤ s.switch_id then pos 2 else pos 1 in
      let (es, e) = relay_from-found port (add_rule (forward_rule port sw.ipranges) s) in
      (
        es,
        rw (
          stoi-to_string sw.port1 hp,
          stoi-to_string sw.ipranges.low hl,
          stoi-to_string sw.ipranges.high hh,
          e,
        ),
      )

  -- The state before the answer is looked at: it is counted and printed.
  abbrev heard : Psw → Bytes → Psw
  heard s id = emit (added_line id (codes "ADD") ∷ []) (count_received add s)

  -- What the switch is like behind the answer `a` about `dest`.
  abbrev Learns : ℤ → Answer → Psw → Type 0
  Learns dest a s =
      (t : Psw) × (rule : Ft) × (switch_receive writes (pieces b' ' (message_of s.switch_id a)) s
        ≡ running t)
      × (rule_for s.switch_id a ≡ some rule)
      × (t.table ≡ s.table ++ rule ∷ [])
      × (find_matching_rule dest t.table ≡ some (length s.table))

  found_last :
      (dest : ℤ) (rule : Ft) (table t : List Ft)
      → find_matching_rule dest table ≡ none
      → in_ips dest rule.dest_range ≡ true
      → t ≡ table ++ rule ∷ []
      → find_matching_rule dest t ≡ some (length table)
  found_last dest rule table t unseen hit e =
      rw e (find_matching_rule-append dest table rule unseen hit)

  Learns-route :
      (dest : ℤ) (sw : Switch) (s : Psw)
      → Holds sw dest
      → All IsInt (answer_numbers (route sw))
      → find_matching_rule dest s.table ≡ none
      → Learns dest (route sw) s
  unfolding switch_receive dispatch handle_add same answer_text
  Learns-route dest sw s holds ints unseen =
      let id = to_string s.switch_id in
      let (es, e) = add_route-routed sw (heard s id) ints in
      let port : ℤ = if sw.port1 ==ℤ s.switch_id then pos 2 else pos 1 in
      let last = bump_at-last s.table (forward_rule port sw.ipranges) in
      (
        routed sw es (heard s id),
        _,
        ap (λ message. switch_receive writes message s)
              (pieces-answer_text s.switch_id (to_string dest) sw)
            ∙ e,
        refl,
        last,
        found_last dest _ s.table _ unseen (ground arith) last,
      )

  Learns-drop :
      (dest : ℤ) (s : Psw)
      → IsInt dest
      → find_matching_rule dest s.table ≡ none
      → Learns dest (unknown dest) s
  unfolding switch_receive dispatch handle_add add_drop_rule same answer_text
  Learns-drop dest s int unseen =
      let id = to_string s.switch_id in
      (
        add_drop_rule dest (heard s id),
        drop_rule dest,
        ap (λ message. switch_receive writes message s) (pieces-answer_text-none s.switch_id dest)
            ∙ rw (stoi-to_string dest int),
        refl,
        refl,
        found_last dest (drop_rule dest) s.table _ unseen (ground arith) refl,
      )

  -- Let no rule of a switch hold a destination, and let the answer of the controller about it arrive. The
  -- switch then has exactly one rule more, at the end, and finds that rule for the destination, so it does
  -- not ask again. If a switch with the destination was announced, the rule sends the whole range of the
  -- first of them to port 2 where the left neighbour of that switch is this one, and to port 1 for
  -- every other; it counts one packet. If none was, the rule drops the destination alone.
  pub Located-Learns :
      (dest : ℤ) (members : List Switch) (a : Answer) (s : Psw)
      → Located dest members a
      → All IsInt (answer_numbers a)
      → find_matching_rule dest s.table ≡ none
      → (t : Psw) × (rule : Ft) × (switch_receive writes (pieces b' ' (message_of s.switch_id a)) s
          ≡ running t)
        × (rule_for s.switch_id a ≡ some rule)
        × (t.table ≡ s.table ++ rule ∷ [])
        × (find_matching_rule dest t.table ≡ some (length s.table))
  Located-Learns dest members a s nowhere ints unseen = Learns-drop dest s ints.0 unseen
  Located-Learns dest members a s (here sw more holds) ints unseen =
      Learns-route dest sw s holds ints unseen
  Located-Learns dest members a s (later sw more missed rest) ints unseen =
      Located-Learns dest more a s rest ints unseen
