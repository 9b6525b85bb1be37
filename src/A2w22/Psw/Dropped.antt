-- ===== src/A2w22/Psw/Dropped.antt =====
-- Assignment_2/w22/switch.cpp: what a switch does with the packets to a destination that the controller
-- does not know.
use cmput.Common.{
  ℕ, suc, ◌-◌, ◌≤◌, ◌≡◌, refl, ◌∙◌, ap, Bool, true, false, List, [], ◌∷◌, ◌++◌, none, some, ℤ, pos,
  ==ℤ_refl, IsInt, length, get_elem?, arith, Option-cases, inl, inr,
}
use cmput.Text.{Bytes}
use cmput.Text.Number.{to_string, stoi-to_string}
use cmput.Process.{running, ◌>>=◌}
use cmput.A2w22.{relay_in, admit, Session, name_fifo, send_packet}
use cmput.A2w22.Psw.{
  Ft, Psw, emit, count_received, count_transmitted, bump, in_ips, drop_rule, add_drop_rule,
  handle_add, find_matching_rule, find_matching_session, init_session, relay_text,
}
use cmput.A2w22.Psw.Traffic.{TrafficRule, forward_packet, admit_packet}

-- The rule at the end is found where no rule before it holds the destination.
pub find_matching_rule-append :
    (dest : ℤ) (table : List Ft) (rule : Ft)
    → find_matching_rule dest table ≡ none
    → in_ips dest rule.dest_range ≡ true
    → find_matching_rule dest (table ++ rule ∷ []) ≡ some (length table)
unfolding find_matching_rule
find_matching_rule-append dest [] rule h hit = ground arith
find_matching_rule-append dest (e ∷ table) rule h hit =
    elim (Option-cases (find_matching_rule dest table)) [
      | inl q ↦ ground (arith, q, find_matching_rule-append dest table rule q hit)
      | inr (j, q) ↦ ground (arith, q)
    ]

get_elem?-last {ℓ} :
    {A : Type ℓ} (xs : List A) (x : A) → get_elem? (xs ++ x ∷ []) (length xs) ≡ some x
get_elem?-last [] x = refl
get_elem?-last (y ∷ xs) x = get_elem?-last xs x

in_ips_self : (ip : ℤ) → in_ips ip (drop_rule ip).dest_range ≡ true
in_ips_self ip = ground arith

module _ (writes : ℤ → Bytes → Bool) where
  pub controller_session :
      (opens : Bytes → ℤ) (s : Psw) (left right : ℤ)
      → s.sessions ≡ init_session opens s.switch_id left right
      → (c : Session) × (more : List Session) × (s.sessions ≡ c ∷ more)
        × (c.port ≡ pos 0)
        × (c.out_fd ≡ opens (name_fifo s.switch_id (pos 0)))
  unfolding init_session
  controller_session opens s left right e = (_, _, e, refl, refl)

  -- A rule of the table with port 0, beyond the first one.
  forward_packet-zero :
      (dest : ℤ) (i : ℕ) (rule : Ft) (c : Session) (more : List Session) (s : Psw)
      → get_elem? s.table (suc i) ≡ some rule
      → rule.action_value ≡ pos 0
      → s.sessions ≡ c ∷ more
      → c.port ≡ pos 0
      → forward_packet writes dest (some (suc i)) s
        ≡ running (
            emit
              (send_packet writes c.out_fd relay_in (relay_text s.switch_id))
              (count_transmitted relay_in (bump (suc i) s)))
  unfolding forward_packet find_matching_session
  forward_packet-zero dest i rule c more s e v k p = rw (e, v, k, p)

  -- The packet behind the new rule goes on to the search of the table.
  pub admit_beyond :
      (rule : TrafficRule) (s : Psw)
      → rule.switch_id ≡ s.switch_id
      → in_ips rule.dest_ip s.ip_range ≡ false
      → admit_packet writes rule s
        ≡ forward_packet writes rule.dest_ip
            (find_matching_rule rule.dest_ip s.table)
            (count_received admit s)
  unfolding admit_packet
  admit_beyond rule s own outside = rw (own, ==ℤ_refl s.switch_id, outside)

  handle_add-drop :
      (ip : ℤ) (s : Psw)
      → IsInt ip
      → handle_add writes (to_string ip ∷ []) s ≡ running (add_drop_rule ip s)
  unfolding handle_add
  handle_add-drop ip s int = rw (stoi-to_string ip int)

  -- Let the controller answer that it knows no switch for a destination that no rule of the switch
  -- holds (`ADD` with the destination alone), and let the next packet of the traffic for this switch go
  -- to the same destination. The switch, with the sessions that it makes at its start and a table that is not
  -- empty, does not drop that packet: it writes a RELAY to the FIFO of the controller.
  pub dropped-relays :
      (opens : Bytes → ℤ) (left right : ℤ) (rule : TrafficRule) (s : Psw)
      → s.sessions ≡ init_session opens s.switch_id left right
      → rule.switch_id ≡ s.switch_id
      → 1 ≤ length s.table
      → IsInt rule.dest_ip
      → find_matching_rule rule.dest_ip s.table ≡ none
      → in_ips rule.dest_ip s.ip_range ≡ false
      → (t : Psw) × ((handle_add writes (to_string rule.dest_ip ∷ []) s
            >>= admit_packet writes rule)
          ≡ running t)
        × (t.out
            ≡ s.out
              ++ send_packet writes
                  (opens (name_fifo s.switch_id (pos 0)))
                  relay_in
                  (relay_text s.switch_id))
  unfolding add_drop_rule
  dropped-relays opens left right rule s sessions own some_rule int unknown outside =
      let (c, more, same, port, fd) = controller_session opens s left right sessions in
      let i : ℕ = length s.table - 1 in
      let last : length s.table ≡ suc i = omega arith in
      let added = add_drop_rule rule.dest_ip s in
      let found =
        find_matching_rule-append rule.dest_ip s.table (drop_rule rule.dest_ip) unknown
          (in_ips_self rule.dest_ip)
        ∙ ap some last in
      let entry : get_elem? added.table (suc i) ≡ some (drop_rule rule.dest_ip) =
        rw (← last) (get_elem?-last s.table (drop_rule rule.dest_ip)) in
      (
        _,
        ap (λ m. m >>= admit_packet writes rule) (handle_add-drop rule.dest_ip s int)
            ∙ (admit_beyond rule added own outside
                ∙ (ap (λ o. forward_packet writes rule.dest_ip o (count_received admit added)) found
                    ∙ forward_packet-zero rule.dest_ip i (drop_rule rule.dest_ip) c more
                        (count_received admit added) entry refl same port)),
        ap (λ d. s.out ++ send_packet writes d relay_in (relay_text s.switch_id)) fd,
      )
