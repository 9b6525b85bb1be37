-- ===== src/A2w22/Psw/Table.antt =====
-- Assignment_2/w22/switch.cpp: the sums over the forwarding table, and how each change of the table and
-- the counters keeps them in step.
use cmput.Common.{
  ℕ, zero, suc, ◌+◌, ◌≤◌, ◌<◌, ◌≡◌, refl, ap, List, [], ◌∷◌, ◌++◌, some, ℤ, length, length-append,
  arith, Option-cases, Bool-cases, inl, inr, ◌==◌,
}
use cmput.A2w22.{
  ActionType, forward, drop_it, PktType, ask, relay_in, admit, PacketCounts, value_of, value_at,
  count, Ips,
}
use cmput.A2w22.Psw.{Ft, Psw, bump_at, forward_rule, drop_rule, find_matching_rule}

unfoldable pub total : List Ft → ℕ
total [] = 0
total (e ∷ table) = e.pkt_count + total table

abbrev drop_count : ActionType → ℕ
drop_count forward = 0
drop_count drop_it = 1

-- The number of DROP rules.
unfoldable pub drops : List Ft → ℕ
drops [] = 0
drops (e ∷ table) = drop_count e.action_type + drops table

abbrev pub added : List Ft → List Ft
added [] = []
added (e ∷ table) = table

pub record InvOf (table : List Ft) (received transmitted : PacketCounts) : Type 0 where
  pub some_rule : 1 ≤ length table
  pub no_drop : drops table ≡ drops (added table)
  pub counted :
      total table + (value_at transmitted ask + 1)
      ≤ value_at received admit + (value_at received relay_in + length table)
  pub relays : value_at transmitted relay_in + drops table ≡ total (added table)

abbrev pub Inv : Psw → Type 0
Inv s = InvOf s.table s.stats.received s.stats.transmitted

length-bump_at : (i : ℕ) (table : List Ft) → length (bump_at i table) ≡ length table
unfolding bump_at
length-bump_at i [] = refl
length-bump_at zero (e ∷ table) = refl
length-bump_at (suc i) (e ∷ table) = ap suc (length-bump_at i table)

drops-bump_at : (i : ℕ) (table : List Ft) → drops (bump_at i table) ≡ drops table
unfolding bump_at drops
drops-bump_at i [] = refl
drops-bump_at zero (e ∷ table) = refl
drops-bump_at (suc i) (e ∷ table) = omega (arith, drops-bump_at i table)

total-bump_at :
    (i : ℕ) (table : List Ft) → i < length table → total (bump_at i table) ≡ total table + 1
unfolding bump_at total
total-bump_at i [] h = absurd (omega arith)
total-bump_at zero (e ∷ table) h = omega arith
total-bump_at (suc i) (e ∷ table) h = omega (arith, total-bump_at i table (omega arith))

total-append : (t u : List Ft) → total (t ++ u) ≡ total t + total u
unfolding total
total-append [] u = omega arith
total-append (e ∷ t) u = omega (arith, total-append t u)

drops-append : (t u : List Ft) → drops (t ++ u) ≡ drops t + drops u
unfolding drops
drops-append [] u = omega arith
drops-append (e ∷ t) u = omega (arith, drops-append t u)

pub found_below :
    (dest : ℤ) (table : List Ft) (i : ℕ) → find_matching_rule dest table ≡ some i → i < length table
unfolding find_matching_rule
found_below dest [] i h = cc
found_below dest (e ∷ table) i h = elim (Option-cases (find_matching_rule dest table)) [
  | inl q ↦ ground (arith, q)
  | inr (j, q) ↦ ground (arith, q, found_below dest table j)
]

count_grows : (k j : PktType) (m : PacketCounts) → value_at m j ≤ value_at (count k m) j
unfolding count
count_grows k j m = elim (Bool-cases (value_of j == value_of k)) [
  | inl e ↦ rw (e, value_at) (omega arith)
  | inr e ↦ rw (e, value_at) (omega arith)
]

module _ (rx tx : PacketCounts) where
  -- No counter falls when a packet is received.
  pub received_one :
      (k : PktType) (table : List Ft) → InvOf table rx tx → InvOf table (count k rx) tx
  received_one k table v = record {
    some_rule = v.some_rule;
    no_drop = v.no_drop;
    counted = omega (arith, v.counted, count_grows k admit rx, count_grows k relay_in rx);
    relays = v.relays;
  }

  -- A packet for the switch itself, from its traffic or from another switch.
  pub own_admit :
      (table : List Ft) → InvOf table rx tx → InvOf (bump_at 0 table) (count admit rx) tx
  unfolding bump_at count total drops
  own_admit [] v = absurd (omega (arith, v.some_rule))
  own_admit (e ∷ table) v = record {
    some_rule = omega arith;
    no_drop = v.no_drop;
    counted = omega (arith, v.counted);
    relays = v.relays;
  }

  pub own_relay :
      (table : List Ft) → InvOf table rx tx → InvOf (bump_at 0 table) (count relay_in rx) tx
  unfolding bump_at count total drops
  own_relay [] v = absurd (omega (arith, v.some_rule))
  own_relay (e ∷ table) v = record {
    some_rule = omega arith;
    no_drop = v.no_drop;
    counted = omega (arith, v.counted);
    relays = v.relays;
  }

  -- A packet of the traffic that a rule of the controller relays.
  pub relayed :
      (i : ℕ) (table : List Ft)
      → suc i < length table
      → InvOf table rx tx
      → InvOf (bump_at (suc i) table) (count admit rx) (count relay_in tx)
  unfolding bump_at count total drops
  relayed i [] h v = absurd (omega arith)
  relayed i (e ∷ table) h v = record {
    some_rule = omega arith;
    no_drop = omega (arith, v.no_drop);
    counted = omega (arith, v.counted, total-bump_at i table (omega arith), length-bump_at i table);
    relays = omega (arith, v.relays, drops-bump_at i table, total-bump_at i table (omega arith));
  }

  pub asked : (table : List Ft) → InvOf table rx tx → InvOf table (count admit rx) (count ask tx)
  unfolding count
  asked table v = record {
    some_rule = v.some_rule;
    no_drop = v.no_drop;
    counted = omega (arith, v.counted);
    relays = v.relays;
  }

  pub dropped :
      (ip : ℤ) (table : List Ft) → InvOf table rx tx → InvOf (table ++ drop_rule ip ∷ []) rx tx
  unfolding total drops
  dropped ip [] v = absurd (omega (arith, v.some_rule))
  dropped ip (e ∷ table) v = record {
    some_rule = omega arith;
    no_drop = omega (arith, v.no_drop);
    counted = omega (
      arith,
      v.counted,
      total-append table (drop_rule ip ∷ []),
      length-append table (drop_rule ip ∷ []),
    );
    relays = omega (
      arith,
      v.relays,
      total-append table (drop_rule ip ∷ []),
      drops-append table (drop_rule ip ∷ []),
    );
  }

  -- A new FORWARD rule, which is bumped at once.
  pub forwarded :
      (port : ℤ) (dest : Ips) (table : List Ft)
      → InvOf table rx tx
      → InvOf (bump_at (length table) (table ++ forward_rule port dest ∷ [])) rx (count relay_in tx)
  unfolding count total drops bump_at
  forwarded port dest [] v = absurd (omega (arith, v.some_rule))
  forwarded port dest (e ∷ table) v =
      let rule = forward_rule port dest ∷ [] in
      let h : length table < length (table ++ rule) = omega (arith, length-append table rule) in
      record {
        some_rule = omega arith;
        no_drop = omega (
          arith,
          v.no_drop,
          drops-bump_at (length table) (table ++ rule),
          drops-append table rule,
        );
        counted = omega (
          arith,
          v.counted,
          total-bump_at (length table) (table ++ rule) h,
          total-append table rule,
          length-bump_at (length table) (table ++ rule),
          length-append table rule,
        );
        relays = omega (
          arith,
          v.relays,
          total-bump_at (length table) (table ++ rule) h,
          total-append table rule,
          drops-bump_at (length table) (table ++ rule),
          drops-append table rule,
        );
      }
