-- ===== src/Sdn/Switch/Table.antt =====
-- test2/switch.cpp: the search of the flow table for a packet, and the counter of the rule found.
use cmput.Common.{
  ℕ, ◌+◌, ◌≡◌, refl, Bool, ◌&&◌, List, [], ◌∷◌, ◌++◌, map, Option, none, some, if◌then◌else◌, ℤ,
  leb_ℤ, arith,
}
use cmput.Sdn.Switch.State.{FlowRule}

abbrev pub matches : ℤ → FlowRule → Bool
matches dest_ip rule = leb_ℤ rule.dest_ip_low dest_ip && leb_ℤ dest_ip rule.dest_ip_high

-- The first rule for the destination.
unfoldable pub find_rule : ℤ → List FlowRule → Option FlowRule
find_rule dest_ip [] = none
find_rule dest_ip (rule ∷ table) =
    if matches dest_ip rule then some rule else find_rule dest_ip table

abbrev pub bump : FlowRule → FlowRule
bump rule = record rule { pkt_count = rule.pkt_count + 1 }

-- `rule.pktCount++` at the first rule for the destination.
unfoldable pub bump_rule : ℤ → List FlowRule → List FlowRule
bump_rule dest_ip [] = []
bump_rule dest_ip (rule ∷ table) =
    if matches dest_ip rule then bump rule ∷ table else rule ∷ bump_rule dest_ip table

unfoldable pub total : List FlowRule → ℕ
total [] = 0
total (rule ∷ table) = rule.pkt_count + total table

pub find_rule-append :
    (dest_ip : ℤ) (table : List FlowRule) (rule : FlowRule)
    → find_rule dest_ip (table ++ rule ∷ []) ≡ elim (find_rule dest_ip table) [
      | none ↦ if matches dest_ip rule then some rule else none
      | some found ↦ some found
    ]
unfolding find_rule
find_rule-append dest_ip [] rule = refl
find_rule-append dest_ip (r ∷ table) rule = ground (arith, find_rule-append dest_ip table rule)

-- What a rule does and to which packets, without its counter.
abbrev pub decision : FlowRule → FlowRule
decision rule = record rule { pkt_count = 0 }

pub decisions-bump_rule :
    (dest_ip : ℤ) (table : List FlowRule)
    → map decision (bump_rule dest_ip table) ≡ map decision table
unfolding bump_rule
decisions-bump_rule dest_ip [] = refl
decisions-bump_rule dest_ip (rule ∷ table) = ground (arith, decisions-bump_rule dest_ip table)

pub total-bump_rule :
    (dest_ip : ℤ) (table : List FlowRule) (rule : FlowRule)
    → find_rule dest_ip table ≡ some rule
    → total (bump_rule dest_ip table) ≡ total table + 1
unfolding bump_rule find_rule total
total-bump_rule dest_ip [] rule h = ground arith
total-bump_rule dest_ip (r ∷ table) rule h = ground (arith, total-bump_rule dest_ip table rule)

pub bump_rule-none :
    (dest_ip : ℤ) (table : List FlowRule)
    → find_rule dest_ip table ≡ none
    → bump_rule dest_ip table ≡ table
unfolding bump_rule find_rule
bump_rule-none dest_ip [] h = refl
bump_rule-none dest_ip (r ∷ table) h = ground (arith, bump_rule-none dest_ip table)
