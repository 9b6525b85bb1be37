-- ===== src/A2w22/Psw/Traffic.antt =====
-- Assignment_2/w22/switch.cpp: the lines of the traffic file, and what the switch does with a packet.
use cmput.Common.{
  ℕ, suc, ◌+◌, Bool, true, false, List, [], ◌∷◌, ◌++◌, Option, none, some, ltb, if◌then◌else◌, ℤ,
  negsuc, ◌==ℤ◌, get_elem?, length, drop,
}
use cmput.Text.{Bytes, is_space, flush, words, pieces, find_char}
use cmput.Process.{Outcome, running, undefined, ◌>>=◌, or_undefined}
use cmput.A2w22.{relay_in, admit, ask, hello, number, send_packet}
use cmput.A2w22.Psw.{
  Psw, emit, count_received, count_transmitted, bump, bump_at, in_ips, find_matching_rule,
  find_matching_session, relay_text, ask_text,
}

pub record TrafficRule : Type 0 where
  pub switch_id : ℤ
  pub src_ip : ℤ
  pub dest_ip : ℤ

-- `none` is a file that cannot be opened.
unfoldable pub cache_traffic_file : Option Bytes → List Bytes
cache_traffic_file none = []
cache_traffic_file (some text) = pieces b'\n' text

-- The pieces between the matches of the regular expression `\s+`; white space in front leaves an empty
-- piece, white space at the end does not.
split_from : Bytes → Bytes → List Bytes
split_from cur [] = flush cur []
split_from cur (c ∷ s) =
    let longer = split_from (cur ++ c ∷ []) s in if is_space c then cur ∷ words s else longer

unfoldable pub split_spaces : Bytes → List Bytes
unfolding split_from words
split_spaces = split_from []

-- The three numbers of a line; `substr(3)` of a shorter text throws.
unfoldable pub rule_of : List Bytes → Outcome TrafficRule
rule_of (name ∷ src ∷ dest ∷ rest) = if ltb (length name) 3 then undefined else do
  switch_id ← number (drop 3 name)
  src_ip ← number src
  dest_ip ← number dest
  running (record { switch_id = switch_id; src_ip = src_ip; dest_ip = dest_ip })
rule_of _ = undefined

abbrev pub is_comment : Bytes → Bool
is_comment line = elim (find_char b'#' line) [ none ↦ false | some i ↦ true ]

-- `none` is the rule of a comment or an empty line: its switch is -1 and its addresses are not set.
unfoldable pub parse_traffic_rule : Bytes → Outcome (Option TrafficRule)
unfolding find_char split_spaces rule_of
parse_traffic_rule [] = running none
parse_traffic_rule (c ∷ line) =
    if is_comment (c ∷ line)
    then running none
    else do rule ← rule_of (split_spaces (c ∷ line)); running (some rule)

module _ (writes : ℤ → Bytes → Bool) where
  -- A destination beyond the switch's own range, by the index of its rule.
  unfoldable pub forward_packet : ℤ → Option ℕ → Psw → Outcome Psw
  unfolding find_matching_session send_packet relay_text ask_text bump_at
  forward_packet dest_ip (some (suc i)) s = do
    rule ← or_undefined (get_elem? s.table (suc i))
    session_idx ← or_undefined (find_matching_session rule.action_value s.sessions)
    session ← or_undefined (get_elem? s.sessions session_idx)
    running (
        emit (send_packet writes session.out_fd relay_in (relay_text s.switch_id))
          (count_transmitted relay_in (bump (suc i) s)))
  forward_packet dest_ip _ s = do
    session ← or_undefined (get_elem? s.sessions 0)
    running (
        emit (send_packet writes session.out_fd hello (ask_text s.switch_id dest_ip))
          (count_transmitted ask s))

  unfoldable pub admit_packet : TrafficRule → Psw → Outcome Psw
  unfolding forward_packet find_matching_rule bump_at
  admit_packet rule s =
      if rule.switch_id ==ℤ s.switch_id
      then if in_ips rule.dest_ip s.ip_range
        then running (count_received admit (bump 0 s))
        else forward_packet rule.dest_ip (find_matching_rule rule.dest_ip s.table)
            (count_received admit s)
      else running s

  -- For switch -1 the addresses of a comment are read, which are not set.
  unfoldable pub handle_rule : Option TrafficRule → Psw → Outcome Psw
  unfolding admit_packet
  handle_rule none s = if s.switch_id ==ℤ negsuc 0 then undefined else running s
  handle_rule (some rule) s = admit_packet rule s

  -- `if (rule_cnt < traffic_file_cache.size())`
  unfoldable pub traffic_step : Psw → Outcome Psw
  unfolding parse_traffic_rule handle_rule
  traffic_step s = elim (get_elem? s.lines s.rule_cnt) [
    | none ↦ running s
    | some line ↦ do
      rule ← parse_traffic_rule line
      t ← handle_rule rule s
      running (record t { rule_cnt = t.rule_cnt + 1 })
  ]
