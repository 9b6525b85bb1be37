-- ===== src/Sdn/Args/Launched.antt =====
-- test2/a3sdn.cpp: the arguments with which a switch is started.
use cmput.Common.{
  ℕ, ◌≤◌, ◌<◌, ◌≡◌, refl, ◌∙◌, ap, Bool, true, List, [], ◌∷◌, ◌++◌, Option, none, some, ℤ, pos,
  negsuc, arith,
}
use mathlib.Core.Path.{subst}
use cmput.Text.{Bytes, codes, same, pieces, Lacks}
use cmput.Text.Number.{to_string, to_int, to_string_head, digits-Lacks}
use cmput.Text.Pieces.{pieces-append, pieces-whole}
use cmput.Process.{Event, printed, running}
use cmput.Sdn.SwitchId.{parse_switch_id}
use cmput.Sdn.SwitchId.Accepts.{strtol-to_string, parse_switch_id-to_string}
use cmput.Sdn.Address.{Resolved, get_address_info}
use cmput.Sdn.Args.{
  switch_loop, checked_ip, read_bounds, read_bound, check_order, parse_ip_range, port_number,
  contains_sw, launch_switch, launch, require_file,
}

-- The other end of a port: a switch, or none.
abbrev pub port_name : Option ℕ → Bytes
port_name none = codes "null"
port_name (some n) = codes "sw" ++ to_string (pos n)

abbrev pub port_value : Option ℕ → ℤ
port_value none = negsuc 0
port_value (some n) = pos n

abbrev pub IsPort : Option ℕ → Type 0
IsPort none = Unit {0}
IsPort (some n) = (1 ≤ n) × (n ≤ 7)

abbrev pub range_text : ℕ → ℕ → Bytes
range_text low high = to_string (pos low) ++ b'-' ∷ to_string (pos high)

parse_switch_id-port_name :
    (p : Option ℕ) → IsPort p → parse_switch_id (port_name p) ≡ running (port_value p)
parse_switch_id-port_name none h = unfold parse_switch_id same in refl
parse_switch_id-port_name (some n) h =
    rw (parse_switch_id-to_string n (omega (arith, h))) (ground arith)

checked_ip-to_string : (n : ℕ) → n ≤ 1000 → checked_ip (to_string (pos n)) ≡ running (pos n)
unfolding checked_ip to_int
checked_ip-to_string n h = rw (strtol-to_string n (omega arith)) (ground arith)

pieces-range_text :
    (low high : ℕ)
    → pieces b'-' (range_text low high) ≡ to_string (pos low) ∷ to_string (pos high) ∷ []
pieces-range_text low high =
    let (c, s, e) = to_string_head (pos high) in
    let last : pieces b'-' (to_string (pos high)) ≡ to_string (pos high) ∷ [] =
      rw e (pieces-whole b'-' c s (subst (Lacks b'-') e (digits-Lacks b'-' high (ground arith)))) in
    pieces-append b'-' (to_string (pos low)) (to_string (pos high))
      (digits-Lacks b'-' low (ground arith))
    ∙ ap (λ ws. to_string (pos low) ∷ ws) last

parse_ip_range-range_text :
    (low high : ℕ)
    → low ≤ high
    → high ≤ 1000
    → parse_ip_range (range_text low high) ≡ running (pos low, pos high)
unfolding parse_ip_range read_bounds read_bound check_order
parse_ip_range-range_text low high h k =
    let (c, s, e) = to_string_head (pos low) in
    let (d, t, f) = to_string_head (pos high) in
    let lower =
      subst (λ text. checked_ip text ≡ running (pos low)) e
        (checked_ip-to_string low (omega arith)) in
    let upper =
      subst (λ text. checked_ip text ≡ running (pos high)) f (checked_ip-to_string high k) in
    rw (pieces-range_text low high, e, f, lower, upper) (ground arith)

port_number-to_string : (n : ℕ) → n < 65536 → port_number (to_string (pos n)) ≡ n
unfolding port_number to_int
port_number-to_string n h = rw (strtol-to_string n (omega arith)) (ground arith)

module _ (opens : Bytes → Bool) (getaddrinfo : Bytes → Resolved) where
  launch_switch-running :
      (i : ℕ) (file : Bytes) (left right : Option ℕ) (low high : ℕ) (server : Bytes) (port : ℕ)
      (address : Bytes) (out : List Event)
      → IsPort (some i)
      → IsPort left
      → IsPort right
      → low ≤ high
      → high ≤ 1000
      → port < 65536
      → opens file ≡ true
      → get_address_info getaddrinfo server ≡ running (address, out)
      → launch_switch opens getaddrinfo (port_name (some i)) (
          file
          ∷ port_name left
          ∷ port_name right
          ∷ range_text low high
          ∷ server
          ∷ to_string (pos port)
          ∷ [])
        ≡ running (
          switch_loop (pos i) (port_value left) (port_value right) (pos low, pos high) address port,
          out ++ printed (codes "Found IP: " ++ (address ++ codes "\n")) ∷ [],
        )
  unfolding launch_switch require_file
  launch_switch-running i file left right low high server port address out hi hl hr h k p readable
        found =
      rw (
        parse_switch_id-port_name (some i) hi,
        readable,
        parse_switch_id-port_name left hl,
        parse_switch_id-port_name right hr,
        parse_ip_range-range_text low high h k,
        found,
        port_number-to_string port p,
      )

  -- A switch with a number from 1 to 7, its two neighbours (`null`, or `sw` and a number from 1 to 7), a
  -- range within 0 to 1000 with its lower bound first, and a port below 2^16, given as decimal numbers,
  -- is started with exactly these numbers and with the address that was found for the server, when
  -- the traffic file can be opened; before that, the address is printed behind the lines of its search.
  pub launch-switch_loop :
      (i : ℕ) (file : Bytes) (left right : Option ℕ) (low high : ℕ) (server : Bytes) (port : ℕ)
      (address : Bytes) (out : List Event)
      → IsPort (some i)
      → IsPort left
      → IsPort right
      → low ≤ high
      → high ≤ 1000
      → port < 65536
      → opens file ≡ true
      → get_address_info getaddrinfo server ≡ running (address, out)
      → launch opens getaddrinfo (
          port_name (some i)
          ∷ file
          ∷ port_name left
          ∷ port_name right
          ∷ range_text low high
          ∷ server
          ∷ to_string (pos port)
          ∷ [])
        ≡ running (
          switch_loop (pos i) (port_value left) (port_value right) (pos low, pos high) address port,
          out ++ printed (codes "Found IP: " ++ (address ++ codes "\n")) ∷ [],
        )
  unfolding launch contains_sw same
  launch-switch_loop i file left right low high server port address out hi hl hr h k p readable
        found =
      launch_switch-running i file left right low high server port address out hi hl hr h k p
        readable found
