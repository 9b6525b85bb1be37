-- ===== src/Sdn/ControllerTests.antt =====
-- test2/: runs on concrete inputs, and the theorems of the other modules at such inputs.
use Prim.Native.String.{String}
use cmput.Common.{
  ℕ, ◌<◌, ◌≡◌, refl, Bool, true, List, [], ◌∷◌, ◌++◌, Option, none, some, ◌==◌, if◌then◌else◌, ℤ,
  pos, negsuc, length, arith, ◌↔◌,
}
use cmput.Text.{Bytes, codes, same, c_string, overwrite, find_char}
use cmput.Text.Number.{to_string, read_int}
use cmput.Sdn.Packet
use cmput.Sdn.Packet.{parse_packet_message, parse_packet_string, trim, make_fifo_name}
use cmput.Sdn.Packet.Parse.{round_of, parse_packet_message_loop}
use cmput.Sdn.Packet.RoundTrip.{add, query, packet_string, parse-packet_string}
use cmput.Sdn.Packet.Log.{print_packet_message}
use cmput.Sdn.Packet.Log.Defined.{numbers_needed, print_packet_message-eq-none}
use cmput.Process.{Outcome, running, undefined, ◌>>=◌, Reading, bytes, at, contains, find}
use cmput.Sdn.Controller.State.{SwitchInfo, Controller}
use cmput.Text.Buffer.{zeroes}
use cmput.Sdn.Controller
use cmput.Sdn.Controller.State
use cmput.Sdn.Controller.Loop
use cmput.Sdn.Controller.Loop.{connected, accept_switch}
use cmput.Sdn.Controller.{handle_query, serve, handle_text}
use cmput.Sdn.Controller.Counts.{rounds-Inv}
use cmput.Sdn.Controller.Phases.{Inv}
use cmput.Sdn.Controller.Query.{here, forward, Answered, handle_query-Answer}
use cmput.Sdn.Controller.Buffer.{serve-stale}
use cmput.Sdn.Controller.Accept.{accept_all, accept_all-overflow}

abbrev state_of {ℓ} : {A : Type ℓ} → Outcome A → A → A
state_of (running a) start = a
state_of _ start = start

-- Every `write` succeeds.
abbrev all_written : ℤ → Bytes → Bool
all_written fd text = true

abbrev garbage : ℕ → ℤ
garbage slot = negsuc 0

abbrev sound_setup : Loop.Setup
sound_setup = record { fd = pos 3; options_set = true; bound = true; listening = true }

abbrev quiet : ℕ → Option Reading
quiet slot = none

abbrev from_slot : ℕ → String → ℕ → Option Reading
from_slot slot text j = if j == slot then some (bytes (codes text)) else none

-- A connection comes in, the switch sends OPEN, then QUERY.
abbrev polls : List (Option Loop.Poll)
polls =
    some (record {
      stdin = none;
      ready = quiet;
      incoming = some (connected (pos 4) 0);
      writes = all_written;
    })
    ∷ some (record {
      stdin = none;
      ready = from_slot 1 "OPEN:1,-1,2,100,110";
      incoming = none;
      writes = all_written;
    })
    ∷ some (record {
      stdin = none;
      ready = from_slot 1 "QUERY:100,105";
      incoming = none;
      writes = all_written;
    })
    ∷ []

first_start : Outcome Controller
unfolding Loop.set_up Loop.rounds Controller.handle_text Controller.switch_info same
    parse_packet_string find_char read_int print_packet_message State.log_packet
    State.send_ack_packet State.send_add_packet find to_string Packet.add_string
first_start = Loop.set_up 2 sound_setup garbage [] >>= Loop.rounds polls

one_switch : Controller
unfolding first_start
one_switch = state_of first_start (Loop.initial 2 (pos 3) garbage [])

one_switch_counts : one_switch.counts ≡ record { opens = 1; query = 1; add = 1; ack = 1 }
unfolding one_switch
one_switch_counts = refl

rounds-Inv_example : Inv one_switch
unfolding one_switch
rounds-Inv_example = rounds-Inv 2 sound_setup garbage [] polls one_switch refl

abbrev switch_one : SwitchInfo
switch_one = record {
  id = pos 1;
  port1_id = negsuc 0;
  port2_id = pos 2;
  ip_low = pos 100;
  ip_high = pos 110;
}

-- The controller knows switch 1 alone; it asks for an address of switch 1 in slot 2.
abbrev knows_one : Controller
knows_one = record {
  num_switches = 2;
  table = switch_one ∷ [];
  id_to_fd = (pos 1, pos 4) ∷ (pos 2, pos 5) ∷ [];
  counts = record { opens = 1; query = 0; add = 0; ack = 1 };
  pfds = garbage;
  socket_idx = 3;
  closed = [];
  buffer = [];
  out = [];
}

handle_query-Answer_example :
    (d : Controller) × (handle_query all_written 2 (pos 200 ∷ pos 105 ∷ []) knows_one ≡ running d)
    × Answered knows_one d
        (at (pos 2) knows_one.id_to_fd)
        (packet_string (add (pos 1) (pos 100) (pos 110) (pos 1) (pos 200)))
unfolding contains
handle_query-Answer_example =
    handle_query-Answer all_written 2 (pos 200) (pos 105) knows_one
      (add (pos 1) (pos 100) (pos 110) (pos 1) (pos 200)) (omega arith) (omega arith) refl
      (forward switch_one (here (omega arith) (omega arith))) (omega arith) refl

-- A QUERY read over an OPEN of the same round keeps the end of the OPEN.
stale_query : Bytes
unfolding c_string overwrite
stale_query = c_string (overwrite (codes "QUERY:200,300") (codes "OPEN:1,-1,2,100,110" ++ 0 ∷ []))

stale_query_lem : stale_query ≡ codes "QUERY:200,30000,110"
unfolding stale_query
stale_query_lem = refl

abbrev stale : Controller
stale = record knows_one { buffer = codes "OPEN:1,-1,2,100,110" ++ zeroes 5 }

serve-stale_example :
    serve all_written 2 (bytes (codes "QUERY:200,300")) stale
    ≡ handle_text all_written 2 (codes "QUERY:200,300" ++ codes "00,110") (record stale {
      buffer = overwrite (codes "QUERY:200,300") (codes "OPEN:1,-1,2,100,110" ++ zeroes 5);
    })
serve-stale_example =
    serve-stale all_written 2 (codes "QUERY:200,300") (codes "OPEN:1,-1,2,100,110") 5 stale refl
      (omega arith) (omega arith) (omega arith) (omega arith)

accept_all-overflow_example :
    (d : Controller) × (accept_all (pos 6 ∷ []) (record knows_one { socket_idx = 2 }) ≡ running d)
    × (accept_switch (some (connected (pos 7) 0)) d ≡ undefined)
accept_all-overflow_example =
    accept_all-overflow (pos 6 ∷ []) (record knows_one { socket_idx = 2 }) (pos 7) (omega arith)

parse-packet_string_example :
    parse_packet_string (packet_string (query (pos 100) (pos 300)))
    ≡ (codes "QUERY", pos 100 ∷ pos 300 ∷ [])
parse-packet_string_example = parse-packet_string (query (pos 100) (pos 300)) (omega arith)

parse_packet_message_loop_example :
    parse_packet_message (codes "7,-2") ≡ round_of parse_packet_message (read_int (codes "7,-2"))
parse_packet_message_loop_example = parse_packet_message_loop (codes "7,-2")

parsed_message : parse_packet_message (codes "7, -2,x") ≡ pos 7 ∷ negsuc 1 ∷ []
unfolding parse_packet_message read_int
parsed_message = refl

print_packet_message-eq-none_example :
    (print_packet_message (codes "Received") (pos 1) (pos 0) (codes "OPEN") (pos 1 ∷ []) ≡ none)
    ↔ (length (pos 1 ∷ []) < numbers_needed (codes "OPEN"))
print_packet_message-eq-none_example =
    print_packet_message-eq-none (codes "Received") (pos 1) (pos 0) (codes "OPEN") (pos 1 ∷ [])

printed_query :
    print_packet_message (codes "Received") (pos 2) (pos 0) (codes "QUERY") (pos 200 ∷ pos 300 ∷ [])
    ≡ some (codes "Received (src= sw2, dest= cont) [QUERY]:  header= (srcIP= 200, destIP= 300)\n")
unfolding print_packet_message same to_string
printed_query = refl

trimmed : trim (codes "  list \n") ≡ codes "list"
unfolding trim
trimmed = refl

fifo_name : make_fifo_name (pos 1) (pos 2) ≡ codes "fifo-1-2"
unfolding make_fifo_name to_string
fifo_name = refl
