-- ===== src/Sdn/SwitchTests.antt =====
-- test2/switch.cpp, test2/a3sdn.cpp: runs on concrete inputs, and the theorems of the other modules at
-- such inputs.
use Prim.Native.String.{String}
use cmput.Common.{
  ℕ, ◌≡◌, refl, true, List, [], ◌∷◌, Option, none, some, ◌==◌, if◌then◌else◌, ℤ, pos, negsuc, ◌≤ℤ◌,
}
use cmput.Text.{codes, same, find_char, pieces}
use cmput.Text.Number.{to_string, read_int, strtol, to_int}
use cmput.Sdn.Packet
use cmput.Sdn.Packet.{parse_packet_string}
use cmput.Sdn.Packet.Log.{print_packet_message}
use cmput.Process.{Outcome, running, ◌>>=◌, Reading, bytes, find}
use cmput.Sdn.SwitchId.{parse_switch_id}
use cmput.Sdn.Switch.State
use cmput.Sdn.Switch.State.{Switch, Sys, descriptor}
use cmput.Sdn.Switch.Traffic.Admit.{Inv}
use cmput.Sdn.Switch.Loop
use cmput.Sdn.Switch.Counts.{switch_rounds-Inv}
use cmput.Sdn.Network.{Works}
use cmput.Sdn.Args.{parse_ip_range}
use cmput.Sdn.Args.IpRange.{IsAddress, parse_ip_range-IsRange}

abbrev state_of {ℓ} : {A : Type ℓ} → Outcome A → A → A
state_of (running a) start = a
state_of _ start = start

abbrev pub working : Sys
working = record { errno_after_write = λ fd text. 0; open_fifo = λ name. descriptor (pos 9) }

pub working-Works : Works working
working-Works = record { writes = λ fd text. refl; fifos = λ name. (pos 9, refl) }

-- Switch 2 between switches 1 and 3.
abbrev config : Loop.Config
config = record {
  id = pos 2;
  port1_id = pos 1;
  port2_id = pos 3;
  ip_low = pos 200;
  ip_high = pos 210;
  lines = codes "# traffic" ∷ codes "sw2 200 205" ∷ codes "sw2 200 105" ∷ [];
}

abbrev sound_setup : Loop.Setup
sound_setup = record {
  fd = pos 3;
  address_valid = true;
  connected = true;
  non_blocking = true;
  errno = 0;
  make_fifo = λ name. 0;
  open_reading = λ name. descriptor (pos 5);
  sys = working;
}

abbrev garbage : ℕ → ℤ
garbage slot = negsuc 0

abbrev from_slot : ℕ → String → ℕ → Option Reading
from_slot slot text j = if j == slot then some (bytes (codes text)) else none

abbrev quiet : ℕ → Option Reading
quiet slot = none

-- The controller acknowledges; three lines are read; the controller answers the query.
abbrev polls : List Loop.Poll
polls =
    Loop.polled 1 working none (from_slot 4 "ACK:")
    ∷ Loop.polled 2 working none quiet
    ∷ Loop.polled 3 working none quiet
    ∷ Loop.polled 4 working none (from_slot 4 "ADD:1,100,110,1,200")
    ∷ []

third_start : Outcome Switch
unfolding Loop.set_up Loop.rounds same parse_packet_string find_char read_int print_packet_message
    find to_string strtol to_int Packet.open_string State.ensure_fifo State.relay_to
third_start = Loop.set_up config sound_setup garbage [] >>= Loop.rounds polls

between : Switch
unfolding third_start
between = state_of third_start (Loop.initial config (pos 3) garbage [])

between_counts :
    between.counts
    ≡ record { admit = 2; ack = 1; add = 1; relay_in = 0; opens = 1; query = 1; relay_out = 1 }
unfolding between State.send_open_packet parse_switch_id State.send_query_packet Packet.query_string
    Packet.relay_string
between_counts = refl

switch_rounds-Inv_example : Inv between
unfolding between State.send_open_packet parse_switch_id State.send_query_packet Packet.query_string
    Packet.relay_string
switch_rounds-Inv_example = switch_rounds-Inv config sound_setup garbage [] polls between refl

abbrev pub fresh : Switch
fresh = Loop.initial config (pos 3) garbage []

a_range : parse_ip_range (codes "100-110") ≡ running (pos 100, pos 110)
unfolding parse_ip_range pieces strtol to_int
a_range = refl

parse_ip_range-IsRange_example : IsAddress (pos 100) × IsAddress (pos 110) × (pos 100 ≤ℤ pos 110)
parse_ip_range-IsRange_example =
    parse_ip_range-IsRange (codes "100-110") (pos 100) (pos 110) a_range
