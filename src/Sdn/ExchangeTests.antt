-- ===== src/Sdn/ExchangeTests.antt =====
-- test2/: a packet of switch 2 to an address of switch 1, through the controller and back, and one in
-- transit through switch 2.
use cmput.Common.{◌≡◌, refl, true, Bool, [], ◌∷◌, ◌++◌, ℤ, pos, negsuc, arith}
use cmput.Text.{Bytes}
use cmput.Text.Buffer.{zeroes}
use cmput.Process.{running, bytes, at, contains}
use cmput.Process.Sent.{sent}
use cmput.Sdn.Packet.{query_string}
use cmput.Sdn.Packet.RoundTrip.{Packet, packet_string}
use cmput.Sdn.Controller as Cont
use cmput.Sdn.Controller.Loop as CLoop
use cmput.Sdn.Controller.State.{SwitchInfo, Controller}
use cmput.Sdn.Controller.Query.{Answer}
use cmput.Sdn.Switch as Swi
use cmput.Sdn.Switch.State.{Switch}
use cmput.Sdn.Switch.Table.{find_rule}
use cmput.Sdn.Switch.Traffic.{admit}
use cmput.Sdn.Network.{rule_of}
use cmput.Sdn.Exchange.{admit-Settles}
use cmput.Sdn.SwitchTests.{working, working-Works, fresh}

abbrev switch_one : SwitchInfo
switch_one = record {
  id = pos 1;
  port1_id = negsuc 0;
  port2_id = pos 2;
  ip_low = pos 100;
  ip_high = pos 110;
}

abbrev switch_two : Switch
switch_two = record fresh { buffer = zeroes 1024 }

abbrev all_written : ℤ → Bytes → Bool
all_written fd text = true

abbrev controller : Controller
controller = record (CLoop.initial 2 (pos 3) (λ slot. negsuc 0) (zeroes 1024)) {
  table = switch_one ∷ [];
  id_to_fd = (pos 2, pos 7) ∷ [];
}

admit-Settles_example :
    (u : Switch) × (d : Controller) × (t : Switch) × (p : Packet) × (admit working
        (pos 200)
        (pos 105)
        switch_two
      ≡ running u)
    × (sent u.out
        ≡ sent switch_two.out
          ++ (at (pos 0) switch_two.port_to_fd, query_string (pos 200) (pos 105)) ∷ [])
    × (Cont.serve all_written 2 (bytes (query_string (pos 200) (pos 105))) controller ≡ running d)
    × (sent d.out ≡ sent controller.out ++ (at (pos 2) controller.id_to_fd, packet_string p) ∷ [])
    × Answer controller.table 2 (pos 200) (pos 105) p
    × (Swi.serve working 4 (bytes (packet_string p)) u ≡ running t)
    × (t.add_received ≡ true)
    × (find_rule (pos 105) t.flow_table ≡ rule_of p)
unfolding find_rule contains
admit-Settles_example =
    admit-Settles working working-Works all_written (pos 200) (pos 105) 2 switch_two controller
      (omega arith) (omega arith) refl refl refl refl (omega arith) (λ fd text. refl)
