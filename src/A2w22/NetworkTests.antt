-- ===== src/A2w22/NetworkTests.antt =====
-- Assignment_2/w22: a packet of switch 1 to an address of switch 2, through the controller and back.
use cmput.Common.{ℕ, zero, suc, ◌≡◌, refl, [], ◌∷◌, ◌++◌, some, pos, negsuc, length, arith}
use cmput.Text.{Bytes}
use cmput.Process.{running, ◌>>=◌}
use cmput.A2w22.{hello, name_fifo, receive, send_packet}
use cmput.A2w22.Tests.{ok_writes, opens, fresh, second}
use cmput.A2w22.Controller.{Controller, controller_receive}
use cmput.A2w22.Controller.Loop.{initial}
use cmput.Process.Sent.{sent}
use cmput.A2w22.Directory.{Answer, Directory, Located, message_of, frame_of}
use cmput.A2w22.Directory.Serving.{Agrees, locates}
use cmput.A2w22.Psw.{Ft, Psw, init_forwarding_table, find_matching_rule, ask_text, switch_receive}
use cmput.A2w22.Psw.Traffic.{TrafficRule, admit_packet}
use cmput.A2w22.Route.{rule_for}
use cmput.A2w22.Network.{Room, framed, admit_packet-Learns}

abbrev filler : ℕ → Bytes
filler zero = []
filler (suc n) = b'x' ∷ filler n

abbrev room : Room
room = record { held = filler 1024; max_buf = refl }

abbrev packet : TrafficRule
packet = record { switch_id = pos 1; src_ip = pos 100; dest_ip = pos 205 }

abbrev controller : Controller
controller = record (initial opens 2) { switches = second ∷ [] }

abbrev directory : Directory
directory = record { members = second ∷ []; answers = [] }

controller-Agrees : Agrees opens 2 controller directory
controller-Agrees = record { same_members = refl; same_sessions = refl; same_answers = refl }

admit_packet-Learns_example :
    (u : Psw) × (c' : Controller) × (t : Psw) × (a : Answer) × (new : Ft) × (admit_packet ok_writes
        packet fresh
      ≡ running u)
    × (u.out
        ≡ fresh.out
          ++ send_packet ok_writes
              (opens (name_fifo (pos 1) (pos 0)))
              hello
              (ask_text (pos 1) (pos 205)))
    × ((receive (framed (ask_text (pos 1) (pos 205)) room) >>= λ message.
          controller_receive ok_writes message controller)
        ≡ running c')
    × (sent c'.out ≡ sent controller.out ++ frame_of opens (pos 1, a) ∷ [])
    × Located (pos 205) directory.members a
    × ((receive (framed (message_of (pos 1) a) room) >>= λ message.
          switch_receive ok_writes message u)
        ≡ running t)
    × (rule_for (pos 1) a ≡ some new)
    × (t.table ≡ fresh.table ++ new ∷ [])
    × (find_matching_rule (pos 205) t.table ≡ some (length fresh.table))
unfolding find_matching_rule init_forwarding_table
admit_packet-Learns_example =
    admit_packet-Learns opens 2 ok_writes ok_writes room room (negsuc 0) (pos 2) packet fresh
      controller directory refl (locates 0 (pos 205) (omega arith) (omega arith)) refl refl refl
      controller-Agrees (omega arith)
