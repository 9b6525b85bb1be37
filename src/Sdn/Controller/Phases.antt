-- ===== src/Sdn/Controller/Phases.antt =====
-- test2/controller.cpp: what the counters and the table of switches satisfy, between rounds and within one.
use cmput.Common.{◌+◌, ◌≤◌, ◌<◌, ◌≡◌, List, [], ◌∷◌, ◌++◌, ℤ, length}
use cmput.Text.{Bytes}
use cmput.Sdn.Packet.Log.{print_packet_message}
use cmput.Process.{Event, printed}
use cmput.Process.Ensures.{Ensures, runs, exits, bind-Ensures, or_undefined-Ensures}
use cmput.Sdn.Controller.State.{Controller, cleanup, log_packet}

-- What the packet counters count, and where the next connection goes.
pub record Inv (c : Controller) : Type 0 where
  pub opens_registered : c.counts.opens ≡ length c.table
  pub opens_acked : c.counts.ack ≡ c.counts.opens
  pub adds_answer : c.counts.add ≤ c.counts.query
  pub next_slot : 1 ≤ c.socket_idx
  pub slots_left : c.socket_idx ≤ c.num_switches + 1

-- Between the count of an OPEN and that of its ACK.
pub record Registered (c : Controller) : Type 0 where
  pub opens_registered : c.counts.opens ≡ length c.table
  pub ack_due : c.counts.ack + 1 ≡ c.counts.opens
  pub adds_answer : c.counts.add ≤ c.counts.query
  pub next_slot : 1 ≤ c.socket_idx
  pub slots_left : c.socket_idx ≤ c.num_switches + 1

-- Between the count of a QUERY and that of its ADD.
pub record Asked (c : Controller) : Type 0 where
  pub opens_registered : c.counts.opens ≡ length c.table
  pub opens_acked : c.counts.ack ≡ c.counts.opens
  pub add_due : c.counts.add < c.counts.query
  pub next_slot : 1 ≤ c.socket_idx
  pub slots_left : c.socket_idx ≤ c.num_switches + 1

-- A predicate that does not speak of what was printed or written, nor of the map of descriptors.
abbrev pub Ignores : (Controller → Type 0) → Type 0
Ignores P = (c : Controller) (out : List Event) → P c → P (record c { out = out })

pub log_packet-Ensures :
    {P : Controller → Type 0} (ig : Ignores P) (direction : Bytes) (src dest : ℤ) (type : Bytes)
    (msg : List ℤ) (c : Controller)
    → P c
    → Ensures P (log_packet direction src dest type msg c)
unfolding log_packet
log_packet-Ensures ig direction src dest type msg c p =
    bind-Ensures (or_undefined-Ensures (print_packet_message direction src dest type msg))
      λ line _. runs (ig c (c.out ++ printed line ∷ []) p)

pub cleanup-Ensures : {P : Controller → Type 0} (c : Controller) → Ensures P (cleanup c)
unfolding cleanup
cleanup-Ensures c = exits
