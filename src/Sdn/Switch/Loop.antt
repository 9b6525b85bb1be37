-- ===== src/Sdn/Switch/Loop.antt =====
-- test2/switch.cpp: the set-up of a switch and one round of its event loop: the traffic file, the
-- keyboard, the slots.
use cmput.Common.{
  ℕ, ◌+◌, Bool, true, false, not, ◌&&◌, ◌||◌, List, [], ◌∷◌, ◌++◌, Option, none, some, ◌==◌,
  if◌then◌else◌, ℤ, pos, negsuc, ◌==ℤ◌,
}
use cmput.Text.{Bytes, codes, same, c_string, overwrite}
use cmput.Sdn.Packet.{trim, make_fifo_name}
use cmput.Process.{
  printed, Outcome, running, exited, ◌>>=◌, Reading, end_of_file, failed, bytes, insert,
}
use cmput.Text.Buffer.{zeroes}
use cmput.Sdn.Switch.State.{
  forward, FlowRule, SwitchPacketCounts, max_ip, min_pri, max_buffer, controller_slot, Switch, Sys,
  Opened, descriptor, refused, emit, send_open_packet,
}
use cmput.Sdn.Switch.{switch_list, serve_slots}
use cmput.Sdn.Switch.Traffic.{traffic_step}

abbrev pub unknown_command : Bytes
unknown_command = codes "Error: Unrecognized command. Please use \"list\" or \"exit\".\n"

unfoldable pub command : Bytes → Switch → Outcome Switch
unfolding switch_list
command cmd s =
    let listed = emit (printed (switch_list s.flow_table s.counts)) s in
    if same cmd (codes "list")
    then running listed
    else if same cmd (codes "exit")
    then exited 0 listed.out
    else running (emit (printed unknown_command) s)

-- Step 2: the keyboard, if it is ready.
unfoldable pub keyboard : Option Reading → Switch → Outcome Switch
unfolding command trim c_string overwrite
keyboard none s = running s
keyboard (some end_of_file) s = exited 1 (s.out ++ printed (codes "Error: stdin closed.\n") ∷ [])
keyboard (some failed) s = command (trim (c_string s.buffer)) s
keyboard (some (bytes b)) s =
    let buffer = overwrite b s.buffer in
    command (trim (c_string buffer)) (record s { buffer = buffer })

-- `memset(buffer, 0, sizeof(buffer))`
unfoldable pub clear_buffer : Switch → Switch
unfolding zeroes
clear_buffer s = record s { buffer = zeroes max_buffer }

-- What one round brings: the clock in milliseconds, the system calls, and the `errno` of `poll` or
-- what is ready.
pub data Poll : Type 0 where
  poll_failed : ℕ → Sys → ℕ → Poll
  polled : ℕ → Sys → Option Reading → (ℕ → Option Reading) → Poll

-- The body of `while (true)`.
unfoldable pub round : Poll → Switch → Outcome Switch
unfolding traffic_step keyboard clear_buffer serve_slots
round (poll_failed now sys errno) s = do
  admitted ← traffic_step sys now s
  exited errno admitted.out
round (polled now sys stdin ready) s = do
  admitted ← traffic_step sys now s
  commanded ← keyboard stdin admitted
  served ← serve_slots sys controller_slot 1 ready (clear_buffer commanded)
  running (clear_buffer served)

unfoldable pub rounds : List Poll → Switch → Outcome Switch
unfolding round
rounds [] s = running s
rounds (p ∷ ps) s = do t ← round p s; rounds ps t

-- The arguments of `switchLoop`: -1 stands for a port that is not connected.
pub record Config : Type 0 where
  pub id : ℤ
  pub port1_id : ℤ
  pub port2_id : ℤ
  pub ip_low : ℤ
  pub ip_high : ℤ
  pub lines : List Bytes

-- The calls of the set-up: `socket`, whether `inet_pton`, `connect` and `fcntl` succeed, and the
-- `errno` of a failure; `mkfifo` and `open` of the reading end of a FIFO.
pub record Setup : Type 0 where
  pub fd : ℤ
  pub address_valid : Bool
  pub connected : Bool
  pub non_blocking : Bool
  pub errno : ℕ
  pub make_fifo : Bytes → ℕ
  pub open_reading : Bytes → Opened
  pub sys : Sys

abbrev pub zero_counts : SwitchPacketCounts
zero_counts = record {
  admit = 0;
  ack = 0;
  add = 0;
  relay_in = 0;
  opens = 0;
  query = 0;
  relay_out = 0;
}

-- The rule for the switch's own range; port 3 stands for the switch itself.
abbrev pub own_rule : ℤ → ℤ → FlowRule
own_rule ip_low ip_high = record {
  src_ip_low = pos 0;
  src_ip_high = pos max_ip;
  dest_ip_low = ip_low;
  dest_ip_high = ip_high;
  action_type = forward;
  action_val = pos 3;
  pri = min_pri;
  pkt_count = 0;
}

abbrev pub slots : ℤ → (ℕ → ℤ) → ℕ → ℤ
slots fd garbage j = if j == 0 then pos 0 else if j == controller_slot then fd else garbage j

abbrev pub initial : Config → ℤ → (ℕ → ℤ) → Bytes → Switch
initial c fd garbage buffer = record {
  id = c.id;
  ip_low = c.ip_low;
  ip_high = c.ip_high;
  flow_table = own_rule c.ip_low c.ip_high ∷ [];
  port_to_fd = (pos 0, fd) ∷ [];
  port_to_id = (pos 0, pos 0) ∷ [];
  counts = zero_counts;
  pfds = slots fd garbage;
  delay_start = 0;
  delay_duration = pos 0;
  ack_received = false;
  add_received = true;
  closed = [];
  traffic = some c.lines;
  buffer = buffer;
  out = [];
}

abbrev pub count_open : Switch → Switch
count_open s = record s { counts = record counts { opens = counts.opens + 1 } }
  where
    open s use {counts}

unfoldable pub open_slot : ℕ → Opened → Switch → Outcome Switch
open_slot port (descriptor fd) s =
    running (record s { pfds = λ j. if j == port then fd else s.pfds j })
open_slot port (refused errno) s = exited errno s.out

-- `createFifo`: a FIFO that cannot be made, one that exists included, ends the process.
unfoldable pub create_fifo : Setup → ℕ → Bytes → Switch → Outcome Switch
unfolding open_slot
create_fifo p port name s =
    if p.make_fifo name == 0
    then open_slot port (p.open_reading name) s
    else exited (p.make_fifo name) s.out

-- Port 1 or 2, unless it is not connected.
unfoldable pub connect_port : Setup → ℕ → ℤ → Switch → Outcome Switch
unfolding create_fifo insert
connect_port p port port_id s =
    if port_id ==ℤ negsuc 0
    then running s
    else create_fifo p port (make_fifo_name port_id s.id)
        (record s { port_to_id = insert (pos port) port_id s.port_to_id })

-- `switchLoop` up to its loop.
unfoldable pub set_up : Config → Setup → (ℕ → ℤ) → Bytes → Outcome Switch
unfolding connect_port
set_up c p garbage buffer =
    let s = initial c p.fd garbage buffer in
    if p.fd ==ℤ pos 0 || not (p.address_valid && p.connected)
    then exited p.errno []
    else (send_open_packet p.sys p.fd c.id c.port1_id c.port2_id c.ip_low c.ip_high s >>= λ sent.
        if p.non_blocking
        then connect_port p 1 c.port1_id (count_open sent) >>= connect_port p 2 c.port2_id
        else exited p.errno sent.out)
