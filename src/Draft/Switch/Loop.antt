-- ===== src/Draft/Switch/Loop.antt =====
-- test/switch.cpp: `switchLoop` up to its loop, and one round of the loop.
use cmput.Common.{
  ℕ, ◌+◌, Bool, true, false, List, [], ◌∷◌, ◌++◌, Option, none, some, ◌==◌, if◌then◌else◌, ℤ, pos,
  negsuc, ◌==ℤ◌,
}
use cmput.Text.{Bytes, codes, same}
use cmput.Text.Buffer.{zeroes}
use cmput.Text.Number.{to_string}
use cmput.Process.{
  wrote, printed, Outcome, running, exited, undefined, ◌>>=◌, Reading, end_of_file, failed, bytes,
  insert,
}
use cmput.Draft.{max_buffer, max_ip, read_pkt, port_name, command_in, filled}
use cmput.Draft.Switch.{
  forward, ForwardRule, SwitchPacketCounts, Switch, emit, make_fifo, print_info,
}
use cmput.Draft.Switch.Traffic.{traffic_step}
use cmput.Draft.Switch.Packets.{socket_index, serve_slots}

abbrev pub unknown_command : Bytes
unknown_command = codes "Unknown command: <info> or <exit> are valid commands.\n"

unfoldable pub command : Bytes → Switch → Outcome Switch
unfolding print_info
command cmd s =
    let listed = emit (printed (print_info s.table s.counts)) s in
    if same cmd (codes "info")
    then running listed
    else if same cmd (codes "exit")
    then exited 0 listed.out
    else running (emit (printed unknown_command) s)

unfoldable pub read_command : Bytes → Switch → Outcome Switch
unfolding command_in command
read_command buffer s = do cmd ← command_in buffer; command cmd (record s { buffer = buffer })

unfoldable pub keyboard : Option Reading → Switch → Outcome Switch
unfolding read_command
keyboard none s = running s
keyboard (some end_of_file) s = exited 1 (s.out ++ printed (codes "Error: stdin closed.\n") ∷ [])
keyboard (some failed) s = read_command s.buffer s
keyboard (some (bytes b)) s = read_command (filled (bytes b) s.buffer) s

-- `memset(buffer, 0, sizeof(buffer))`
unfoldable pub clear_buffer : Switch → Switch
unfolding zeroes
clear_buffer s = record s { buffer = zeroes max_buffer }

-- What one round brings: the result of `open` of a FIFO, and the `errno` of `poll` or what is ready.
pub data Poll : Type 0 where
  poll_failed : (Bytes → ℤ) → ℕ → Poll
  polled : (Bytes → ℤ) → Option Reading → (ℕ → Option Reading) → Poll

-- A round behind the traffic file.
unfoldable pub poll_step : Poll → Switch → Outcome Switch
unfolding keyboard clear_buffer serve_slots
poll_step (poll_failed opens errno) s = exited errno s.out
poll_step (polled opens stdin ready) s = do
  commanded ← keyboard stdin s
  served ← serve_slots opens socket_index 1 ready (clear_buffer commanded)
  running (clear_buffer served)

abbrev pub opens_of : Poll → Bytes → ℤ
opens_of (poll_failed opens errno) = opens
opens_of (polled opens stdin ready) = opens

-- The body of `while (true)`.
unfoldable pub round : Poll → Switch → Outcome Switch
unfolding traffic_step poll_step
round p s = do (left, t) ← traffic_step (opens_of p) s; if left then running t else poll_step p t

unfoldable pub rounds : List Poll → Switch → Outcome Switch
unfolding round
rounds [] s = running s
rounds (p ∷ ps) s = do t ← round p s; rounds ps t

-- The arguments of `switchLoop`: -1 stands for a port that is not connected, and `none` for a file that
-- is not open.
pub record Config : Type 0 where
  pub id : ℤ
  pub port1_id : ℤ
  pub port2_id : ℤ
  pub ip_low : ℤ
  pub ip_high : ℤ
  pub traffic : Option (List Bytes)

-- The calls of the set-up: `socket`, whether `connect` and `fcntl` succeed, and the `errno` of a failure;
-- `open` of the reading end of a FIFO.
pub record Setup : Type 0 where
  pub fd : ℤ
  pub connected : Bool
  pub non_blocking : Bool
  pub errno : ℕ
  pub open_reading : Bytes → ℤ

abbrev zero_counts : SwitchPacketCounts
zero_counts = record {
  admit = 0;
  hello_ack = 0;
  add = 0;
  relay_in = 0;
  opens = 0;
  ask = 0;
  relay_out = 0;
}

-- The rule for the switch's own range; port 3 stands for the switch itself.
abbrev pub own_rule : ℤ → ℤ → ForwardRule
own_rule ip_low ip_high = record {
  src_ip_low = pos 0;
  src_ip_high = pos max_ip;
  dest_ip_low = ip_low;
  dest_ip_high = ip_high;
  action_type = forward;
  action_val = pos 3;
  pkt_count = 0;
}

abbrev slots : ℤ → (ℕ → ℤ) → ℕ → ℤ
slots fd garbage j = if j == 0 then pos 0 else if j == socket_index then fd else garbage j

abbrev pub initial : Config → ℤ → (ℕ → ℤ) → Bytes → Switch
initial c fd garbage buffer = record {
  id = c.id;
  table = own_rule c.ip_low c.ip_high ∷ [];
  fdid = (pos 0, fd) ∷ [];
  swid = (pos 0, pos 0) ∷ [];
  counts = zero_counts;
  pfds = slots fd garbage;
  delay = pos 0;
  hello_ack_received = false;
  add_received = true;
  traffic = c.traffic;
  buffer = buffer;
  out = [];
}

unfoldable pub hello_string : Config → Bytes
hello_string c =
    codes "HELLO:"
    ++ (to_string c.id
        ++ (codes ","
            ++ (to_string c.port1_id
                ++ (codes ","
                    ++ (to_string c.port2_id
                        ++ (codes ","
                            ++ (to_string c.ip_low ++ (codes "," ++ to_string c.ip_high))))))))

-- The lines about the HELLO packet, which is parsed again.
hello_lines : ℤ → List ℤ → Outcome Bytes
hello_lines id (first ∷ port1 ∷ port2 ∷ low ∷ high ∷ rest) = running (
    codes "Transmitted (src= psw"
    ++ (to_string id
        ++ (codes ", dest= master) [HELLO]:\n\t (port0= master, port1= "
            ++ (port_name port1
                ++ (codes ", port2= "
                    ++ (port_name port2
                        ++ (codes ", port3= "
                            ++ (to_string low
                                ++ (codes "-" ++ (to_string high ++ codes ")\n"))))))))))
hello_lines id _ = undefined

abbrev count_open : Switch → Switch
count_open s = record s { counts = record counts { opens = counts.opens + 1 } }
  where
    open s use {counts}

-- `write` of the HELLO packet.
unfoldable pub send_hello : Config → ℤ → Switch → Outcome Switch
unfolding hello_string hello_lines read_pkt
send_hello c fd s = do
  lines ← hello_lines c.id (read_pkt (hello_string c)).1
  running (count_open (emit (printed lines) (emit (wrote fd (hello_string c)) s)))

-- Port 1 or 2, unless it is not connected; the results of `mkfifo` and `open` are not looked at.
unfoldable pub connect_port : Setup → ℕ → ℤ → Switch → Switch
unfolding insert make_fifo
connect_port p port port_id s =
    let fd = p.open_reading (make_fifo port_id s.id) in
    if port_id ==ℤ negsuc 0 then s else record s {
      swid = insert (pos port) port_id s.swid;
      pfds = λ j. if j == port then fd else s.pfds j;
    }

-- `switchLoop` up to its loop; it takes descriptor 0 for a failure of `socket`.
unfoldable pub set_up : Config → Setup → (ℕ → ℤ) → Bytes → Outcome Switch
unfolding send_hello connect_port
set_up c p garbage buffer =
    if p.fd ==ℤ pos 0
    then exited p.errno []
    else if p.connected
    then (send_hello c p.fd (initial c p.fd garbage buffer) >>= λ sent.
        if p.non_blocking
        then running (connect_port p 2 c.port2_id (connect_port p 1 c.port1_id sent))
        else exited p.errno sent.out)
    else exited p.errno []
