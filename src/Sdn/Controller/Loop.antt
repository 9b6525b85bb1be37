-- ===== src/Sdn/Controller/Loop.antt =====
-- test2/controller.cpp: one round of the event loop: the keyboard, the slots, the listening socket.
use cmput.Common.{
  ℕ, ◌+◌, Bool, ◌&&◌, List, [], ◌∷◌, ◌++◌, Option, none, some, ◌==◌, leb, if◌then◌else◌, ℤ, pos,
  leb_ℤ,
}
use cmput.Text.{Bytes, codes, same, c_string, overwrite}
use cmput.Sdn.Packet.{trim}
use cmput.Process.{
  ◌>>=◌, printed, Outcome, running, exited, undefined, Reading, end_of_file, failed, bytes,
}
use cmput.Sdn.Controller.State.{ControllerPacketCounts, Controller, emit, clear_buffer, cleanup}
use cmput.Sdn.Controller.{controller_list, serve_slots}

-- The calls before the loop: the descriptor of `socket`, and whether `setsockopt`, `bind` and
-- `listen` succeed.
pub record Setup : Type 0 where
  pub fd : ℤ
  pub options_set : Bool
  pub bound : Bool
  pub listening : Bool

abbrev pub zero_counts : ControllerPacketCounts
zero_counts = record { opens = 0; query = 0; add = 0; ack = 0 }

-- `pfds` before the loop: standard input in slot 0, the listening socket in the last one, and in
-- between what the array held.
abbrev initial_slots : ℕ → ℤ → (ℕ → ℤ) → ℕ → ℤ
initial_slots num_switches fd garbage j =
    if j == 0 then pos 0 else if j == num_switches + 1 then fd else garbage j

abbrev pub initial : ℕ → ℤ → (ℕ → ℤ) → Bytes → Controller
initial num_switches fd garbage buffer = record {
  num_switches = num_switches;
  table = [];
  id_to_fd = [];
  counts = zero_counts;
  pfds = initial_slots num_switches fd garbage;
  socket_idx = 1;
  closed = [];
  buffer = buffer;
  out = [];
}

-- `controllerLoop` up to its loop.
unfoldable pub set_up : ℕ → Setup → (ℕ → ℤ) → Bytes → Outcome Controller
unfolding cleanup
set_up num_switches s garbage buffer =
    let c = initial num_switches s.fd garbage buffer in
    if leb_ℤ (pos 0) s.fd && s.options_set && s.bound && s.listening then running c else cleanup c

abbrev pub unknown_command : Bytes
unknown_command = codes "Error: Unrecognized command. Please use \"list\" or \"exit\".\n"

unfoldable pub command : Bytes → Controller → Outcome Controller
unfolding controller_list cleanup
command cmd c =
    let listed = emit (printed (controller_list c.table c.counts)) c in
    if same cmd (codes "list")
    then running listed
    else if same cmd (codes "exit")
    then cleanup listed
    else running (emit (printed unknown_command) c)

-- Step 1: the keyboard, if it is ready.
unfoldable pub keyboard : Option Reading → Controller → Outcome Controller
unfolding command trim c_string overwrite
keyboard none c = running c
keyboard (some end_of_file) c = exited 1 (c.out ++ printed (codes "Error: stdin closed.\n") ∷ [])
keyboard (some failed) c = command (trim (c_string c.buffer)) c
keyboard (some (bytes b)) c =
    let buffer = overwrite b c.buffer in
    command (trim (c_string buffer)) (record c { buffer = buffer })

abbrev pub fill_slot : (ℕ → ℤ) → ℕ → ℤ → ℕ → ℤ
fill_slot pfds i fd j = if j == i then fd else pfds j

-- What the listening socket brings: `accept` fails, or a descriptor and the `errno` of `fcntl`, 0 if it succeeds.
pub data Accepted : Type 0 where
  refused : Accepted
  connected : ℤ → ℕ → Accepted

-- The array `sockets` has `numSwitches + 1` places: a store behind them is undefined.
unfoldable pub accept_switch : Option Accepted → Controller → Outcome Controller
unfolding cleanup
accept_switch none c = running c
accept_switch (some refused) c = if leb c.socket_idx c.num_switches then cleanup c else undefined
accept_switch (some (connected fd errno)) c =
    let filled = record c {
      pfds = fill_slot c.pfds c.socket_idx fd;
      socket_idx = c.socket_idx + 1;
    } in
    if leb c.socket_idx c.num_switches
    then if errno == 0 then running filled else exited errno c.out
    else undefined

-- What one call of `poll` reports, and what the calls after it bring.
pub record Poll : Type 0 where
  pub stdin : Option Reading
  pub ready : ℕ → Option Reading
  pub incoming : Option Accepted
  pub writes : ℤ → Bytes → Bool

-- The body of `while (true)`; a `poll` that fails is `cleanup`.
unfoldable pub round : Option Poll → Controller → Outcome Controller
unfolding keyboard clear_buffer serve_slots accept_switch cleanup
round none c = cleanup c
round (some p) c = do
  commanded ← keyboard p.stdin c
  served ← serve_slots p.writes c.num_switches 1 p.ready (clear_buffer commanded)
  accepted ← accept_switch p.incoming (clear_buffer served)
  running (clear_buffer accepted)

unfoldable pub rounds : List (Option Poll) → Controller → Outcome Controller
unfolding round
rounds [] c = running c
rounds (p ∷ ps) c = do d ← round p c; rounds ps d
