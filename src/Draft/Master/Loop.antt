-- ===== src/Draft/Master/Loop.antt =====
-- test/master.cpp: `MasterLoop` up to its loop, and one round of the loop.
use cmput.Common.{
  ℕ, ◌+◌, Bool, List, [], ◌∷◌, ◌++◌, Option, none, some, ◌==◌, leb, if◌then◌else◌, ℤ, pos, leb_ℤ,
}
use cmput.Text.{Bytes, codes, same}
use cmput.Process.{
  printed, Outcome, running, exited, undefined, ◌>>=◌, Reading, end_of_file, failed, bytes,
}
use cmput.Draft.{command_in, filled}
use cmput.Draft.Master.{
  MasterPacketCounts, Master, emit, print_info, close_all, serve_slots, clear_buffer,
}

-- The calls before the loop: the descriptor of `socket`, whether `bind` and `listen` succeed, and the `errno` of a
-- failure.
pub record Setup : Type 0 where
  pub fd : ℤ
  pub bound : Bool
  pub listening : Bool
  pub errno : ℕ

abbrev zero_counts : MasterPacketCounts
zero_counts = record { hello = 0; ask = 0; add = 0; hello_ack = 0 }

abbrev initial_slots : ℕ → ℤ → (ℕ → ℤ) → ℕ → ℤ
initial_slots num_switches fd garbage j =
    if j == 0 then pos 0 else if j == num_switches + 1 then fd else garbage j

abbrev pub initial : ℕ → ℤ → (ℕ → ℤ) → Bytes → Master
initial num_switches fd garbage buffer = record {
  num_switches = num_switches;
  table = [];
  id_to_fd = [];
  counts = zero_counts;
  pfds = initial_slots num_switches fd garbage;
  socket_index = 1;
  buffer = buffer;
  out = [];
}

unfoldable pub set_up : ℕ → Setup → (ℕ → ℤ) → Bytes → Outcome Master
unfolding close_all
set_up num_switches s garbage buffer =
    let m = initial num_switches s.fd garbage buffer in
    if leb_ℤ (pos 0) s.fd
    then if s.bound
      then if s.listening then running m else close_all s.errno m
      else close_all s.errno m
    else close_all s.errno m

abbrev pub unknown_command : Bytes
unknown_command = codes "Unknown command: <info> or <exit> are valid commands.\n"

unfoldable pub command : Bytes → Master → Outcome Master
unfolding print_info close_all
command cmd m =
    let listed = emit (printed (print_info m.table m.counts)) m in
    if same cmd (codes "info")
    then running listed
    else if same cmd (codes "exit")
    then close_all 0 listed
    else running (emit (printed unknown_command) m)

-- What is read from standard input: the end of file ends the process.
read_command : Bytes → Master → Outcome Master
unfolding command_in command
read_command buffer m = do cmd ← command_in buffer; command cmd (record m { buffer = buffer })

unfoldable pub keyboard : Option Reading → Master → Outcome Master
unfolding read_command
keyboard none m = running m
keyboard (some end_of_file) m = exited 1 (m.out ++ printed (codes "Stdin is closed.\n") ∷ [])
keyboard (some failed) m = read_command m.buffer m
keyboard (some (bytes b)) m = read_command (filled (bytes b) m.buffer) m

-- `accept` fails with an `errno`, or brings a descriptor and the `errno` of `fcntl`, 0 if it succeeds.
pub data Accepted : Type 0 where
  refused : ℕ → Accepted
  connected : ℤ → ℕ → Accepted

-- The array `sockets` has `numSwitches + 1` places.
unfoldable pub accept_switch : Option Accepted → Master → Outcome Master
unfolding close_all
accept_switch none m = running m
accept_switch (some (refused errno)) m =
    if leb m.socket_index m.num_switches then close_all errno m else undefined
accept_switch (some (connected fd errno)) m =
    let slots : ℕ → ℤ = λ j. if j == m.socket_index then fd else m.pfds j in
    if leb m.socket_index m.num_switches
    then if errno == 0
      then running (record m { pfds = slots; socket_index = m.socket_index + 1 })
      else exited errno m.out
    else undefined

-- What one call of `poll` reports, and what the calls after it bring.
pub data Poll : Type 0 where
  poll_failed : ℕ → Poll
  polled : Option Reading → (ℕ → Option Reading) → Option Accepted → Poll

-- The body of `while (true)`.
unfoldable pub round : Poll → Master → Outcome Master
unfolding keyboard clear_buffer serve_slots accept_switch close_all
round (poll_failed errno) m = close_all errno m
round (polled stdin ready incoming) m = do
  commanded ← keyboard stdin m
  served ← serve_slots m.num_switches 1 ready (clear_buffer commanded)
  accepted ← accept_switch incoming (clear_buffer served)
  running (clear_buffer accepted)

unfoldable pub rounds : List Poll → Master → Outcome Master
unfolding round
rounds [] m = running m
rounds (p ∷ ps) m = do d ← round p m; rounds ps d
