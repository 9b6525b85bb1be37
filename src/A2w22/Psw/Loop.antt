-- ===== src/A2w22/Psw/Loop.antt =====
-- Assignment_2/w22/switch.cpp: what a switch prints, and `masterSwitch`.
use cmput.Common.{
  ℕ, zero, suc, ◌+◌, Bool, List, [], ◌∷◌, ◌++◌, Option, none, some, ◌==◌, if◌then◌else◌, ℤ, length,
  get_elem?,
}
use cmput.Text.{Bytes, codes, same}
use cmput.Text.Number.{to_string, print_nat}
use cmput.Process.{printed, Outcome, running, exited, ◌>>=◌, or_undefined}
use cmput.A2w22.{
  ActionType, forward, drop_it, PktType, hello, hello_ack, ask, add, relay_in, admit, PacketCounts,
  PacketInfo, all_types, size_of, Ips, Arrival, receive, send_packet,
}
use cmput.A2w22.Psw.{
  Ft, Psw, emit, count_transmitted, init_forwarding_table, init_switch_stats, init_session,
  hello_text, switch_receive,
}
use cmput.A2w22.Psw.Traffic.{cache_traffic_file, traffic_step}

action_name : ActionType → Bytes
action_name forward = codes "FORWARD"
action_name drop_it = codes "DROP"

entry_line : ℕ → Ft → Bytes
unfolding action_name
entry_line i entry =
    codes "["
    ++ (print_nat i
        ++ (codes "] (srcIp= "
            ++ (to_string entry.src_range.low
                ++ (codes "-"
                    ++ (to_string entry.src_range.high
                        ++ (codes ", destIp= "
                            ++ (to_string entry.dest_range.low
                                ++ (codes "-"
                                    ++ (to_string entry.dest_range.high
                                        ++ (codes ", action= "
                                            ++ (action_name entry.action_type
                                                ++ (codes ":"
                                                    ++ (to_string entry.action_value
                                                        ++ (codes ", pktCount= "
                                                            ++ (print_nat entry.pkt_count
                                                            ++ codes ")\n")))))))))))))))

entry_lines : ℕ → List Ft → Bytes
unfolding entry_line
entry_lines i [] = []
entry_lines i (entry ∷ table) = entry_line i entry ++ entry_lines (i + 1) table

unfoldable pub print_forwarding_table : List Ft → Bytes
unfolding entry_lines
print_forwarding_table table = codes "Forwarding table:\n" ++ entry_lines 0 table

received_stat : PktType → ℕ → Bytes
received_stat admit n = codes "ADMIT:" ++ print_nat n
received_stat hello_ack n = codes "HELLO_ACK:" ++ print_nat n
received_stat add n = codes "ADD:" ++ print_nat n
received_stat relay_in n = codes "RELAYIN:" ++ print_nat n
received_stat hello n = []
received_stat ask n = []

transmitted_stat : PktType → ℕ → Bytes
transmitted_stat hello n = codes "HELLO:" ++ print_nat n
transmitted_stat ask n = codes "ASK:" ++ print_nat n
transmitted_stat relay_in n = codes "RELAYOUT:" ++ print_nat n
transmitted_stat hello_ack n = []
transmitted_stat add n = []
transmitted_stat admit n = []

-- The keys of a map in their order; both loops compare their counter with the size of `received`.
stats_from : (PktType → ℕ → Bytes) → ℕ → ℕ → PacketCounts → List PktType → Bytes
stats_from name size counter m [] = []
stats_from name size counter m (k ∷ ks) = elim (m k) [
  | none ↦ stats_from name size counter m ks
  | some n ↦
      (name k n ++ (if counter + 1 == size then [] else codes ", "))
      ++ stats_from name size (counter + 1) m ks
]

unfoldable pub print_switch_stats : PacketInfo → Bytes
unfolding received_stat transmitted_stat stats_from size_of
print_switch_stats stats =
    let size = size_of stats.received all_types in
    codes "Packet Stats:\n\tReceived: "
    ++ (stats_from received_stat size 0 stats.received all_types
        ++ (codes "\n\tTransmitted: "
            ++ (stats_from transmitted_stat size 0 stats.transmitted all_types ++ codes "\n")))

unfoldable pub switch_list_handler : Psw → Psw
unfolding print_forwarding_table print_switch_stats
switch_list_handler s =
    emit (printed (print_forwarding_table s.table) ∷ printed (print_switch_stats s.stats) ∷ []) s

unfoldable pub send_open_to_controller : (ℤ → Bytes → Bool) → ℤ → ℤ → Psw → Outcome Psw
unfolding send_packet hello_text
send_open_to_controller writes pswj pswk s = do
  first ← or_undefined (get_elem? s.table 0)
  session ← or_undefined (get_elem? s.sessions 0)
  running (
      count_transmitted hello (
        emit
          (send_packet writes session.out_fd hello
            (hello_text s.switch_id pswj pswk first.dest_range))
          s))

-- The switch as it is made, before it announces itself.
abbrev pub initial : (Bytes → ℤ) → ℤ → ℤ → ℤ → Option Bytes → Ips → Psw
initial opens sid pswj pswk traffic_file ip_range = record {
  switch_id = sid;
  ip_range = ip_range;
  sessions = init_session opens sid pswj pswk;
  table = init_forwarding_table ip_range;
  stats = init_switch_stats;
  lines = cache_traffic_file traffic_file;
  rule_cnt = 0;
  out = [];
}

-- `masterSwitch` up to its loop; `traffic_file` is what the file holds.
unfoldable pub start :
    (ℤ → Bytes → Bool) → (Bytes → ℤ) → ℤ → ℤ → ℤ → Option Bytes → Ips → Outcome Psw
unfolding init_session init_forwarding_table cache_traffic_file send_open_to_controller
start writes opens sid pswj pswk traffic_file ip_range =
    send_open_to_controller writes pswj pswk (initial opens sid pswj pswk traffic_file ip_range)

abbrev pub not_a_command : Bytes
not_a_command = codes "Not a command. Use info or exit.\n"

-- The word that `cin >> cmd` brings, if standard input is ready.
unfoldable pub keyboard : Option Bytes → Psw → Outcome Psw
unfolding switch_list_handler
keyboard none s = running s
keyboard (some cmd) s =
    let listed = switch_list_handler s in
    if same cmd (codes "info")
    then running listed
    else if same cmd (codes "exit")
    then exited 0 listed.out
    else running (emit (printed not_a_command ∷ []) s)

-- What one call of `poll` reports, and what the calls after it bring.
pub record Poll : Type 0 where
  pub stdin : Option Bytes
  pub ready : ℕ → Option Arrival
  pub writes : ℤ → Bytes → Bool

-- One FIFO of the `for` loop.
unfoldable pub serve : (ℤ → Bytes → Bool) → Option Arrival → Psw → Outcome Psw
unfolding receive switch_receive
serve writes none s = running s
serve writes (some a) s = do message ← receive a; switch_receive writes message s

-- The `for` loop over the FIFOs, `n` of them from `i` on.
unfoldable pub serve_fifos : (ℤ → Bytes → Bool) → ℕ → ℕ → (ℕ → Option Arrival) → Psw → Outcome Psw
unfolding serve
serve_fifos writes zero i ready s = running s
serve_fifos writes (suc n) i ready s = do
  t ← serve writes (ready i) s
  serve_fifos writes n (i + 1) ready t

-- The body of `while (true)`.
unfoldable pub round : Poll → Psw → Outcome Psw
unfolding traffic_step keyboard serve_fifos
round p s = do
  t ← traffic_step p.writes s
  u ← keyboard p.stdin t
  serve_fifos p.writes (length u.sessions) 0 p.ready u

unfoldable pub rounds : List Poll → Psw → Outcome Psw
unfolding round
rounds [] s = running s
rounds (p ∷ ps) s = do t ← round p s; rounds ps t
