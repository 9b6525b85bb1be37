-- ===== src/A2w22/Tests.antt =====
-- Assignment_2/w22: runs of the network over FIFOs on concrete inputs.
use cmput.Common.{
  ℕ, ◌<◌, ◌≡◌, refl, Bool, true, List, [], ◌∷◌, ◌++◌, none, some, ◌==◌, if◌then◌else◌, ℤ, pos,
  negsuc, map, length, All, arith,
}
use cmput.Text.{Bytes, codes, same, pieces, find_char, overwrite}
use cmput.Text.Number.{to_string, stoi}
use cmput.Process.{Outcome, running, ◌>>=◌, bytes}
use cmput.A2w22.{
  Ips, Switch, Arrival, name_fifo, add, hello_ack, relay_in, count, receive, send_packet,
}
use cmput.A2w22.Args.{Launch, launch}
use cmput.A2w22.Frames.{pipe, receive-send_packet}
use cmput.A2w22.Controller.{Controller}
use cmput.A2w22.Controller.Loop as CLoop
use cmput.Process.Sent.{sent}
use cmput.A2w22.Directory.{
  Request, announce, locate, Directory, nobody, ServesAll, frame_of, request_text,
}
use cmput.A2w22.Directory.Serving.{announces, locates}
use cmput.A2w22.Directory.Runs.{Arriving, poll_of, IsSound, rounds-ServesAll}
use cmput.A2w22.Psw.{
  Psw, Ft, init_forwarding_table, find_matching_rule, relay_text, handle_add, hello_text, ask_text,
}
use cmput.A2w22.Psw.Loop
use cmput.A2w22.Psw.Traffic.{admit_packet}
use cmput.A2w22.Psw.Table.{InvOf}
use cmput.A2w22.Psw.Counts.{psw_rounds-Inv}
use cmput.A2w22.Psw.Dropped.{dropped-relays}

abbrev pub ok_writes : ℤ → Bytes → Bool
ok_writes fd text = true

-- Every FIFO has the length of its name plus its last byte as its descriptor.
abbrev pub opens : Bytes → ℤ
opens (c ∷ []) = pos c
opens [] = pos 0
opens (c ∷ d ∷ s) = opens (d ∷ s)

launch_psw :
    launch (codes "psw1" ∷ codes "ex2.dat" ∷ codes "null" ∷ codes "psw2" ∷ codes "100-110" ∷ [])
    ≡ running (
        Launch.master_switch
          (pos 1)
          (negsuc 0)
          (pos 2)
          (codes "ex2.dat")
          (record { low = pos 100; high = pos 110 }))
unfolding launch same pieces stoi
launch_psw = refl

launch_master : launch (codes "master" ∷ codes "2" ∷ []) ≡ running (Launch.controller (pos 2))
unfolding launch same pieces stoi
launch_master = refl

abbrev traffic : Bytes
traffic =
    codes "# Data file\npsw1 100 102\npsw1 100 200\npsw2 200 300\npsw1 100 300\npsw1 100 300\n"

abbrev frame : Bytes → Arrival
frame text = record {
  reading = bytes (text ++ 0 ∷ []);
  garbage = codes "xxxxxxxxxxxxxxxxxxxxxxxxxxxxxxxxxx";
}

abbrev quiet : Loop.Poll
quiet = record { stdin = none; ready = λ i. none; writes = ok_writes }

abbrev brings : Bytes → Loop.Poll
brings text = record {
  stdin = none;
  ready = λ i. if i == 0 then some (frame text) else none;
  writes = ok_writes;
}

abbrev own_ips : Ips
own_ips = record { low = pos 100; high = pos 110 }

abbrev polls : List Loop.Poll
polls =
    quiet
    ∷ quiet
    ∷ brings (codes "HELLO_ACK 0")
    ∷ brings (codes "ADD 1 1 -1 200 210")
    ∷ brings (codes "ADD 1 300")
    ∷ quiet
    ∷ quiet
    ∷ []

started : Outcome Psw
unfolding Loop.start
started = Loop.start ok_writes opens (pos 1) (negsuc 0) (pos 2) (some traffic) own_ips

abbrev state_of : Outcome Psw → Psw
state_of (running s) = s
state_of _ = Loop.initial opens (pos 1) (negsuc 0) (pos 2) none own_ips

abbrev first_state : Psw
first_state = state_of started

last_state : Psw
unfolding started Loop.rounds same pieces stoi find_char to_string count find_matching_rule
    overwrite
last_state = state_of (Loop.rounds polls first_state)

last_table : map (λ (e : Ft). e.pkt_count) last_state.table ≡ 1 ∷ 1 ∷ 2 ∷ []
unfolding last_state
last_table = refl

last_sent :
    map (λ (e : ℤ × Bytes). e.1) (sent last_state.out)
    ≡ map
        (λ text. text ++ 0 ∷ [])
        (codes "HELLO 1 -1 2 100 110"
          ∷ codes "ASK 1 200"
          ∷ codes "RELAY 1"
          ∷ codes "ASK 1 300"
          ∷ codes "RELAY 1"
          ∷ [])
unfolding last_state
last_sent = refl

psw_rounds-Inv_example :
    InvOf last_state.table last_state.stats.received last_state.stats.transmitted
unfolding last_state
psw_rounds-Inv_example =
    psw_rounds-Inv ok_writes opens (pos 1) (negsuc 0) (pos 2) (some traffic) own_ips polls
      first_state last_state refl refl

abbrev pub fresh : Psw
fresh = Loop.initial opens (pos 1) (negsuc 0) (pos 2) (some traffic) own_ips

dropped-relays_example :
    (t : Psw) × ((handle_add ok_writes (to_string (pos 300) ∷ []) fresh
        >>= admit_packet ok_writes
            (record { switch_id = pos 1; src_ip = pos 100; dest_ip = pos 300 }))
      ≡ running t)
    × (t.out
        ≡ send_packet ok_writes (opens (name_fifo (pos 1) (pos 0))) relay_in (relay_text (pos 1)))
unfolding find_matching_rule init_forwarding_table
dropped-relays_example =
    dropped-relays ok_writes opens (negsuc 0) (pos 2)
      (record { switch_id = pos 1; src_ip = pos 100; dest_ip = pos 300 }) fresh refl refl
      (omega arith) (omega arith) refl refl

receive-send_packet_example :
    receive (record {
      reading = bytes (
          pipe (pos 5) (
            send_packet ok_writes (pos 5) hello_ack (codes "HELLO_ACK 0")
            ++ send_packet ok_writes (pos 5) add (codes "ADD 1 300")));
      garbage = codes "a buffer that is long enough";
    })
    ≡ running (pieces b' ' (codes "HELLO_ACK 0"))
receive-send_packet_example =
    receive-send_packet ok_writes (pos 5) hello_ack (codes "HELLO_ACK 0")
      (codes "a buffer that is long enough") (send_packet ok_writes (pos 5) add (codes "ADD 1 300"))
      (omega arith) (omega arith)

abbrev pub second : Switch
second = record {
  switch_id = pos 2;
  port1 = pos 1;
  port2 = negsuc 0;
  ipranges = record { low = pos 200; high = pos 210 };
}

abbrev room : Bytes
room = codes "a buffer that is long enough for the messages of all three requests"

abbrev arriving : ℕ → Request → Arriving
arriving slot request = record {
  slot = slot;
  request = request;
  garbage = room;
  writes = ok_writes;
}

abbrev arrivals : List Arriving
arrivals =
    arriving 1 (announce (pos 2) (pos 1) (negsuc 0) (record { low = pos 200; high = pos 210 }))
    ∷ arriving 0 (locate (pos 1) (pos 205))
    ∷ arriving 0 (locate (pos 1) (pos 300))
    ∷ []

fits_announce :
    length (
      request_text (announce (pos 2) (pos 1) (negsuc 0) (record { low = pos 200; high = pos 210 })))
    < length room
unfolding to_string hello_text
fits_announce = omega arith

fits_locate :
    (length (request_text (locate (pos 1) (pos 205))) < length room)
    × (length (request_text (locate (pos 1) (pos 300))) < length room)
unfolding to_string ask_text
fits_locate = omega arith

arrivals-IsSound : All (IsSound 2) arrivals
arrivals-IsSound = (
  record {
    in_slots = omega arith;
    fits = fits_announce;
    sound = announces 1 (pos 1) (negsuc 0) _ (omega arith) (omega arith);
  },
  (
    record {
      in_slots = omega arith;
      fits = fits_locate.0;
      sound = locates 0 (pos 205) (omega arith) (omega arith);
    },
    (
      record {
        in_slots = omega arith;
        fits = fits_locate.1;
        sound = locates 0 (pos 300) (omega arith) (omega arith);
      },
      tt,
    ),
  ),
)

rounds-ServesAll_example :
    (c : Controller) × (d : Directory) × ((CLoop.start opens (pos 2)
        >>= CLoop.rounds (pos 2) (map poll_of arrivals))
      ≡ running c)
    × ServesAll nobody (map (λ (a : Arriving). a.request) arrivals) d
    × (c.switches ≡ d.members)
    × (sent c.out ≡ map (frame_of opens) d.answers)
rounds-ServesAll_example = rounds-ServesAll opens 2 arrivals arrivals-IsSound
