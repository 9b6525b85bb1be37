-- ===== src/Draft/Tests.antt =====
-- test/: runs on concrete inputs, and the theorems of the other modules at such inputs.
use Prim.Native.String.{String}
use cmput.Common.{
  ℕ, ◌<◌, ◌≡◌, refl, true, List, [], ◌∷◌, Option, none, some, ◌==◌, if◌then◌else◌, pos, negsuc,
  length, arith,
}
use cmput.Text.{codes, same, find_char, overwrite}
use cmput.Text.Buffer.{zeroes, terminated}
use cmput.Text.Number.{to_string, stoi, read_int, strtol, to_int}
use cmput.Process.{Outcome, running, undefined, ◌>>=◌, Reading, bytes}
use cmput.Draft.Args.{Launch, launch}
use cmput.Draft.Master.{Master, serve}
use cmput.Draft.Master.Asked.{serve-ask_string}
use cmput.Draft.Master.Loop as MLoop
use cmput.Draft.Switch.{Switch, ask_string}
use cmput.Draft.Switch.Loop
use cmput.Draft.Switch.Traffic.{parse_line, delay_line}
use cmput.Draft.Switch.Delayed.{rounds-delayed}

launch_master :
    launch (codes "master" ∷ codes "2" ∷ codes "5000" ∷ [])
    ≡ running (Launch.master_loop (pos 2) (pos 5000))
unfolding launch same strtol to_int stoi
launch_master = refl

abbrev setup : MLoop.Setup
setup = record { fd = pos 3; bound = true; listening = true; errno = 0 }

abbrev brings : ℕ → String → ℕ → Option Reading
brings slot text i = if i == slot then some (bytes (codes text)) else none

-- Two switches connect, and the first announces itself.
abbrev opening : List MLoop.Poll
opening =
    MLoop.polled none (λ i. none) (some (MLoop.connected (pos 4) 0))
    ∷ MLoop.polled none (λ i. none) (some (MLoop.connected (pos 5) 0))
    ∷ MLoop.polled none (brings 1 "HELLO:1,-1,2,100,110") none
    ∷ []

opened : Outcome Master
unfolding MLoop.set_up MLoop.rounds same find_char read_int terminated
opened = MLoop.set_up 2 setup (λ slot. negsuc 0) [] >>= MLoop.rounds opening

abbrev state_of : Outcome Master → Master
state_of (running m) = m
state_of _ = MLoop.initial 2 (pos 3) (λ slot. negsuc 0) []

known : (state_of opened).counts ≡ record { hello = 1; ask = 0; add = 0; hello_ack = 1 }
unfolding opened overwrite
known = refl

abbrev fresh : Master
fresh = MLoop.initial 2 (pos 3) (λ slot. negsuc 0) (zeroes 20)

ask_fits : length (ask_string (pos 100) (pos 200)) < 20
unfolding ask_string to_string
ask_fits = omega arith

serve-ask_string_example : serve 1 (bytes (ask_string (pos 100) (pos 200))) fresh ≡ undefined
serve-ask_string_example =
    serve-ask_string 1 20 (pos 100) (pos 200) fresh (omega arith) (omega arith) refl ask_fits

abbrev config : Loop.Config
config = record {
  id = pos 1;
  port1_id = negsuc 0;
  port2_id = pos 2;
  ip_low = pos 100;
  ip_high = pos 110;
  traffic = some (codes "psw4 delay 500" ∷ codes "psw1 100 102" ∷ []);
}

abbrev waiting : Switch
waiting = record (Loop.initial config (pos 3) (λ slot. negsuc 0) []) { hello_ack_received = true }

abbrev quiet : Loop.Poll
quiet = Loop.polled (λ name. pos 6) none λ i. none

delay_read : parse_line (codes "psw4 delay 500") ≡ running (delay_line (pos 4) (pos 500))
unfolding parse_line same stoi
delay_read = refl

after_quiet : Switch
unfolding Loop.rounds same stoi
after_quiet = state (Loop.rounds (quiet ∷ quiet ∷ []) waiting)
  where
    state : Outcome Switch → Switch
    state (running s) = s
    state _ = waiting

rounds-delayed_example :
    (after_quiet.delay ≡ pos 500)
    × (after_quiet.traffic ≡ some (codes "psw1 100 102" ∷ []))
    × (after_quiet.counts.admit ≡ 0)
    × (after_quiet.counts.ask ≡ 0)
unfolding after_quiet
rounds-delayed_example =
    rounds-delayed (pos 500) (pos 4) (codes "psw4 delay 500") (codes "psw1 100 102" ∷ []) quiet
      (quiet ∷ []) waiting after_quiet (λ e. ground arith) refl refl refl refl delay_read refl
