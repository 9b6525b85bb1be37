-- ===== src/A2w22/Controller/Loop.antt =====
-- Assignment_2/w22/controller.cpp: `controller` up to its loop, and one round of the loop.
use cmput.Common.{
  ℕ, zero, suc, ◌+◌, Bool, List, [], ◌∷◌, Option, none, some, if◌then◌else◌, ℤ, negsuc, pos_part,
  leb_ℤ,
}
use cmput.Text.{Bytes, codes, same}
use cmput.Process.{printed, Outcome, running, exited, undefined, ◌>>=◌}
use cmput.A2w22.{Arrival, receive}
use cmput.A2w22.Controller.{Controller, emit, stats, init_sessions, print_info, controller_receive}

abbrev pub initial : (Bytes → ℤ) → ℕ → Controller
initial opens num = record {
  info = stats;
  switches = [];
  sessions = init_sessions opens num 0;
  out = [];
}

-- Before the loop. With fewer than -1 switches the array `pfd` has no first place.
unfoldable pub start : (Bytes → ℤ) → ℤ → Outcome Controller
unfolding init_sessions
start opens num_of_switch =
    if leb_ℤ (negsuc 0) num_of_switch
    then running (initial opens (pos_part num_of_switch))
    else undefined

abbrev pub not_a_command : Bytes
not_a_command = codes "Not a command. Use info or exit.\n"

-- The word that `cin >> cmd` brings, if standard input is ready.
unfoldable pub keyboard : Option Bytes → Controller → Outcome Controller
unfolding print_info
keyboard none c = running c
keyboard (some cmd) c =
    let listed = emit (printed (print_info c) ∷ []) c in
    if same cmd (codes "info")
    then running listed
    else if same cmd (codes "exit")
    then exited 0 listed.out
    else running (emit (printed not_a_command ∷ []) c)

-- What one call of `poll` reports, and what the calls after it bring.
pub record Poll : Type 0 where
  pub stdin : Option Bytes
  pub ready : ℕ → Option Arrival
  pub writes : ℤ → Bytes → Bool

-- One FIFO of the `for` loop.
unfoldable pub serve : (ℤ → Bytes → Bool) → Option Arrival → Controller → Outcome Controller
unfolding receive controller_receive
serve writes none c = running c
serve writes (some a) c = do message ← receive a; controller_receive writes message c

-- The `for` loop over the FIFOs, `n` of them from `i` on.
unfoldable pub serve_fifos :
    (ℤ → Bytes → Bool) → ℕ → ℕ → (ℕ → Option Arrival) → Controller → Outcome Controller
unfolding serve
serve_fifos writes zero i ready c = running c
serve_fifos writes (suc n) i ready c = do
  d ← serve writes (ready i) c
  serve_fifos writes n (i + 1) ready d

-- The body of `while(true)`.
unfoldable pub round : ℤ → Poll → Controller → Outcome Controller
unfolding keyboard serve_fifos
round num_of_switch p c = do
  d ← keyboard p.stdin c
  serve_fifos p.writes (pos_part num_of_switch) 0 p.ready d

unfoldable pub rounds : ℤ → List Poll → Controller → Outcome Controller
unfolding round
rounds num_of_switch [] c = running c
rounds num_of_switch (p ∷ ps) c = do d ← round num_of_switch p c; rounds num_of_switch ps d
