-- ===== src/Sdn/Controller/Accept.antt =====
-- test2/controller.cpp: how many connections the controller has room for.
use cmput.Common.{◌+◌, ◌≤◌, ◌<◌, ◌≡◌, refl, List, [], ◌∷◌, some, ℤ, length, arith}
use cmput.Process.{◌>>=◌, Outcome, running, undefined}
use cmput.Sdn.Controller.State.{Controller}
use cmput.Sdn.Controller.Loop.{connected, accept_switch, fill_slot}

-- Connections one after the other, each of which succeeds.
pub accept_all : List ℤ → Controller → Outcome Controller
accept_all [] c = running c
accept_all (fd ∷ fds) c = do d ← accept_switch (some (connected fd 0)) c; accept_all fds d

accept_room :
    (fd : ℤ) (c : Controller)
    → c.socket_idx ≤ c.num_switches
    → (d : Controller) × (accept_switch (some (connected fd 0)) c ≡ running d)
      × (d.socket_idx ≡ c.socket_idx + 1)
      × (d.num_switches ≡ c.num_switches)
      × (d.pfds c.socket_idx ≡ fd)
unfolding accept_switch
accept_room fd c room = (
  record c { pfds = fill_slot c.pfds c.socket_idx fd; socket_idx = c.socket_idx + 1 },
  ground arith,
  refl,
  refl,
  ground arith,
)

accept_full :
    (fd : ℤ) (c : Controller)
    → c.num_switches < c.socket_idx
    → accept_switch (some (connected fd 0)) c ≡ undefined
unfolding accept_switch
accept_full fd c full = ground arith

-- As many connections as are announced are taken, and one more is stored behind the end of the array
-- of sockets: with room for the connections of `fds` and no more, the controller goes on behind them,
-- and one further connection has undefined behaviour.
pub accept_all-overflow :
    (fds : List ℤ) (c : Controller) (extra : ℤ)
    → c.socket_idx + length fds ≡ c.num_switches + 1
    → (d : Controller) × (accept_all fds c ≡ running d)
      × (accept_switch (some (connected extra 0)) d ≡ undefined)
unfolding accept_all
accept_all-overflow [] c extra h = (c, refl, accept_full extra c (omega arith))
accept_all-overflow (fd ∷ fds) c extra h =
    let (d, e, next, same_room, _) = accept_room fd c (omega arith) in
    let (z, f, g) = accept_all-overflow fds d extra (omega arith) in (z, rw (e) f, g)
