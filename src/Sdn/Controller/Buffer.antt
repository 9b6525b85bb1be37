-- ===== src/Sdn/Controller/Buffer.antt =====
-- test2/controller.cpp: the receive buffer. The loop over the slots clears it once, before the first
-- slot, so that a packet is read over what an earlier slot of the same round left there.
use cmput.Common.{ℕ, ◌+◌, ◌≤◌, ◌<◌, ◌≡◌, Bool, ◌++◌, ℤ, length, drop}
use cmput.Text.{Bytes, overwrite, Lacks}
use cmput.Process.{bytes}
use cmput.Sdn.Controller.State.{Controller}
use cmput.Text.Buffer.{zeroes, c_string-overwrite}
use cmput.Sdn.Controller.{handle_text, handle_packet, serve}

-- When slot `i` reads `b` while the buffer holds an earlier text `t` and then zeroes, one at least of
-- which stays behind `b` and `t`, and neither text has a NUL: the packet that the controller handles
-- is `b` followed by what `t` has beyond the length of `b`. (Over a cleared buffer that is `b`.)
pub serve-stale :
    (writes : ℤ → Bytes → Bool) (i : ℕ) (b t : Bytes) (n : ℕ) (c : Controller)
    → c.buffer ≡ t ++ zeroes n
    → Lacks 0 b
    → Lacks 0 t
    → length b < length t + n
    → 1 ≤ n
    → serve writes i (bytes b) c
      ≡ handle_text writes i
          (b ++ drop (length b) t)
          (record c { buffer = overwrite b (t ++ zeroes n) })
unfolding serve handle_packet
serve-stale writes i b t n c e h k fits pos = rw (e, c_string-overwrite b t n h k fits pos)
