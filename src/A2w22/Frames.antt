-- ===== src/A2w22/Frames.antt =====
-- Assignment_2/w22: what the receiver reads of the frames that `sendPacket` wrote into a FIFO.
use cmput.Common.{
  ◌<◌, ◌≡◌, Bool, List, [], ◌∷◌, ◌++◌, if◌then◌else◌, ℤ, ◌==ℤ◌, ==ℤ_refl, length, append_assoc,
  Bool-cases, inl, inr,
}
use cmput.Text.{Bytes, pieces, Lacks}
use cmput.Text.Buffer.{terminated-overwrite}
use cmput.Process.{Event, wrote, running, bytes}
use cmput.A2w22.{PktType, receive, send_packet}

-- The bytes written to a descriptor, in their order.
abbrev pub pipe : ℤ → List Event → Bytes
pipe fd [] = []
pipe fd (wrote d text ∷ out) = let rest = pipe fd out in if d ==ℤ fd then text ++ rest else rest
pipe fd (e ∷ out) = pipe fd out

pub receive_frame :
    (t more garbage : Bytes)
    → Lacks 0 t
    → length t < length garbage
    → receive (record { reading = bytes (t ++ 0 ∷ more); garbage = garbage })
      ≡ running (pieces b' ' t)
unfolding receive
receive_frame t more garbage h fits = rw (terminated-overwrite t more garbage h fits)

-- When one `read` brings what `sendPacket` wrote to a FIFO and whatever was written to it afterwards,
-- the receiver has exactly the words of that first message, for all contents of its buffer
-- before: the packets behind the first are lost. The message has no NUL and fits the buffer.
pub receive-send_packet :
    (writes : ℤ → Bytes → Bool) (fd : ℤ) (type : PktType) (message garbage : Bytes)
    (later : List Event)
    → Lacks 0 message
    → length message < length garbage
    → receive (record {
      reading = bytes (pipe fd (send_packet writes fd type message ++ later));
      garbage = garbage;
    })
      ≡ running (pieces b' ' message)
unfolding send_packet
receive-send_packet writes fd type message garbage later h fits =
    elim (Bool-cases (writes fd (message ++ 0 ∷ []))) [
      | inl e ↦
          rw (e, ==ℤ_refl fd, append_assoc message (0 ∷ []) (pipe fd later))
            (receive_frame message (pipe fd later) garbage h fits)
      | inr e ↦
          rw (e, ==ℤ_refl fd, append_assoc message (0 ∷ []) (pipe fd later))
            (receive_frame message (pipe fd later) garbage h fits)
    ]
