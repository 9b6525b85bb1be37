-- ===== src/Sdn/Packet/Parse.antt =====
-- The loop of `parsePacketMessage` (test2/util.cpp) ends by its own test, not for want of fuel.
use cmput.Common.{
  inl, inr, ℕ, zero, suc, ◌≤◌, ◌<◌, ◌≡◌, ap, List, [], ◌∷◌, Option, none, some, arith, ℤ, length,
  Option-cases,
}
use cmput.Text.{Bytes}
use cmput.Text.Number.{read_int}
use cmput.Text.Number.Shorter.{read_int_shorter}
use cmput.Sdn.Packet.{skip_comma, read_ints, parse_packet_message}

skip_comma_le : (s : Bytes) → length (skip_comma s) ≤ length s
unfolding skip_comma
skip_comma_le [] = omega arith
skip_comma_le (c ∷ s) = ground arith

-- What one round does, with the rest of the loop as a function.
abbrev pub round_of : (Bytes → List ℤ) → Option (ℤ × Bytes) → List ℤ
round_of rest_of_loop none = []
round_of rest_of_loop (some (i, rest)) = i ∷ rest_of_loop (skip_comma rest)

read_ints_round : (f : ℕ) (s : Bytes) → read_ints (suc f) s ≡ round_of (read_ints f) (read_int s)
unfolding read_ints
read_ints_round f s = ground arith

read_ints_enough :
    (f g : ℕ) (s : Bytes) → length s < f → length s < g → read_ints f s ≡ read_ints g s
read_ints_enough zero g s h k = elim h [ ]
read_ints_enough (suc f) zero s h k = elim k [ ]
read_ints_enough (suc f) (suc g) s h k = elim (Option-cases (read_int s)) [
  | inl e ↦ rw (read_ints_round f s, read_ints_round g s, e)
  | inr ((i, rest), e) ↦
      rw (read_ints_round f s, read_ints_round g s, e)
        (ap (λ r. i ∷ r)
          (read_ints_enough f g (skip_comma rest)
            (omega (arith, read_int_shorter s e, skip_comma_le rest))
            (omega (arith, read_int_shorter s e, skip_comma_le rest))))
]

-- The parser of a packet's numbers satisfies the equation of the loop in the source: read a number,
-- stop if there is none, drop one comma behind it, and go on; so the fuel in its definition never
-- runs out.
pub parse_packet_message_loop :
    (s : Bytes) → parse_packet_message s ≡ round_of parse_packet_message (read_int s)
unfolding parse_packet_message
parse_packet_message_loop s = elim (Option-cases (read_int s)) [
  | inl e ↦ rw (read_ints_round (length s) s, e)
  | inr ((i, rest), e) ↦
      rw (read_ints_round (length s) s, e)
        (ap (λ r. i ∷ r)
          (read_ints_enough (length s) (suc (length (skip_comma rest))) (skip_comma rest)
            (omega (arith, read_int_shorter s e, skip_comma_le rest)) (omega arith)))
]
