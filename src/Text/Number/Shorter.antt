-- ===== src/Text/Number/Shorter.antt =====
-- What `stream >> int` consumes: a byte at least, so that a loop over it ends.
use cmput.Common.{
  ℕ, ◌+◌, ◌-◌, ◌*◌, ◌≤◌, ◌<◌, ◌≡◌, true, false, [], ◌∷◌, Option, none, some, arith, ℤ, pos, negsuc,
  neg_ℕ, length,
}
use cmput.Text.{Bytes, skip_space}
use cmput.Text.Number.{scan_digits, scan_signed, scan_number, read_int, map_value, in_range}

scan_digits_seen :
    (s : Bytes) (acc n : ℕ) (rest : Bytes)
    → scan_digits acc true s ≡ some (n, rest)
    → length rest ≤ length s
unfolding scan_digits
scan_digits_seen [] acc n rest h = ground arith
scan_digits_seen (c ∷ s) acc n rest h =
    ground (arith, scan_digits_seen s (acc * 10 + (c - b'0')) n rest)

scan_digits_unseen :
    (s : Bytes) (acc n : ℕ) (rest : Bytes)
    → scan_digits acc false s ≡ some (n, rest)
    → length rest < length s
scan_digits_unseen [] acc n rest h = unfold scan_digits in cc
scan_digits_unseen (c ∷ s) acc n rest h =
    unfold scan_digits in ground (arith, scan_digits_seen s (acc * 10 + (c - b'0')) n rest)

map_value_inv :
    (f : ℕ → ℤ) (o : Option (ℕ × Bytes)) (z : ℤ) (rest : Bytes)
    → map_value f o ≡ some (z, rest)
    → (n : ℕ) × (o ≡ some (n, rest))
map_value_inv f none z rest h = cc
map_value_inv f (some (n, r)) z rest h = (n, ground arith)

mapped_shorter :
    (f : ℕ → ℤ) (s : Bytes) (z : ℤ) (rest : Bytes)
    → map_value f (scan_digits 0 false s) ≡ some (z, rest)
    → length rest < length s
mapped_shorter f s z rest h =
    let (n, e) = map_value_inv f (scan_digits 0 false s) z rest h in scan_digits_unseen s 0 n rest e

scan_signed_shorter :
    (s : Bytes) (z : ℤ) (rest : Bytes) → scan_signed s ≡ some (z, rest) → length rest < length s
unfolding scan_signed
scan_signed_shorter [] z rest h = cc
scan_signed_shorter (c ∷ s) z rest h = ground (
  arith,
  mapped_shorter neg_ℕ s z rest,
  mapped_shorter pos s z rest,
  mapped_shorter pos (c ∷ s) z rest,
)

skip_space_le : (s : Bytes) → length (skip_space s) ≤ length s
unfolding skip_space
skip_space_le [] = omega arith
skip_space_le (c ∷ s) = ground (arith, skip_space_le s)

in_range_inv :
    (o : Option (ℤ × Bytes)) (z : ℤ) (rest : Bytes)
    → in_range o ≡ some (z, rest)
    → o ≡ some (z, rest)
in_range_inv none z rest h = h
in_range_inv (some (pos n, r)) z rest h = ground arith
in_range_inv (some (negsuc n, r)) z rest h = ground arith

pub read_int_shorter :
    (s : Bytes) {z : ℤ} {rest : Bytes} → read_int s ≡ some (z, rest) → length rest < length s
read_int_shorter s {z} {rest} h = omega (
  arith,
  scan_signed_shorter (skip_space s) z rest
      (unfold scan_number in in_range_inv (scan_number s) z rest (unfold read_int in h)),
  skip_space_le s,
)
