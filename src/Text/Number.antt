-- ===== src/Text/Number.antt =====
-- Numbers as text: `to_string`, `stream >> int`, `stoi` and `strtol`. An `int` has 32 bits, a
-- `long` 64.
pub mod Shorter
pub mod Length
use cmput.Common.{
  append-nil, ℕ, zero, suc, ◌+◌, ◌-◌, ◌*◌, ◌/◌, ◌%◌, ◌^◌, ◌<◌, ◌≡◌, ◌≢◌, refl, inl, inr, Bool, true,
  false, ◌&&◌, [], ◌∷◌, ◌++◌, Option, none, some, arith, ltb, leb, ◌==◌, if◌then◌else◌, ℤ, pos,
  negsuc, neg_ℕ, int_max, IsInt, Bool-cases,
}
use mathlib.Core.Path.{subst}
use cmput.Text.{Bytes, skip_space, Lacks}

abbrev pub is_digit : ℕ → Bool
is_digit c = leb b'0' c && leb c b'9'

-- The decimal digits of `n` in front of `out`. `n < fuel` is enough.
print_digits : ℕ → ℕ → Bytes → Bytes
print_digits zero n out = out
print_digits (suc f) n out =
    let rest = print_digits f (n / 10) ((b'0' + n % 10) ∷ out) in
    if ltb n 10 then (b'0' + n) ∷ out else rest

unfoldable pub print_nat : ℕ → Bytes
unfolding print_digits
print_nat n = print_digits (suc n) n []

unfoldable pub to_string : ℤ → Bytes
unfolding print_nat
to_string (pos n) = print_nat n
to_string (negsuc n) = b'-' ∷ print_nat (suc n)

-- The digits at the front, after `acc`; `seen` tells whether there was one already.
unfoldable pub scan_digits : ℕ → Bool → Bytes → Option (ℕ × Bytes)
scan_digits acc seen [] = if seen then some (acc, []) else none
scan_digits acc seen (c ∷ s) =
    let more = scan_digits (acc * 10 + (c - b'0')) true s in
    if is_digit c then more else if seen then some (acc, c ∷ s) else none

abbrev pub map_value : (ℕ → ℤ) → Option (ℕ × Bytes) → Option (ℤ × Bytes)
map_value f none = none
map_value f (some (n, rest)) = some (f n, rest)

unfoldable pub scan_signed : Bytes → Option (ℤ × Bytes)
unfolding scan_digits
scan_signed [] = none
scan_signed (c ∷ s) =
    if c == b'-'
    then map_value neg_ℕ (scan_digits 0 false s)
    else if c == b'+'
    then map_value pos (scan_digits 0 false s)
    else map_value pos (scan_digits 0 false (c ∷ s))

-- White space, a sign, digits: the number and what follows it, with no bound.
unfoldable pub scan_number : Bytes → Option (ℤ × Bytes)
unfolding scan_signed skip_space
scan_number s = scan_signed (skip_space s)

abbrev pub is_int : ℤ → Bool
is_int (pos n) = leb n int_max
is_int (negsuc n) = leb n int_max

abbrev pub in_range : Option (ℤ × Bytes) → Option (ℤ × Bytes)
in_range none = none
in_range (some (z, rest)) = if is_int z then some (z, rest) else none

-- `stream >> i`: it fails without digits and beyond the range of `int`.
unfoldable pub read_int : Bytes → Option (ℤ × Bytes)
unfolding scan_number
read_int s = in_range (scan_number s)

-- `stoi`; `none` is the exception `invalid_argument` or `out_of_range`.
unfoldable pub stoi : Bytes → Option ℤ
unfolding read_int
stoi s = elim (read_int s) [ none ↦ none | some (z, rest) ↦ some z ]

-- `strtol(s, nullptr, 10)` with whether `errno` is set: 0 without digits, clamped out of range.
unfoldable pub strtol : Bytes → ℤ × Bool
unfolding scan_number
strtol s = elim (scan_number s) [
  | none ↦ (pos 0, false)
  | some (pos n, rest) ↦ if ltb n (2 ^ 63) then (pos n, false) else (pos (2 ^ 63 - 1), true)
  | some (negsuc n, rest) ↦
      if ltb n (2 ^ 63) then (negsuc n, false) else (negsuc (2 ^ 63 - 1), true)
]

-- The `int` that a residue modulo 2^32 stands for.
abbrev int_of_residue : ℕ → ℤ
int_of_residue r = if ltb r (2 ^ 31) then pos r else negsuc (2 ^ 32 - 1 - r)

-- `(int) v` of a `long`.
unfoldable pub to_int : ℤ → ℤ
to_int (pos n) = int_of_residue (n % 2 ^ 32)
to_int (negsuc n) = int_of_residue (2 ^ 32 - 1 - n % 2 ^ 32)

unfoldable pub atoi : Bytes → ℤ
unfolding strtol to_int
atoi text = to_int (strtol text).0

-- The text does not go on with a digit.
abbrev pub Ends : Bytes → Type 0
Ends [] = Unit {0}
Ends (c ∷ s) = is_digit c ≡ false

print_digits-append :
    (f n : ℕ) (out rest : Bytes) → print_digits f n out ++ rest ≡ print_digits f n (out ++ rest)
unfolding print_digits
print_digits-append zero n out rest = refl
print_digits-append (suc f) n out rest =
    ground (arith, print_digits-append f (n / 10) ((b'0' + n % 10) ∷ out) rest)

-- Reading what `print_digits` wrote leaves the value read and what stood behind.
scan_digits-print_digits :
    (f n : ℕ) (out : Bytes)
    → n < f
    → scan_digits 0 false (print_digits f n out) ≡ scan_digits n true out
unfolding print_digits
scan_digits-print_digits zero n out h = elim h [ ]
scan_digits-print_digits (suc f) n out h = elim (Bool-cases (ltb n 10)) [
  | inl small ↦ rw small (unfold scan_digits in ground arith)
  | inr big ↦
      rw (big, scan_digits-print_digits f (n / 10) ((b'0' + n % 10) ∷ out) (ground arith))
        (unfold scan_digits in ground arith)
]

scan_digits_end : (n : ℕ) (rest : Bytes) → Ends rest → scan_digits n true rest ≡ some (n, rest)
unfolding scan_digits
scan_digits_end n [] h = refl
scan_digits_end n (c ∷ s) h = ground arith

scan_digits-print_nat :
    (n : ℕ) (rest : Bytes) → Ends rest → scan_digits 0 false (print_nat n ++ rest) ≡ some (n, rest)
unfolding print_nat
scan_digits-print_nat n rest h =
    rw (print_digits-append, scan_digits-print_digits (suc n) n rest (omega arith))
      (scan_digits_end n rest h)

print_digits_head :
    (f n : ℕ) (out : Bytes)
    → n < f
    → (c : ℕ) × (s : Bytes) × (print_digits f n out ≡ c ∷ s) × (is_digit c ≡ true)
unfolding print_digits
print_digits_head zero n out h = elim h [ ]
print_digits_head (suc f) n out h = elim (Bool-cases (ltb n 10)) [
  | inl small ↦ (b'0' + n, out, rw small, ground arith)
  | inr big ↦ rw big (print_digits_head f (n / 10) ((b'0' + n % 10) ∷ out) (ground arith))
]

-- A printed number begins with a digit.
print_nat_head : (n : ℕ) → (c : ℕ) × (s : Bytes) × (print_nat n ≡ c ∷ s) × (is_digit c ≡ true)
unfolding print_nat
print_nat_head n = print_digits_head (suc n) n [] (omega arith)

scan_number_digit :
    (c : ℕ) (s : Bytes)
    → is_digit c ≡ true
    → scan_number (c ∷ s) ≡ map_value pos (scan_digits 0 false (c ∷ s))
unfolding scan_number
scan_number_digit c s h = ground arith

scan_number_minus : (s : Bytes) → scan_number (b'-' ∷ s) ≡ map_value neg_ℕ (scan_digits 0 false s)
unfolding scan_number
scan_number_minus s = refl

pub scan_number-to_string :
    (z : ℤ) (rest : Bytes) → Ends rest → scan_number (to_string z ++ rest) ≡ some (z, rest)
unfolding to_string
scan_number-to_string (negsuc n) rest h =
    rw (scan_number_minus, scan_digits-print_nat (suc n) rest h)
scan_number-to_string (pos n) rest h =
    let (c, s, e, d) = print_nat_head n in
    let step : scan_number (print_nat n ++ rest)
        ≡ map_value pos (scan_digits 0 false (print_nat n ++ rest)) =
      rw e (scan_number_digit c (s ++ rest) d) in
    rw (step, scan_digits-print_nat n rest h)

-- Every `int` is read back from its print, and the stream stands behind it.
pub read_int-to_string :
    (z : ℤ) (rest : Bytes) → IsInt z → Ends rest → read_int (to_string z ++ rest) ≡ some (z, rest)
unfolding read_int
read_int-to_string z rest fits h = rw (scan_number-to_string z rest h) (in_range_lem z rest fits)
  where
    in_range_lem : (z : ℤ) (rest : Bytes) → IsInt z → in_range (some (z, rest)) ≡ some (z, rest)
    in_range_lem (pos n) rest fits = ground arith
    in_range_lem (negsuc n) rest fits = ground arith

print_digits-Lacks :
    (c f n : ℕ) (out : Bytes) → is_digit c ≡ false → Lacks c out → Lacks c (print_digits f n out)
unfolding print_digits
print_digits-Lacks c zero n out h l = l
print_digits-Lacks c (suc f) n out h l = elim (Bool-cases (ltb n 10)) [
  | inl small ↦ rw small (ground arith, l)
  | inr big ↦ rw big (print_digits-Lacks c f (n / 10) ((b'0' + n % 10) ∷ out) h (ground arith, l))
]

-- A printed number has no other characters than digits, and a sign in front if it is negative.
pub digits-Lacks : (c n : ℕ) → is_digit c ≡ false → Lacks c (to_string (pos n))
unfolding to_string print_nat
digits-Lacks c n h = print_digits-Lacks c (suc n) n [] h tt

pub to_string-Lacks : (c : ℕ) (z : ℤ) → is_digit c ≡ false → c ≢ b'-' → Lacks c (to_string z)
unfolding to_string print_nat
to_string-Lacks c (pos n) h k = print_digits-Lacks c (suc n) n [] h tt
to_string-Lacks c (negsuc n) h k =
    (ground arith, print_digits-Lacks c (suc (suc n)) (suc n) [] h tt)

-- `stoi` reads what `to_string` wrote.
pub stoi-to_string : (pid : ℤ) → IsInt pid → stoi (to_string pid) ≡ some pid
unfolding stoi
stoi-to_string pid h =
    let e : read_int (to_string pid) ≡ some (pid, []) =
      subst (λ text. read_int text ≡ some (pid, [])) (append-nil (to_string pid))
        (read_int-to_string pid [] h tt) in
    rw (stoi, e)

-- A printed number is not empty.
pub to_string_head : (z : ℤ) → (c : ℕ) × (s : Bytes) × (to_string z ≡ c ∷ s)
unfolding to_string
to_string_head (pos n) = let (c, s, e, d) = print_nat_head n in (c, s, e)
to_string_head (negsuc n) = (b'-', print_nat (suc n), refl)
