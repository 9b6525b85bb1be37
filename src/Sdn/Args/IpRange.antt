-- ===== src/Sdn/Args/IpRange.antt =====
-- test2/a3sdn.cpp: which ranges `parseIpRange` returns.
use cmput.Common.{
  ℕ, zero, suc, ◌≡◌, inl, inr, Bool, false, List, [], ◌∷◌, ℤ, pos, ltb_ℤ, ◌≤ℤ◌, arith, Bool-cases,
}
use cmput.Text.{Bytes, pieces}
use cmput.Text.Number.{strtol, to_int}
use cmput.Process.{running}
use cmput.Process.Ensures.{Ensures, runs, exits, bind-Ensures, Ensures-running}
use cmput.Sdn.Args.{checked_ip, invalid_ip, read_bound, read_bounds, check_order, parse_ip_range}

abbrev pub IsAddress : ℤ → Type 0
IsAddress ip = (pos 0 ≤ℤ ip) × (ip ≤ℤ pos 1000)

abbrev Bounds : ℤ × ℤ → Type 0
Bounds (low, high) = IsAddress low × IsAddress high

valid_ip : (ip : ℤ) (errno : Bool) → invalid_ip ip errno ≡ false → IsAddress ip
valid_ip ip errno h = ground arith

checked_ip-Ensures : (token : Bytes) → Ensures IsAddress (checked_ip token)
unfolding checked_ip
checked_ip-Ensures token =
    let (value, errno) = strtol token in
    let ip = to_int value in
    elim (Bool-cases (invalid_ip ip errno)) [
      | inl bad ↦ rw bad exits
      | inr good ↦ rw good (runs (valid_ip ip errno good))
    ]

read_bound-Ensures :
    (i : ℕ) (low high : ℤ) (token : Bytes)
    → Bounds (low, high)
    → Ensures Bounds (read_bound i low high token)
unfolding read_bound
read_bound-Ensures zero low high token b =
    bind-Ensures (checked_ip-Ensures token) λ ip h. runs (h, b.1)
read_bound-Ensures (suc zero) low high token b =
    bind-Ensures (checked_ip-Ensures token) λ ip h. runs (b.0, h)
read_bound-Ensures (suc (suc i)) low high token b = runs b

read_bounds-Ensures :
    (i : ℕ) (low high : ℤ) (tokens : List Bytes)
    → Bounds (low, high)
    → Ensures Bounds (read_bounds i low high tokens)
unfolding read_bounds
read_bounds-Ensures i low high [] b = runs b
read_bounds-Ensures i low high ([] ∷ tokens) b = exits
read_bounds-Ensures i low high ((c ∷ token) ∷ tokens) b =
    bind-Ensures (read_bound-Ensures i low high (c ∷ token) b)
      λ bounds h. read_bounds-Ensures (suc i) bounds.0 bounds.1 tokens h

abbrev IsRange : ℤ × ℤ → Type 0
IsRange (low, high) = IsAddress low × IsAddress high × (low ≤ℤ high)

check_order-Ensures : (b : ℤ × ℤ) → Bounds b → Ensures IsRange (check_order b)
unfolding check_order
check_order-Ensures (low, high) b = elim (Bool-cases (ltb_ℤ high low)) [
  | inl bad ↦ rw bad exits
  | inr good ↦ rw good (runs (b.0, b.1, ground arith))
]

-- A range that is accepted has both bounds in 0 to 1000, the lower one not above the other.
pub parse_ip_range-IsRange :
    (input : Bytes) (low high : ℤ)
    → parse_ip_range input ≡ running (low, high)
    → IsAddress low × IsAddress high × (low ≤ℤ high)
unfolding parse_ip_range
parse_ip_range-IsRange input low high e = Ensures-running {P = IsRange} e (
    bind-Ensures (read_bounds-Ensures 0 (pos 0) (pos 0) (pieces b'-' input) (omega arith))
      check_order-Ensures)
