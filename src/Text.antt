-- ===== src/Text.antt =====
-- What the programs use of the C++ library on text: `std::string` operations, `isspace`, the
-- tokenisers built from `istream_iterator<string>` and `getline`, and C strings in a byte buffer.
-- A text is the list of its bytes. The programs' own routines are in the modules that name them.
pub mod Number
pub mod Buffer
pub mod Pieces
use Prim.Native.Char.{code}
use Prim.Native.String.{String}
use cmput.Common.{
  ℕ, suc, ◌≡◌, refl, ◌↔◌, Bool, true, false, ◌&&◌, ◌||◌, List, [], ◌∷◌, ◌++◌, Option, none, some,
  arith, ◌==◌, leb, if◌then◌else◌, length, take, drop, All, ◌≢◌,
}
use mathlib.Core.Option

abbrev pub Bytes : Type 0
Bytes = List ℕ

-- The code points of a literal: its bytes, when the text is ASCII.
abbrev pub codes : String → Bytes
codes String.[] = []
codes (String.◌∷◌ c s) = code c ∷ codes s

-- `==` on strings.
unfoldable pub same : Bytes → Bytes → Bool
same [] [] = true
same (x ∷ xs) (y ∷ ys) = x == y && same xs ys
same _ _ = false

-- `isspace` in the C locale.
abbrev pub is_space : ℕ → Bool
is_space c = c == 32 || (leb 9 c && leb c 13)

-- `s.find(c)`, with `none` for `npos`.
unfoldable pub find_char : ℕ → Bytes → Option ℕ
find_char c [] = none
find_char c (x ∷ s) = if x == c then some 0 else Option.map suc (find_char c s)

-- `s.substr(0, s.find(c))`
unfoldable pub before : ℕ → Bytes → Bytes
before c s = elim (find_char c s) [ none ↦ s | some i ↦ take i s ]

-- `s.substr(s.find(c) + 1)`: `npos + 1` is 0, so without `c` it is the whole text.
unfoldable pub after : ℕ → Bytes → Bytes
after c s = elim (find_char c s) [ none ↦ s | some i ↦ drop (suc i) s ]

abbrev pub flush : Bytes → List Bytes → List Bytes
flush [] rest = rest
flush (c ∷ cur) rest = (c ∷ cur) ∷ rest

-- The words that `istream_iterator<string>` reads; `cur` is the word begun.
unfoldable pub words_from : Bytes → Bytes → List Bytes
words_from cur [] = flush cur []
words_from cur (c ∷ s) =
    let fresh = words_from [] s in
    let longer = words_from (cur ++ c ∷ []) s in if is_space c then flush cur fresh else longer

unfoldable pub words : Bytes → List Bytes
unfolding words_from
words = words_from []

-- The pieces of `while (getline(ss, piece, sep))`: an empty piece at the end is not one.
unfoldable pub pieces_from : ℕ → Bytes → Bytes → List Bytes
pieces_from sep cur [] = flush cur []
pieces_from sep cur (c ∷ s) =
    let fresh = cur ∷ pieces_from sep [] s in
    let longer = pieces_from sep (cur ++ c ∷ []) s in if c == sep then fresh else longer

unfoldable pub pieces : ℕ → Bytes → List Bytes
unfolding pieces_from
pieces sep = pieces_from sep []

unfoldable pub skip_space : Bytes → Bytes
skip_space [] = []
skip_space (c ∷ s) = if is_space c then skip_space s else c ∷ s

-- A C string in a buffer: the bytes before the first NUL.
unfoldable pub c_string : Bytes → Bytes
c_string [] = []
c_string (c ∷ s) = if c == 0 then [] else c ∷ c_string s

-- `read(fd, buffer, n)`: what arrives overwrites the front of the buffer and leaves the rest.
unfoldable pub overwrite : Bytes → Bytes → Bytes
overwrite [] buffer = buffer
overwrite (c ∷ s) [] = []
overwrite (c ∷ s) (b ∷ buffer) = c ∷ overwrite s buffer

abbrev pub Lacks : ℕ → Bytes → Type 0
Lacks c = All (λ x. x ≢ c)

pub find_char-append :
    (c : ℕ) (p rest : Bytes) → Lacks c p → find_char c (p ++ c ∷ rest) ≡ some (length p)
unfolding find_char
find_char-append c [] rest h = ground arith
find_char-append c (x ∷ p) rest h = ground (arith, find_char-append c p rest h.1)

take-length : (p rest : Bytes) → take (length p) (p ++ rest) ≡ p
take-length [] rest = refl
take-length (x ∷ p) rest = ground (arith, take-length p rest)

drop-length : (p rest : Bytes) (c : ℕ) → drop (suc (length p)) (p ++ c ∷ rest) ≡ rest
drop-length [] rest c = refl
drop-length (x ∷ p) rest c = drop-length p rest c

pub before-append : (c : ℕ) (p rest : Bytes) → Lacks c p → before c (p ++ c ∷ rest) ≡ p
unfolding before
before-append c p rest h = rw (find_char-append c p rest h, before) (take-length p (c ∷ rest))

pub after-append : (c : ℕ) (p rest : Bytes) → Lacks c p → after c (p ++ c ∷ rest) ≡ rest
unfolding after
after-append c p rest h = rw (find_char-append c p rest h, after) (drop-length p rest c)

pub same_iff : (xs ys : Bytes) → (same xs ys ≡ true) ↔ (xs ≡ ys)
unfolding same
same_iff [] [] = ground arith
same_iff [] (y ∷ ys) = ground arith
same_iff (x ∷ xs) [] = ground arith
same_iff (x ∷ xs) (y ∷ ys) = ground (arith, same_iff xs ys)

pub same_refl : (xs : Bytes) → same xs xs ≡ true
same_refl xs = (same_iff xs xs).1 refl
