-- ===== src/Text/Buffer.antt =====
-- C strings in a receive buffer, which is cleared by `memset` or not initialised.
use mathlib.Core.Option
use cmput.Common.{
  ap, ◌∙◌, append-nil, Option, none, some, if◌then◌else◌, ◌==◌, ℕ, zero, suc, ◌+◌, ◌≤◌, ◌<◌, ◌≡◌,
  refl, [], ◌∷◌, ◌++◌, arith, length, drop,
}
use cmput.Text.{Bytes, c_string, overwrite, Lacks}

-- `memset(buffer, 0, n)`
unfoldable pub zeroes : ℕ → Bytes
zeroes zero = []
zeroes (suc n) = 0 ∷ zeroes n

-- `string(buffer)`: the bytes before the first NUL, `none` where there is none.
unfoldable pub terminated : Bytes → Option Bytes
terminated [] = none
terminated (c ∷ s) = if c == 0 then some [] else Option.map (λ t. c ∷ t) (terminated s)

c_string-zeroes : (t : Bytes) (n : ℕ) → Lacks 0 t → 1 ≤ n → c_string (t ++ zeroes n) ≡ t
unfolding c_string zeroes
c_string-zeroes [] zero h k = absurd (omega arith)
c_string-zeroes [] (suc n) h k = refl
c_string-zeroes (c ∷ t) n h k = ground (arith, c_string-zeroes t n h.1 k)

pub c_string-overwrite :
    (b t : Bytes) (n : ℕ)
    → Lacks 0 b
    → Lacks 0 t
    → length b < length t + n
    → 1 ≤ n
    → c_string (overwrite b (t ++ zeroes n)) ≡ b ++ drop (length b) t
unfolding c_string overwrite zeroes
c_string-overwrite [] t n h k fits pos = c_string-zeroes t n k pos
c_string-overwrite (c ∷ b) [] zero h k fits pos = absurd (omega arith)
c_string-overwrite (c ∷ []) [] (suc zero) h k fits pos = absurd (omega arith)
c_string-overwrite (c ∷ x ∷ b) [] (suc zero) h k fits pos = absurd (omega arith)
c_string-overwrite (c ∷ b) [] (suc (suc n)) h k fits pos =
    ground (
      arith,
      c_string-overwrite b [] (suc n) h.1 tt (omega arith) (omega arith),
      drop-nil (length b),
    )
  where
    drop-nil : (m : ℕ) → drop {A = ℕ} m [] ≡ []
    drop-nil zero = refl
    drop-nil (suc m) = refl
c_string-overwrite (c ∷ b) (x ∷ t) n h k fits pos =
    ground (arith, c_string-overwrite b t n h.1 k.1 (omega arith) pos)

pub terminated-overwrite :
    (t more garbage : Bytes)
    → Lacks 0 t
    → length t < length garbage
    → terminated (overwrite (t ++ 0 ∷ more) garbage) ≡ some t
unfolding terminated overwrite
terminated-overwrite [] more [] h fits = absurd (omega arith)
terminated-overwrite [] more (g ∷ garbage) h fits = refl
terminated-overwrite (c ∷ t) more [] h fits = absurd (omega arith)
terminated-overwrite (c ∷ t) more (g ∷ garbage) h fits =
    ground (arith, terminated-overwrite t more garbage h.1 (omega arith))

pub terminated-zeroes :
    (t : Bytes) (n : ℕ) → Lacks 0 t → length t < n → terminated (overwrite t (zeroes n)) ≡ some t
unfolding terminated overwrite zeroes
terminated-zeroes [] zero h k = absurd (omega arith)
terminated-zeroes [] (suc n) h k = refl
terminated-zeroes (c ∷ t) zero h k = absurd (omega arith)
terminated-zeroes (c ∷ t) (suc n) h k = ground (arith, terminated-zeroes t n h.1 (omega arith))

-- A text that is read into a cleared buffer.
pub c_string-zeroed :
    (b : Bytes) (n : ℕ) → Lacks 0 b → length b < n → c_string (overwrite b (zeroes n)) ≡ b
c_string-zeroed b n h fits =
    c_string-overwrite b [] n h tt (omega (arith, fits)) (omega (arith, fits))
    ∙ (ap (λ r. b ++ r) (drop_nil (length b)) ∙ append-nil b)
  where
    drop_nil : (m : ℕ) → drop {A = ℕ} m [] ≡ []
    drop_nil zero = refl
    drop_nil (suc m) = refl
