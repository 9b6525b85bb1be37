-- ===== src/Text/Pieces.antt =====
-- The pieces of a text between separators, read back from the text that was put together.
use cmput.Common.{ℕ, ◌≡◌, [], ◌∷◌, ◌++◌, append_assoc, append-nil, arith}
use cmput.Text.{Bytes, flush, pieces_from, pieces, Lacks}

pieces_from-append :
    (sep : ℕ) (cur p rest : Bytes)
    → Lacks sep p
    → pieces_from sep cur (p ++ sep ∷ rest) ≡ (cur ++ p) ∷ pieces_from sep [] rest
unfolding pieces_from
pieces_from-append sep cur [] rest h = rw append-nil (ground arith)
pieces_from-append sep cur (x ∷ p) rest h =
    ground (arith, pieces_from-append sep (cur ++ x ∷ []) p rest h.1, append_assoc cur (x ∷ []) p)

-- The first piece, up to a separator.
pub pieces-append :
    (sep : ℕ) (p rest : Bytes) → Lacks sep p → pieces sep (p ++ sep ∷ rest) ≡ p ∷ pieces sep rest
unfolding pieces
pieces-append sep p rest h = pieces_from-append sep [] p rest h

pieces_from-whole :
    (sep : ℕ) (cur p : Bytes) → Lacks sep p → pieces_from sep cur p ≡ flush (cur ++ p) []
unfolding pieces_from
pieces_from-whole sep cur [] h = rw append-nil
pieces_from-whole sep cur (x ∷ p) h =
    ground (arith, pieces_from-whole sep (cur ++ x ∷ []) p h.1, append_assoc cur (x ∷ []) p)

-- A text without a separator is one piece.
pub pieces-whole : (sep c : ℕ) (p : Bytes) → Lacks sep (c ∷ p) → pieces sep (c ∷ p) ≡ (c ∷ p) ∷ []
unfolding pieces
pieces-whole sep c p h = pieces_from-whole sep [] (c ∷ p) h
