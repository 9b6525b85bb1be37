-- ===== src/Process/Sent.antt =====
-- The writes of a process: what goes to other processes.
use cmput.Common.{◌≡◌, refl, sym, ◌∙◌, ap, List, [], ◌∷◌, ◌++◌, append_assoc, ℤ}
use cmput.Text.{Bytes}
use cmput.Process.{Event, wrote}

abbrev pub sent_by : Event → List (ℤ × Bytes)
sent_by (wrote fd text) = (fd, text) ∷ []
sent_by _ = []

-- The writes among the events.
abbrev pub sent : List Event → List (ℤ × Bytes)
sent [] = []
sent (e ∷ out) = sent_by e ++ sent out

pub sent-append : (out es : List Event) → sent (out ++ es) ≡ sent out ++ sent es
sent-append [] es = refl
sent-append (e ∷ out) es =
    ap (λ tail. sent_by e ++ tail) (sent-append out es)
    ∙ sym (append_assoc (sent_by e) (sent out) (sent es))
