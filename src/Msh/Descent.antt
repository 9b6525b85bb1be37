-- ===== src/Msh/Descent.antt =====
-- Assignment_1/msh379.cpp: the processes that `get_c_processes` prints, against the descendants of a
-- process.
use mathlib.Core.List.{Memᴰ}
use mathlib.Core.List.Memᴰ
use mathlib.Core.Path.{subst}
use cmput.Common.{
  ◌⊎◌, false, ℕ, zero, suc, ◌<◌, ◌≡◌, ◌↔◌, refl, sym, ◌∙◌, ap, inl, inr, List, [], ◌∷◌, ◌++◌,
  append_assoc, Option, some, arith, Bool-cases,
}
use cmput.Text.{Bytes, same, same_iff}
use cmput.Msh.Check.{Parent, process_line, Ranked, children_of, get_c_processes}

-- A process of the table with the parent `target`, or with a parent that descends from it.
pub data Descends (processes : List Parent) : Bytes → Parent → Type 0 where
  child :
      {target : Bytes} {p : Parent}
      → Memᴰ p processes
      → p.ppid ≡ target
      → Descends processes target p
  below :
      {target : Bytes} {p q : Parent}
      → Memᴰ q processes
      → q.ppid ≡ target
      → Descends processes q.pid p
      → Descends processes target p

abbrev pub process_lines : List Parent → Bytes
process_lines [] = []
process_lines (p ∷ ps) = process_line p ++ process_lines ps

process_lines-append :
    (ps qs : List Parent) → process_lines (ps ++ qs) ≡ process_lines ps ++ process_lines qs
process_lines-append [] qs = refl
process_lines-append (p ∷ ps) qs =
    ap (λ t. process_line p ++ t) (process_lines-append ps qs)
    ∙ sym (append_assoc (process_line p) (process_lines ps) (process_lines qs))

module _ (processes : List Parent) where
  -- `p` is one of `ps` with the parent `target`, or descends from one.
  abbrev Through : List Parent → Bytes → Parent → Type 0
  Through ps target p =
      (q : Parent) × Memᴰ q ps × (q.ppid ≡ target) × ((p ≡ q) ⊎ Descends processes q.pid p)

  -- A text of the lines of some processes, which are exactly those of a predicate.
  abbrev pub Prints : Option Bytes → (Parent → Type 0) → Type 0
  Prints printed P =
      (listed : List Parent) × (printed ≡ some (process_lines listed))
      × ((p : Parent) → Memᴰ p listed ↔ P p)

  Through-Descends :
      (target : Bytes) (p : Parent) → Through processes target p ↔ Descends processes target p
  Through-Descends target p = (to, from)
    where
      to : Through processes target p → Descends processes target p
      to (q, m, e, inl same) = child (Memᴰ.cast same m) (ap (λ (r : Parent). r.ppid) same ∙ e)
      to (q, m, e, inr d) = below m e d

      from : Descends processes target p → Through processes target p
      from (child m e) = (p, m, e, inl refl)
      from (below {q = q} m e d) = (q, m, e, inr d)

  module _ (rank : Bytes → ℕ) (target : Bytes) (call : Bytes → Option Bytes)
      (calls : (pid : Bytes)
        → rank pid < rank target
        → Prints (call pid) (Descends processes pid)) where
    skipped :
        (q p : Parent) (ps : List Parent)
        → same q.ppid target ≡ false
        → Through (q ∷ ps) target p
        → Through ps target p
    skipped q p ps other (r, Memᴰ.head f, e, d) =
        let mine = (same_iff q.ppid target).1 (sym (ap (λ (t : Parent). t.ppid) f) ∙ e) in
        absurd (cc (mine, other))
    skipped q p ps other (r, Memᴰ.tail m, e, d) = (r, m, e, d)

    widened : (q p : Parent) (ps : List Parent) → Through ps target p → Through (q ∷ ps) target p
    widened q p ps (r, m, e, d) = (r, Memᴰ.tail m, e, d)

    listed_iff :
        (q p : Parent) (ps under rest : List Parent)
        → q.ppid ≡ target
        → Memᴰ p under ↔ Descends processes q.pid p
        → Memᴰ p rest ↔ Through ps target p
        → Memᴰ p (q ∷ (under ++ rest)) ↔ Through (q ∷ ps) target p
    listed_iff q p ps under rest e u r = (to, from)
      where
        to : Memᴰ p (q ∷ (under ++ rest)) → Through (q ∷ ps) target p
        to (Memᴰ.head f) = (q, Memᴰ.head refl, e, inl f)
        to (Memᴰ.tail m) = elim (Memᴰ.append_cases under m) [
          | inl a ↦ (q, Memᴰ.head refl, e, inr (u.0 a))
          | inr b ↦ widened q p ps (r.0 b)
        ]

        from : Through (q ∷ ps) target p → Memᴰ p (q ∷ (under ++ rest))
        from (t, Memᴰ.head f, h, inl same) = Memᴰ.head (same ∙ f)
        from (t, Memᴰ.head f, h, inr d) =
            Memᴰ.tail
              (Memᴰ.append_left rest (u.1 (subst (λ (s : Parent). Descends processes s.pid p) f d)))
        from (t, Memᴰ.tail m, h, d) = Memᴰ.tail (Memᴰ.append_right under (r.1 (t, m, h, d)))

    children_of-Prints :
        (ps : List Parent)
        → Ranked rank ps
        → Prints (children_of call target ps) (Through ps target)
    unfolding children_of
    children_of-Prints [] h = ([], refl, λ p. (λ m. elim m [ ], λ t. elim t.1 [ ]))
    children_of-Prints (q ∷ ps) h =
        let (rest, e, r) = children_of-Prints ps h.1 in
        elim (Bool-cases (same q.ppid target)) [
          | inl mine ↦
              let parent = (same_iff q.ppid target).0 mine in
              let (under, f, u) = calls q.pid (subst (λ t. rank q.pid < rank t) parent h.0) in
              (
                q ∷ (under ++ rest),
                rw (mine, e, f, process_lines-append under rest)
                    (ap some
                      (append_assoc (process_line q) (process_lines under) (process_lines rest))),
                λ p. listed_iff q p ps under rest parent (u p) (r p),
              )
          | inr other ↦ (
            rest,
            rw (other, e),
            λ p. (λ m. widened q p ps ((r p).0 m), λ t. (r p).1 (skipped q p ps other t)),
          )
        ]

  -- Let each process of the table rank below its parent. With more fuel than the rank of a process, what
  -- `get_c_processes` prints for it are the lines of some processes, and these are exactly
  -- its descendants: a process is among them if and only if a chain of parents leads from it to that process.
  pub get_c_processes-Descends :
      (rank : Bytes → ℕ) (fuel : ℕ) (target : Bytes)
      → Ranked rank processes
      → rank target < fuel
      → Prints (get_c_processes fuel processes target) (Descends processes target)
  unfolding get_c_processes
  get_c_processes-Descends rank zero target h k = elim k [ ]
  get_c_processes-Descends rank (suc fuel) target h k =
      let (listed, e, r) =
        children_of-Prints rank target (get_c_processes fuel processes)
          (λ pid lower. get_c_processes-Descends rank fuel pid h (omega (arith, k, lower)))
          processes h in
      (
        listed,
        e,
        λ p. let t = Through-Descends target p in (λ m. t.0 ((r p).0 m), λ d. (r p).1 (t.1 d)),
      )
