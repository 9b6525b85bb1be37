-- ===== src/ProdCon/Places.antt =====
-- Assignment_2/f22/main.cpp: where each command is, by its number.
pub mod Runs
use cmput.Common.{
  ℕ, ◌+◌, ◌≡◌, refl, sym, ap, inl, inr, List, [], ◌∷◌, ◌++◌, ◌==◌, if◌then◌else◌, leb, pos, length,
  arith, Bool-cases,
}
use cmput.Text.{Bytes, codes}
use cmput.Process.{Event, worked, printed, idled}
use cmput.ProdCon.{take_line, read_line, produce, pop, receive, complete, consume}
use cmput.ProdCon.State.{
  Shared, ProducerAt, starting, reading, finishing, closing, ended, pushing, parked, Producer,
  ConsumerAt, created, checking, asking, sleeping, left, taken, busy, Consumer,
}
use cmput.ProdCon.Log.{second, digit, producer_log}
use cmput.ProdCon.Counts.{sum, sum-append, Leads, leads, stays, breaks, if-Leads}

abbrev pub all_of {ℓ} : {A : Type ℓ} → (A → ℕ) → List A → ℕ
all_of f [] = 0
all_of f (x ∷ xs) = f x + all_of f xs

all_of-append {ℓ} :
    {A : Type ℓ} (f : A → ℕ) (xs ys : List A) → all_of f (xs ++ ys) ≡ all_of f xs + all_of f ys
all_of-append f [] ys = omega arith
all_of-append f (x ∷ xs) ys = omega (arith, all_of-append f xs ys)

module _ (f : ℕ → ℕ) where
  -- A command, by its number `command[1]`
  abbrev pub by_number : Bytes → ℕ
  by_number [] = 0
  by_number (c ∷ []) = f 0
  by_number (c ∷ d ∷ command) = f d

  -- A line of the input, if it is a transaction
  abbrev pub by_work : Bytes → ℕ
  by_work [] = 0
  by_work (c ∷ command) = if c == b'T' then by_number (c ∷ command) else 0

  -- The command that the producer holds
  abbrev pub producer_has : ProducerAt → ℕ
  producer_has (pushing command) = by_number command
  producer_has (parked command) = by_number command
  producer_has at = 0

  -- The command that a consumer has taken and not begun
  abbrev pub consumer_has : ConsumerAt → ℕ
  consumer_has (taken command) = by_number command
  consumer_has at = 0

  abbrev pub has : Consumer → ℕ
  has c = consumer_has c.at

  -- A call of `Trans`
  abbrev pub by_event : Event → ℕ
  by_event (worked (pos n)) = f n
  by_event e = 0

  module _ (n : ℕ) where
    abbrev pub Balance : List Bytes → ProducerAt → Shared → List Consumer → Type 0
    Balance lines at g cs =
        n
        ≡ all_of by_work lines
          + (producer_has at + (all_of by_number g.buffer + (sum has cs + all_of by_event g.out)))

    module _ (cs : List Consumer) where
      abbrev Produced : Producer × Shared → Type 0
      Produced (p, g) = Balance p.lines p.at g cs

      take_line-Balance :
          (time : Bytes) (first c : ℕ) (command : Bytes) (rest : List Bytes) (g : Shared)
          → Balance ((first ∷ command) ∷ rest) reading g cs
          → Balance rest
              (take_line time first c (first ∷ command) g).0
              (take_line time first c (first ∷ command) g).1
              cs
      unfolding take_line
      take_line-Balance time first c command rest g v = elim (Bool-cases (first == b'T')) [
        | inl e ↦
            let line =
              printed (producer_log time (length g.buffer) (codes "Work") (digit c)) ∷ [] in
            rw e (omega (arith, (rw e at v), all_of-append by_event g.out line))
        | inr e ↦ elim (Bool-cases (first == b'S')) [
          | inl k ↦
              let line =
                printed (producer_log time (length g.buffer) (codes "Sleep") (digit c))
                ∷ idled (pos c)
                ∷ [] in
              rw (e, k) (omega (arith, (rw e at v), all_of-append by_event g.out line))
          | inr k ↦ rw (e, k) (omega (arith, (rw e at v)))
        ]
      ]

      pub produce-Leads :
          (time : Bytes) (lines : List Bytes) (at : ProducerAt) (g : Shared)
          → Balance lines at g cs
          → Leads Produced (produce time lines at g)
      unfolding produce read_line second
      produce-Leads time lines starting g v = leads v
      produce-Leads time [] reading g v = leads v
      produce-Leads time ([] ∷ rest) reading g v = breaks
      produce-Leads time ((first ∷ []) ∷ rest) reading g v =
          leads (take_line-Balance time first 0 [] rest g v)
      produce-Leads time ((first ∷ c ∷ command) ∷ rest) reading g v =
          leads (take_line-Balance time first c (c ∷ command) rest g v)
      produce-Leads time lines (pushing command) g v =
          if-Leads (leb g.max_buffer (length g.buffer)) (λ _. leads v)
            λ _. leads (omega (arith, v, all_of-append by_number g.buffer (command ∷ [])))
      produce-Leads time lines (parked command) g v = stays
      produce-Leads time lines finishing g v = leads v
      produce-Leads time lines closing g v = leads v
      produce-Leads time lines ended g v = stays

    module _ (before after : List Consumer) (p : Producer) where
      abbrev Consumed : Consumer × Shared → Type 0
      Consumed (d, h) = Balance p.lines p.at h (before ++ d ∷ after)

      change :
          (c d : Consumer) (g : Shared) (buffer : List Bytes) (events : List Event)
          → all_of by_number buffer + (has d + all_of by_event events)
            ≡ all_of by_number g.buffer + has c
          → Balance p.lines p.at g (before ++ c ∷ after)
          → n
            ≡ all_of by_work p.lines
              + (producer_has p.at
                  + (all_of by_number buffer
                      + (sum has (before ++ d ∷ after) + all_of by_event (g.out ++ events))))
      change c d g buffer events e v = omega (
        arith,
        e,
        v,
        all_of-append by_event g.out events,
        sum-append has before (c ∷ after),
        sum-append has before (d ∷ after),
      )

      -- A step that takes no command, does none and prints nothing.
      quiet :
          (c d : Consumer) (g : Shared)
          → has d ≡ has c
          → Balance p.lines p.at g (before ++ c ∷ after)
          → Consumed (d, g)
      quiet c d g e v =
          omega (arith, e, v, sum-append has before (c ∷ after), sum-append has before (d ∷ after))

      quiet_pop :
          (c : Consumer) (command : Bytes) (rest : List Bytes) (g : Shared)
          → all_of by_number rest + by_number command ≡ all_of by_number g.buffer + has c
          → Balance p.lines p.at g (before ++ c ∷ after)
          → Consumed (record c { at = taken command }, record g { buffer = rest })
      quiet_pop c command rest g e v = omega (
        arith,
        e,
        v,
        sum-append has before (c ∷ after),
        sum-append has before (record c { at = taken command } ∷ after),
      )

      pop-Leads :
          (c : Consumer) (buffer : List Bytes) (g : Shared)
          → g.buffer ≡ buffer
          → c.at ≡ asking
          → Balance p.lines p.at g (before ++ c ∷ after)
          → Leads Consumed (pop c buffer g)
      unfolding pop
      pop-Leads c [] g empty e v =
          if-Leads g.done
            (λ _. leads (quiet c (record c { at = left }) g (sym (ap consumer_has e)) v))
            λ _. leads (quiet c (record c { at = sleeping }) g (sym (ap consumer_has e)) v)
      pop-Leads c (command ∷ rest) g front e v = leads (
          quiet_pop c command rest g (omega (arith, ap (all_of by_number) front, ap consumer_has e))
            v)

      receive-Balance :
          (time : Bytes) (c : Consumer) (command : Bytes) (m : ℕ) (g : Shared)
          → c.at ≡ taken command
          → by_number command ≡ f m
          → Balance p.lines p.at g (before ++ c ∷ after)
          → Leads Consumed (receive time c command m g)
      unfolding receive
      receive-Balance time c command m g e k v =
          leads (change c _ g _ _ (omega (arith, ap consumer_has e, k)) v)

      complete-Balance :
          (time : Bytes) (c : Consumer) (command : Bytes) (m : ℕ) (g : Shared)
          → c.at ≡ busy command
          → Balance p.lines p.at g (before ++ c ∷ after)
          → Leads Consumed (complete time c m g)
      unfolding complete
      complete-Balance time c command m g e v =
          leads (change c _ g _ _ (omega (arith, ap consumer_has e)) v)

      pub consume-Leads :
          (time : Bytes) (c : Consumer) (place : ConsumerAt) (g : Shared)
          → c.at ≡ place
          → Balance p.lines p.at g (before ++ c ∷ after)
          → Leads Consumed (consume time c place g)
      unfolding consume second
      consume-Leads time c created g e v = leads (quiet c _ g (sym (ap consumer_has e)) v)
      consume-Leads time c checking g e v =
          if-Leads g.in_progress
            (λ _. leads (change c _ g _ _ (omega (arith, ap consumer_has e)) v))
            λ _. leads (quiet c (record c { at = left }) g (sym (ap consumer_has e)) v)
      consume-Leads time c asking g e v = pop-Leads c g.buffer g refl e v
      consume-Leads time c sleeping g e v = stays
      consume-Leads time c (taken []) g e v = breaks
      consume-Leads time c (taken (a ∷ [])) g e v = receive-Balance time c (a ∷ []) 0 g e refl v
      consume-Leads time c (taken (a ∷ b ∷ rest)) g e v =
          receive-Balance time c (a ∷ b ∷ rest) b g e refl v
      consume-Leads time c (busy []) g e v = breaks
      consume-Leads time c (busy (a ∷ [])) g e v = complete-Balance time c (a ∷ []) 0 g e v
      consume-Leads time c (busy (a ∷ b ∷ rest)) g e v =
          complete-Balance time c (a ∷ b ∷ rest) b g e v
      consume-Leads time c left g e v = stays
