-- ===== src/ProdCon/Lost.antt =====
-- Assignment_2/f22/main.cpp: an interleaving that loses the work. The consumers leave as soon as they see
-- `in_progress` false, without a look at the buffer.
use cmput.Common.{
  ℕ, zero, suc, ◌+◌, ◌*◌, ◌≤◌, ◌≡◌, refl, sym, ap, ◌∙◌, true, false, List, [], ◌∷◌, ◌++◌,
  append_assoc, append-nil, none, some, length, length-append, arith, All,
}
use mathlib.Core.Path.{subst}
use cmput.Text.{Bytes}
use cmput.ProdCon.Main.{joined}
use cmput.ProdCon.{
  took, take_line, read_line, produce, System, by_producer, Interleaving, stop, go, sleepers,
  not_told, signalled_none, new_consumers, start,
}
use cmput.ProdCon.State.{
  Shared, ProducerAt, reading, finishing, closing, ended, pushing, Consumer, moves, faults, silent,
  signal, broadcast,
}
use cmput.ProdCon.Log.{second}
use cmput.ProdCon.Notices.{nobody_waits}
use cmput.ProdCon.Leaving.{HasLeft, append_runs, leave_each}

-- A line with a transaction
abbrev pub IsWork : Bytes → Type 0
IsWork [] = ⊥
IsWork (c ∷ rest) = c ≡ b'T'

-- The producer alone, over lines for which the buffer has room.
record Finished (g : Shared) (lines : List Bytes) (cs : List Consumer) (t : System) : Type 0 where
  at_end : t.producer.at ≡ ended
  idle : t.shared.in_progress ≡ false
  queued : t.shared.buffer ≡ g.buffer ++ lines
  complete_same : t.shared.complete_count ≡ g.complete_count
  consumers_same : t.consumers ≡ cs

state : List Bytes → ProducerAt → Shared → List Consumer → System
state lines at g cs = record {
  shared = g;
  producer = record { lines = lines; at = at };
  consumers = cs;
}

second-some : (c : ℕ) (command : Bytes) → (d : ℕ) × (second (c ∷ command) ≡ some d)
unfolding second
second-some c [] = (0, refl)
second-some c (d ∷ command) = (d, refl)

Queued : Bytes → List Bytes → Shared → List Consumer → Type 0
Queued line rest g cs =
    (h : Shared) × Interleaving (state (line ∷ rest) reading g cs) (state rest reading h cs)
    × (h.buffer ≡ g.buffer ++ line ∷ [])
    × (h.complete_count ≡ g.complete_count)
    × (h.max_buffer ≡ g.max_buffer)

queue_work :
    (command : Bytes) (rest : List Bytes) (g : Shared) (cs : List Consumer)
    → sleepers cs ≡ 0
    → length g.buffer + 1 ≤ g.max_buffer
    → Queued (b'T' ∷ command) rest g cs
unfolding produce read_line second take_line state Queued
queue_work command rest g cs awake_all room =
    let (d, e) = second-some b'T' command in
    let line : Bytes = b'T' ∷ command in
    let g1 = (take_line [] b'T' d line g).1 in
    let g2 : Shared = record g1 { buffer = g1.buffer ++ line ∷ [] } in
    (
      g2,
      go
          (by_producer [] silent (state (line ∷ rest) reading g cs)
            (record { lines = rest; at = pushing line }) g1 cs (has_line d e) (not_told cs))
          (go
            (by_producer [] signal (state rest (pushing line) g1 cs)
              (record { lines = rest; at = reading }) g2 cs (has_room g1 line room)
              (signalled_none cs awake_all))
            (stop _)),
      refl,
      refl,
      refl,
    )
  where
    has_line :
        (d : ℕ)
        → second (b'T' ∷ command) ≡ some d
        → (elim (second (b'T' ∷ command)) [
          | none ↦ faults
          | some c ↦ moves silent (took rest (take_line [] b'T' c (b'T' ∷ command) g))
        ])
          ≡ moves silent (
            record { lines = rest; at = pushing (b'T' ∷ command) },
            (take_line [] b'T' d (b'T' ∷ command) g).1,
          )
    has_line d e = rw e

    has_room :
        (h : Shared) (line : Bytes)
        → length h.buffer + 1 ≤ h.max_buffer
        → produce [] rest (pushing line) h
          ≡ moves signal
              (record { lines = rest; at = reading }, record h { buffer = h.buffer ++ line ∷ [] })
    has_room h line r = ground arith

queue_line :
    (line : Bytes) (rest : List Bytes) (g : Shared) (cs : List Consumer)
    → IsWork line
    → sleepers cs ≡ 0
    → length g.buffer + 1 ≤ g.max_buffer
    → Queued line rest g cs
queue_line [] rest g cs w awake_all room = absurd w
queue_line (c ∷ command) rest g cs w awake_all room =
    rw w (queue_work command rest g cs awake_all room)

queue_lines :
    (lines : List Bytes) (g : Shared) (cs : List Consumer)
    → All IsWork lines
    → sleepers cs ≡ 0
    → length g.buffer + length lines ≤ g.max_buffer
    → (t : System) × Interleaving (state lines reading g cs) t × Finished g lines cs t
unfolding produce state Queued
queue_lines [] g cs w awake_all room =
    let h : Shared = record g { done = true } in
    let k : Shared = record h { in_progress = false } in
    (
      state [] ended k cs,
      go
          (by_producer [] silent (state [] reading g cs) (record { lines = []; at = finishing }) h
            cs refl (not_told cs))
          (go
            (by_producer [] broadcast (state [] finishing h cs)
              (record { lines = []; at = closing }) h cs refl (nobody_waits broadcast cs awake_all))
            (go
              (by_producer [] silent (state [] closing h cs) (record { lines = []; at = ended }) k
                cs refl (not_told cs))
              (stop _))),
      record {
        at_end = refl;
        idle = refl;
        queued = sym (append-nil g.buffer);
        complete_same = refl;
        consumers_same = refl;
      },
    )
queue_lines (line ∷ rest) g cs w awake_all room =
    let (h, first, buffer, count, limit) =
      queue_line line rest g cs w.0 awake_all (omega (arith, room)) in
    let (t, others, f) =
      queue_lines rest h cs w.1 awake_all
        (omega (arith, room, ap length buffer, length-append g.buffer (line ∷ []), limit)) in
    (
      t,
      append_runs first others,
      record {
        at_end = f.at_end;
        idle = f.idle;
        queued = f.queued ∙ (ap (λ b. b ++ rest) buffer ∙ append_assoc g.buffer (line ∷ []) rest);
        complete_same = f.complete_same ∙ count;
        consumers_same = f.consumers_same;
      },
    )

joined-HasLeft : (cs : List Consumer) → All HasLeft cs → joined cs ≡ true
unfolding joined
joined-HasLeft [] h = refl
joined-HasLeft (c ∷ cs) h = rw (h.0, joined-HasLeft cs h.1)

new_consumers-sleepers : (n : ℕ) → sleepers (new_consumers n) ≡ 0
unfolding new_consumers
new_consumers-sleepers zero = refl
new_consumers-sleepers (suc n) = omega (arith, new_consumers-sleepers n)

-- For any number of consumers and any transactions that fit in the buffer, there is an interleaving in
-- which the producer has queued every one of them and ended, every thread that `main` joins has ended, so
-- that it goes on to its summary, and none of the transactions is done: all of them are still in the buffer.
pub lost_work :
    (nthreads : ℕ) (lines : List Bytes)
    → All IsWork lines
    → length lines ≤ nthreads * 2
    → (t : System) × Interleaving (start nthreads lines) t
      × (t.producer.at ≡ ended)
      × (joined t.consumers ≡ true)
      × (t.shared.buffer ≡ lines)
      × (t.shared.complete_count ≡ 0)
unfolding start produce state
lost_work nthreads lines work room =
    let s0 = start nthreads lines in
    let g1 : Shared = record s0.shared { in_progress = true } in
    let (t, a, f) =
      queue_lines lines g1 (new_consumers nthreads) work (new_consumers-sleepers nthreads)
        (omega (arith, room)) in
    let (u, b, gone) = leave_each nthreads [] t.producer t.shared f.idle tt in
    (
      u,
      go
          (by_producer [] silent s0 (record { lines = lines; at = reading }) g1
            (new_consumers nthreads) refl (not_told _))
          (append_runs a (
            subst
              (λ cs.
                Interleaving (record { shared = t.shared; producer = t.producer; consumers = cs })
                  u)
              (sym f.consumers_same) b)),
      ap (λ p. p.at) gone.producer_same ∙ f.at_end,
      joined-HasLeft u.consumers gone.all_left,
      gone.buffer_same ∙ f.queued,
      gone.complete_same ∙ f.complete_same,
    )
