-- ===== src/ProdCon/Told/Runs.antt =====
-- Assignment_2/f22/main.cpp: a step of a consumer, and whole interleavings.
use cmput.Common.{ℕ, ◌+◌, ◌≤◌, ◌≡◌, refl, ap, inl, inr, List, [], ◌∷◌, ◌++◌, length, arith}
use cmput.Text.{Bytes}
use cmput.ProdCon.{
  System, ThreadStep, by_producer, by_consumer, Spurious, consumer_wakes, producer_wakes,
  Interleaving, stop, go, wakes, start, with_second, pop, receive, complete, consume, asleep,
  sleepers, notified, new_consumers,
}
use cmput.ProdCon.State.{
  Shared, Producer, ConsumerAt, created, checking, asking, sleeping, left, taken, busy, Consumer,
  Wake, silent, Move, moves,
}
use cmput.ProdCon.Log.{second}
use cmput.ProdCon.Counts.{sum-append}
use cmput.ProdCon.Sound.{Flagged}
use cmput.ProdCon.Sound.Runs.{Sound, step-Sound, woken-Sound}
use cmput.ProdCon.Told.{
  at_lock, at_lock_of, Covered, Told, Tells, tells, rests, ends, Tells-moves, if-Tells,
  WakesOne-counts, sleepers-append,
}
use cmput.ProdCon.Told.Steps.{
  produce-Tells, AllUp-fewer, AllUp-going, ParkedFull-same, unparked-Told,
}

module _ (before after : List Consumer) (p : Producer) where
  abbrev Consumed : Wake → Consumer × Shared → Type 0
  Consumed w (d, h) = Told (notified w p).at h (before ++ d ∷ after)

  sleepers-change :
      (c d : Consumer)
      → asleep d.at ≡ asleep c.at
      → sleepers (before ++ d ∷ after) ≡ sleepers (before ++ c ∷ after)
  sleepers-change c d e =
      omega (arith, e, sleepers-append before (c ∷ after), sleepers-append before (d ∷ after))

  change-Covered :
      (c d : Consumer) (g h : Shared)
      → asleep d.at ≡ asleep c.at
      → length h.buffer + at_lock c.at ≤ length g.buffer + at_lock d.at
      → Covered g (before ++ c ∷ after)
      → Covered h (before ++ d ∷ after)
  change-Covered c d g h e l v =
      let x = sum-append at_lock_of before (c ∷ after) in
      let y = sum-append at_lock_of before (d ∷ after) in
      let z = sleepers-change c d e in
      elim v [
        | inl none ↦ inl (omega (arith, z, none))
        | inr few ↦ inr (omega (arith, l, few, x, y))
      ]

  -- A step that leaves the buffer alone and after which as many consumers wait.
  quiet :
      (c d : Consumer) (g h : Shared)
      → h.max_buffer ≡ g.max_buffer
      → h.buffer ≡ g.buffer
      → asleep d.at ≡ asleep c.at
      → at_lock c.at ≤ at_lock d.at
      → Told p.at g (before ++ c ∷ after)
      → Tells Consumed (moves silent (d, h))
  quiet c d g h m b e l v = tells (record {
    covered = change-Covered c d g h e (omega (arith, l, ap length b)) v.covered;
    full = ParkedFull-same p.at g h m b v.full;
    up = AllUp-fewer p.at _ _ (omega (arith, sleepers-change c d e)) v.up;
  })

  with_second-Tells :
      (command : Bytes) (f : ℕ → Move (Consumer × Shared))
      → ((n : ℕ) → Tells Consumed (f n))
      → Tells Consumed (with_second command f)
  unfolding second
  with_second-Tells [] f h = ends
  with_second-Tells (c ∷ []) f h = h 0
  with_second-Tells (c ∷ d ∷ command) f h = h d

  pop-Tells :
      (c : Consumer) (buffer : List Bytes) (g : Shared)
      → g.buffer ≡ buffer
      → c.at ≡ asking
      → Flagged p.at g.done
      → Told p.at g (before ++ c ∷ after)
      → Tells Consumed (pop c buffer g)
  unfolding pop
  pop-Tells c [] g empty e f v =
      if-Tells g.done
        (λ _. tells (record {
          covered = inr (omega (arith, ap length empty));
          full = v.full;
          up =
              AllUp-fewer p.at _ _
                (omega
                  (arith, sleepers-change c (record c { at = left }) (omega (arith, ap asleep e))))
                v.up;
        }))
        λ going. tells (record {
          covered = inr (omega (arith, ap length empty));
          full = v.full;
          up = AllUp-going p.at g.done _ f going;
        })
  pop-Tells c (command ∷ rest) g some_there e f v = tells (
      unparked-Told p.at (record g { buffer = rest }) _
        (change-Covered c (record c { at = taken command }) g (record g { buffer = rest })
          (omega (arith, ap asleep e)) (omega (arith, ap length some_there, ap at_lock e))
          v.covered)
        (AllUp-fewer p.at _ _
          (omega (
            arith,
            sleepers-change c (record c { at = taken command }) (omega (arith, ap asleep e)),
          ))
          v.up))

  consume-Tells :
      (time : Bytes) (c : Consumer) (place : ConsumerAt) (g : Shared)
      → c.at ≡ place
      → Flagged p.at g.done
      → Told p.at g (before ++ c ∷ after)
      → Tells Consumed (consume time c place g)
  unfolding consume receive complete
  consume-Tells time c created g e f v =
      quiet c _ g _ refl refl (omega (arith, ap asleep e)) (omega (arith, ap at_lock e)) v
  consume-Tells time c checking g e f v =
      if-Tells g.in_progress
        (λ _. quiet c _ g _ refl refl (omega (arith, ap asleep e)) (omega (arith, ap at_lock e)) v)
        λ _. quiet c _ g _ refl refl (omega (arith, ap asleep e)) (omega (arith, ap at_lock e)) v
  consume-Tells time c asking g e f v = pop-Tells c g.buffer g refl e f v
  consume-Tells time c sleeping g e f v = rests
  consume-Tells time c (taken command) g e f v =
      with_second-Tells command _
        λ n. quiet c _ g _ refl refl (omega (arith, ap asleep e)) (omega (arith, ap at_lock e)) v
  consume-Tells time c (busy command) g e f v =
      with_second-Tells command _
        λ n. quiet c _ g _ refl refl (omega (arith, ap asleep e)) (omega (arith, ap at_lock e)) v
  consume-Tells time c left g e f v = rests

abbrev pub AllTold : System → Type 0
AllTold s = Told s.producer.at s.shared s.consumers

step-Told : {s t : System} → ThreadStep s t → Sound s → AllTold s → AllTold t
step-Told (by_producer time w s p g cs e notice) v a =
    Tells-moves e (produce-Tells s.consumers time s.producer.lines s.producer.at s.shared a) cs
      notice
step-Told (by_consumer time w before after c d p g h e) v a =
    Tells-moves e (consume-Tells before after p time c c.at g refl v.producer_sound.flag a)

woken-Told : {s t : System} → Spurious s t → AllTold s → AllTold t
woken-Told (consumer_wakes s w) a =
    let (fewer, more) = WakesOne-counts w in
    record {
      covered = elim a.covered [
        | inl none ↦ absurd (omega (arith, fewer, none))
        | inr few ↦ inr (omega (arith, few, more))
      ];
      full = a.full;
      up = AllUp-fewer s.producer.at _ _ (omega (arith, fewer)) a.up;
    }
woken-Told (producer_wakes s) a = unparked-Told s.producer.at s.shared s.consumers a.covered a.up

pub run-Told : {s t : System} → Interleaving s t → Sound s → AllTold s → AllTold t
run-Told (stop s) v a = a
run-Told (go x r) v a = run-Told r (step-Sound x v) (step-Told x v a)
run-Told (wakes x r) v a = run-Told r (woken-Sound x v) (woken-Told x a)

pub start-Told : (n : ℕ) (lines : List Bytes) → AllTold (start n lines)
unfolding start new_consumers
start-Told n lines = record { covered = inr (omega arith); full = tt; up = tt }
