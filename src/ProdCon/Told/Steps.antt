-- ===== src/ProdCon/Told/Steps.antt =====
-- Assignment_2/f22/main.cpp: every step, and every wake-up without a reason, keeps what `Told` says.
use cmput.Common.{
  ℕ, ◌≤◌, ◌≡◌, ap, inl, inr, Bool, false, List, [], ◌∷◌, ◌++◌, ◌==◌, leb, length, length-append,
  arith, Bool-cases,
}
use cmput.Text.{Bytes}
use cmput.ProdCon.{
  take_line, read_line, produce, sleepers, Notified, not_told, signalled_one, signalled_none,
  woken_all, unparked,
}
use cmput.ProdCon.State.{
  Shared, ProducerAt, starting, reading, finishing, closing, ended, pushing, parked, Producer,
  Consumer, Wake, silent, signal, broadcast,
}
use cmput.ProdCon.Log.{second}
use cmput.ProdCon.Sound.{Flagged}
use cmput.ProdCon.Told.{
  Covered, ParkedFull, AllUp, Told, Tells, tells, rests, ends, if-Tells, WakesOne-counts,
  sleepers-map,
}

module _ (cs : List Consumer) where
  -- What the producer's step leads to, for the consumers behind its wake-up.
  abbrev Produced : Wake → Producer × Shared → Type 0
  Produced w (p, g) = (ds : List Consumer) → Notified w cs ds → Told p.at g ds

  silently :
      (p : ProducerAt) (g : Shared) (ds : List Consumer)
      → Told p g cs
      → Notified silent cs ds
      → Told p g ds
  silently p g ds v (not_told cs) = v

  take_line-Told :
      (time : Bytes) (first c : ℕ) (command : Bytes) (g : Shared)
      → Told reading g cs
      → Told (take_line time first c command g).0 (take_line time first c command g).1 cs
  unfolding take_line
  take_line-Told time first c command g v = elim (Bool-cases (first == b'T')) [
    | inl e ↦ rw e (record { covered = v.covered; full = tt; up = tt })
    | inr e ↦ elim (Bool-cases (first == b'S')) [
      | inl f ↦ rw (e, f) (record { covered = v.covered; full = tt; up = tt })
      | inr f ↦ rw (e, f) v
    ]
  ]

  pushed :
      (g : Shared) (command : Bytes) (ds : List Consumer)
      → Covered g cs
      → Notified signal cs ds
      → Covered (record g { buffer = g.buffer ++ command ∷ [] }) ds
  pushed g command ds v (signalled_one w) =
      let (a, b) = WakesOne-counts w in
      let e = length-append g.buffer (command ∷ []) in
      elim v [
        | inl none ↦ absurd (omega (arith, a, none))
        | inr few ↦ inr (omega (arith, e, few, b))
      ]
  pushed g command ds v (signalled_none cs none) = inl none

  broadcasted : (g : Shared) (ds : List Consumer) → Notified broadcast cs ds → Told closing g ds
  broadcasted g ds (woken_all cs) = record {
    covered = inl (sleepers-map cs);
    full = tt;
    up = sleepers-map cs;
  }

  pub produce-Tells :
      (time : Bytes) (lines : List Bytes) (at : ProducerAt) (g : Shared)
      → Told at g cs
      → Tells Produced (produce time lines at g)
  unfolding produce read_line second
  produce-Tells time lines starting g v =
      tells λ ds n. silently reading _ ds (record { covered = v.covered; full = tt; up = tt }) n
  produce-Tells time [] reading g v =
      tells λ ds n. silently finishing _ ds (record { covered = v.covered; full = tt; up = tt }) n
  produce-Tells time ([] ∷ rest) reading g v = ends
  produce-Tells time ((first ∷ []) ∷ rest) reading g v =
      tells λ ds n. silently _ _ ds (take_line-Told time first 0 (first ∷ []) g v) n
  produce-Tells time ((first ∷ c ∷ command) ∷ rest) reading g v =
      tells λ ds n. silently _ _ ds (take_line-Told time first c (first ∷ c ∷ command) g v) n
  produce-Tells time lines (pushing command) g v =
      if-Tells (leb g.max_buffer (length g.buffer))
        (λ e. tells λ ds n.
          silently (parked command) g ds
            (record { covered = v.covered; full = ground arith; up = tt }) n)
        λ e. tells λ ds n. record { covered = pushed g command ds v.covered n; full = tt; up = tt }
  produce-Tells time lines (parked command) g v = rests
  produce-Tells time lines finishing g v = tells λ ds n. broadcasted g ds n
  produce-Tells time lines closing g v =
      tells λ ds n. silently ended _ ds (record { covered = v.covered; full = tt; up = v.up }) n
  produce-Tells time lines ended g v = rests

pub AllUp-fewer :
    (at : ProducerAt) (cs ds : List Consumer)
    → sleepers ds ≤ sleepers cs
    → AllUp at cs
    → AllUp at ds
AllUp-fewer starting cs ds e u = tt
AllUp-fewer reading cs ds e u = tt
AllUp-fewer finishing cs ds e u = tt
AllUp-fewer closing cs ds e u = omega (arith, e, u)
AllUp-fewer ended cs ds e u = omega (arith, e, u)
AllUp-fewer (pushing command) cs ds e u = tt
AllUp-fewer (parked command) cs ds e u = tt

-- Before the broadcast anyone may wait.
pub AllUp-going :
    (at : ProducerAt) (done : Bool) (cs : List Consumer)
    → Flagged at done
    → done ≡ false
    → AllUp at cs
AllUp-going starting d cs f e = tt
AllUp-going reading d cs f e = tt
AllUp-going finishing d cs f e = tt
AllUp-going closing d cs f e = cc (f, e)
AllUp-going ended d cs f e = cc (f, e)
AllUp-going (pushing command) d cs f e = tt
AllUp-going (parked command) d cs f e = tt

pub ParkedFull-same :
    (at : ProducerAt) (g h : Shared)
    → h.max_buffer ≡ g.max_buffer
    → h.buffer ≡ g.buffer
    → ParkedFull at g
    → ParkedFull at h
ParkedFull-same starting g h m b f = tt
ParkedFull-same reading g h m b f = tt
ParkedFull-same finishing g h m b f = tt
ParkedFull-same closing g h m b f = tt
ParkedFull-same ended g h m b f = tt
ParkedFull-same (pushing command) g h m b f = tt
ParkedFull-same (parked command) g h m b f = omega (arith, m, ap length b, f)

-- A producer that has been woken is not in `pthread_cond_wait`.
pub unparked-Told :
    (at : ProducerAt) (g : Shared) (cs : List Consumer)
    → Covered g cs
    → AllUp at cs
    → Told (unparked at) g cs
unparked-Told starting g cs c u = record { covered = c; full = tt; up = tt }
unparked-Told reading g cs c u = record { covered = c; full = tt; up = tt }
unparked-Told finishing g cs c u = record { covered = c; full = tt; up = tt }
unparked-Told closing g cs c u = record { covered = c; full = tt; up = u }
unparked-Told ended g cs c u = record { covered = c; full = tt; up = u }
unparked-Told (pushing command) g cs c u = record { covered = c; full = tt; up = tt }
unparked-Told (parked command) g cs c u = record { covered = c; full = tt; up = tt }
