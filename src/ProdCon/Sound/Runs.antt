-- ===== src/ProdCon/Sound/Runs.antt =====
-- Assignment_2/f22/main.cpp: whole interleavings, without an empty line in the input.
use cmput.Common.{ℕ, zero, suc, sym, List, [], ◌∷◌, ◌++◌, All, All-append}
use mathlib.Core.Path.{subst}
use cmput.Text.{Bytes}
use cmput.ProdCon.{
  System, ThreadStep, by_producer, by_consumer, Interleaving, stop, go, wakes, Spurious,
  consumer_wakes, producer_wakes, awake, unparked, notified, new_consumers, start,
}
use cmput.ProdCon.State.{
  Shared, ProducerAt, starting, reading, finishing, closing, ended, pushing, Producer, ConsumerAt,
  created, checking, asking, sleeping, parked, left, taken, busy, Consumer, Wake, silent, signal,
  broadcast,
}
use cmput.ProdCon.Notices.{All-WakesOne, All-Notified}
use cmput.ProdCon.Counts.{Leads-moves}
use cmput.ProdCon.Sound.{IsLine, HoldsLine, Flagged, Produces, Holds, produce-Leads, consume-Leads}

pub record Sound (s : System) : Type 0 where
  pub producer_sound : Produces s.producer.lines s.producer.at s.shared
  pub consumers_sound : All Holds s.consumers

pub All-middle :
    (before after : List Consumer) (c : Consumer)
    → All Holds (before ++ c ∷ after)
    → All Holds before × Holds c × All Holds after
All-middle [] after c h = (tt, h.0, h.1)
All-middle (b ∷ before) after c h =
    let (x, y, z) = All-middle before after c h.1 in ((h.0, x), y, z)

Holds-wake : (at : ConsumerAt) → HoldsLine at → HoldsLine (awake at)
Holds-wake created h = h
Holds-wake checking h = h
Holds-wake asking h = h
Holds-wake sleeping h = h
Holds-wake left h = h
Holds-wake (taken command) h = h
Holds-wake (busy command) h = h

Produces-unparked :
    (lines : List Bytes) (at : ProducerAt) (g : Shared)
    → Produces lines at g
    → Produces lines (unparked at) g
Produces-unparked lines starting g v = v
Produces-unparked lines reading g v = v
Produces-unparked lines finishing g v = v
Produces-unparked lines closing g v = v
Produces-unparked lines ended g v = v
Produces-unparked lines (pushing command) g v = v
Produces-unparked lines (parked command) g v = record {
  input = v.input;
  line = v.line;
  queue = v.queue;
  flag = tt;
}

Produces-notified :
    (w : Wake) (p : Producer) (g : Shared)
    → Produces p.lines p.at g
    → Produces (notified w p).lines (notified w p).at g
Produces-notified silent p g v = v
Produces-notified signal p g v = Produces-unparked p.lines p.at g v
Produces-notified broadcast p g v = Produces-unparked p.lines p.at g v

pub step-Sound : {s t : System} → ThreadStep s t → Sound s → Sound t
step-Sound (by_producer time w s p g cs e notice) v = record {
  producer_sound =
      Leads-moves e (produce-Leads time s.producer.lines s.producer.at s.shared v.producer_sound);
  consumers_sound = All-Notified Holds (λ c. Holds-wake c.at) notice v.consumers_sound;
}
step-Sound (by_consumer time w before after c d p g h e) v =
    let (x, y, z) = All-middle before after c v.consumers_sound in
    let k = Leads-moves e (consume-Leads time c c.at g y v.producer_sound.queue) in
    record {
      producer_sound = Produces-notified w p h (record {
        input = v.producer_sound.input;
        line = v.producer_sound.line;
        queue = k.queue;
        flag = subst (λ b. Flagged p.at b) (sym k.same_flag) v.producer_sound.flag;
      });
      consumers_sound = All-append Holds before (d ∷ after) x (k.holds, z);
    }

pub woken-Sound : {s t : System} → Spurious s t → Sound s → Sound t
woken-Sound (consumer_wakes s w) v = record {
  producer_sound = v.producer_sound;
  consumers_sound = All-WakesOne Holds (λ c. Holds-wake c.at) w v.consumers_sound;
}
woken-Sound (producer_wakes s) v = record {
  producer_sound = Produces-notified signal s.producer s.shared v.producer_sound;
  consumers_sound = v.consumers_sound;
}

pub run-Sound : {s t : System} → Interleaving s t → Sound s → Sound t
run-Sound (stop s) v = v
run-Sound (go a b) v = run-Sound b (step-Sound a v)
run-Sound (wakes a b) v = run-Sound b (woken-Sound a v)

pub start-Sound : (n : ℕ) (lines : List Bytes) → All IsLine lines → Sound (start n lines)
unfolding start new_consumers
start-Sound n lines h = record {
  producer_sound = record { input = h; line = tt; queue = tt; flag = tt };
  consumers_sound = fresh n;
}
  where
    fresh : (n : ℕ) → All Holds (new_consumers n)
    fresh zero = tt
    fresh (suc n) = (tt, fresh n)
