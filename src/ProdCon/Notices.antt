-- ===== src/ProdCon/Notices.antt =====
-- Assignment_2/f22/main.cpp: what wake-ups leave as it is.
use cmput.Common.{ℕ, ◌≡◌, refl, ap, ◌∙◌, List, [], ◌∷◌, map, arith, All, inl, inr, ◌⊎◌}
use mathlib.Core.Path.{subst}
use cmput.ProdCon.{
  wake, awake, asleep, sleepers, WakesOne, here, there, Notified, not_told, signalled_one,
  signalled_none, woken_all,
}
use cmput.ProdCon.State.{
  ConsumerAt, created, checking, asking, sleeping, left, taken, busy, Consumer, Wake, silent,
  signal, broadcast,
}
use cmput.ProdCon.Counts.{sum}

-- A sum that does not tell a sleeping consumer from one at the lock.
module _ (f : Consumer → ℕ) (same : (c : Consumer) → f (wake c) ≡ f c) where
  pub sum-WakesOne : {cs ds : List Consumer} → WakesOne cs ds → sum f ds ≡ sum f cs
  sum-WakesOne (here c cs e) = omega (arith, same c)
  sum-WakesOne (there c w) = omega (arith, sum-WakesOne w)

  sum-map : (cs : List Consumer) → sum f (map wake cs) ≡ sum f cs
  sum-map [] = refl
  sum-map (c ∷ cs) = omega (arith, same c, sum-map cs)

  pub sum-Notified : {w : Wake} {cs ds : List Consumer} → Notified w cs ds → sum f ds ≡ sum f cs
  sum-Notified (not_told cs) = refl
  sum-Notified (signalled_one w) = sum-WakesOne w
  sum-Notified (signalled_none cs e) = refl
  sum-Notified (woken_all cs) = sum-map cs

-- A predicate of the same kind, for every consumer.
module _ (P : Consumer → Type 0) (same : (c : Consumer) → P c → P (wake c)) where
  pub All-WakesOne : {cs ds : List Consumer} → WakesOne cs ds → All P cs → All P ds
  All-WakesOne (here c cs e) h = (same c h.0, h.1)
  All-WakesOne (there c w) h = (h.0, All-WakesOne w h.1)

  All-map : (cs : List Consumer) → All P cs → All P (map wake cs)
  All-map [] h = tt
  All-map (c ∷ cs) h = (same c h.0, All-map cs h.1)

  pub All-Notified : {w : Wake} {cs ds : List Consumer} → Notified w cs ds → All P cs → All P ds
  All-Notified (not_told cs) h = h
  All-Notified (signalled_one w) h = All-WakesOne w h
  All-Notified (signalled_none cs e) h = h
  All-Notified (woken_all cs) h = All-map cs h

asleep-cases : (at : ConsumerAt) → (at ≡ sleeping) ⊎ ((asleep at ≡ 0) × (awake at ≡ at))
asleep-cases created = inr (refl, refl)
asleep-cases checking = inr (refl, refl)
asleep-cases asking = inr (refl, refl)
asleep-cases sleeping = inl refl
asleep-cases left = inr (refl, refl)
asleep-cases (taken command) = inr (refl, refl)
asleep-cases (busy command) = inr (refl, refl)

-- Where nobody waits, a wake-up changes nothing.
map-wake : (cs : List Consumer) → sleepers cs ≡ 0 → map wake cs ≡ cs
map-wake [] e = refl
map-wake (c ∷ cs) e = elim (asleep-cases c.at) [
  | inl f ↦ absurd (omega (arith, e, ap asleep f))
  | inr (none, same) ↦
      ap (λ at. record c { at = at } ∷ map wake cs) same
      ∙ ap (λ ds. c ∷ ds) (map-wake cs (omega (arith, e)))
]

pub nobody_waits : (w : Wake) (cs : List Consumer) → sleepers cs ≡ 0 → Notified w cs cs
nobody_waits silent cs e = not_told cs
nobody_waits signal cs e = signalled_none cs e
nobody_waits broadcast cs e = subst (λ ds. Notified broadcast cs ds) (map-wake cs e) (woken_all cs)

-- Every signal has an effect.
pub notify : (w : Wake) (cs : List Consumer) → (ds : List Consumer) × Notified w cs ds
notify silent cs = (cs, not_told cs)
notify broadcast cs = (map wake cs, woken_all cs)
notify signal cs = elim (find_sleeper cs) [
  | inl e ↦ (cs, signalled_none cs e)
  | inr (ds, w) ↦ (ds, signalled_one w)
]
  where
    find_sleeper :
        (cs : List Consumer) → (sleepers cs ≡ 0) ⊎ ((ds : List Consumer) × WakesOne cs ds)
    find_sleeper [] = inl refl
    find_sleeper (c ∷ cs) = elim (asleep-cases c.at) [
      | inl f ↦ inr (wake c ∷ cs, here c cs f)
      | inr (none, same) ↦ elim (find_sleeper cs) [
        | inl e ↦ inl (omega (arith, none, e))
        | inr (ds, w) ↦ inr (c ∷ ds, there c w)
      ]
    ]
