-- ===== src/Shell/Tasks.antt =====
-- Assignment_1/2022F/Process.cpp: the table of processes, a `map<pid_t, task>`: entries in the order of
-- their keys, a key at most once.
use cmput.Common.{
  pos_part, neg_part, ◌∙◌, suc, ◌≤◌, ◌≡◌, refl, ap, Bool, false, List, [], ◌∷◌, Option, none, some,
  if◌then◌else◌, ℤ, pos, negsuc, ◌==ℤ◌, ◌<ℤ◌, ltb_ℤ, length, arith, ==ℤ_iff, ==ℤ_refl, ◌≤ℤ◌,
  Bool-cases, inl, inr,
}
use cmput.Text.{Bytes}
use mathlib.Core.Option

pub record Task : Type 0 where
  pub pid : ℤ
  pub cmd : Bytes
  pub running : Bool

abbrev pub Table : Type 0
Table = List (ℤ × Task)

-- `getProcess`, with `none` for the null pointer
unfoldable pub get_process : ℤ → Table → Option Task
get_process pid [] = none
get_process pid ((k, t) ∷ m) = if k ==ℤ pid then some t else get_process pid m

-- `processes.emplace(pid, t)`, which leaves a key that is there alone
unfoldable pub emplace : ℤ → Task → Table → Table
emplace pid t [] = (pid, t) ∷ []
emplace pid t ((k, u) ∷ m) =
    let later = (k, u) ∷ emplace pid t m in
    if ltb_ℤ pid k then (pid, t) ∷ (k, u) ∷ m else if k ==ℤ pid then (k, u) ∷ m else later

-- `processes.erase(pid)`
unfoldable pub erase : ℤ → Table → Table
erase pid [] = []
erase pid ((k, t) ∷ m) = let later = (k, t) ∷ erase pid m in if k ==ℤ pid then m else later

abbrev pub run_flag : Bool → Task → Task
run_flag flag t = record t { running = flag }

-- `currentItem->running = flag`, at the entry of `pid`
unfoldable pub set_running : ℤ → Bool → Table → Table
set_running pid flag [] = []
set_running pid flag ((k, t) ∷ m) =
    let later = (k, t) ∷ set_running pid flag m in
    if k ==ℤ pid then (k, run_flag flag t) ∷ m else later

abbrev Below : Option ℤ → ℤ → Type 0
Below none k = Unit {0}
Below (some low) k = low <ℤ k

-- The keys ascend, above `low` if there is one, and each is the number of its task.
unfoldable pub SortedFrom : Option ℤ → Table → Type 0
SortedFrom low [] = Unit {0}
SortedFrom low ((k, t) ∷ m) = Below low k × (t.pid ≡ k) × SortedFrom (some k) m

Below-trans : (low : Option ℤ) (a b : ℤ) → Below low a → a <ℤ b → Below low b
Below-trans none a b h l = tt
Below-trans (some low) a b h l = omega arith

lower :
    (low : Option ℤ) (b : ℤ) (m : Table) → Below low b → SortedFrom (some b) m → SortedFrom low m
unfolding SortedFrom
lower low b [] h s = tt
lower low b ((k, t) ∷ m) h s = (Below-trans low b k h s.0, s.1, s.2)

pub emplace-SortedFrom :
    (low : Option ℤ) (pid : ℤ) (t : Task) (m : Table)
    → t.pid ≡ pid
    → Below low pid
    → SortedFrom low m
    → SortedFrom low (emplace pid t m)
unfolding SortedFrom emplace
emplace-SortedFrom low pid t [] h l s = (l, h, tt)
emplace-SortedFrom low pid t ((k, u) ∷ m) h l s = elim (Bool-cases (ltb_ℤ pid k)) [
  | inl e ↦ rw e (l, h, (ground arith, s.1, s.2))
  | inr e ↦ elim (Bool-cases (k ==ℤ pid)) [
    | inl f ↦ rw (e, f) s
    | inr f ↦ rw (e, f) (s.0, s.1, emplace-SortedFrom (some k) pid t m h (apart k pid f e) s.2)
  ]
]
  where
    apart : (k pid : ℤ) → (k ==ℤ pid) ≡ false → ltb_ℤ pid k ≡ false → k <ℤ pid
    apart (pos a) (pos b) f e = ground arith
    apart (pos a) (negsuc b) f e = ground arith
    apart (negsuc a) (pos b) f e = ground arith
    apart (negsuc a) (negsuc b) f e = ground arith

pub erase-SortedFrom :
    (low : Option ℤ) (pid : ℤ) (m : Table) → SortedFrom low m → SortedFrom low (erase pid m)
unfolding SortedFrom erase
erase-SortedFrom low pid [] s = tt
erase-SortedFrom low pid ((k, t) ∷ m) s = elim (Bool-cases (k ==ℤ pid)) [
  | inl e ↦ rw e (lower low k m s.0 s.2)
  | inr e ↦ rw e (s.0, s.1, erase-SortedFrom (some k) pid m s.2)
]

pub set_running-SortedFrom :
    (low : Option ℤ) (pid : ℤ) (flag : Bool) (m : Table)
    → SortedFrom low m
    → SortedFrom low (set_running pid flag m)
unfolding SortedFrom set_running
set_running-SortedFrom low pid flag [] s = tt
set_running-SortedFrom low pid flag ((k, t) ∷ m) s = elim (Bool-cases (k ==ℤ pid)) [
  | inl e ↦ rw e s
  | inr e ↦ rw e (s.0, s.1, set_running-SortedFrom (some k) pid flag m s.2)
]

pub length-emplace : (pid : ℤ) (t : Task) (m : Table) → length (emplace pid t m) ≤ suc (length m)
unfolding emplace
length-emplace pid t [] = omega arith
length-emplace pid t ((k, u) ∷ m) = ground (arith, length-emplace pid t m)

pub length-erase : (pid : ℤ) (m : Table) → length (erase pid m) ≤ length m
unfolding erase
length-erase pid [] = omega arith
length-erase pid ((k, t) ∷ m) = ground (arith, length-erase pid m)

pub length-set_running : (pid : ℤ) (r : Bool) (m : Table) → length (set_running pid r m) ≡ length m
unfolding set_running
length-set_running pid r [] = refl
length-set_running pid r ((k, t) ∷ m) = ground (arith, length-set_running pid r m)

-- A process that is added and removed again leaves the table as it was.
pub erase-emplace :
    (pid : ℤ) (t : Task) (m : Table) → get_process pid m ≡ none → erase pid (emplace pid t m) ≡ m
unfolding erase emplace get_process
erase-emplace pid t [] h = rw (==ℤ_refl pid)
erase-emplace pid t ((k, u) ∷ m) h = ground (arith, ==ℤ_refl pid, erase-emplace pid t m)

absent : (low pid : ℤ) (m : Table) → pid ≤ℤ low → SortedFrom (some low) m → get_process pid m ≡ none
unfolding SortedFrom get_process
absent low pid [] h s = refl
absent low pid ((k, t) ∷ m) h s = elim (Bool-cases (k ==ℤ pid)) [
  | inl e ↦
      absurd (
        omega (arith, s.0, h, ap pos_part ((==ℤ_iff k pid).0 e), ap neg_part ((==ℤ_iff k pid).0 e)))
  | inr e ↦ rw e (absent k pid m (omega (arith, s.0, h)) s.2)
]

gone :
    (k pid q : ℤ) (t : Task) (m : Table)
    → k ≡ pid
    → SortedFrom (some k) m
    → get_process q m
      ≡ (if pid ==ℤ q then none else (if pid ==ℤ q then some t else get_process q m))
gone k pid q t m e s = elim (Bool-cases (pid ==ℤ q)) [
  | inl f ↦ rw f (absent k q m (same_place k q (e ∙ (==ℤ_iff pid q).0 f)) s)
  | inr f ↦ rw f
]
  where
    same_place : (a b : ℤ) → a ≡ b → b ≤ℤ a
    same_place a b e = omega (arith, ap pos_part e, ap neg_part e)

-- A process is in the table behind the removal of `pid` exactly if it was before and is another one.
pub get_process-erase :
    (low : Option ℤ) (pid q : ℤ) (m : Table)
    → SortedFrom low m
    → get_process q (erase pid m) ≡ (if pid ==ℤ q then none else get_process q m)
unfolding erase get_process SortedFrom
get_process-erase low pid q [] s = ground arith
get_process-erase low pid q ((k, t) ∷ m) s = elim (Bool-cases (k ==ℤ pid)) [
  | inl e ↦
      rw (e, ap (λ z. z ==ℤ q) ((==ℤ_iff k pid).0 e)) (gone k pid q t m ((==ℤ_iff k pid).0 e) s.2)
  | inr e ↦ rw e (
      ground
        (arith, get_process-erase (some k) pid q m s.2, ==ℤ_iff k q, ==ℤ_iff pid q, ==ℤ_iff k pid))
]

pub get_process-set_running :
    (pid q : ℤ) (r : Bool) (m : Table)
    → get_process q (set_running pid r m)
      ≡ (if pid ==ℤ q then Option.map (run_flag r) (get_process q m) else get_process q m)
unfolding set_running get_process
get_process-set_running pid q r [] = ground arith
get_process-set_running pid q r ((k, t) ∷ m) =
    ground (arith, get_process-set_running pid q r m, ==ℤ_iff k q, ==ℤ_iff pid q, ==ℤ_iff k pid)

-- A process that was not in the table is there behind `emplace`, and no other one changes.
pub get_process-emplace :
    (pid q : ℤ) (t : Task) (m : Table)
    → get_process pid m ≡ none
    → get_process q (emplace pid t m) ≡ (if pid ==ℤ q then some t else get_process q m)
unfolding emplace get_process
get_process-emplace pid q t [] h = ground arith
get_process-emplace pid q t ((k, u) ∷ m) h =
    ground (arith, get_process-emplace pid q t m, ==ℤ_iff k q, ==ℤ_iff pid q, ==ℤ_iff k pid)
