-- ===== src/A2w22.antt =====
-- Assignment_2/w22/a2w22.h and a2w22.cpp: the types that the controller and the switches of the
-- network over FIFOs share, `split_ip`, `nameFifo`, `sendPacket`, and a message as it is received.
pub mod Args
pub mod Controller
pub mod Psw
pub mod Frames
pub mod Messages
pub mod Directory
pub mod Route
pub mod Sizes
pub mod Network
mod Tests
mod NetworkTests
use mathlib.Core.Option
use cmput.Common.{
  ℕ, zero, suc, ◌+◌, ◌-◌, Bool, List, [], ◌∷◌, ◌++◌, Option, none, some, ◌==◌, if◌then◌else◌, ℤ,
  pos, negsuc, get_elem?,
}
use cmput.Text.{Bytes, codes, pieces, overwrite}
use cmput.Text.Buffer.{terminated}
use cmput.Text.Number.{to_string, stoi}
use cmput.Process.{
  Event, wrote, printed, Outcome, running, undefined, ◌>>=◌, or_undefined, Reading, end_of_file,
  failed, bytes,
}

abbrev pub max_switch : ℕ
max_switch = 7

abbrev pub max_ip : ℕ
max_ip = 1000

pub data ActionType : Type 0 where
  forward drop_it : ActionType

pub data PktType : Type 0 where
  hello hello_ack ask add relay_in admit : PktType

-- The value of the enum.
abbrev pub value_of : PktType → ℕ
value_of hello = 0
value_of hello_ack = 1
value_of ask = 2
value_of add = 3
value_of relay_in = 4
value_of admit = 5

pub record Ips : Type 0 where
  pub low : ℤ
  pub high : ℤ

-- `map<PktType, int>`: the value at each key, `none` where the key is not there.
abbrev pub PacketCounts : Type 0
PacketCounts = PktType → Option ℕ

pub record PacketInfo : Type 0 where
  pub received : PacketCounts
  pub transmitted : PacketCounts

abbrev pub value_at : PacketCounts → PktType → ℕ
value_at m k = elim (m k) [ none ↦ 0 | some n ↦ n ]

-- `m[k] += 1`, which adds a key that is not there with 0 first.
unfoldable pub count : PktType → PacketCounts → PacketCounts
count k m j = if value_of j == value_of k then some (value_at m j + 1) else m j

-- The keys that a map can have, in its order.
abbrev pub all_types : List PktType
all_types = hello ∷ hello_ack ∷ ask ∷ add ∷ relay_in ∷ admit ∷ []

unfoldable pub size_of : PacketCounts → List PktType → ℕ
size_of m [] = 0
size_of m (k ∷ ks) = elim (m k) [ none ↦ size_of m ks | some n ↦ suc (size_of m ks) ]

pub record Switch : Type 0 where
  pub switch_id : ℤ
  pub port1 : ℤ
  pub port2 : ℤ
  pub ipranges : Ips

pub record Session : Type 0 where
  pub in_fifo : Bytes
  pub out_fifo : Bytes
  pub in_fd : ℤ
  pub out_fd : ℤ
  pub port : ℤ

-- `v[i]`; an index out of range is undefined.
abbrev pub at_index {ℓ} : {A : Type ℓ} → List A → ℤ → Outcome A
at_index xs (pos i) = or_undefined (get_elem? xs i)
at_index xs (negsuc i) = undefined

-- `i - 1`
abbrev pub pred_ℤ : ℤ → ℤ
pred_ℤ (pos zero) = negsuc 0
pred_ℤ (pos (suc i)) = pos i
pred_ℤ (negsuc i) = negsuc (suc i)

-- `stoi`, whose exceptions nothing catches.
abbrev pub number : Bytes → Outcome ℤ
number text = or_undefined (stoi text)

unfoldable pub split_ip : Bytes → Outcome Ips
split_ip input = do
  low ← or_undefined (get_elem? (pieces b'-' input) 0)
  low_ip ← number low
  high ← or_undefined (get_elem? (pieces b'-' input) 1)
  high_ip ← number high
  running (record { low = low_ip; high = high_ip })

unfoldable pub name_fifo : ℤ → ℤ → Bytes
name_fifo start end = codes "fifo-" ++ (to_string start ++ (codes "-" ++ to_string end))

-- What `sendPacket` does: it writes the message with a NUL behind it. `writes` tells whether `write`
-- succeeds. The type is not looked at.
unfoldable pub send_packet : (ℤ → Bytes → Bool) → ℤ → PktType → Bytes → List Event
send_packet writes fd type message =
    let frame = message ++ 0 ∷ [] in
    wrote fd frame ∷ (if writes fd frame then [] else printed (codes "error") ∷ [])

-- What one `read` into the buffer brings, and what the buffer held, which is not initialised.
pub record Arrival : Type 0 where
  pub reading : Reading
  pub garbage : Bytes

abbrev pub buffer_of : Arrival → Bytes
buffer_of a = elim a.reading [
  | end_of_file ↦ a.garbage
  | failed ↦ a.garbage
  | bytes b ↦ overwrite b a.garbage
]

-- The words of the message that is read: `while (getline(ss, buf, ' '))`.
unfoldable pub receive : Arrival → Outcome (List Bytes)
unfolding terminated
receive a = do text ← or_undefined (terminated (buffer_of a)); running (pieces b' ' text)
