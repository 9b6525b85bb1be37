-- ===== src/Sdn/Answers.antt =====
-- test2/: the answer that the controller has for a query, and that queries and answers fit in the buffers.
use cmput.Common.{
  ℕ, ◌*◌, ◌≤◌, ◌<◌, ◌⊎◌, refl, inl, inr, List, [], ◌∷◌, ◌++◌, ◌&&◌, ℤ, pos, leb_ℤ, IsInt, length,
  length-append, arith, All, All-append, Bool-cases,
}
use cmput.Text.{Bytes, codes, Lacks}
use cmput.Text.Number.{to_string, to_string-Lacks}
use cmput.Text.Number.Length.{length-to_string}
use cmput.Sdn.Packet.{query_string, add_string}
use cmput.Sdn.Packet.RoundTrip.{Packet, add, numbers, packet_string, comma_list}
use cmput.Sdn.Controller.{relay_port_of}
use cmput.Sdn.Controller.State.{SwitchInfo}
use cmput.Sdn.Controller.Query.{FirstHolder, here, later, Outside, Answer, forward, drop_it}

pub comma_list-Lacks : (zs : List ℤ) → Lacks 0 (comma_list zs)
comma_list-Lacks [] = tt
comma_list-Lacks (z ∷ []) = to_string-Lacks 0 z refl (ground arith)
comma_list-Lacks (z ∷ y ∷ zs) =
    All-append _ (to_string z) (b',' ∷ comma_list (y ∷ zs))
      (to_string-Lacks 0 z refl (ground arith)) (omega arith, comma_list-Lacks (y ∷ zs))

pub length-comma_list : (zs : List ℤ) → All IsInt zs → length (comma_list zs) ≤ 12 * length zs
length-comma_list [] h = omega arith
length-comma_list (z ∷ []) h = let number = length-to_string z h.0 in omega (arith, number)
length-comma_list (z ∷ y ∷ zs) (hz, hs) =
    let number = length-to_string z hz in
    let rest = length-comma_list (y ∷ zs) hs in
    rw (length-append (to_string z)) (omega (arith, number, rest))

-- The numbers of a switch in the controller's table are of type `int`.
abbrev pub HasInts : SwitchInfo → Type 0
HasInts info = IsInt info.ip_low × IsInt info.ip_high

-- The answer that the table gives.
abbrev pub FoundIn : ℤ → List SwitchInfo → Type 0
FoundIn dest table =
    ((holder : SwitchInfo) × FirstHolder dest table holder × HasInts holder)
    ⊎ All (Outside dest) table

pub first_holder : (dest : ℤ) (table : List SwitchInfo) → All HasInts table → FoundIn dest table
first_holder dest [] h = inr tt
first_holder dest (info ∷ table) h =
    elim (Bool-cases (leb_ℤ info.ip_low dest && leb_ℤ dest info.ip_high)) [
      | inl q ↦ inl (info, here (ground arith) (ground arith), h.0)
      | inr q ↦ elim (first_holder dest table h.1) [
        | inl (holder, first, ints) ↦ inl (holder, later (λ k. ground arith) first, ints)
        | inr outside ↦ inr (λ k. ground arith, outside)
      ]
    ]

-- A packet of at most five numbers has no NUL and fits in the buffers.
unfoldable pub Fits : Bytes → Type 0
Fits text = Lacks 0 text × (length text < 1024)

pub packet-Fits :
    (type : Bytes) (zs : List ℤ)
    → Lacks 0 type
    → length type ≤ 10
    → All IsInt zs
    → length zs ≤ 5
    → Fits (type ++ comma_list zs)
unfolding Fits
packet-Fits type zs clean short ints few =
    let text = length-comma_list zs ints in
    (
      All-append _ type (comma_list zs) clean (comma_list-Lacks zs),
      rw (length-append type (comma_list zs)) (omega (arith, text, short, few)),
    )

pub answer_for :
    (table : List SwitchInfo) (i : ℕ) (src dest : ℤ)
    → All HasInts table
    → IsInt src
    → IsInt dest
    → (p : Packet) × Answer table i src dest p × All IsInt (numbers p) × Fits (packet_string p)
unfolding add_string
answer_for table i src dest h hs hd = elim (first_holder dest table h) [
  | inl (holder, first, (hl, hh)) ↦
      let port = relay_port_of holder i in
      let zs : List ℤ = pos 1 ∷ holder.ip_low ∷ holder.ip_high ∷ port ∷ src ∷ [] in
      let ints : All IsInt zs = (omega arith, (hl, (hh, (ground arith, (hs, tt))))) in
      (
        add (pos 1) holder.ip_low holder.ip_high port src,
        forward holder first,
        ints,
        packet-Fits (codes "ADD:") zs (omega arith) (omega arith) ints (omega arith),
      )
  | inr outside ↦
      let zs : List ℤ = pos 0 ∷ dest ∷ dest ∷ pos 0 ∷ src ∷ [] in
      let ints : All IsInt zs = (omega arith, (hd, (hd, (omega arith, (hs, tt))))) in
      (
        add (pos 0) dest dest (pos 0) src,
        drop_it outside,
        ints,
        packet-Fits (codes "ADD:") zs (omega arith) (omega arith) ints (omega arith),
      )
]

pub query-Fits : (src dest : ℤ) → IsInt src → IsInt dest → Fits (query_string src dest)
unfolding query_string
query-Fits src dest hs hd =
    packet-Fits (codes "QUERY:") (src ∷ dest ∷ []) (omega arith) (omega arith) (hs, (hd, tt))
      (omega arith)
