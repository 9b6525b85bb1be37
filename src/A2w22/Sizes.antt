-- ===== src/A2w22/Sizes.antt =====
-- Assignment_2/w22: the numbers of an answer, and that questions and answers fit in a buffer of MAXBUF bytes.
use cmput.Common.{
  ℕ, ◌+◌, ◌≤◌, ◌<◌, List, [], ◌∷◌, ◌++◌, ℤ, IsInt, length, length-append, All, arith,
}
use cmput.Text.{Bytes}
use cmput.Text.Number.{to_string}
use cmput.Text.Number.Length.{length-to_string}
use cmput.A2w22.{Switch}
use cmput.A2w22.Directory.{
  Answer, acknowledged, route, unknown, Located, nowhere, here, later, message_of,
}
use cmput.A2w22.Psw.{ask_text}
use cmput.A2w22.Route.{answer_numbers}

-- The numbers of a member that an answer can hold.
abbrev pub member_numbers : Switch → List ℤ
member_numbers sw = sw.port1 ∷ sw.port2 ∷ sw.ipranges.low ∷ sw.ipranges.high ∷ []

abbrev pub HasInts : Switch → Type 0
HasInts sw = All IsInt (member_numbers sw)

abbrev pub all_numbers : Answer → List ℤ
all_numbers acknowledged = []
all_numbers (unknown dest) = dest ∷ []
all_numbers (route sw) = member_numbers sw

pub Located-IsInt :
    {dest : ℤ} {members : List Switch} {a : Answer}
    → Located dest members a
    → IsInt dest
    → All HasInts members
    → All IsInt (all_numbers a)
Located-IsInt nowhere int ints = (int, tt)
Located-IsInt (here sw members holds) int ints = ints.0
Located-IsInt (later sw members missed rest) int ints = Located-IsInt rest int ints.1

pub answer_numbers-IsInt : (a : Answer) → All IsInt (all_numbers a) → All IsInt (answer_numbers a)
answer_numbers-IsInt acknowledged ints = tt
answer_numbers-IsInt (unknown dest) ints = ints
answer_numbers-IsInt (route sw) (hp, (hq, (hl, (hh, u)))) = (hp, (hl, (hh, tt)))

length-spaced :
    (p rest : Bytes) (m n : ℕ)
    → length p ≤ m
    → length rest ≤ n
    → length (p ++ b' ' ∷ rest) ≤ m + n + 1
length-spaced p rest m n h k = rw (length-append p (b' ' ∷ rest)) (omega arith)

-- An answer is at most 63 bytes long, and a question at most 27.
pub length-message_of :
    (id : ℤ) (a : Answer) → IsInt id → All IsInt (all_numbers a) → length (message_of id a) < 1024
length-message_of id acknowledged int ints = omega arith
length-message_of id (unknown dest) int (hd, u) =
    let text =
      length-spaced (to_string id) (to_string dest) 11 11 (length-to_string id int)
        (length-to_string dest hd) in
    omega (arith, text)
length-message_of id (route sw) int (hp, (hq, (hl, (hh, u)))) =
    let ips = sw.ipranges in
    let range =
      length-spaced (to_string ips.low) (to_string ips.high) 11 11 (length-to_string ips.low hl)
        (length-to_string ips.high hh) in
    let right = length-spaced (to_string sw.port2) _ 11 23 (length-to_string sw.port2 hq) range in
    let left = length-spaced (to_string sw.port1) _ 11 35 (length-to_string sw.port1 hp) right in
    let text = length-spaced (to_string id) _ 11 47 (length-to_string id int) left in
    omega (arith, text)

pub length-ask_text : (id dest : ℤ) → IsInt id → IsInt dest → length (ask_text id dest) < 1024
unfolding ask_text
length-ask_text id dest int hd =
    let text =
      length-spaced (to_string id) (to_string dest) 11 11 (length-to_string id int)
        (length-to_string dest hd) in
    omega (arith, text)
