-- ===== src/A2w22/Directory.antt =====
-- Assignment_2/w22/controller.cpp: what the controller promises, as a directory of the switches that
-- have announced themselves and the answers that it has given, without messages, FIFOs and sessions.
pub mod Serving
pub mod Runs
use cmput.Common.{List, [], ◌∷◌, ◌++◌, ℤ, pos, ◌≤ℤ◌}
use cmput.Text.{Bytes, codes}
use cmput.Text.Number.{to_string}
use cmput.A2w22.{Ips, Switch, name_fifo}
use cmput.A2w22.Controller.{port_or_none}
use cmput.A2w22.Psw.{hello_text, ask_text}

-- What a switch wants of the controller: to be announced with its two neighbours and its addresses, or
-- to know where a destination is.
pub data Request : Type 0 where
  announce : ℤ → ℤ → ℤ → Ips → Request
  locate : ℤ → ℤ → Request

-- The message in which a switch sends it.
abbrev pub request_text : Request → Bytes
request_text (announce sid pswj pswk r) = hello_text sid pswj pswk r
request_text (locate switch_id dest_ip) = ask_text switch_id dest_ip

pub data Answer : Type 0 where
  acknowledged : Answer
  route : Switch → Answer
  unknown : ℤ → Answer

-- The members and, oldest first, the answers with the switch that each went to.
pub record Directory : Type 0 where
  pub members : List Switch
  pub answers : List (ℤ × Answer)

abbrev pub nobody : Directory
nobody = record { members = []; answers = [] }

abbrev pub Holds : Switch → ℤ → Type 0
Holds sw dest = (sw.ipranges.low ≤ℤ dest) × (dest ≤ℤ sw.ipranges.high)

-- The answer about a destination: the member that holds it and was announced first, if there is one.
pub data Located (dest : ℤ) : List Switch → Answer → Type 0 where
  nowhere : Located dest [] (unknown dest)
  here :
      (sw : Switch) (members : List Switch) → Holds sw dest → Located dest (sw ∷ members) (route sw)
  later :
      (sw : Switch) (members : List Switch) {a : Answer}
      → ¬ Holds sw dest
      → Located dest members a
      → Located dest (sw ∷ members) a

abbrev pub member : ℤ → ℤ → ℤ → Ips → Switch
member sid pswj pswk r = record {
  switch_id = sid;
  port1 = port_or_none pswj;
  port2 = port_or_none pswk;
  ipranges = r;
}

-- One request served.
pub data Serves : Directory → Request → Directory → Type 0 where
  announced :
      (d : Directory) (sid pswj pswk : ℤ) (r : Ips)
      → Serves d (announce sid pswj pswk r) (record {
        members = d.members ++ member sid pswj pswk r ∷ [];
        answers = d.answers ++ (sid, acknowledged) ∷ [];
      })
  located :
      (d : Directory) (id dest : ℤ) (a : Answer)
      → Located dest d.members a
      → Serves d (locate id dest) (record d { answers = d.answers ++ (id, a) ∷ [] })

pub data ServesAll : Directory → List Request → Directory → Type 0 where
  no_more : (d : Directory) → ServesAll d [] d
  one_more :
      {d e f : Directory} {r : Request} {rs : List Request}
      → Serves d r e
      → ServesAll e rs f
      → ServesAll d (r ∷ rs) f

-- The message of an answer to the switch `id`.
abbrev pub message_of : ℤ → Answer → Bytes
message_of id acknowledged = codes "HELLO_ACK 0"
message_of id (unknown dest) = codes "ADD " ++ (to_string id ++ (codes " " ++ to_string dest))
message_of id (route sw) =
    codes "ADD "
    ++ (to_string id
        ++ (codes " "
            ++ (to_string sw.port1
                ++ (codes " "
                    ++ (to_string sw.port2
                        ++ (codes " "
                            ++ (to_string sw.ipranges.low
                                ++ (codes " " ++ to_string sw.ipranges.high))))))))

-- An answer as it is written: to the FIFO from the controller to the switch, with a NUL behind it.
abbrev pub frame_of : (Bytes → ℤ) → ℤ × Answer → ℤ × Bytes
frame_of opens (id, a) = (opens (name_fifo (pos 0) id), message_of id a ++ 0 ∷ [])
