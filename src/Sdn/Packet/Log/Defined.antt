-- ===== src/Sdn/Packet/Log/Defined.antt =====
-- When `printPacketMessage` (test2/util.cpp) stays within the packet.
use cmput.Common.{
  ℕ, ◌<◌, ◌≡◌, ◌↔◌, List, [], ◌∷◌, Option, none, some, if◌then◌else◌, ℤ, length, arith,
}
use cmput.Text.{Bytes, codes, same}
use cmput.Sdn.Packet.Log.{open_text, header_text, add_text, packet_text, print_packet_message}

-- How many numbers a packet of a type must have.
abbrev pub numbers_needed : Bytes → ℕ
numbers_needed type =
    if same type (codes "OPEN")
    then 5
    else if same type (codes "ACK")
    then 0
    else if same type (codes "QUERY")
    then 2
    else if same type (codes "ADD")
    then 4
    else if same type (codes "RELAY")
    then 2
    else 0

abbrev IsNone : Option Bytes → Type 0
IsNone none = Unit {0}
IsNone (some t) = ⊥

-- Printing a packet reads beyond its numbers exactly if there are fewer of them than its type needs:
-- five for OPEN, four for ADD, two for QUERY and RELAY, none for ACK and any other type.
pub print_packet_message-eq-none :
    (direction : Bytes) (src_id dest_id : ℤ) (type : Bytes) (msg : List ℤ)
    → (print_packet_message direction src_id dest_id type msg ≡ none)
      ↔ (length msg < numbers_needed type)
unfolding print_packet_message packet_text open_text header_text add_text
print_packet_message-eq-none d s t type [] = ground arith
print_packet_message-eq-none d s t type (a ∷ []) = ground arith
print_packet_message-eq-none d s t type (a ∷ b ∷ []) = ground arith
print_packet_message-eq-none d s t type (a ∷ b ∷ c ∷ []) = ground arith
print_packet_message-eq-none d s t type (a ∷ b ∷ c ∷ e ∷ []) = ground arith
print_packet_message-eq-none d s t type (a ∷ b ∷ c ∷ e ∷ f ∷ msg) = ground arith
