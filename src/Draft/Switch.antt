-- ===== src/Draft/Switch.antt =====
-- test/switch.cpp: the variables of `switchLoop`, its forwarding table and the packets that it sends.
-- The results of its calls of `write` are not looked at.
pub mod Traffic
pub mod Packets
pub mod Loop
pub mod Delayed
use cmput.Common.{ℕ, ◌+◌, Bool, List, [], ◌∷◌, ◌++◌, Option, none, some, ℤ, pos, get_elem?}
use cmput.Text.{Bytes, codes}
use cmput.Text.Number.{to_string, print_nat}
use cmput.Process.{
  Event, wrote, printed, Outcome, running, ◌>>=◌, or_undefined, IntMap, find, insert, at, touch,
}
use cmput.Draft.{read_pkt}

pub record SwitchPacketCounts : Type 0 where
  pub admit : ℕ
  pub hello_ack : ℕ
  pub add : ℕ
  pub relay_in : ℕ
  pub opens : ℕ
  pub ask : ℕ
  pub relay_out : ℕ

-- The texts "FORWARD" and "DROP"; no rule has another.
pub data ActionType : Type 0 where
  forward drop_it : ActionType

pub record ForwardRule : Type 0 where
  pub src_ip_low : ℤ
  pub src_ip_high : ℤ
  pub dest_ip_low : ℤ
  pub dest_ip_high : ℤ
  pub action_type : ActionType
  pub action_val : ℤ
  pub pkt_count : ℕ

-- `traffic` holds the lines not read yet, while the file is open.
pub record Switch : Type 0 where
  pub id : ℤ
  pub table : List ForwardRule
  pub fdid : IntMap
  pub swid : IntMap
  pub counts : SwitchPacketCounts
  pub pfds : ℕ → ℤ
  pub delay : ℤ
  pub hello_ack_received : Bool
  pub add_received : Bool
  pub traffic : Option (List Bytes)
  pub buffer : Bytes
  pub out : List Event

abbrev pub emit : Event → Switch → Switch
emit e s = record s { out = s.out ++ e ∷ [] }

unfoldable pub make_fifo : ℤ → ℤ → Bytes
make_fifo a b = codes "fifo-" ++ (to_string a ++ (codes "-" ++ to_string b))

action_name : ActionType → Bytes
action_name forward = codes "FORWARD"
action_name drop_it = codes "DROP"

rule_line : ℕ → ForwardRule → Bytes
unfolding action_name
rule_line i rule =
    codes "["
    ++ (print_nat i
        ++ (codes "] (srcIp= "
            ++ (to_string rule.src_ip_low
                ++ (codes "-"
                    ++ (to_string rule.src_ip_high
                        ++ (codes ", destIp= "
                            ++ (to_string rule.dest_ip_low
                                ++ (codes "-"
                                    ++ (to_string rule.dest_ip_high
                                        ++ (codes ", action= "
                                            ++ (action_name rule.action_type
                                                ++ (codes ":"
                                                    ++ (to_string rule.action_val
                                                        ++ (codes ", pktCount= "
                                                            ++ (print_nat rule.pkt_count
                                                            ++ codes ")\n")))))))))))))))

rule_lines : ℕ → List ForwardRule → Bytes
unfolding rule_line
rule_lines i [] = []
rule_lines i (rule ∷ table) = rule_line i rule ++ rule_lines (i + 1) table

counts_text : SwitchPacketCounts → Bytes
counts_text counts =
    codes "\nPacket Stats:\n\tReceived:    ADMIT:"
    ++ (print_nat counts.admit
        ++ (codes ", HELLO_ACK:"
            ++ (print_nat counts.hello_ack
                ++ (codes ", ADD:"
                    ++ (print_nat counts.add
                        ++ (codes ", RELAYIN:"
                            ++ (print_nat counts.relay_in
                                ++ (codes "\n\tTransmitted: OPEN:"
                                    ++ (print_nat counts.opens
                                        ++ (codes ", ASK:"
                                            ++ (print_nat counts.ask
                                                ++ (codes ", RELAYOUT:"
                                                    ++ (print_nat counts.relay_out
                                                        ++ codes "\n")))))))))))))

unfoldable pub print_info : List ForwardRule → SwitchPacketCounts → Bytes
unfolding rule_lines counts_text
print_info table counts = codes "foward table:\n" ++ (rule_lines 0 table ++ counts_text counts)

unfoldable pub relay_string : ℤ → ℤ → Bytes
relay_string src_ip dest_ip =
    codes "RELAY:" ++ (to_string src_ip ++ (codes "," ++ to_string dest_ip))

unfoldable pub ask_string : ℤ → ℤ → Bytes
ask_string src_ip dest_ip = codes "ASK:" ++ (to_string src_ip ++ (codes "," ++ to_string dest_ip))

-- The two numbers of a packet that was written, which is parsed again.
header_text : List ℤ → Outcome Bytes
header_text msg = do
  src ← or_undefined (get_elem? msg 0)
  dest ← or_undefined (get_elem? msg 1)
  running (
      codes ": header= (srcIP= "
      ++ (to_string src ++ (codes ", destIP= " ++ (to_string dest ++ codes ")\n"))))

relay_line : ℤ → ℤ → Bytes → Event
relay_line src_ip dest_ip header = printed (
    codes "Transmitted (src= psw"
    ++ (to_string src_ip
        ++ (codes "dest= psw" ++ (to_string dest_ip ++ (codes ") [RELAY]" ++ header)))))

ask_line : ℤ → Bytes → Event
ask_line id header =
    printed
      (codes "Transmitted (src= psw" ++ (to_string id ++ (codes ", dest= master) [ASK]" ++ header)))

-- `if (!fdid.count(port))`: open the FIFO to the switch at the port; `opens` is the result of `open`,
-- which is not looked at, and `id` the number that stands first in the FIFO's name.
unfoldable pub ensure_fifo : (Bytes → ℤ) → ℤ → ℤ → Switch → Switch
unfolding find insert at touch make_fifo
ensure_fifo opens id port s = elim (find port s.fdid) [
  | some fd ↦ s
  | none ↦ record s {
    swid = touch port s.swid;
    fdid = insert port (opens (make_fifo id (at port s.swid))) s.fdid;
  }
]

abbrev count_relay_out : Switch → Switch
count_relay_out s = record s { counts = record counts { relay_out = counts.relay_out + 1 } }
  where
    open s use {counts}

-- A packet to the switch at the port.
unfoldable pub relay_to : (Bytes → ℤ) → ℤ → ℤ → ℤ → ℤ → Switch → Outcome Switch
unfolding ensure_fifo relay_string header_text relay_line read_pkt at touch
relay_to opens id port src_ip dest_ip s = do
  let t = ensure_fifo opens id port s
  let text = relay_string src_ip dest_ip
  let sent = emit (wrote (at port t.fdid) text) (record t { fdid = touch port t.fdid })
  header ← header_text (read_pkt text).1
  running (count_relay_out (emit (relay_line src_ip dest_ip header) sent))

-- A question to the master; `id` is the number that is printed as that of the switch.
unfoldable pub ask_master : ℤ → ℤ → ℤ → Switch → Outcome Switch
unfolding ask_string header_text ask_line read_pkt at touch
ask_master id src_ip dest_ip s = do
  let text = ask_string src_ip dest_ip
  let sent = emit (wrote (at (pos 0) s.fdid) text) (record s { fdid = touch (pos 0) s.fdid })
  header ← header_text (read_pkt text).1
  running (emit (ask_line id header) sent)
