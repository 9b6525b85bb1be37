-- ===== src/Draft.antt =====
-- test/: an unfinished version of the network of test2. general.cpp: `readPkt`, whose loop over the
-- numbers is that of `parsePacketMessage`; and what the two programs do alike with a buffer.
pub mod Args
pub mod Master
pub mod Switch
mod Tests
use cmput.Common.{ℕ, List, ◌++◌, ◌==ℤ◌, if◌then◌else◌, ℤ, negsuc}
use cmput.Text.{Bytes, codes, before, after, overwrite}
use cmput.Text.Buffer.{terminated}
use cmput.Text.Number.{to_string}
use cmput.Sdn.Packet.{parse_packet_message, trim}
use cmput.Process.{Outcome, running, ◌>>=◌, or_undefined, Reading, end_of_file, failed, bytes}

abbrev pub max_buffer : ℕ
max_buffer = 1024

abbrev pub max_ip : ℕ
max_ip = 1000

unfoldable pub read_pkt : Bytes → Bytes × List ℤ
unfolding before after parse_packet_message
read_pkt s = (before b':' s, parse_packet_message (after b':' s))

-- `"null"` or `"psw…"`
unfoldable pub port_name : ℤ → Bytes
port_name port = if port ==ℤ negsuc 0 then codes "null" else codes "psw" ++ to_string port

-- The buffer behind a `read`.
abbrev pub filled : Reading → Bytes → Bytes
filled end_of_file buffer = buffer
filled failed buffer = buffer
filled (bytes b) buffer = overwrite b buffer

-- The command in the buffer, with white space cut off at both ends.
unfoldable pub command_in : Bytes → Outcome Bytes
unfolding trim terminated
command_in buffer = do text ← or_undefined (terminated buffer); running (trim text)
