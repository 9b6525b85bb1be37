-- ===== src/Sdn/Returned.antt =====
-- test2/switch.cpp: a packet in transit that comes from the switch's own port 1.
use cmput.Sdn.Switch.State.{Switch}
