-- ===== src/Sdn.antt =====
-- test2/: the software-defined network of a controller and up to seven switches (`a3sdn`).
pub mod Packet
pub mod Controller
pub mod SwitchId
pub mod Switch
pub mod Network
pub mod Exchange
pub mod Returned
pub mod Answers
pub mod Address
pub mod Args
mod ControllerTests
mod SwitchTests
mod ExchangeTests
mod ArgsTests
