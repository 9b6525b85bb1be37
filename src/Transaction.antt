-- ===== src/Transaction.antt =====
-- Assignment_3: a server that handles the transactions of several clients, and its client. What goes to
-- stderr is left out.
pub mod Server
pub mod Client
pub mod Exchange
pub mod Session
mod Tests
mod SessionTests
use cmput.Common.{ℕ, ltb, if◌then◌else◌, length}
use cmput.Text.{Bytes}
use cmput.Process.{Outcome, running, undefined}

-- The size of the buffers that `sprintf` fills.
abbrev pub line_size : ℕ
line_size = 128

abbrev pub buffer_size : ℕ
buffer_size = 1024

-- `sprintf` into `n` bytes: the text with its NUL must fit.
unfoldable pub sprintf : ℕ → Bytes → Outcome Bytes
sprintf n text = if ltb (length text) n then running text else undefined
