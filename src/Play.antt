-- ===== src/Play.antt =====
-- cmd/text.go: the replay of a file of events against a database.
pub mod Driver
pub mod Worker
pub mod Session
pub mod Handles
pub mod Invariant
pub mod Conn
pub mod Closing
pub mod Quit
pub mod Runs
pub mod Statements
pub mod Rounds
pub mod Replay
pub mod Reconnect
pub mod Spec
pub mod Refinement
mod Tests
