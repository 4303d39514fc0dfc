-- ===== src/Stream.antt =====
-- stream/: MySQL packets, the state machine of a session, and the events that it gives.
pub mod Packet
pub mod Reader
pub mod Params
pub mod Fsm
pub mod ConnId
pub mod Reassembly
pub mod Events
pub mod Pipeline
mod Tests
