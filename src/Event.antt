-- ===== src/Event.antt =====
-- event/event.go: events of a MySQL session and their text format.
pub mod Types
pub mod Append
pub mod Scan
pub mod Fields
pub mod Layout
pub mod ScanParams
pub mod Body
pub mod RoundTrip
pub mod Safety
pub mod Malformed
mod Tests
