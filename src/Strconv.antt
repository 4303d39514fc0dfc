-- ===== src/Strconv.antt =====
-- The functions of Go's `strconv` and `encoding/hex` that the event codec calls.
pub mod Decimal
pub mod Hex
pub mod Utf8
pub mod Quote
pub mod Library
