-- ===== src/Stats.antt =====
-- stats/counter.go: the process's counters.
pub mod Counter
pub mod Laws
pub mod Dump
pub mod Lagging
mod Tests
