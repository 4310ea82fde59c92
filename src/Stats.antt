-- ===== src/Stats.antt =====
-- src/stats: what the server counts.
pub mod Counters
mod Examples
