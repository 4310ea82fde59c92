-- ===== src/RateLimit.antt =====
-- src/rate-limit.ts: the limits that the server keeps in memory.
pub mod Rolling
pub mod Daily
mod Examples
