-- ===== src/Retention.antt =====
-- src/retention: what is deleted by age.
pub mod Prune
pub mod Kept
mod Examples
