-- ===== src/Incident.antt =====
-- src/incident: the incident engine.
pub mod Types
pub mod Statements
pub mod Publish
pub mod Actions
pub mod Scan
pub mod Invariant
pub mod Runs
pub mod Lifecycle
pub mod Replies
pub mod Due
pub mod Reads
pub mod Publishing
mod Examples
