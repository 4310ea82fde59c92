-- ===== src/Check.antt =====
-- src/check: the weekly check of a device.
pub mod Schedule
pub mod CheckId
pub mod Types
pub mod Statements
pub mod Close
pub mod Plan
pub mod Receipts
pub mod Closed
pub mod Runs
pub mod Sends
pub mod Confirm
pub mod Results
pub mod Scan
pub mod Repeats
mod Examples
