-- ===== src/Push.antt =====
-- src/push: how alarm pushes are sent, and what the apps hear of a change of state.
pub mod Types
pub mod Dispatcher
pub mod Activities
pub mod Apns
pub mod Hosts
pub mod Fcm
pub mod Hidden
pub mod Tally
pub mod Unmoved
pub mod Recipients
mod Examples
