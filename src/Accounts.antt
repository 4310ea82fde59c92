-- ===== src/Accounts.antt =====
-- src/tier/devices.ts and src/v1/accounts.ts: devices, their accounts, and signing in.
pub mod Types
pub mod Credentials
pub mod Devices
pub mod Tokens
pub mod Identities
pub mod Merge
pub mod Erase
mod Examples
