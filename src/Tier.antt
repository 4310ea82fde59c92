-- ===== src/Tier.antt =====
-- src/tier: what an account may do.
pub mod Caps
pub mod P4Usage
pub mod Purchases
pub mod Packs
pub mod Reads
mod Examples
