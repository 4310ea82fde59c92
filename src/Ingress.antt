-- ===== src/Ingress.antt =====
-- src/ingress: messages come in.
pub mod Types
pub mod Publish
pub mod Storing
mod Examples
