-- ===== src/Auth.antt =====
-- Authentication: internal/auth.
pub mod KeySet
pub mod Verifier
pub mod Resolve
pub mod Guards
pub mod Samples
mod Tests
