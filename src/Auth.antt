-- ===== src/Auth.antt =====
-- crates/permissionsync-auth: authentication of the technical caller.
pub mod Types
pub mod Scope
pub mod Claims
pub mod Cache
pub mod Preflight
pub mod Verifier
pub mod Authenticator
