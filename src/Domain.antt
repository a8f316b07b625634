-- ===== src/Domain.antt =====
-- crates/permissionsync-core: the target-neutral domain values.
pub mod Target
pub mod Values
pub mod Context
