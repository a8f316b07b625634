-- ===== src/Glpi.antt =====
-- crates/permissionsync-adapter-glpi: the GLPI target adapter.
pub mod Failure
pub mod Payload
pub mod Http
pub mod Config
pub mod Session
pub mod Mutation
pub mod Deadline
pub mod Search
pub mod Plan
pub mod Adapter
