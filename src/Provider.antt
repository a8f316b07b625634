-- ===== src/Provider.antt =====
-- crates/permissionsync-provider-generic-rest/src: the generic REST permission provider.
pub mod Wire
pub mod Client
