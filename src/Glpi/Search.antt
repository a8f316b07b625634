-- ===== src/Glpi/Search.antt =====
-- crates/permissionsync-adapter-glpi/src/search.rs: search options, pages, exact matches and the
-- current assignments.
pub mod Page
pub mod Options
pub mod Pages
pub mod Matches
pub mod Assignments
