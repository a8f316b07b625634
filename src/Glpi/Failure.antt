-- ===== src/Glpi/Failure.antt =====
-- crates/permissionsync-adapter-glpi/src/error.rs: the failures of one reconciliation. Their
-- redacted formatting is not modelled.
pub data GlpiFailure : Type 0 where
  cancelled deadline_exceeded runtime_unavailable unsupported_envelope_version invalid_payload :
      GlpiFailure
  transport response_body response_too_large session_init_failed incomplete_visibility : GlpiFailure
  search_metadata_unavailable search_pagination ambiguous_reference missing_reference : GlpiFailure
  malformed_reference user_creation_failed mutation_failed verification_failed : GlpiFailure
  cleanup_failed : GlpiFailure
