-- ===== src/Domain/Values.antt =====
-- crates/permissionsync-core: identity, credential and desired state, all of them preserved as
-- they were supplied.
use permissionsync.Prelude.{ℕ, List, Text, Bool, Result, ok, err, if◌then◌else◌}

-- identity.rs
pub record IdentityContext : Type 0 where
  pub username : Text
  pub groups : List Text

-- technical_caller.rs
pub record TechnicalCallerBearerToken : Type 0 where
  pub value : Text

-- desired_state.rs
pub record EnvelopeVersion : Type 0 where
  pub value : ℕ

pub record OpaquePayload : Type 0 where
  pub json : Text

pub data InvalidOpaquePayload : Type 0 where
  invalid_opaque_payload : InvalidOpaquePayload

pub record DesiredStateEnvelope : Type 0 where
  pub version : EnvelopeVersion
  pub payload : OpaquePayload

-- `OpaquePayload::try_from`, over the validator of `serde_json`.
unfoldable pub payload_try_from : (Text → Bool) → Text → Result InvalidOpaquePayload OpaquePayload
payload_try_from is_json value =
    if is_json value then ok (record { json = value }) else err invalid_opaque_payload
