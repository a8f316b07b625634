-- ===== src/Glpi/Adapter.antt =====
-- crates/permissionsync-adapter-glpi/src/adapter.rs: one reconciliation, in the order of its
-- operations.
pub mod Laws
use permissionsync.Prelude.{
  ℕ, suc, Bool, true, false, not, List, [], ◌∷◌, Option, none, some, ok_or, ltb, leb, ◌==◌,
  if◌then◌else◌, Result, ok, err, Text, text,
}
use permissionsync.Prelude.Outcome
use permissionsync.Prelude.Io.{Io, pure, throw, proceed, ◌>>=◌, ◌>>◌, lift, guard, map_err, relabel}
use permissionsync.Domain.Context.{
  SynchronizationContext, TargetAdapterRequest, ReconciliationOutcome, changed, unchanged,
  TargetAdapterError, target_adapter_error,
}
use permissionsync.Glpi.Failure.{
  GlpiFailure, unsupported_envelope_version, missing_reference, verification_failed,
  user_creation_failed,
}
use permissionsync.Glpi.Payload.{CanonicalAssignment, parse_and_normalize}
use permissionsync.Glpi.Plan.{CurrentRow, DesiredAssignment, Addition, compute, is_canonical}
use permissionsync.Glpi.Http.{Environment, ValidatedConfig, GlpiSession}
use permissionsync.Glpi.Session.{
  init_session, force_all_entities, verify_complete_visibility, kill_session,
}
use permissionsync.Glpi.Mutation.{create_user, create_assignment, delete_assignment}
use permissionsync.Glpi.Deadline.{effective_deadline, check_context}
use permissionsync.Glpi.Search.Options
use permissionsync.Glpi.Search.Options.{
  SearchOptions, lookup, required_entity_uids, required_profile_uids, required_user_uids,
  required_profile_user_uids,
}
use permissionsync.Glpi.Search.Matches.{resolve_entity_id, resolve_profile_id, resolve_user_id}
use permissionsync.Glpi.Search.Assignments.{read_current_assignments}

-- The ids of the references that are resolved so far.
abbrev pub Resolved : Type 0
Resolved = List (Text × ℕ)

-- What the first part of a reconciliation hands on.
pub record References : Type 0 where
  pub entities : Resolved
  pub profiles : Resolved
  pub user_options : SearchOptions
  pub profile_user_options : SearchOptions

-- One desired assignment by the ids of its references.
unfoldable pub resolved_assignment :
    Resolved → Resolved → CanonicalAssignment → Result GlpiFailure DesiredAssignment
unfolding lookup
resolved_assignment entities profiles a =
    Outcome.◌>>=◌ (ok_or missing_reference (lookup a.entity entities)) λ entities_id.
      Outcome.◌>>=◌ (ok_or missing_reference (lookup a.profile profiles)) λ profiles_id.
        ok
          (record { entities_id = entities_id; profiles_id = profiles_id; recursive = a.recursive })

unfoldable pub resolved_desired :
    Resolved → Resolved → List CanonicalAssignment → Result GlpiFailure (List DesiredAssignment)
unfolding resolved_assignment
resolved_desired entities profiles [] = ok []
resolved_desired entities profiles (a ∷ as_) =
    Outcome.◌>>=◌ (resolved_assignment entities profiles a)
      λ d. Outcome.◌>>=◌ (resolved_desired entities profiles as_) λ ds. ok (d ∷ ds)

-- A confirmed mutation makes the outcome `Changed`.
abbrev pub outcome_of : ℕ → ReconciliationOutcome
outcome_of effective_mutations = if ltb 0 effective_mutations then changed else unchanged

-- A primary error survives the result of the cleanup.
abbrev pub both :
    Result GlpiFailure ReconciliationOutcome
    → Result GlpiFailure (Unit {0})
    → Result GlpiFailure ReconciliationOutcome
both (ok outcome) (ok cleaned) = ok outcome
both (ok outcome) (err cleanup_error) = err cleanup_error
both (err primary_error) cleanup_result = err primary_error

module _ {N W : Type 0} (env : Environment N W) (config : ValidatedConfig) where
  module _ (session : GlpiSession) (context : SynchronizationContext) where
    abbrev pub fresh_deadline : Io W GlpiFailure ℕ
    fresh_deadline = effective_deadline env config context

    abbrev pub checked : Io W GlpiFailure (Unit {0})
    checked = check_context env context.deadline

    unfoldable pub visible : Io W GlpiFailure (Unit {0})
    visible = do
      deadline ← fresh_deadline
      force_all_entities env config session deadline
      later ← fresh_deadline
      verify_complete_visibility env config session later

    unfoldable pub options_of : Text → List Text → Io W GlpiFailure SearchOptions
    options_of itemtype required_uids = do
      deadline ← fresh_deadline
      Options.resolve_search_options env config session itemtype required_uids deadline

    -- A reference is resolved once.
    unfoldable pub resolve_once :
        (Text → Io W GlpiFailure ℕ) → Text → Resolved → Io W GlpiFailure Resolved
    unfolding lookup
    resolve_once resolve selector resolved = elim (lookup selector resolved) [
      | some id ↦ pure resolved
      | none ↦ resolve selector >>= λ id. pure ((selector, id) ∷ resolved)
    ]

    unfoldable pub resolve_references :
        SearchOptions
        → SearchOptions
        → List CanonicalAssignment
        → Resolved
        → Resolved
        → Io W GlpiFailure (Resolved × Resolved)
    unfolding resolve_once
    resolve_references entity_options profile_options [] entities profiles =
        pure (entities, profiles)
    resolve_references entity_options profile_options (a ∷ as_) entities profiles = do
      checked
      more_entities ←
          resolve_once (resolve_entity_id env config session context entity_options) a.entity
            entities
      checked
      more_profiles ←
          resolve_once (resolve_profile_id env config session context profile_options) a.profile
            profiles
      resolve_references entity_options profile_options as_ more_entities more_profiles

    unfoldable pub references : List CanonicalAssignment → Io W GlpiFailure References
    unfolding options_of resolve_references
    references [] = do
      user_options ← options_of (text "User") required_user_uids
      profile_user_options ← options_of (text "Profile_User") required_profile_user_uids
      let found : References = record {
        entities = [];
        profiles = [];
        user_options = user_options;
        profile_user_options = profile_user_options;
      }
      pure found
    references (a ∷ as_) = do
      entity_options ← options_of (text "Entity") required_entity_uids
      profile_options ← options_of (text "Profile") required_profile_uids
      user_options ← options_of (text "User") required_user_uids
      profile_user_options ← options_of (text "Profile_User") required_profile_user_uids
      resolved ← resolve_references entity_options profile_options (a ∷ as_) [] []
      let found : References = record {
        entities = resolved.0;
        profiles = resolved.1;
        user_options = user_options;
        profile_user_options = profile_user_options;
      }
      pure found

    -- `resolved != Some(created_id)`
    abbrev pub is_created : ℕ → Option ℕ → Bool
    is_created created_id none = false
    is_created created_id (some id) = id == created_id

    unfoldable pub create_user_and_resolve_outcome : SearchOptions → Text → Io W GlpiFailure (ℕ × ℕ)
    create_user_and_resolve_outcome user_options username = do
      deadline ← fresh_deadline
      created_id ← create_user env config session username config.authentication_source deadline
      resolved ← resolve_user_id env config session context user_options username
      guard (is_created created_id resolved) user_creation_failed
      let owner : ℕ × ℕ = (created_id, 1)
      pure owner

    -- The user's id, and how many mutations made it.
    abbrev pub owner_from : SearchOptions → Text → Option ℕ → Io W GlpiFailure (ℕ × ℕ)
    owner_from user_options username (some id) = pure (id, 0)
    owner_from user_options username none = create_user_and_resolve_outcome user_options username

    unfoldable pub owner_of : SearchOptions → Text → Io W GlpiFailure (ℕ × ℕ)
    unfolding create_user_and_resolve_outcome
    owner_of user_options username =
        resolve_user_id env config session context user_options username
        >>= owner_from user_options username

    -- One deletion and one creation, each with a deadline of its own.
    abbrev pub remove_one : ℕ → Io W GlpiFailure (Unit {0})
    remove_one assignment_id = do
      deadline ← fresh_deadline
      delete_assignment env config session assignment_id deadline

    abbrev pub add_one : ℕ → Addition → Io W GlpiFailure ℕ
    add_one user_id addition = do
      deadline ← fresh_deadline
      create_assignment env config session user_id addition.profiles_id addition.entities_id
          addition.recursive deadline

    -- The loops over the plan, counting the confirmed mutations.
    unfoldable pub remove_all : List ℕ → ℕ → Io W GlpiFailure ℕ
    remove_all [] effective_mutations = pure effective_mutations
    remove_all (assignment_id ∷ ids) effective_mutations =
        remove_one assignment_id >>= λ done. remove_all ids (suc effective_mutations)

    unfoldable pub add_all : ℕ → List Addition → ℕ → Io W GlpiFailure ℕ
    add_all user_id [] effective_mutations = pure effective_mutations
    add_all user_id (addition ∷ additions) effective_mutations =
        add_one user_id addition >>= λ id. add_all user_id additions (suc effective_mutations)

    abbrev pub judged :
        List DesiredAssignment → ℕ → List CurrentRow → Io W GlpiFailure ReconciliationOutcome
    judged desired effective_mutations verified = do
      guard (is_canonical verified desired) verification_failed
      pure (outcome_of effective_mutations)

    -- The final complete read and its comparison.
    unfoldable pub verify :
        SearchOptions
        → Text
        → ℕ
        → List DesiredAssignment
        → ℕ
        → Io W GlpiFailure ReconciliationOutcome
    verify options username user_id desired effective_mutations = do
      checked
      verified ← read_current_assignments env config session context options username user_id
      judged desired effective_mutations verified

    -- From the owner on: the snapshot, the plan, its mutations and the verification.
    abbrev pub finish :
        References
        → Text
        → ℕ
        → List DesiredAssignment
        → List Addition
        → ℕ
        → Io W GlpiFailure ReconciliationOutcome
    finish refs username user_id resolved additions removed =
        add_all user_id additions removed
        >>= verify refs.profile_user_options username user_id resolved

    abbrev pub carry_out :
        References
        → Text
        → ℕ × ℕ
        → List CurrentRow
        → List DesiredAssignment
        → Io W GlpiFailure ReconciliationOutcome
    carry_out refs username owner current resolved =
        remove_all (compute current resolved).removals owner.1
        >>= finish refs username owner.0 resolved (compute current resolved).additions

    abbrev pub planned :
        References
        → Text
        → List CanonicalAssignment
        → ℕ × ℕ
        → List CurrentRow
        → Io W GlpiFailure ReconciliationOutcome
    planned refs username desired owner current =
        lift (resolved_desired refs.entities refs.profiles desired)
        >>= carry_out refs username owner current

    unfoldable pub converge :
        References
        → Text
        → List CanonicalAssignment
        → ℕ × ℕ
        → Io W GlpiFailure ReconciliationOutcome
    converge refs username desired owner =
        read_current_assignments env config session context refs.profile_user_options username
          owner.0
        >>= planned refs username desired owner

    abbrev pub owned :
        Text → List CanonicalAssignment → References → Io W GlpiFailure ReconciliationOutcome
    owned username desired refs =
        owner_of refs.user_options username >>= converge refs username desired

    unfoldable pub reconcile_with_session :
        Text → List CanonicalAssignment → Io W GlpiFailure ReconciliationOutcome
    unfolding visible references owner_of converge
    reconcile_with_session username desired = do
      visible
      references desired >>= owned username desired

    -- The cleanup, once both observations still allow it.
    unfoldable pub killed :
        Result GlpiFailure ReconciliationOutcome
        → Result GlpiFailure ℕ × W
        → Result GlpiFailure ReconciliationOutcome × W
    killed outcome (err e, w) = (outcome, w)
    killed outcome (ok cleanup_deadline, w) =
        let (cleanup_result, w') = kill_session env config session cleanup_deadline w in
        (both outcome cleanup_result, w')

    unfoldable pub clean_up :
        Result GlpiFailure ReconciliationOutcome × W → Result GlpiFailure ReconciliationOutcome × W
    unfolding killed
    clean_up (outcome, w) =
        let (stopped, w1) = env.signals.is_cancelled w in
        let (now, w2) = env.signals.now w1 in
        let cleaned = killed outcome (fresh_deadline w2) in
        if stopped
        then (outcome, w1)
        else if leb context.deadline now
        then (outcome, w2)
        else cleaned

  abbrev pub in_session :
      TargetAdapterRequest
      → List CanonicalAssignment
      → GlpiSession
      → Io W GlpiFailure ReconciliationOutcome
  in_session request desired session w =
      clean_up session request.context
        (reconcile_with_session session request.context request.identity.username desired w)

  -- `init_session` with a deadline of its own.
  abbrev pub opened : SynchronizationContext → Io W GlpiFailure GlpiSession
  opened context = do
    init_session_deadline ← effective_deadline env config context
    init_session env config init_session_deadline

  abbrev pub with_desired :
      TargetAdapterRequest → List CanonicalAssignment → Io W GlpiFailure ReconciliationOutcome
  with_desired request desired = opened request.context >>= in_session request desired

  -- The checks before anything is parsed.
  abbrev pub admitted : TargetAdapterRequest → Io W GlpiFailure (Unit {0})
  admitted request = do
    check_context env request.context.deadline
    guard (request.desired_state.version.value == 1) unsupported_envelope_version

  unfoldable pub reconcile : TargetAdapterRequest → Io W GlpiFailure ReconciliationOutcome
  reconcile request = do
    admitted request
    lift (parse_and_normalize env.document request.desired_state.payload.json)
        >>= with_desired request

  -- The port of the synchronizer: every failure becomes the opaque error.
  unfoldable pub adapter_reconcile :
      TargetAdapterRequest → Io W TargetAdapterError ReconciliationOutcome
  unfolding reconcile
  adapter_reconcile request = map_err (λ e. target_adapter_error) (reconcile request)
