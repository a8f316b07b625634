-- ===== src/Glpi/Adapter/Laws.antt =====
-- crates/permissionsync-adapter-glpi/src/adapter.rs: what a successful reconciliation has observed.
use permissionsync.Prelude.{
  ℕ, suc, ◌+◌, ◌≡◌, ◌<◌, ◌↔◌, ◌⊎◌, inl, inr, Option, none, some, refl, sym, ap, ◌∙◌, subst, true,
  List, [], ◌∷◌, length, Result, ok, err, Text, arith,
}
use permissionsync.Prelude.Io.{pure, ◌>>=◌, lift, guard, proceed-eq-ok}
use permissionsync.Domain.Context.{
  SynchronizationContext, TargetAdapterRequest, ReconciliationOutcome, changed,
}
use permissionsync.Glpi.Failure.{GlpiFailure, verification_failed, user_creation_failed}
use permissionsync.Glpi.Payload.{CanonicalAssignment, parse_and_normalize}
use permissionsync.Glpi.Plan.{CurrentRow, DesiredAssignment, Addition, compute, is_canonical}
use permissionsync.Glpi.Http.{Environment, ValidatedConfig, GlpiSession}
use permissionsync.Glpi.Session.{kill_session}
use permissionsync.Glpi.Mutation.{create_user}
use permissionsync.Glpi.Search.Options.{SearchOptions}
use permissionsync.Glpi.Search.Matches.{resolve_user_id}
use permissionsync.Glpi.Search.Assignments.{read_current_assignments}
use permissionsync.Glpi.Adapter.{
  References, checked, outcome_of, both, resolved_desired, remove_one, remove_all, add_one, add_all,
  judged, verify, finish, carry_out, planned, converge, owned, owner_of, owner_from, fresh_deadline,
  is_created, visible, references, reconcile_with_session, create_user_and_resolve_outcome, killed,
  clean_up, in_session, opened, with_desired, admitted, reconcile,
}

module _ {N W : Type 0} (env : Environment N W) (config : ValidatedConfig) (session : GlpiSession)
    (context : SynchronizationContext) where
  remove_all-count :
      (ids : List ℕ) (n m : ℕ) (w w' : W)
      → remove_all env config session context ids n w ≡ (ok m, w')
      → m ≡ n + length ids
  unfolding remove_all
  remove_all-count [] n m w w' h = ground arith
  remove_all-count (id ∷ ids) n m w w' h =
      let (done, w1, e, rest) =
        proceed-eq-ok (λ done. remove_all env config session context ids (suc n))
          (remove_one env config session context id w) h in
      omega (arith, remove_all-count ids (suc n) m w1 w' rest)

  add_all-count :
      (user_id : ℕ) (additions : List Addition) (n m : ℕ) (w w' : W)
      → add_all env config session context user_id additions n w ≡ (ok m, w')
      → m ≡ n + length additions
  unfolding add_all
  add_all-count user_id [] n m w w' h = ground arith
  add_all-count user_id (addition ∷ additions) n m w w' h =
      let (done, w1, e, rest) =
        proceed-eq-ok (λ done. add_all env config session context user_id additions (suc n))
          (add_one env config session context user_id addition w) h in
      omega (arith, add_all-count user_id additions (suc n) m w1 w' rest)

  -- The successful end of a reconciliation that starts in `w` and ends in `w'`, call by call, each
  -- in the state that the one before it has left.
  pub record Converged (refs : References) (username : Text) (desired : List CanonicalAssignment)
      (owner : ℕ × ℕ) (outcome : ReconciliationOutcome) (w w' : W) : Type 0 where
    pub current : List CurrentRow
    pub before : W
    pub snapshot :
        read_current_assignments env config session context refs.profile_user_options username
          owner.0 w
        ≡ (ok current, before)
    pub resolved : List DesiredAssignment
    pub references : resolved_desired refs.entities refs.profiles desired ≡ ok resolved
    pub removed : ℕ
    pub cleared : W
    pub removing :
        remove_all env config session context (compute current resolved).removals owner.1 before
        ≡ (ok removed, cleared)
    pub added : ℕ
    pub mutated : W
    pub adding :
        add_all env config session context owner.0
          (compute current resolved).additions
          removed
          cleared
        ≡ (ok added, mutated)
    pub after : W
    pub check : checked env config session context mutated ≡ (ok tt, after)
    pub verified : List CurrentRow
    pub reading :
        read_current_assignments env config session context refs.profile_user_options username
          owner.0 after
        ≡ (ok verified, w')
    pub canonical : is_canonical verified resolved ≡ true
    pub counted : (outcome ≡ changed) ↔ (
        0
        < owner.1
          + length (compute current resolved).removals
          + length (compute current resolved).additions)

  outcome_of-changed : (n : ℕ) → (outcome_of n ≡ changed) ↔ (0 < n)
  outcome_of-changed n = ground arith

  judged-parts :
      (resolved : List DesiredAssignment) (n : ℕ) (verified : List CurrentRow)
      (outcome : ReconciliationOutcome) (w w' : W)
      → judged env config session context resolved n verified w ≡ (ok outcome, w')
      → (is_canonical verified resolved ≡ true) × (outcome ≡ outcome_of n) × (w ≡ w')
  judged-parts resolved n verified outcome w w' h =
      let (passed, w1, e, rest) =
        proceed-eq-ok (λ passed. pure {W = W} {E = GlpiFailure} (outcome_of n))
          (guard {W = W} {E = GlpiFailure} (is_canonical verified resolved) verification_failed w)
          h in
      ground (arith, e, rest)

  converge-Converged :
      (refs : References) (username : Text) (desired : List CanonicalAssignment) (owner : ℕ × ℕ)
      (outcome : ReconciliationOutcome) (w w' : W)
      → converge env config session context refs username desired owner w ≡ (ok outcome, w')
      → Converged refs username desired owner outcome w w'
  unfolding converge verify
  converge-Converged refs username desired owner outcome w w' h =
      let reading =
        read_current_assignments env config session context refs.profile_user_options username
          owner.0 in
      let (current, before, snapshot, h1) =
        proceed-eq-ok (planned env config session context refs username desired owner) (reading w)
          h in
      let (resolved, w1, e1, h2) =
        proceed-eq-ok (carry_out env config session context refs username owner current)
          (lift (resolved_desired refs.entities refs.profiles desired) before) h1 in
      let (removed, w2, e2, h3) =
        proceed-eq-ok
          (finish env config session context refs username owner.0 resolved
            (compute current resolved).additions)
          (remove_all env config session context (compute current resolved).removals owner.1 w1)
          h2 in
      let (added, w3, e3, h4) =
        proceed-eq-ok
          (verify env config session context refs.profile_user_options username owner.0 resolved)
          (add_all env config session context owner.0 (compute current resolved).additions removed
            w2)
          h3 in
      let (passed, w4, e4, h5) =
        proceed-eq-ok (λ passed. reading >>= judged env config session context resolved added)
          (checked env config session context w3) h4 in
      let (verified, w5, e5, h6) =
        proceed-eq-ok (judged env config session context resolved added) (reading w4) h5 in
      let (canonical, result, ends) = judged-parts resolved added verified outcome w5 w' h6 in
      record {
        current = current;
        before = before;
        snapshot = snapshot;
        resolved = resolved;
        references = ap (λ r. r.0) e1;
        removed = removed;
        cleared = w2;
        removing =
            subst
              (λ x.
                remove_all env config session context (compute current resolved).removals owner.1 x
                ≡ (ok removed, w2))
              (sym (ap (λ r. r.1) e1)) e2;
        added = added;
        mutated = w3;
        adding = e3;
        after = w4;
        check = e4;
        verified = verified;
        reading = e5 ∙ ap (λ x. (ok verified, x)) ends;
        canonical = canonical;
        counted =
            subst
              (λ o. (o ≡ changed) ↔ (
                0
                < owner.1
                  + length (compute current resolved).removals
                  + length (compute current resolved).additions))
              (sym (
                result
                ∙ ap outcome_of (
                    total owner.1 (length (compute current resolved).removals)
                      (length (compute current resolved).additions) removed added
                      (remove_all-count (compute current resolved).removals owner.1 removed w1 w2
                        e2)
                      (add_all-count owner.0 (compute current resolved).additions removed added w2
                        w3 e3))))
              (outcome_of-changed (
                owner.1
                + length (compute current resolved).removals
                + length (compute current resolved).additions));
      }
    where
      total : (n r a removed added : ℕ) → removed ≡ n + r → added ≡ removed + a → added ≡ n + r + a
      total n r a removed added e f = omega arith

  -- The owner is the user who exists, without a mutation, or the one who is created, with one.
  abbrev pub IsOwner : SearchOptions → Text → ℕ × ℕ → W → W → Type 0
  IsOwner options username owner w w' =
      ((resolve_user_id env config session context options username w ≡ (ok (some owner.0), w'))
        × (owner.1 ≡ 0))
      ⊎ ((absent : W) × (resolve_user_id env config session context options username w
            ≡ (ok none, absent))
          × (create_user_and_resolve_outcome env config session context options username absent
              ≡ (ok owner, w'))
          × (owner.1 ≡ 1))

  created-one :
      (options : SearchOptions) (username : Text) (owner : ℕ × ℕ) (w w' : W)
      → create_user_and_resolve_outcome env config session context options username w
        ≡ (ok owner, w')
      → owner.1 ≡ 1
  unfolding create_user_and_resolve_outcome
  created-one options username owner w w' h =
      let (deadline, w1, e1, h1) =
        proceed-eq-ok _ (fresh_deadline env config session context w) h in
      let (created_id, w2, e2, h2) =
        proceed-eq-ok _
          (create_user env config session username config.authentication_source deadline w1) h1 in
      let (resolved, w3, e3, h3) =
        proceed-eq-ok _ (resolve_user_id env config session context options username w2) h2 in
      let (passed, w4, e4, h4) =
        proceed-eq-ok _
          (guard {W = W} {E = GlpiFailure}
            (is_created env config session context created_id resolved) user_creation_failed w3)
          h3 in
      let same : ◌≡◌ {A = ℕ × ℕ} (created_id, 1) owner = cc in sym (ap (λ o. o.1) same)

  owner_from-IsOwner :
      (options : SearchOptions) (username : Text) (existing : Option ℕ) (owner : ℕ × ℕ)
      (w w1 w' : W)
      → resolve_user_id env config session context options username w ≡ (ok existing, w1)
      → owner_from env config session context options username existing w1 ≡ (ok owner, w')
      → IsOwner options username owner w w'
  owner_from-IsOwner options username (some id) owner w w1 w' e h =
      let same : ◌≡◌ {A = ℕ × ℕ} (id, 0) owner = cc in
      inl (
        e ∙ ap (λ o. (ok (some o.0), w1)) same ∙ ap (λ x. (ok (some owner.0), x)) (ap (λ r. r.1) h),
        sym (ap (λ o. o.1) same),
      )
  owner_from-IsOwner options username none owner w w1 w' e h =
      inr (w1, e, h, created-one options username owner w1 w' h)

  owner_of-IsOwner :
      (options : SearchOptions) (username : Text) (owner : ℕ × ℕ) (w w' : W)
      → owner_of env config session context options username w ≡ (ok owner, w')
      → IsOwner options username owner w w'
  unfolding owner_of
  owner_of-IsOwner options username owner w w' h =
      let (existing, w1, e, rest) =
        proceed-eq-ok (owner_from env config session context options username)
          (resolve_user_id env config session context options username w) h in
      owner_from-IsOwner options username existing owner w w1 w' e rest

  -- A success in the session, from its opening to the state in which the cleanup starts.
  pub record Session (username : Text) (desired : List CanonicalAssignment)
      (outcome : ReconciliationOutcome) (w w' : W) : Type 0 where
    pub shown : W
    pub visibility : visible env config session context w ≡ (ok tt, shown)
    pub refs : References
    pub collected : W
    pub collecting : references env config session context desired shown ≡ (ok refs, collected)
    pub owner : ℕ × ℕ
    pub start : W
    pub owning : IsOwner refs.user_options username owner collected start
    pub converged : Converged refs username desired owner outcome start w'

  reconcile_with_session-Session :
      (username : Text) (desired : List CanonicalAssignment) (outcome : ReconciliationOutcome)
      (w w' : W)
      → reconcile_with_session env config session context username desired w ≡ (ok outcome, w')
      → Session username desired outcome w w'
  unfolding reconcile_with_session
  reconcile_with_session-Session username desired outcome w w' h =
      let (seen, w1, e1, h1) =
        proceed-eq-ok
          (λ seen.
            references env config session context desired
            >>= owned env config session context username desired)
          (visible env config session context w) h in
      let (refs, w2, e2, h2) =
        proceed-eq-ok (owned env config session context username desired)
          (references env config session context desired w1) h1 in
      let (owner, w3, e3, h3) =
        proceed-eq-ok (converge env config session context refs username desired)
          (owner_of env config session context refs.user_options username w2) h2 in
      record {
        shown = w1;
        visibility = e1;
        refs = refs;
        collected = w2;
        collecting = e2;
        owner = owner;
        start = w3;
        owning = owner_of-IsOwner refs.user_options username owner w2 w3 e3;
        converged = converge-Converged refs username desired owner outcome w3 w' h3;
      }

  -- The cleanup turns no failure into a success.
  killed-ok :
      (r : Result GlpiFailure ReconciliationOutcome) (outcome : ReconciliationOutcome)
      (d : Result GlpiFailure ℕ × W) (w' : W)
      → killed env config session context r d ≡ (ok outcome, w')
      → r ≡ ok outcome
  unfolding killed
  killed-ok (ok result) outcome (ok deadline, w) w' h =
      both-ok (kill_session env config session deadline w).0 (ap (λ x. x.0) h)
    where
      both-ok :
          (k : Result GlpiFailure (Unit {0}))
          → both (ok result) k ≡ ok outcome
          → ◌≡◌ {A = Result GlpiFailure ReconciliationOutcome} (ok result) (ok outcome)
      both-ok (ok cleaned) e = e
      both-ok (err f) e = cc
  killed-ok (ok result) outcome (err e, w) w' h = ap (λ x. x.0) h
  killed-ok (err e) outcome (ok deadline, w) w' h = ap (λ x. x.0) h
  killed-ok (err e) outcome (err f, w) w' h = ap (λ x. x.0) h

  clean_up-ok :
      (r : Result GlpiFailure ReconciliationOutcome) (outcome : ReconciliationOutcome) (w w' : W)
      → clean_up env config session context (r, w) ≡ (ok outcome, w')
      → r ≡ ok outcome
  unfolding clean_up
  clean_up-ok r outcome w w' h = ground (arith, killed-ok r outcome)

  killed-primary :
      (e : GlpiFailure) (d : Result GlpiFailure ℕ × W)
      → (killed env config session context (err e) d).0 ≡ err e
  unfolding killed
  killed-primary e (ok deadline, w) = refl
  killed-primary e (err f, w) = refl

  clean_up-primary :
      (e : GlpiFailure) (w : W) → (clean_up env config session context (err e, w)).0 ≡ err e
  unfolding clean_up
  clean_up-primary e w = ground (arith, killed-primary e)

module _ {N W : Type 0} (env : Environment N W) (config : ValidatedConfig) where
  -- What a successful reconciliation from `w` to `w'` has parsed, opened, observed and left.
  pub record IsVerified (request : TargetAdapterRequest) (outcome : ReconciliationOutcome)
      (w w' : W) : Type 0 where
    pub entered : W
    pub admission : admitted env config request w ≡ (ok tt, entered)
    pub desired : List CanonicalAssignment
    pub parsed : parse_and_normalize env.document request.desired_state.payload.json ≡ ok desired
    pub session : GlpiSession
    pub start : W
    pub opening : opened env config request.context entered ≡ (ok session, start)
    pub end_ : W
    pub run :
        Session env config session request.context request.identity.username desired outcome start
          end_
    pub cleanup : clean_up env config session request.context (ok outcome, end_) ≡ (ok outcome, w')

  -- A reconciliation succeeds only by the sequence of calls of `IsVerified`, each in the state that
  -- the one before it has left: its last reading of the user's assignments, after which it only
  -- cleans up, is canonical for the desired state that was parsed and resolved; and its outcome is
  -- `Changed` exactly if the plan computed from its first reading has a mutation or its user was
  -- created.
  pub reconcile-IsVerified :
      (request : TargetAdapterRequest) (outcome : ReconciliationOutcome) (w w' : W)
      → reconcile env config request w ≡ (ok outcome, w')
      → IsVerified request outcome w w'
  unfolding reconcile
  reconcile-IsVerified request outcome w w' h =
      let (passed, w1, e1, h1) =
        proceed-eq-ok
          (λ passed.
            lift (parse_and_normalize env.document request.desired_state.payload.json)
            >>= with_desired env config request)
          (admitted env config request w) h in
      let (desired, w2, e2, h2) =
        proceed-eq-ok (with_desired env config request)
          (lift (parse_and_normalize env.document request.desired_state.payload.json) w1) h1 in
      let (session, w3, e3, h3) =
        proceed-eq-ok (in_session env config request desired) (opened env config request.context w2)
          h2 in
      let r =
        reconcile_with_session env config session request.context request.identity.username desired
          w3 in
      let fine : r.0 ≡ ok outcome =
        clean_up-ok env config session request.context r.0 outcome r.1 w' h3 in
      record {
        desired = desired;
        entered = w1;
        admission = e1;
        parsed = ap (λ x. x.0) e2;
        session = session;
        start = w3;
        opening =
            subst (λ x. opened env config request.context x ≡ (ok session, w3))
              (sym (ap (λ x. x.1) e2)) e3;
        end_ = r.1;
        run =
            reconcile_with_session-Session env config session request.context
              request.identity.username desired outcome w3 r.1 (ap (λ x. (x, r.1)) fine);
        cleanup =
            subst (λ x. clean_up env config session request.context (x, r.1) ≡ (ok outcome, w'))
              fine h3;
      }

  -- A failure of the reconciliation in its session survives the cleanup, whatever its result.
  pub in_session-primary :
      (request : TargetAdapterRequest) (desired : List CanonicalAssignment) (session : GlpiSession)
      (e : GlpiFailure) (w w' : W)
      → reconcile_with_session env config session request.context request.identity.username desired
          w
        ≡ (err e, w')
      → (in_session env config request desired session w).0 ≡ err e
  in_session-primary request desired session e w w' h =
      ap (λ r. (clean_up env config session request.context r).0) h
      ∙ clean_up-primary env config session request.context e w'
