-- ===== src/Orchestration/Trace/Stages.antt =====
-- The stages of crates/permissionsync-orchestration/src/synchronizer.rs, each with what it adds to the
-- record.
use mathlib.Core.List.{append_assoc}
use permissionsync.Prelude.{
  ◌≡◌, refl, sym, ap, ◌∙◌, Bool, true, false, List, [], ◌∷◌, ◌++◌, Result, ok, err, if◌then◌else◌,
  subst,
}
use permissionsync.Prelude.Io.{Io, proceed, relabel, pure, map_err, ◌>>=◌, lift, guard}
use permissionsync.Domain.Values.{DesiredStateEnvelope}
use permissionsync.Domain.Context.{ReconciliationOutcome}
use permissionsync.Routing.{
  resolve, TargetResolutionError, unknown_logical_target, unavailable_adapter,
}
use permissionsync.Orchestration.{
  SelectedTargetSynchronizationRequest, SelectedTargetSynchronizationError, cancelled,
  capacity_unavailable, provider_failed, adapter_failed, Ports, SelectedTargetSynchronizer, route,
  check, reconciled_by, with_permit, dropping_permit, synchronize,
}
use permissionsync.Orchestration.Trace.{
  Event, checked, acquired, provided, reconciled, released, note, recording, provider_request,
  adapter_request, Outcome, AfterProvider, Holding, Conversation, stopped, failed, stopped_late,
  done, provided_then, unroutable, stopped_routed, unprovided, saturated, held,
}

module _ {A W : Type 0} (p : Ports A W) (request : SelectedTargetSynchronizationRequest) where
  -- The result and the record of what ran after `log`.
  abbrev Adds :
      (List (Event A) → Outcome → Type 0) → List (Event A) → Outcome × (W × List (Event A)) → Type 0
  Adds P log (r, (w, log')) = (more : List (Event A)) × (log' ≡ log ++ more) × P more r

  Adds-map :
      {P Q : List (Event A) → Outcome → Type 0} (log : List (Event A))
      (x : Outcome × (W × List (Event A)))
      → ((more : List (Event A)) (r : Outcome) → P more r → Q more r)
      → Adds P log x
      → Adds Q log x
  Adds-map log (r, (w, log')) f (more, e, h) = (more, e, f more r h)

  -- An event that has been written down already is the first of those that were added.
  Adds-cons :
      (P : List (Event A) → Outcome → Type 0) (e : Event A) (log : List (Event A))
      (x : Outcome × (W × List (Event A)))
      → Adds (λ more r. P (e ∷ more) r) (log ++ e ∷ []) x
      → Adds P log x
  Adds-cons P e log (r, (w, log')) (more, same, h) =
      (e ∷ more, same ∙ append_assoc log (e ∷ []) more, h)

  check-cases :
      (P : Result SelectedTargetSynchronizationError (Unit {0}) × (W × List (Event A)) → Type 0)
      (w : W) (log : List (Event A))
      → ((w' : W) → P (err cancelled, (w', log ++ checked true ∷ [])))
      → ((w' : W) → P (ok tt, (w', log ++ checked false ∷ [])))
      → P (check (recording p) request (w, log))
  unfolding check recording
  check-cases P w log stop go = by_answer (p.is_cancelled_or_expired request.context w)
    where
      by_answer :
          (c : Bool × W)
          → P (
              if c.0
              then (err cancelled, (c.1, log ++ checked c.0 ∷ []))
              else (ok tt, (c.1, log ++ checked c.0 ∷ [])))
      by_answer (true, w') = stop w'
      by_answer (false, w') = go w'

  -- A call of a port, by its answer.
  answer-cases :
      {E R B : Type 0}
      (P : Result SelectedTargetSynchronizationError B × (W × List (Event A)) → Type 0)
      (f : R → Io (W × List (Event A)) SelectedTargetSynchronizationError B)
      (event : Result E R → Event A) (label : E → SelectedTargetSynchronizationError)
      (log : List (Event A)) (x : Result E R × W)
      → ((e : E) (w' : W) → P (err (label e), (w', log ++ event (err e) ∷ [])))
      → ((a : R) (w' : W) → P (f a (w', log ++ event (ok a) ∷ [])))
      → P (proceed f (relabel label (note event log x)))
  answer-cases P f event label log (err e, w') fail go = fail e w'
  answer-cases P f event label log (ok a, w') fail go = go a w'

  abbrev Reconciling : A → DesiredStateEnvelope → List (Event A) → Outcome → Type 0
  Reconciling adapter desired more = AfterProvider request adapter desired (checked false ∷ more)

  abbrev Providing : A → List (Event A) → Outcome → Type 0
  Providing adapter more = Holding request adapter (checked false ∷ more)

  reconcile_stage :
      (adapter : A) (desired : DesiredStateEnvelope) (w : W) (log : List (Event A))
      → Adds
          (Reconciling adapter desired)
          log
          (reconciled_by (recording p) request adapter desired (w, log))
  unfolding reconciled_by recording
  reconcile_stage adapter desired w log =
      let event = reconciled adapter (adapter_request request desired) in
      answer-cases (Adds (Reconciling adapter desired) log) _ event (λ _. adapter_failed) log
        (p.reconcile adapter (adapter_request request desired) w)
        (λ e w'. (event (err e) ∷ [], refl, failed e))
        (λ o w'.
          check-cases (λ x. Adds (Reconciling adapter desired) log (proceed (λ _. pure o) x)) w'
            (log ++ event (ok o) ∷ [])
            (λ w''. (event (ok o) ∷ checked true ∷ [], append_assoc log _ _, stopped_late o))
            (λ w''. (event (ok o) ∷ checked false ∷ [], append_assoc log _ _, done o)))

  after_provider :
      (adapter : A) (desired : DesiredStateEnvelope) (w : W) (log : List (Event A))
      → Adds (AfterProvider request adapter desired) log (
          proceed
            (λ _. reconciled_by (recording p) request adapter desired)
            (check (recording p) request (w, log)))
  after_provider adapter desired w log =
      check-cases
        (λ x.
          Adds (AfterProvider request adapter desired) log
            (proceed (λ _. reconciled_by (recording p) request adapter desired) x))
        w log (λ w'. (checked true ∷ [], refl, stopped))
        (λ w'.
          Adds-cons (AfterProvider request adapter desired) (checked false) log
            (reconciled_by (recording p) request adapter desired (w', log ++ checked false ∷ []))
            (reconcile_stage adapter desired w' _))

  hold_stage :
      (adapter : A) (w : W) (log : List (Event A))
      → Adds (Holding request adapter) log (with_permit (recording p) request adapter (w, log))
  unfolding with_permit recording
  hold_stage adapter w log =
      check-cases (λ x. Adds (Holding request adapter) log (proceed (λ _. provide) x)) w log
        (λ w'. (checked true ∷ [], refl, stopped))
        (λ w'.
          Adds-cons (Holding request adapter) (checked false) log
            (provide (w', log ++ checked false ∷ [])) (provide_stage w' _))
    where
      provide : Io (W × List (Event A)) SelectedTargetSynchronizationError ReconciliationOutcome
      provide =
          map_err (λ _. provider_failed) ((recording p).provider (provider_request request))
          >>= λ desired. check (recording p) request >>= λ _.
              reconciled_by (recording p) request adapter desired

      provide_stage :
          (w : W) (log : List (Event A)) → Adds (Providing adapter) log (provide (w, log))
      provide_stage w log =
          answer-cases (Adds (Providing adapter) log) _ (provided (provider_request request))
            (λ _. provider_failed) log (p.provider (provider_request request) w)
            (λ e w'. (provided (provider_request request) (err e) ∷ [], refl, failed e))
            (λ desired w'.
              Adds-cons (Providing adapter) (provided (provider_request request) (ok desired)) log
                (proceed (λ _. reconciled_by (recording p) request adapter desired)
                  (check (recording p) request
                    (w', log ++ provided (provider_request request) (ok desired) ∷ [])))
                (Adds-map {P = AfterProvider request adapter desired}
                  {Q = λ more r.
                    Providing adapter (provided (provider_request request) (ok desired) ∷ more) r}
                  (log ++ provided (provider_request request) (ok desired) ∷ [])
                  (proceed (λ _. reconciled_by (recording p) request adapter desired)
                    (check (recording p) request
                      (w', log ++ provided (provider_request request) (ok desired) ∷ [])))
                  (λ more r. provided_then desired) (after_provider adapter desired w' _)))

  held_stage :
      (s : SelectedTargetSynchronizer A) (adapter : A) (w : W) (log : List (Event A))
      → resolve s.router request.target ≡ ok adapter
      → s.has_provider ≡ true
      → Adds
          (λ more r.
            Conversation request s (checked false ∷ checked false ∷ acquired (ok tt) ∷ more) r)
          log
          (dropping_permit (recording p) (with_permit (recording p) request adapter) (w, log))
  unfolding dropping_permit recording
  held_stage s adapter w log routed h =
      let (more, same, conversation) = hold_stage adapter w log in
      (
        more ++ released ∷ [],
        ap (λ l. l ++ released ∷ []) same ∙ append_assoc log more (released ∷ []),
        held adapter routed h conversation,
      )

  acquire_stage :
      (s : SelectedTargetSynchronizer A) (adapter : A) (w : W) (log : List (Event A))
      → resolve s.router request.target ≡ ok adapter
      → s.has_provider ≡ true
      → Adds
          (λ more r. Conversation request s (checked false ∷ checked false ∷ more) r)
          log
          (proceed
            (λ _. dropping_permit (recording p) (with_permit (recording p) request adapter))
            (relabel (λ _. capacity_unavailable) ((recording p).acquire request.context (w, log))))
  unfolding recording
  acquire_stage s adapter w log routed h =
      answer-cases
        (Adds (λ more r. Conversation request s (checked false ∷ checked false ∷ more) r) log) _
        acquired (λ _. capacity_unavailable) log (p.acquire request.context w)
        (λ e w'. (acquired (err e) ∷ [], refl, saturated adapter e routed h))
        (λ _ w'.
          Adds-cons (λ more r. Conversation request s (checked false ∷ checked false ∷ more) r)
            (acquired (ok tt)) log
            (dropping_permit (recording p) (with_permit (recording p) request adapter)
              (w', log ++ acquired (ok tt) ∷ []))
            (held_stage s adapter w' _ routed h))

  abbrev Explained : SelectedTargetSynchronizer A → Outcome × (W × List (Event A)) → Type 0
  Explained s (r, (w, log)) = Conversation request s log r

  explained :
      (s : SelectedTargetSynchronizer A) (log : List (Event A)) (x : Outcome × (W × List (Event A)))
      → Adds (λ more r. Conversation request s (log ++ more) r) log x
      → Explained s x
  explained s log (r, (w, log')) (more, same, conversation) =
      subst (λ l. Conversation request s l r) (sym same) conversation

  abbrev acquiring :
      A → Io (W × List (Event A)) SelectedTargetSynchronizationError ReconciliationOutcome
  acquiring adapter =
      map_err (λ _. capacity_unavailable) ((recording p).acquire request.context) >>= λ _.
      dropping_permit (recording p) (with_permit (recording p) request adapter)

  provider_stage :
      (s : SelectedTargetSynchronizer A) (adapter : A) (w : W) (usable : Bool)
      → resolve s.router request.target ≡ ok adapter
      → s.has_provider ≡ usable
      → Explained s (
          proceed
            (λ _. acquiring adapter)
            (guard usable provider_failed (w, checked false ∷ checked false ∷ [])))
  provider_stage s adapter w false routed h = unprovided adapter routed h
  provider_stage s adapter w true routed h =
      explained s (checked false ∷ checked false ∷ [])
        (acquiring adapter (w, checked false ∷ checked false ∷ []))
        (acquire_stage s adapter w (checked false ∷ checked false ∷ []) routed h)

  route_stage :
      (s : SelectedTargetSynchronizer A) (w : W) (answer : Result TargetResolutionError A)
      → resolve s.router request.target ≡ answer
      → Explained s (
          proceed
            (λ adapter. check (recording p) request >>= λ _.
              guard s.has_provider provider_failed >>= λ _. acquiring adapter)
            (route answer, (w, checked false ∷ [])))
  route_stage s w (err unknown_logical_target) routed = unroutable unknown_logical_target routed
  route_stage s w (err (unavailable_adapter i)) routed = unroutable (unavailable_adapter i) routed
  route_stage s w (ok adapter) routed =
      check-cases
        (λ x.
          Explained s
            (proceed (λ _. guard s.has_provider provider_failed >>= λ _. acquiring adapter) x))
        w (checked false ∷ []) (λ w'. stopped_routed adapter routed)
        (λ w'. provider_stage s adapter w' s.has_provider routed refl)

  -- From an empty record, one synchronization holds one of the listed conversations with its
  -- ports, and returns the result that belongs to it.
  pub synchronize-Conversation :
      (s : SelectedTargetSynchronizer A) (w : W)
      → let x = synchronize (recording p) s request (w, []) in Conversation request s x.1.1 x.0
  unfolding synchronize
  synchronize-Conversation s w =
      check-cases
        (λ x. Explained s (
          proceed
            (λ _. lift (route (resolve s.router request.target)) >>= λ adapter.
              check (recording p) request >>= λ _.
              guard s.has_provider provider_failed >>= λ _. acquiring adapter)
            x))
        w [] (λ w'. stopped) (λ w'. route_stage s w' (resolve s.router request.target) refl)
