-- ===== src/Auth/Verifier/Keeps.antt =====
-- crates/permissionsync-auth/src: what the calls to the outside keep, the verification keeps.
use permissionsync.Prelude.{
  ℕ, Bool, true, false, not, ◌||◌, List, [], ◌∷◌, Option, none, some, Result, ok, err, ok_or,
  if◌then◌else◌, Bool-cases, inl, inr, Text, text,
}
use permissionsync.Prelude.Io.{Io, pure, proceed, ◌>>=◌, ◌>>◌, lift, guard}
use permissionsync.Domain.Context.{SynchronizationContext, is_cancelled_or_expired}
use permissionsync.Auth.Types.{
  AuthenticationError, rejected, forbidden, verifier_unavailable, cancelled, TargetSelection,
  check_context,
}
use permissionsync.Auth.Claims.{
  F64, Value, Fields, get, as_object, ClaimsConfig, ParsedAuthenticationClaims,
  parse_authentication_claim_shapes, outside_validity, scope_selection, wall_clock, validate_claims,
}
use permissionsync.Auth.Cache.{
  JwtAlgorithm, Candidate, Snapshot, CacheClassification, Verification, fresh, stale,
  cold_or_expired, age, classify,
}
use permissionsync.Auth.Verifier.{
  Environment, Config, selector, check, timely, locked, settled, attempted, try_candidates, shown,
  verified_at, verify_snapshot, verify_locked, verify_current,
}

-- A property of the states of the world that every call to the outside keeps.
pub record IsKept {F W V : Type 0} (env : Environment F W V) (P : W → Type 0) : Type 0 where
  pub is_cancelled : (w : W) → P w → P (env.signals.is_cancelled w).1
  pub now : (w : W) → P w → P (env.signals.now w).1
  pub unix_seconds : (w : W) → P w → P (env.unix_seconds w).1
  pub tick : (w : W) → P w → P (env.tick w).1
  pub read_cache : (deadline : ℕ) (w : W) → P w → P (env.read_cache deadline w).1
  pub write_cache : (deadline : ℕ) (w : W) → P w → P (env.write_cache deadline w).1
  pub lock_refresh : (deadline : ℕ) (w : W) → P w → P (env.lock_refresh deadline w).1
  pub unlock_refresh : (w : W) → P w → P (env.unlock_refresh w)
  pub install : (snapshot : Snapshot V) (w : W) → P w → P (env.install snapshot w)
  pub fetch_snapshot :
      (context : SynchronizationContext) (w : W) → P w → P (env.fetch_snapshot context w).1

abbrev pub Keeps : {W E B : Type 0} → (W → Type 0) → Io W E B → Type 0
Keeps P m = (w : _) → P w → P (m w).1

pub proceed-Keeps :
    {W E A B : Type 0} (P : W → Type 0) (k : A → Io W E B) (r : Result E A × W)
    → ((a : A) → Keeps P (k a))
    → P r.1
    → P (proceed k r).1
proceed-Keeps P k (ok a, w) h p = h a w p
proceed-Keeps P k (err e, w) h p = p

pub guard-Keeps :
    {W E : Type 0} (P : W → Type 0) (b : Bool) (e : E) (w : W) → P w → P (guard b e w).1
guard-Keeps P true e w p = p
guard-Keeps P false e w p = p

module _ (f : F64) {W V : Type 0} (env : Environment f.Float W V) (config : Config f.Float)
    (P : W → Type 0) (kept : IsKept env P) (context : SynchronizationContext) where
  stop_state :
      (r : Bool × W)
      → P r.1
      → P (
          let x : Result AuthenticationError (Unit {0}) × W =
            if r.0 then (err cancelled, r.1) else (ok tt, r.1) in
          x.1)
  stop_state (true, w) p = p
  stop_state (false, w) p = p

  expired-Keeps : (w : W) → P w → P (is_cancelled_or_expired env.signals context w).1
  unfolding is_cancelled_or_expired
  expired-Keeps w p = elim (Bool-cases (env.signals.is_cancelled w).0) [
    | inl h ↦ rw h (kept.is_cancelled w p)
    | inr h ↦ rw h (kept.now (env.signals.is_cancelled w).1 (kept.is_cancelled w p))
  ]

  pub check-Keeps : Keeps P (check f env config context)
  unfolding check_context
  check-Keeps w p = stop_state (is_cancelled_or_expired env.signals context w) (expired-Keeps w p)

  pub locked-Keeps :
      (acquire : ℕ → W → Bool × W)
      → ((deadline : ℕ) (w : W) → P w → P (acquire deadline w).1)
      → Keeps P (locked f env config acquire context)
  unfolding locked timely
  locked-Keeps acquire h w p =
      proceed-Keeps P (λ _. timely f env config acquire context >> check f env config context)
        (check f env config context w)
        (λ _ w p.
          proceed-Keeps P (λ _. check f env config context) (timely f env config acquire context w)
            (λ _. check-Keeps) (h context.deadline w p))
        (check-Keeps w p)

  -- `validate_claims`, from its end to its start.
  abbrev passed : Io W AuthenticationError (Unit {0})
  passed = check_context env.signals context

  abbrev Checked : Type 0
  Checked = Io W AuthenticationError (Text × TargetSelection)

  abbrev answering : ParsedAuthenticationClaims f.Float → TargetSelection → Checked
  answering parsed selection = passed >> pure (parsed.client_id, selection)

  answering-Keeps :
      (parsed : ParsedAuthenticationClaims f.Float) (selection : TargetSelection)
      → Keeps P (answering parsed selection)
  answering-Keeps parsed selection w p =
      let end : Checked = pure (parsed.client_id, selection) in
      proceed-Keeps P (λ _. end) (passed w) (λ _ w p. p) (check-Keeps w p)

  abbrev choosing : Fields f.Float → ParsedAuthenticationClaims f.Float → Checked
  choosing claims parsed = lift (scope_selection f (get (text "scope") claims)) >>= answering parsed

  abbrev selecting : Fields f.Float → ParsedAuthenticationClaims f.Float → Checked
  selecting claims parsed = passed >> choosing claims parsed

  selecting-Keeps :
      (claims : Fields f.Float) (parsed : ParsedAuthenticationClaims f.Float)
      → Keeps P (selecting claims parsed)
  selecting-Keeps claims parsed w p =
      proceed-Keeps P (λ _. choosing claims parsed) (passed w)
        (λ _ w p.
          proceed-Keeps P (answering parsed)
            (lift (scope_selection f (get (text "scope") claims)) w) (answering-Keeps parsed) p)
        (check-Keeps w p)

  abbrev timing :
      ClaimsConfig f.Float → Fields f.Float → ParsedAuthenticationClaims f.Float → Checked
  timing cfg claims parsed =
      passed
      >> (wall_clock f env.signals env.parse_json env.unix_seconds >>= λ now.
          guard (not (outside_validity f cfg parsed now)) rejected >> selecting claims parsed)

  timing-Keeps :
      (cfg : ClaimsConfig f.Float) (claims : Fields f.Float)
      (parsed : ParsedAuthenticationClaims f.Float)
      → Keeps P (timing cfg claims parsed)
  unfolding wall_clock
  timing-Keeps cfg claims parsed w p =
      proceed-Keeps P
        (λ _. wall_clock f env.signals env.parse_json env.unix_seconds >>= λ now.
          guard (not (outside_validity f cfg parsed now)) rejected >> selecting claims parsed)
        (passed w)
        (λ _ w p.
          proceed-Keeps P
            (λ now.
              guard (not (outside_validity f cfg parsed now)) rejected >> selecting claims parsed)
            (wall_clock f env.signals env.parse_json env.unix_seconds w)
            (λ now w p.
              proceed-Keeps P (λ _. selecting claims parsed)
                (guard (not (outside_validity f cfg parsed now)) rejected w)
                (λ _. selecting-Keeps claims parsed) (guard-Keeps P _ _ w p))
            (kept.unix_seconds w p))
        (check-Keeps w p)

  validate_claims-Keeps :
      (payload : Text) (cfg : ClaimsConfig f.Float)
      → Keeps P (validate_claims f env.signals env.parse_json env.unix_seconds payload cfg context)
  unfolding validate_claims
  validate_claims-Keeps payload cfg w p =
      let shaping : Fields f.Float → Checked =
        λ c. lift (parse_authentication_claim_shapes f c cfg) >>= timing cfg c in
      let opening : Value f.Float → Checked =
        λ v. lift (ok_or rejected (as_object v)) >>= shaping in
      proceed-Keeps P (λ _. lift (ok_or rejected (env.parse_json payload)) >>= opening) (passed w)
        (λ _ w p.
          proceed-Keeps P opening (lift (ok_or rejected (env.parse_json payload)) w)
            (λ v w p.
              proceed-Keeps P shaping (lift (ok_or rejected (as_object v)) w)
                (λ c w p.
                  proceed-Keeps P (timing cfg c)
                    (lift (parse_authentication_claim_shapes f c cfg) w) (λ a. timing-Keeps cfg c a)
                    p)
                p)
            p)
        (check-Keeps w p)

  module _ (token : Text) (algorithm : JwtAlgorithm) where
    settled-Keeps :
        (r : Result AuthenticationError (Text × TargetSelection) × W)
        → P r.1
        → P (settled f env config token r).1
    settled-Keeps (ok (c, t), w) p = p
    settled-Keeps (err cancelled, w) p = p
    settled-Keeps (err verifier_unavailable, w) p = p
    settled-Keeps (err forbidden, w) p = p
    settled-Keeps (err rejected, w) p = p

    attempted-Keeps :
        (output : Option Text) (rest : W → Result AuthenticationError Verification × W)
        → Keeps P rest
        → Keeps P (attempted f env config token context output rest)
    attempted-Keeps none rest h w p = h w p
    attempted-Keeps (some payload) rest h w p =
        settled-Keeps _ (validate_claims-Keeps payload config.claims w p)

    examined-Keeps :
        (rest : W → Result AuthenticationError Verification × W)
        → Keeps P rest
        → Keeps P (check f env config context >> (check f env config context >> rest))
    examined-Keeps rest h w p =
        proceed-Keeps P (λ _. check f env config context >> rest) (check f env config context w)
          (λ _ w p.
            proceed-Keeps P (λ _. rest) (check f env config context w) (λ _. h) (check-Keeps w p))
          (check-Keeps w p)

    try_candidates-Keeps :
        (candidates : List (Candidate V)) (a b : Bool)
        → Keeps P (try_candidates f env config token algorithm context candidates a b)
    unfolding try_candidates
    try_candidates-Keeps [] a b w p = p
    try_candidates-Keeps (c ∷ cs) a b w p =
        let x =
          env.deserialize token (selector algorithm c)
            (record { prohibited_header = a; selected = false }) in
        let rest =
          try_candidates f env config token algorithm context cs x.1.prohibited_header
            (b || x.1.selected) in
        examined-Keeps (attempted f env config token context x.0 rest)
          (attempted-Keeps x.0 rest
            (try_candidates-Keeps cs x.1.prohibited_header (b || x.1.selected)))
          w p

    shown-Keeps :
        (c : CacheClassification) (r : Result AuthenticationError Verification × W)
        → P r.1
        → P (shown f env config c r).1
    shown-Keeps c (ok v, w) p = p
    shown-Keeps c (err e, w) p = p

    verified_at-Keeps :
        (snapshot : Snapshot V) (c : CacheClassification) (w : W)
        → P w
        → P (verified_at f env config token algorithm context snapshot c w).1
    verified_at-Keeps snapshot cold_or_expired w p = p
    verified_at-Keeps snapshot fresh w p =
        shown-Keeps fresh _ (try_candidates-Keeps snapshot.candidates false false w p)
    verified_at-Keeps snapshot stale w p =
        shown-Keeps stale _ (try_candidates-Keeps snapshot.candidates false false w p)

    verify_snapshot-Keeps :
        (found : Option (Snapshot V)) (w : W)
        → P w
        → P (verify_snapshot f env config token algorithm context found w).1
    unfolding verify_snapshot
    verify_snapshot-Keeps none w p = p
    verify_snapshot-Keeps (some snapshot) w p =
        verified_at-Keeps snapshot (classify config.cache_policy (age snapshot (env.tick w).0))
          (env.tick w).1 (kept.tick w p)

    verify_locked-Keeps :
        (r : Result AuthenticationError (Unit {0}) × W)
        → P r.1
        → P (verify_locked f env config token algorithm context r).1
    verify_locked-Keeps (ok _, w) p = verify_snapshot-Keeps (env.cache w) w p
    verify_locked-Keeps (err e, w) p = p

    pub verify_current-Keeps :
        (w : W) → P w → P (verify_current f env config token algorithm context w).1
    unfolding verify_current
    verify_current-Keeps w p =
        verify_locked-Keeps (locked f env config env.read_cache context w)
          (locked-Keeps env.read_cache kept.read_cache w p)
