-- ===== src/Auth/Verifier/Laws.antt =====
-- crates/permissionsync-auth/src/authenticator.rs: what stands behind a caller that a verification
-- accepts.
use permissionsync.Prelude.{
  ℕ, ◌+◌, ◌≤◌, arith, Bool, true, false, ◌||◌, List, [], ◌∷◌, Mem, Option, none, some, ◌≡◌, ◌≢◌,
  refl, ap, subst, inl, inr, Result, ok, err, Text,
}
use mathlib.Core.List.{mem-cons_of_mem, mem-cons_self}
use permissionsync.Prelude.Io.{proceed-eq-ok, ◌>>◌}
use permissionsync.Domain.Context.{SynchronizationContext}
use permissionsync.Auth.Types.{
  AuthenticationError, rejected, forbidden, verifier_unavailable, cancelled, TargetSelection,
  AuthenticatedTechnicalCaller,
}
use permissionsync.Auth.Claims.{F64, validate_claims}
use permissionsync.Auth.Cache.{
  JwtAlgorithm, Candidate, Snapshot, CacheClassification, Verification, valid, fresh, stale,
  cold_or_expired, age, classify, labelled,
}
use permissionsync.Auth.Cache.Laws.{classify-bounded, Accepts}
use permissionsync.Auth.Verifier.Keeps.{IsKept, locked-Keeps, check-Keeps}
use permissionsync.Auth.Verifier.{
  Environment, Config, Marks, selector, check, locked, settled, attempted, try_candidates, shown,
  verified_at, verify_snapshot, verify_locked, verify_current, concluded,
}

module _ (f : F64) {W V : Type 0} (env : Environment f.Float W V) (config : Config f.Float) where
  -- A snapshot that is retained in some state of the world with the property `P` and, by the clock's
  -- reading there, within the two durations of the policy.
  pub record Retained (P : W → Type 0) : Type 0 where
    pub state : W
    pub snapshot : Snapshot V
    pub now : ℕ
    pub elapsed : ℕ
    pub holds : P state
    pub cached : env.cache state ≡ some snapshot
    pub read : (env.tick state).0 ≡ now
    pub aged : age snapshot now ≡ some elapsed
    pub bounded : elapsed ≤ config.cache_policy.freshness + config.cache_policy.stale_if_error

  -- A candidate of the list verifies the token's signature, and the claims of its payload were found
  -- to be those of the caller, by a validation that starts in a state with the property `P`.
  pub record Signed (P : W → Type 0) (token : Text) (algorithm : JwtAlgorithm)
      (context : SynchronizationContext) (candidates : List (Candidate V))
      (caller : AuthenticatedTechnicalCaller) : Type 0 where
    pub candidate : Candidate V
    pub trusted : Mem candidate candidates
    pub payload : Text
    pub before : Marks
    pub after : Marks
    pub signature :
        env.deserialize token (selector algorithm candidate) before ≡ (some payload, after)
    pub entry : W
    pub during : P entry
    pub exit : W
    pub claims :
        validate_claims f env.signals env.parse_json env.unix_seconds payload config.claims context
          entry
        ≡ (ok (caller.client_id.value, caller.target_selection), exit)
    pub bearer : caller.bearer_token.value ≡ token

  pub record Vouched (P : W → Type 0) (token : Text) (algorithm : JwtAlgorithm)
      (context : SynchronizationContext) (caller : AuthenticatedTechnicalCaller) : Type 0 where
    pub retained : Retained P
    pub signed : Signed P token algorithm context retained.snapshot.candidates caller

  checked :
      (P : W → Type 0) (kept : IsKept env P) (context : SynchronizationContext) (w w' : W)
      {u : Unit {0}}
      → check f env config context w ≡ (ok u, w')
      → P w
      → P w'
  checked P kept context w w' e p =
      subst (λ r. P r.1) e (check-Keeps f env config P kept context w p)

  module _ (token : Text) (algorithm : JwtAlgorithm) (context : SynchronizationContext)
      {caller : AuthenticatedTechnicalCaller} (P : W → Type 0) (kept : IsKept env P) where
    settled-valid :
        (r : Result AuthenticationError (Text × TargetSelection) × W) {w' : W}
        → settled f env config token r ≡ (ok (valid caller), w')
        → (r ≡ (ok (caller.client_id.value, caller.target_selection), w'))
          × (caller.bearer_token.value ≡ token)
    settled-valid (ok (client_id, target_selection), w) h = ground arith
    settled-valid (err cancelled, w) h = cc
    settled-valid (err verifier_unavailable, w) h = cc
    settled-valid (err forbidden, w) h = cc
    settled-valid (err rejected, w) h = cc

    concluded-invalid : (p s : Bool) → concluded p s ≢ valid caller
    concluded-invalid true s h = cc
    concluded-invalid false true h = cc
    concluded-invalid false false h = cc

    widened :
        {c : Candidate V} {cs : List (Candidate V)}
        → Signed P token algorithm context cs caller
        → Signed P token algorithm context (c ∷ cs) caller
    widened {c} s = record {
      candidate = s.candidate;
      trusted = mem-cons_of_mem c s.trusted;
      payload = s.payload;
      before = s.before;
      after = s.after;
      signature = s.signature;
      entry = s.entry;
      during = s.during;
      exit = s.exit;
      claims = s.claims;
      bearer = s.bearer;
    }

    attempted-Signed :
        (c : Candidate V) (cs : List (Candidate V)) (before after : Marks) (output : Option Text)
        (rest : W → Result AuthenticationError Verification × W) (w w' : W)
        → env.deserialize token (selector algorithm c) before ≡ (output, after)
        → ((w w' : W)
            → P w
            → rest w ≡ (ok (valid caller), w')
            → Signed P token algorithm context cs caller)
        → P w
        → attempted f env config token context output rest w ≡ (ok (valid caller), w')
        → Signed P token algorithm context (c ∷ cs) caller
    attempted-Signed c cs before after none rest w w' e ih p h = widened (ih w w' p h)
    attempted-Signed c cs before after (some payload) rest w w' e ih p h =
        let (claims, bearer) = settled-valid _ h in
        record {
          candidate = c;
          trusted = mem-cons_self;
          payload = payload;
          before = before;
          after = after;
          signature = e;
          entry = w;
          during = p;
          exit = w';
          claims = claims;
          bearer = bearer;
        }

    examined-Signed :
        (c : Candidate V) (cs : List (Candidate V)) (before : Marks)
        (rest : W → Result AuthenticationError Verification × W) (w w' : W)
        → ((w w' : W)
            → P w
            → rest w ≡ (ok (valid caller), w')
            → Signed P token algorithm context cs caller)
        → P w
        → (check f env config context
              >> (check f env config context
                  >> attempted f env config token context
                      (env.deserialize token (selector algorithm c) before).0
                      rest))
            w
          ≡ (ok (valid caller), w')
        → Signed P token algorithm context (c ∷ cs) caller
    examined-Signed c cs before rest w w' ih p h =
        let go =
          attempted f env config token context
            (env.deserialize token (selector algorithm c) before).0 rest in
        let (_, w1, e1, h1) =
          proceed-eq-ok (λ _. check f env config context >> go) (check f env config context w) h in
        let (_, w2, e2, h2) = proceed-eq-ok (λ _. go) (check f env config context w1) h1 in
        attempted-Signed c cs before _ _ rest w2 w' refl ih
          (checked P kept context w1 w2 e2 (checked P kept context w w1 e1 p)) h2

    try_candidates-Signed :
        (candidates : List (Candidate V)) (p s : Bool) (w w' : W)
        → P w
        → try_candidates f env config token algorithm context candidates p s w
          ≡ (ok (valid caller), w')
        → Signed P token algorithm context candidates caller
    unfolding try_candidates
    try_candidates-Signed [] p s w w' k h = absurd (concluded-invalid p s cc)
    try_candidates-Signed (c ∷ cs) p s w w' k h =
        examined-Signed c cs (record { prohibited_header = p; selected = false })
          (try_candidates f env config token algorithm context cs
            (env.deserialize token (selector algorithm c)
              (record { prohibited_header = p; selected = false })).1.prohibited_header
            (s
              || (env.deserialize token (selector algorithm c)
                  (record { prohibited_header = p; selected = false })).1.selected))
          w w' (try_candidates-Signed cs _ _) k h

    valid_of_Accepts :
        (c : CacheClassification) (v : Verification)
        → Accepts caller (labelled c v)
        → v ≡ valid caller
    valid_of_Accepts fresh v (inl e) = cc
    valid_of_Accepts fresh v (inr e) = cc
    valid_of_Accepts stale v (inl e) = cc
    valid_of_Accepts stale v (inr e) = cc
    valid_of_Accepts cold_or_expired v (inl e) = cc
    valid_of_Accepts cold_or_expired v (inr e) = cc

    shown-valid :
        (c : CacheClassification) (r : Result AuthenticationError Verification × W)
        → Accepts caller (shown f env config c r).0
        → (w' : W) × (r ≡ (ok (valid caller), w'))
    shown-valid c (ok v, w) h = (w, ap (λ x. (ok x, w)) (valid_of_Accepts c v h))
    shown-valid c (err e, w) (inl h) = cc
    shown-valid c (err e, w) (inr h) = cc

    Signed-by :
        (c : CacheClassification) (candidates : List (Candidate V)) (w : W)
        → P w
        → Accepts caller
            (shown f env config c
              (try_candidates f env config token algorithm context candidates false false w)).0
        → Signed P token algorithm context candidates caller
    Signed-by c candidates w p h =
        let (w', e) =
          shown-valid c
            (try_candidates f env config token algorithm context candidates false false w) h in
        try_candidates-Signed candidates false false w w' p e

    verified_at-Signed :
        (snapshot : Snapshot V) (c : CacheClassification) (w : W)
        → P w
        → Accepts caller (verified_at f env config token algorithm context snapshot c w).0
        → (c ≢ cold_or_expired) × Signed P token algorithm context snapshot.candidates caller
    verified_at-Signed snapshot fresh w p h = (λ e. cc, Signed-by fresh snapshot.candidates w p h)
    verified_at-Signed snapshot stale w p h = (λ e. cc, Signed-by stale snapshot.candidates w p h)
    verified_at-Signed snapshot cold_or_expired w p (inl h) = cc
    verified_at-Signed snapshot cold_or_expired w p (inr h) = cc

    verify_snapshot-Vouched :
        (found : Option (Snapshot V)) (w : W)
        → P w
        → env.cache w ≡ found
        → Accepts caller (verify_snapshot f env config token algorithm context found w).0
        → Vouched P token algorithm context caller
    unfolding verify_snapshot
    verify_snapshot-Vouched none w p e (inl h) = cc
    verify_snapshot-Vouched none w p e (inr h) = cc
    verify_snapshot-Vouched (some snapshot) w p e h =
        let now = (env.tick w).0 in
        let (kept, signed) =
          verified_at-Signed snapshot (classify config.cache_policy (age snapshot now))
            (env.tick w).1 (kept.tick w p) h in
        let (elapsed, aged, bounded) =
          classify-bounded config.cache_policy (age snapshot now) kept in
        record {
          retained = record {
            state = w;
            snapshot = snapshot;
            now = now;
            elapsed = elapsed;
            holds = p;
            cached = e;
            read = refl;
            aged = aged;
            bounded = bounded;
          };
          signed = signed;
        }

    verify_locked-Vouched :
        (r : Result AuthenticationError (Unit {0}) × W)
        → P r.1
        → Accepts caller (verify_locked f env config token algorithm context r).0
        → Vouched P token algorithm context caller
    verify_locked-Vouched (ok _, w) p h = verify_snapshot-Vouched (env.cache w) w p refl h
    verify_locked-Vouched (err e, w) p (inl h) = cc
    verify_locked-Vouched (err e, w) p (inr h) = cc

    -- A caller that a verification accepts, be it fresh or stale, is vouched for by a snapshot that
    -- the cache holds in a state of the world with every property that the run keeps, that is not
    -- older there than the two durations of the policy, and one of whose candidates verifies the
    -- token and, from a state with that property, its claims.
    pub verify_current-Vouched :
        (w : W)
        → P w
        → Accepts caller (verify_current f env config token algorithm context w).0
        → Vouched P token algorithm context caller
    unfolding verify_current
    verify_current-Vouched w p h =
        verify_locked-Vouched (locked f env config env.read_cache context w)
          (locked-Keeps f env config P kept context env.read_cache kept.read_cache w p) h
