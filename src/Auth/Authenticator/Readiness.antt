-- ===== src/Auth/Authenticator/Readiness.antt =====
-- crates/permissionsync-auth/src/authenticator.rs: what the readiness endpoint may report.
use permissionsync.Prelude.{ℕ, Option, none, some, ◌≡◌, ◌≢◌, refl, sym, ap, ◌∙◌, Result, ok, err}
use permissionsync.Prelude.Io.{proceed-eq-ok}
use permissionsync.Domain.Context.{SynchronizationContext}
use permissionsync.Auth.Types.{AuthenticationError}
use permissionsync.Auth.Claims.{F64}
use permissionsync.Auth.Cache.{
  Snapshot, CacheClassification, usable, fresh, stale, cold_or_expired, age,
}
use permissionsync.Auth.Cache.Laws.{classify-bounded}
use permissionsync.Auth.Verifier.{
  Environment, Config, classified, current_classification, classify_cache, locked,
}
use permissionsync.Auth.Verifier.Laws.{Retained}
use permissionsync.Prelude.{subst}
use permissionsync.Auth.Verifier.Keeps.{IsKept, locked-Keeps}
use permissionsync.Auth.Authenticator.Keeps.{classify_cache-Keeps, refresh-Keeps}
use permissionsync.Auth.Authenticator.{
  refresh, state_of, current_verifier_state, after_refresh, ensured, ensure_trusted_verifier_state,
}

module _ (f : F64) {W V : Type 0} (env : Environment f.Float W V) (config : Config f.Float)
    (P : W → Type 0) (kept : IsKept env P) where
  classified-Retained :
      (found : Option (Snapshot V)) (w : W)
      → P w
      → env.cache w ≡ found
      → (classified f env config found w).0.1 ≢ cold_or_expired
      → Retained f env config P
  unfolding classified
  classified-Retained none w p e h = absurd (h refl)
  classified-Retained (some snapshot) w p e h =
      let (elapsed, aged, bounded) =
        classify-bounded config.cache_policy (age snapshot (env.tick w).0) h in
      record {
        state = w;
        snapshot = snapshot;
        now = (env.tick w).0;
        elapsed = elapsed;
        holds = p;
        cached = e;
        read = refl;
        aged = aged;
        bounded = bounded;
      }

  classify_cache-Retained :
      (context : SynchronizationContext) (w : W) (o : ℕ × CacheClassification) (w' : W)
      → P w
      → classify_cache f env config context w ≡ (ok o, w')
      → o.1 ≢ cold_or_expired
      → Retained f env config P
  unfolding classify_cache current_classification
  classify_cache-Retained context w o w' p h known =
      let (_, w1, e1, h1) =
        proceed-eq-ok (λ _. current_classification f env config)
          (locked f env config env.read_cache context w) h in
      let same : (classified f env config (env.cache w1) w1).0 ≡ o = cc in
      classified-Retained (env.cache w1) w1
        (subst (λ x. P x.1) e1
          (locked-Keeps f env config P kept context env.read_cache kept.read_cache w p))
        refl (λ e. known (ap (λ c. c.1) (sym same) ∙ e))

  by_state :
      (context : SynchronizationContext) (w : W)
      (r : Result AuthenticationError (ℕ × CacheClassification) × W)
      → P w
      → classify_cache f env config context w ≡ r
      → (state_of f env config r).0 ≡ usable
      → Retained f env config P
  by_state context w (err e, w') p eq h = cc
  by_state context w (ok (observed, fresh), w') p eq h =
      classify_cache-Retained context w (observed, fresh) w' p eq (λ e. cc)
  by_state context w (ok (observed, stale), w') p eq h =
      classify_cache-Retained context w (observed, stale) w' p eq (λ e. cc)
  by_state context w (ok (observed, cold_or_expired), w') p eq h = cc

  by_refresh :
      (context : SynchronizationContext) (r : Result AuthenticationError (Unit {0}) × W)
      → P r.1
      → (after_refresh f env config context r).0 ≡ usable
      → Retained f env config P
  unfolding current_verifier_state
  by_refresh context (ok _, w) p h =
      by_state context w (classify_cache f env config context w) p refl h
  by_refresh context (err e, w) p h = cc

  ensured-Retained :
      (context : SynchronizationContext) (w : W)
      (r : Result AuthenticationError (ℕ × CacheClassification) × W)
      → P w
      → classify_cache f env config context w ≡ r
      → (ensured f env config context r).0 ≡ usable
      → Retained f env config P
  ensured-Retained context w (err e, w') p eq h = cc
  ensured-Retained context w (ok (observed, fresh), w') p eq h =
      classify_cache-Retained context w (observed, fresh) w' p eq (λ e. cc)
  ensured-Retained context w (ok (observed, stale), w') p eq h =
      classify_cache-Retained context w (observed, stale) w' p eq (λ e. cc)
  ensured-Retained context w (ok (observed, cold_or_expired), w') p eq h =
      by_refresh context (refresh f env config context observed w')
        (refresh-Keeps f env config P kept context observed w'
          (subst (λ x. P x.1) eq (classify_cache-Keeps f env config P kept context w p)))
        h

  -- The verifier state is reported usable only if the cache holds, in a state of the world that has
  -- any property which the initial state has and every call to the outside keeps, a snapshot whose
  -- age by the clock's reading there is within the freshness and the stale grace.
  pub ensure_trusted_verifier_state-Retained :
      (context : SynchronizationContext) (w : W)
      → P w
      → (ensure_trusted_verifier_state f env config context w).0 ≡ usable
      → Retained f env config P
  unfolding ensure_trusted_verifier_state
  ensure_trusted_verifier_state-Retained context w p h =
      ensured-Retained context w (classify_cache f env config context w) p refl h
