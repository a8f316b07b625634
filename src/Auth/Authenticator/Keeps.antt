-- ===== src/Auth/Authenticator/Keeps.antt =====
-- crates/permissionsync-auth/src/authenticator.rs: what the calls to the outside keep, a refresh keeps.
use permissionsync.Prelude.{ℕ, Bool, true, false, Option, Result, ok, err}
use permissionsync.Prelude.Io.{Io, ◌>>=◌, ◌>>◌, map_err, relabel}
use permissionsync.Domain.Context.{SynchronizationContext}
use permissionsync.Auth.Types.{AuthenticationError}
use permissionsync.Auth.Claims.{F64}
use permissionsync.Auth.Cache.{next_generation, generation_of, Snapshot}
use permissionsync.Auth.Verifier.{
  Environment, Config, check, timely, locked, classified, current_classification, classify_cache,
}
use permissionsync.Auth.Verifier.Keeps.{IsKept, Keeps, proceed-Keeps, check-Keeps, locked-Keeps}
use permissionsync.Auth.Authenticator.{
  newer_is_fresh, newer_generation_is_currently_fresh, install_snapshot, retrieval_error,
  replaced_unless, unlocking, replaced, refresh,
}

module _ (f : F64) {W V : Type 0} (env : Environment f.Float W V) (config : Config f.Float)
    (P : W → Type 0) (kept : IsKept env P) (context : SynchronizationContext) where
  classified-Keeps :
      (found : Option (Snapshot V)) (w : W) → P w → P (classified f env config found w).1
  unfolding classified
  classified-Keeps Option.none w p = p
  classified-Keeps (Option.some s) w p = kept.tick w p

  pub classify_cache-Keeps : Keeps P (classify_cache f env config context)
  unfolding classify_cache current_classification
  classify_cache-Keeps w p =
      proceed-Keeps P (λ _. current_classification f env config)
        (locked f env config env.read_cache context w) (λ _ w p. classified-Keeps (env.cache w) w p)
        (locked-Keeps f env config P kept context env.read_cache kept.read_cache w p)

  newer-Keeps :
      (observed : ℕ) → Keeps P (newer_generation_is_currently_fresh f env config context observed)
  unfolding newer_generation_is_currently_fresh
  newer-Keeps observed w p =
      let reading : Io W AuthenticationError Bool = λ w. (
        ok (newer_is_fresh config.cache_policy observed (env.tick w).0 (env.cache (env.tick w).1)),
        (env.tick w).1,
      ) in
      proceed-Keeps P (λ _. reading) (locked f env config env.read_cache context w)
        (λ _ w p. kept.tick w p)
        (locked-Keeps f env config P kept context env.read_cache kept.read_cache w p)

  install_snapshot-Keeps :
      (snapshot : Snapshot V) → Keeps P (install_snapshot f env config context snapshot)
  unfolding install_snapshot
  install_snapshot-Keeps snapshot w p =
      let put : Io W AuthenticationError (Unit {0}) = λ w. (
        ok tt,
        env.install (record snapshot { generation = next_generation (generation_of (env.cache w)) })
            w,
      ) in
      proceed-Keeps P (λ _. put) (locked f env config env.write_cache context w)
        (λ _ w p. kept.install _ w p)
        (locked-Keeps f env config P kept context env.write_cache kept.write_cache w p)

  relabel-Keeps :
      {B : Type 0} (r : Result AuthenticationError B × W)
      → P r.1
      → P (relabel (retrieval_error f env config) r).1
  relabel-Keeps (ok a, w) p = p
  relabel-Keeps (err e, w) p = p

  replaced_unless-Keeps : (newer : Bool) → Keeps P (replaced_unless f env config context newer)
  replaced_unless-Keeps true w p = p
  replaced_unless-Keeps false w p =
      proceed-Keeps P (install_snapshot f env config context)
        (map_err (retrieval_error f env config) (env.fetch_snapshot context) w)
        install_snapshot-Keeps
        (relabel-Keeps (env.fetch_snapshot context w) (kept.fetch_snapshot context w p))

  replaced-Keeps : (observed : ℕ) → Keeps P (replaced f env config context observed)
  unfolding replaced
  replaced-Keeps observed w p =
      proceed-Keeps P
        (λ _.
          newer_generation_is_currently_fresh f env config context observed
          >>= replaced_unless f env config context)
        (check f env config context w)
        (λ _ w p.
          proceed-Keeps P (replaced_unless f env config context)
            (newer_generation_is_currently_fresh f env config context observed w)
            replaced_unless-Keeps (newer-Keeps observed w p))
        (check-Keeps f env config P kept context w p)

  pub refresh-Keeps : (observed : ℕ) → Keeps P (refresh f env config context observed)
  unfolding refresh timely
  refresh-Keeps observed w p =
      let body = unlocking f env config (replaced f env config context observed) in
      proceed-Keeps P (λ _. timely f env config env.lock_refresh context >> body)
        (check f env config context w)
        (λ _ w p.
          proceed-Keeps P (λ _. body) (timely f env config env.lock_refresh context w)
            (λ _ w p. kept.unlock_refresh _ (replaced-Keeps observed w p))
            (kept.lock_refresh context.deadline w p))
        (check-Keeps f env config P kept context w p)
