-- ===== src/Glpi/Deadline.antt =====
-- crates/permissionsync-adapter-glpi/src/adapter.rs: the deadline of one outbound operation, and the
-- check between operations.
use permissionsync.Prelude.{ℕ, not, Option, none, some, leb, min, ok}
use permissionsync.Prelude.Io.{Io, pure, ◌>>=◌, ◌>>◌, guard}
use permissionsync.Domain.Context.{SynchronizationContext}
use permissionsync.Glpi.Failure.{GlpiFailure, cancelled, deadline_exceeded}
use permissionsync.Glpi.Http.{Environment, ValidatedConfig}

-- A reading of the world, which may advance it.
abbrev pub sense : {W E A : Type 0} → (W → A × W) → Io W E A
sense reading w = let (a, w') = reading w in (ok a, w')

-- `now.checked_add(operation_timeout).unwrap_or(context.deadline())`
abbrev pub unwrap_or : ℕ → Option ℕ → ℕ
unwrap_or n none = n
unwrap_or n (some m) = m

module _ {N W : Type 0} (env : Environment N W) where
  unfoldable pub effective_deadline : ValidatedConfig → SynchronizationContext → Io W GlpiFailure ℕ
  effective_deadline config context = do
    stopped ← sense env.signals.is_cancelled
    guard (not stopped) cancelled
    now ← sense env.signals.now
    guard (not (leb context.deadline now)) deadline_exceeded
    pure (
        min context.deadline
          (unwrap_or context.deadline (env.checked_add now config.operation_timeout)))

  unfoldable pub check_context : ℕ → Io W GlpiFailure (Unit {0})
  check_context deadline = do
    stopped ← sense env.signals.is_cancelled
    guard (not stopped) cancelled
    now ← sense env.signals.now
    guard (not (leb deadline now)) deadline_exceeded
