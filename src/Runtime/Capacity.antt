-- ===== src/Runtime/Capacity.antt =====
-- src/runtime/capacity.rs: the process-wide bound on concurrent selected-target work. The semaphore
-- of the library, the cancellation signal and the clock are operations on the state of the world.
pub mod Laws
use permissionsync.Prelude.{
  ℕ, Bool, true, false, ◌≡◌, Option, none, some, leb, if◌then◌else◌, Result, ok, err,
}
use permissionsync.Prelude.Io.{Io, pure, throw, proceed, ◌>>=◌, ◌>>◌}
use permissionsync.Domain.Context.{Signals, SynchronizationContext, is_cancelled_or_expired}
use permissionsync.Orchestration.{SynchronizationCapacityError, synchronization_capacity_error}

abbrev pub max_synchronization_capacity : ℕ
max_synchronization_capacity = 1024

-- The permits of a new semaphore.
unfoldable pub new : ℕ → Option ℕ
new capacity = if leb capacity max_synchronization_capacity then some capacity else none

-- An owned permit is dropped by `drop_permit`; `acquire_until` waits for one until the deadline.
pub record Semaphore (W : Type 0) : Type 0 where
  pub signals : Signals W
  pub try_acquire : W → Bool × W
  pub acquire_until : ℕ → W → Bool × W
  pub drop_permit : W → W
  -- The gauge and the three counters.
  pub enter_use : W → W
  pub leave_use : W → W
  pub count_saturated : W → W
  pub count_unavailable : W → W

module _ {W : Type 0} (p : Semaphore W) where
  abbrev pub Acquisition : Type 0
  Acquisition = Io W SynchronizationCapacityError (Unit {0})

  abbrev pub refused : Acquisition
  refused w = (err synchronization_capacity_error, p.count_unavailable w)

  -- The second check, with a permit in hand.
  abbrev pub confirmed : Bool × W → Result SynchronizationCapacityError (Unit {0}) × W
  confirmed (true, w) = refused (p.drop_permit w)
  confirmed (false, w) = (ok tt, p.enter_use w)

  pub confirm : SynchronizationContext → Acquisition
  unfolding is_cancelled_or_expired
  confirm context w = confirmed (is_cancelled_or_expired p.signals context w)

  abbrev pub waited :
      SynchronizationContext → Bool × W → Result SynchronizationCapacityError (Unit {0}) × W
  waited context (true, w) = confirm context w
  waited context (false, w) = refused w

  abbrev pub tried :
      SynchronizationContext → Bool × W → Result SynchronizationCapacityError (Unit {0}) × W
  tried context (true, w) = confirm context w
  tried context (false, w) = waited context (p.acquire_until context.deadline (p.count_saturated w))

  abbrev pub available :
      SynchronizationContext → Bool × W → Result SynchronizationCapacityError (Unit {0}) × W
  available context (true, w) = refused w
  available context (false, w) = tried context (p.try_acquire w)

  pub acquire : SynchronizationContext → Acquisition
  unfolding confirm is_cancelled_or_expired
  acquire context w = available context (is_cancelled_or_expired p.signals context w)

  -- The drop of a `HeldPermit`: the gauge, then the permit.
  pub release : W → W
  release w = p.drop_permit (p.leave_use w)
