-- ===== src/Runtime/Admission.antt =====
-- src/runtime/{admission,lifecycle}.rs: inbound admission and the lifecycle that it observes. One
-- call of `admit` runs in synchronous segments between its awaits; each segment is a function on the
-- shared state, and `Step` interleaves the segments of any number of requests. The semaphore of Tokio is
-- a parameter.
pub mod Laws
use permissionsync.Prelude.{
  ℕ, ◌+◌, ◌-◌, ◌<◌, ◌≡◌, Bool, true, false, ◌||◌, ◌&&◌, Option, none, some, leb, if◌then◌else◌,
}

pub record Lifecycle : Type 0 where
  pub shutting_down : Bool
  pub requests_cancelled : Bool

-- `tokio::sync::Semaphore` with states in `S`. A waiting request polls and drops the future of its
-- `acquire_owned`, which a number names; a permit that is given back may be assigned to such a future
-- before its next poll.
pub record TokioSemaphore (S : Type 0) : Type 0 where
  pub create : ℕ → S
  pub try_acquire_owned : S → Bool × S
  pub poll_acquire : ℕ → S → Bool × S
  pub drop_acquire : ℕ → S → S
  pub drop_permit : S → S

-- The two semaphores, with the gauges and counters that the source keeps.
pub record InboundAdmission (S : Type 0) : Type 0 where
  pub permits : S
  pub waiters : S
  pub requests_in_flight : ℕ
  pub admission_waiters : ℕ
  pub abandoned_total : ℕ
  pub saturated_total : ℕ
  pub refused_total : ℕ

-- A permit is held by what `admitted` carries.
pub data Admission : Type 0 where
  admitted not_admitted refused_without_waiting : Admission

abbrev pub serving : Lifecycle
serving = record { shutting_down = false; requests_cancelled = false }

unfoldable pub begin_shutdown : Lifecycle → Lifecycle
begin_shutdown l = record l { shutting_down = true }

unfoldable pub cancel_requests : Lifecycle → Lifecycle
cancel_requests l = record l { requests_cancelled = true }

-- `RequestCancellation::is_cancelled`
abbrev pub is_cancelled : Lifecycle → Bool
is_cancelled l = l.requests_cancelled

abbrev pub waiter_slots : ℕ → ℕ
waiter_slots inbound_admission_limit = inbound_admission_limit

-- `Semaphore::MAX_PERMITS` is the bound that is given.
unfoldable pub derived_semaphore_sizes : ℕ → ℕ → Option (ℕ × ℕ)
derived_semaphore_sizes max_permits limit =
    if leb limit max_permits && leb (waiter_slots limit) max_permits
    then some (limit, waiter_slots limit)
    else none

-- `lifecycle.is_shutting_down() || Instant::now() >= deadline`
abbrev pub is_over : Lifecycle → ℕ → ℕ → Bool
is_over l deadline now = l.shutting_down || leb deadline now

-- Where the first segment of `admit` ends.
pub data Entry : Type 0 where
  gave_up refused : Entry
  holding : Entry
  waiting : Entry

-- `shutdown_started`, polled: its first poll reads the flag, and any poll sees a notification, which
-- both `begin_shutdown` and `cancel_requests` send.
unfoldable pub shutdown_started : Lifecycle → Bool → Bool → Bool
shutdown_started l is_first notified = is_first && l.shutting_down || notified

-- The shared state with the numbers of requests that hold a permit before `finalize`, that wait, and
-- that are admitted.
pub record System (S : Type 0) : Type 0 where
  pub lifecycle : Lifecycle
  pub admission : InboundAdmission S
  pub holding : ℕ
  pub waiting : ℕ
  pub admitted : ℕ

module _ {S : Type 0} (semaphore : TokioSemaphore S) where
  abbrev pub with_sizes : Option (ℕ × ℕ) → Option (InboundAdmission S)
  with_sizes none = none
  with_sizes (some (admitting, parking)) = some (record {
    permits = semaphore.create admitting;
    waiters = semaphore.create parking;
    requests_in_flight = 0;
    admission_waiters = 0;
    abandoned_total = 0;
    saturated_total = 0;
    refused_total = 0;
  })

  unfoldable pub new : ℕ → ℕ → Option (InboundAdmission S)
  unfolding derived_semaphore_sizes
  new max_permits limit = with_sizes (derived_semaphore_sizes max_permits limit)

  abbrev pub abandoned : InboundAdmission S → InboundAdmission S
  abandoned a = record a { abandoned_total = a.abandoned_total + 1 }

  abbrev enter_queue : InboundAdmission S → Bool × S → Entry × InboundAdmission S
  enter_queue a (acquired, s) =
      if acquired
      then (waiting, record a { waiters = s; admission_waiters = a.admission_waiters + 1 })
      else (refused, record a { waiters = s; refused_total = a.refused_total + 1 })

  abbrev enter_permit : InboundAdmission S → Bool × S → Entry × InboundAdmission S
  enter_permit a (acquired, s) =
      if acquired
      then (holding, record a { permits = s })
      else enter_queue (record a { permits = s; saturated_total = a.saturated_total + 1 })
          (semaphore.try_acquire_owned a.waiters)

  -- From the start of `admit` to a result, a permit, or the wait.
  unfoldable pub enter : Lifecycle → ℕ → ℕ → InboundAdmission S → Entry × InboundAdmission S
  enter l deadline now a =
      if is_over l deadline now
      then (gave_up, abandoned a)
      else enter_permit a (semaphore.try_acquire_owned a.permits)

  -- `finalize`, with a permit in hand.
  unfoldable pub finalize : Lifecycle → ℕ → ℕ → InboundAdmission S → Admission × InboundAdmission S
  finalize l deadline now a =
      if is_over l deadline now
      then (not_admitted, abandoned (record a { permits = semaphore.drop_permit a.permits }))
      else (admitted, record a { requests_in_flight = a.requests_in_flight + 1 })

  -- The biased `select!` of the request with the given future: nothing yet, or whether a permit was
  -- acquired.
  abbrev woken_by_permit : ℕ → ℕ → InboundAdmission S → Bool × S → Option Bool × InboundAdmission S
  woken_by_permit deadline now a (acquired, s) =
      if acquired
      then (some true, record a { permits = s })
      else (if leb deadline now then some false else none, record a { permits = s })

  unfoldable pub poll_wait :
      ℕ → Bool → ℕ → ℕ → InboundAdmission S → Option Bool × InboundAdmission S
  poll_wait future started deadline now a =
      if started
      then (some false, a)
      else woken_by_permit deadline now a (semaphore.poll_acquire future a.permits)

  -- `drop(waiting); drop(waiter_slot);`, which also happens when a waiting request is dropped.
  unfoldable pub stop_waiting : InboundAdmission S → InboundAdmission S
  stop_waiting a = record a {
    waiters = semaphore.drop_permit a.waiters;
    admission_waiters = a.admission_waiters - 1;
  }

  -- The end of a wait without a permit, which first drops the future.
  unfoldable pub leave_queue : ℕ → InboundAdmission S → InboundAdmission S
  unfolding stop_waiting
  leave_queue future a =
      stop_waiting (record a { permits = semaphore.drop_acquire future a.permits })

  -- After the wait without a permit.
  unfoldable pub give_up : InboundAdmission S → Admission × InboundAdmission S
  give_up a = (not_admitted, abandoned a)

  -- The drop of an `AdmittedRequest`: the gauge, then the permit.
  unfoldable pub release : InboundAdmission S → InboundAdmission S
  release a = record a {
    requests_in_flight = a.requests_in_flight - 1;
    permits = semaphore.drop_permit a.permits;
  }

  abbrev pub entered : Entry × InboundAdmission S → System S → System S
  entered (gave_up, a) s = record s { admission = a }
  entered (refused, a) s = record s { admission = a }
  entered (holding, a) s = record s { admission = a; holding = s.holding + 1 }
  entered (waiting, a) s = record s { admission = a; waiting = s.waiting + 1 }

  abbrev pub finalized : Admission × InboundAdmission S → System S → System S
  finalized (admitted, a) s = record s {
    admission = a;
    holding = s.holding - 1;
    admitted = s.admitted + 1;
  }
  finalized (not_admitted, a) s = record s { admission = a; holding = s.holding - 1 }
  finalized (refused_without_waiting, a) s = record s { admission = a; holding = s.holding - 1 }

  abbrev pub polled : ℕ → Option Bool × InboundAdmission S → System S → System S
  polled future (none, a) s = record s { admission = a }
  polled future (some true, a) s = record s {
    admission = stop_waiting a;
    waiting = s.waiting - 1;
    holding = s.holding + 1;
  }
  polled future (some false, a) s = record s {
    admission = (give_up (leave_queue future a)).1;
    waiting = s.waiting - 1;
  }

  -- Any future may be polled or dropped while a request waits.
  pub data Step : System S → System S → Type 0 where
    arrive :
        (s : System S) (deadline now : ℕ)
        → Step s (entered (enter s.lifecycle deadline now s.admission) s)
    finish :
        (s : System S) (deadline now : ℕ)
        → 0 < s.holding
        → Step s (finalized (finalize s.lifecycle deadline now s.admission) s)
    poll :
        (s : System S) (future deadline now : ℕ) (is_first notified : Bool)
        → 0 < s.waiting
        → (notified ≡ true → (s.lifecycle.shutting_down || s.lifecycle.requests_cancelled) ≡ true)
        → Step s (
            polled future
              (poll_wait future
                (shutdown_started s.lifecycle is_first notified)
                deadline
                now
                s.admission)
              s)
    drop_waiting :
        (s : System S) (future : ℕ)
        → 0 < s.waiting
        → Step s (record s { admission = leave_queue future s.admission; waiting = s.waiting - 1 })
    drop_admitted :
        (s : System S)
        → 0 < s.admitted
        → Step s (record s { admission = release s.admission; admitted = s.admitted - 1 })
    shut_down : (s : System S) → Step s (record s { lifecycle = begin_shutdown s.lifecycle })
    cancel : (s : System S) → Step s (record s { lifecycle = cancel_requests s.lifecycle })

  pub data Steps : System S → System S → Type 0 where
    stop : (s : System S) → Steps s s
    next : {s t u : System S} → Step s t → Steps t u → Steps s u

  abbrev pub initial : InboundAdmission S → System S
  initial a = record { lifecycle = serving; admission = a; holding = 0; waiting = 0; admitted = 0 }
