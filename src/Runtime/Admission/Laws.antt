-- ===== src/Runtime/Admission/Laws.antt =====
-- src/runtime/admission.rs: the bounds of inbound admission, on every interleaving.
use permissionsync.Prelude.{
  ℕ, ◌+◌, ◌-◌, ◌<◌, ◌≤◌, ◌≡◌, ◌↔◌, true, false, some, ltb, if◌then◌else◌, arith,
}
use permissionsync.Runtime.Admission.{
  TokioSemaphore, InboundAdmission, begin_shutdown, cancel_requests, waiter_slots,
  derived_semaphore_sizes, new, enter, finalize, poll_wait, shutdown_started, stop_waiting,
  leave_queue, give_up, release, System, Step, arrive, finish, poll, drop_waiting, drop_admitted,
  shut_down, cancel, Steps, stop, next, initial, refused,
}

-- The documented permits of a semaphore: those that are available, those that are assigned to pending
-- acquisitions, of which there are at least as many, and how each operation changes them.
pub record Accounting {S : Type 0} (semaphore : TokioSemaphore S) : Type 0 where
  pub available : S → ℕ
  pub assigned : S → ℕ
  pub pending : S → ℕ
  pub assigned_to_pending : (s : S) → assigned s ≤ pending s
  pub available_create : (n : ℕ) → available (semaphore.create n) ≡ n
  pub pending_create : (n : ℕ) → pending (semaphore.create n) ≡ 0
  -- `try_acquire_owned` takes an available permit, without waiting.
  pub try_result : (s : S) → (semaphore.try_acquire_owned s).0 ≡ ltb 0 (available s)
  pub available_try : (s : S) → available (semaphore.try_acquire_owned s).1 ≡ available s - 1
  pub assigned_try : (s : S) → assigned (semaphore.try_acquire_owned s).1 ≡ assigned s
  pub pending_try : (s : S) → pending (semaphore.try_acquire_owned s).1 ≡ pending s
  -- An acquisition takes one permit once it succeeds, and gives it back if it is dropped before.
  pub total_poll :
      (future : ℕ) (s : S)
      → available (semaphore.poll_acquire future s).1
          + assigned (semaphore.poll_acquire future s).1
          + (if (semaphore.poll_acquire future s).0 then 1 else 0)
        ≡ available s + assigned s
  pub total_drop :
      (future : ℕ) (s : S)
      → available (semaphore.drop_acquire future s) + assigned (semaphore.drop_acquire future s)
        ≡ available s + assigned s
  -- A permit that is given back becomes available or is assigned.
  pub total_permit :
      (s : S)
      → available (semaphore.drop_permit s) + assigned (semaphore.drop_permit s)
        ≡ available s + assigned s + 1
  pub pending_permit : (s : S) → pending (semaphore.drop_permit s) ≤ pending s

module _ {S : Type 0} (semaphore : TokioSemaphore S) (accounting : Accounting semaphore) where
  open accounting use {available, assigned, pending}

  -- Each available or assigned permit, each held one and each admitted request make up the limit; each
  -- free slot and each waiting request make up the number of slots, which nothing waits for; the
  -- gauges tell the truth.
  pub record IsBalanced (limit : ℕ) (s : System S) : Type 0 where
    pub permits :
        available s.admission.permits + assigned s.admission.permits + s.holding + s.admitted
        ≡ limit
    pub slots : available s.admission.waiters + s.waiting ≡ waiter_slots limit
    pub unqueued : pending s.admission.waiters ≡ 0
    pub in_flight : s.admission.requests_in_flight ≡ s.admitted
    pub waiters : s.admission.admission_waiters ≡ s.waiting

  -- A permit of a semaphore that nothing waits for becomes available.
  unqueued_permit :
      (s : S)
      → pending s ≡ 0
      → (pending (semaphore.drop_permit s) ≡ 0)
        × (available (semaphore.drop_permit s) ≡ available s + 1)
  unqueued_permit s h =
      let fewer = accounting.pending_permit s in
      let before = accounting.assigned_to_pending s in
      let after = accounting.assigned_to_pending (semaphore.drop_permit s) in
      let total = accounting.total_permit s in (omega arith, omega arith)

  Step-IsBalanced :
      {limit : ℕ} {s t : System S} → Step semaphore s t → IsBalanced limit s → IsBalanced limit t
  unfolding enter finalize poll_wait shutdown_started stop_waiting leave_queue give_up release
      begin_shutdown cancel_requests
  Step-IsBalanced (arrive s deadline now) b =
      let p = s.admission.permits in
      let q = s.admission.waiters in
      ground (
        arith,
        accounting.try_result p,
        accounting.available_try p,
        accounting.assigned_try p,
        accounting.try_result q,
        accounting.available_try q,
        accounting.pending_try q,
      )
  Step-IsBalanced (finish s deadline now h) b =
      ground (arith, accounting.total_permit s.admission.permits)
  Step-IsBalanced (poll s future deadline now i n h k) b = ground (
    arith,
    accounting.total_poll future s.admission.permits,
    accounting.total_drop future s.admission.permits,
    accounting.total_drop future (semaphore.poll_acquire future s.admission.permits).1,
    unqueued_permit s.admission.waiters,
  )
  Step-IsBalanced (drop_waiting s future h) b =
      ground (
        arith,
        accounting.total_drop future s.admission.permits,
        unqueued_permit s.admission.waiters,
      )
  Step-IsBalanced (drop_admitted s h) b =
      ground (arith, accounting.total_permit s.admission.permits)
  Step-IsBalanced (shut_down s) b = ground arith
  Step-IsBalanced (cancel s) b = ground arith

  IsBalanced-Steps :
      {limit : ℕ} {s t : System S} → Steps semaphore s t → IsBalanced limit s → IsBalanced limit t
  IsBalanced-Steps (stop s) b = b
  IsBalanced-Steps (next step steps) b = IsBalanced-Steps steps (Step-IsBalanced step b)

  initial-IsBalanced :
      (max_permits limit : ℕ) {a : InboundAdmission S}
      → new semaphore max_permits limit ≡ some a
      → IsBalanced limit (initial semaphore a)
  unfolding new derived_semaphore_sizes
  initial-IsBalanced max_permits limit h =
      let s = semaphore.create limit in
      let fine = accounting.assigned_to_pending s in
      ground (arith, fine, accounting.available_create limit, accounting.pending_create limit)

  pub Steps-IsBalanced :
      (max_permits limit : ℕ) {a : InboundAdmission S} {s : System S}
      → new semaphore max_permits limit ≡ some a
      → Steps semaphore (initial semaphore a) s
      → IsBalanced limit s
  Steps-IsBalanced max_permits limit h steps =
      IsBalanced-Steps steps (initial-IsBalanced max_permits limit h)

  -- A request is refused without waiting exactly if the process serves and the deadline has not
  -- passed while, in a balanced state, the limit is reached by the permits that are assigned to
  -- waiting requests, held and admitted, and all slots are taken by waiting requests.
  pub enter-refused_iff :
      (limit deadline now : ℕ) (s : System S)
      → IsBalanced limit s
      → ((enter semaphore s.lifecycle deadline now s.admission).0 ≡ refused) ↔ (
          (s.lifecycle.shutting_down ≡ false)
          × (now < deadline)
          × (assigned s.admission.permits + s.holding + s.admitted ≡ limit)
          × (s.waiting ≡ waiter_slots limit))
  unfolding enter
  enter-refused_iff limit deadline now s b =
      ground (
        arith,
        accounting.try_result s.admission.permits,
        accounting.try_result s.admission.waiters,
      )

module _ {S : Type 0} (semaphore : TokioSemaphore S) where
  AfterShutdown : System S → System S → Type 0
  AfterShutdown s t = (t.lifecycle.shutting_down ≡ true) × (t.admitted ≤ s.admitted)

  Step-AfterShutdown :
      {s t : System S} → Step semaphore s t → s.lifecycle.shutting_down ≡ true → AfterShutdown s t
  unfolding AfterShutdown enter finalize poll_wait shutdown_started begin_shutdown cancel_requests
  Step-AfterShutdown (arrive s deadline now) h = ground arith
  Step-AfterShutdown (finish s deadline now k) h = ground arith
  Step-AfterShutdown (poll s future deadline now i n k c) h = ground arith
  Step-AfterShutdown (drop_waiting s future k) h = ground arith
  Step-AfterShutdown (drop_admitted s k) h = ground arith
  Step-AfterShutdown (shut_down s) h = ground arith
  Step-AfterShutdown (cancel s) h = ground arith

  -- Once shutdown has begun it stays so, and no interleaving admits another request.
  pub Steps-after_shutdown :
      {s t : System S}
      → Steps semaphore s t
      → s.lifecycle.shutting_down ≡ true
      → (t.lifecycle.shutting_down ≡ true) × (t.admitted ≤ s.admitted)
  unfolding AfterShutdown
  Steps-after_shutdown (stop s) h = (h, omega arith)
  Steps-after_shutdown (next step steps) h =
      let (down, fewer) = Step-AfterShutdown step h in
      let (down', fewer') = Steps-after_shutdown steps down in (down', omega arith)
