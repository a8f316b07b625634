-- ===== src/Tests/Runtime.antt =====
-- src/runtime on a limit of one request.
use permissionsync.Prelude.{
  ℕ, ◌+◌, ◌-◌, ◌<◌, ◌≤◌, ◌≡◌, refl, ◌↔◌, Bool, true, false, zero, suc, ◌==◌, List, [], ◌∷◌, ◌++◌,
  length, some, arith, ok, if◌then◌else◌,
}
use permissionsync.Domain.Context.{SynchronizationContext}
use permissionsync.Runtime.Admission.{
  TokioSemaphore, InboundAdmission, waiter_slots, new, enter, finalize, poll_wait, shutdown_started,
  release as release_admitted, System, Step, arrive, finish, poll, drop_admitted, Steps, stop, next,
  initial, refused,
}
use permissionsync.Runtime.Admission.Laws.{
  Accounting, IsBalanced, Steps-IsBalanced, enter-refused_iff, Steps-after_shutdown,
}
use permissionsync.Runtime.Capacity.{Semaphore, acquire, release}
use permissionsync.Runtime.Capacity.Laws.{Accounts, after, acquire-held}

-- A fair semaphore: its free permits, the futures in its queue, and those with a permit assigned.
record Fair : Type 0 where
  pub free : ℕ
  pub queue : List ℕ
  pub assigned : List ℕ

unfoldable remove : ℕ → List ℕ → List ℕ
remove a [] = []
remove a (b ∷ bs) = if a == b then bs else b ∷ remove a bs

unfoldable has : ℕ → List ℕ → Bool
has a [] = false
has a (b ∷ bs) = if a == b then true else has a bs

unfoldable assign : List ℕ → Fair → Fair
assign [] s = record s { free = s.free + 1 }
assign (a ∷ queue) s = record s { queue = queue; assigned = a ∷ s.assigned }

unfoldable acquire_first : ℕ → ℕ → Fair → Bool × Fair
acquire_first a zero s = (false, record s { queue = s.queue ++ a ∷ [] })
acquire_first a (suc n) s = (true, record s { free = n })

unfoldable take_free : ℕ → Fair → Bool × Fair
take_free zero s = (false, s)
take_free (suc n) s = (true, record s { free = n })

abbrev tokio : TokioSemaphore Fair
tokio = record {
  create = λ n. record { free = n; queue = []; assigned = [] };
  try_acquire_owned = λ s. take_free s.free s;
  poll_acquire = λ a s.
      if has a s.assigned
      then (true, record s { assigned = remove a s.assigned })
      else if has a s.queue
      then (false, s)
      else acquire_first a s.free s;
  drop_acquire = λ a s.
      if has a s.assigned
      then assign s.queue (record s { assigned = remove a s.assigned })
      else record s { queue = remove a s.queue };
  drop_permit = λ s. assign s.queue s;
}

length-remove : (a : ℕ) (bs : List ℕ) → has a bs ≡ true → length (remove a bs) + 1 ≡ length bs
unfolding remove has
length-remove a [] h = ground arith
length-remove a (b ∷ bs) h = ground (arith, length-remove a bs)

total-assign :
    (queue : List ℕ) (s : Fair)
    → (assign queue s).free + length (assign queue s).assigned ≡ s.free + length s.assigned + 1
unfolding assign
total-assign [] s = ground arith
total-assign (a ∷ queue) s = ground arith

pending-assign :
    (s : Fair)
    → length (assign s.queue s).queue + length (assign s.queue s).assigned
      ≤ length s.queue + length s.assigned
unfolding assign
pending-assign s = ground arith

total-first :
    (a n : ℕ) (s : Fair)
    → s.free ≡ n
    → (acquire_first a n s).1.free
        + length (acquire_first a n s).1.assigned
        + (if (acquire_first a n s).0 then 1 else 0)
      ≡ s.free + length s.assigned
unfolding acquire_first
total-first a zero s h = ground arith
total-first a (suc n) s h = ground arith

tokio-Accounting : Accounting tokio
unfolding take_free
tokio-Accounting = record {
  available = λ s. s.free;
  assigned = λ s. length s.assigned;
  pending = λ s. length s.queue + length s.assigned;
  assigned_to_pending = λ s. omega arith;
  available_create = λ n. refl;
  pending_create = λ n. refl;
  try_result = λ s. ground arith;
  available_try = λ s. ground arith;
  assigned_try = λ s. ground arith;
  pending_try = λ s. ground arith;
  total_poll = λ a s. ground (arith, length-remove a s.assigned, total-first a s.free s refl);
  total_drop = λ a s. ground (
    arith,
    length-remove a s.assigned,
    total-assign s.queue (record s { assigned = remove a s.assigned }),
  );
  total_permit = λ s. total-assign s.queue s;
  pending_permit = λ s. pending-assign s;
}

abbrev fresh : InboundAdmission Fair
fresh = record {
  permits = record { free = 1; queue = []; assigned = [] };
  waiters = record { free = 1; queue = []; assigned = [] };
  requests_in_flight = 0;
  admission_waiters = 0;
  abandoned_total = 0;
  saturated_total = 0;
  refused_total = 0;
}

abbrev taken : Fair
taken = record { free = 0; queue = []; assigned = [] }

new_test : new tokio 9 1 ≡ some fresh
unfolding new
new_test = refl

-- One request is admitted and a second one waits; the first one leaves, which assigns its permit to
-- the second one, and a third one is refused.
abbrev serving_one : ℕ → ℕ → System Fair
serving_one held admitted = record {
  lifecycle = record { shutting_down = false; requests_cancelled = false };
  admission = record fresh { permits = taken; requests_in_flight = admitted };
  holding = held;
  waiting = 0;
  admitted = admitted;
}

abbrev waiting_with : Fair → ℕ → System Fair
waiting_with permits admitted = record {
  lifecycle = record { shutting_down = false; requests_cancelled = false };
  admission = record fresh {
    permits = permits;
    waiters = taken;
    requests_in_flight = admitted;
    admission_waiters = 1;
    saturated_total = 1;
  };
  holding = 0;
  waiting = 1;
  admitted = admitted;
}

abbrev assigned_to_second : System Fair
assigned_to_second = waiting_with (record { free = 0; queue = []; assigned = 7 ∷ [] }) 0

abbrev stopped : System Fair
stopped = record assigned_to_second {
  lifecycle = record { shutting_down = true; requests_cancelled = false };
}

first : Step tokio (initial tokio fresh) (serving_one 1 0)
unfolding enter take_free
first = arrive (initial tokio fresh) 5 0

second : Step tokio (serving_one 1 0) (serving_one 0 1)
unfolding finalize
second = finish (serving_one 1 0) 5 0 (omega arith)

third : Step tokio (serving_one 0 1) (waiting_with taken 1)
unfolding enter take_free
third = arrive (serving_one 0 1) 5 1

fourth :
    Step tokio
      (waiting_with taken 1)
      (waiting_with (record { free = 0; queue = 7 ∷ []; assigned = [] }) 1)
unfolding poll_wait shutdown_started has acquire_first
fourth = poll (waiting_with taken 1) 7 5 1 true false (omega arith) cc

fifth :
    Step tokio
      (waiting_with (record { free = 0; queue = 7 ∷ []; assigned = [] }) 1)
      assigned_to_second
unfolding release_admitted assign
fifth =
    drop_admitted (waiting_with (record { free = 0; queue = 7 ∷ []; assigned = [] }) 1)
      (omega arith)

run : Steps tokio (initial tokio fresh) assigned_to_second
run = next first (next second (next third (next fourth (next fifth (stop assigned_to_second)))))

Steps-IsBalanced_example : IsBalanced tokio tokio-Accounting 1 assigned_to_second
Steps-IsBalanced_example = Steps-IsBalanced tokio tokio-Accounting 9 1 new_test run

third_request_test :
    (enter tokio assigned_to_second.lifecycle 5 2 assigned_to_second.admission).0 ≡ refused
unfolding enter take_free
third_request_test = refl

enter-refused_iff_example :
    ((enter tokio assigned_to_second.lifecycle 5 2 assigned_to_second.admission).0 ≡ refused) ↔ (
      (assigned_to_second.lifecycle.shutting_down ≡ false)
      × (2 < 5)
      × (tokio-Accounting.assigned assigned_to_second.admission.permits + 0 + 0 ≡ 1)
      × (1 ≡ waiter_slots 1))
enter-refused_iff_example =
    enter-refused_iff tokio tokio-Accounting 1 5 2 assigned_to_second Steps-IsBalanced_example

late :
    Step tokio stopped
      (record stopped { admission = record stopped.admission { abandoned_total = 1 } })
unfolding enter
late = arrive stopped 5 2

Steps-after_shutdown_example : (true ≡ true) × (stopped.admitted ≤ stopped.admitted)
Steps-after_shutdown_example = Steps-after_shutdown tokio (next late (stop _)) refl

-- A world of one free permit and the number of permits that the request holds.
abbrev counted : Semaphore (Bool × ℕ)
counted = record {
  signals = record { is_cancelled = λ w. (false, w); now = λ w. (3, w) };
  try_acquire = λ (free, n). (free, (false, if free then n + 1 else n));
  acquire_until = λ deadline w. (false, w);
  drop_permit = λ (free, n). (true, n - 1);
  enter_use = λ w. w;
  leave_use = λ w. w;
  count_saturated = λ w. w;
  count_unavailable = λ w. w;
}

abbrev held : Bool × ℕ → ℕ
held w = w.1

counted-Accounts : Accounts counted held
counted-Accounts = record {
  is_cancelled = λ w. refl;
  now = λ w. refl;
  try_acquire = λ w. refl;
  acquire_until = λ deadline w. refl;
  drop_permit = λ w. refl;
  enter_use = λ w. refl;
  leave_use = λ w. refl;
  count_saturated = λ w. refl;
  count_unavailable = λ w. refl;
}

abbrev context : SynchronizationContext
context = record { deadline = 5 }

acquire-held_example :
    (held (acquire counted context (true, 0)).1
      ≡ after counted held counted-Accounts (acquire counted context (true, 0)).0 0)
    × ((acquire counted context (true, 0)).0 ≡ ok tt
        → held (release counted (acquire counted context (true, 0)).1) ≡ 0)
acquire-held_example = acquire-held counted held counted-Accounts context (true, 0)
