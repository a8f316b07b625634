-- ===== src/Runtime/Capacity/Laws.antt =====
-- src/runtime/capacity.rs: no permit is lost, and none is kept by a failed acquisition.
use permissionsync.Prelude.{
  ℕ, ◌+◌, ◌-◌, Bool, true, false, ◌≡◌, inl, inr, Bool-cases, ap, ◌∙◌, Result, ok, err, arith,
  if◌then◌else◌,
}
use permissionsync.Domain.Context.{SynchronizationContext, is_cancelled_or_expired}
use permissionsync.Orchestration.{SynchronizationCapacityError}
use permissionsync.Runtime.Capacity.{
  Semaphore, confirmed, confirm, waited, tried, available, acquire, release,
}

-- What the semaphore does with the permits that one request holds: an acquisition takes one if it
-- succeeds, a drop gives one back, and nothing else touches them.
pub record Accounts {W : Type 0} (p : Semaphore W) (held : W → ℕ) : Type 0 where
  pub is_cancelled : (w : W) → held (p.signals.is_cancelled w).1 ≡ held w
  pub now : (w : W) → held (p.signals.now w).1 ≡ held w
  pub try_acquire :
      (w : W) → held (p.try_acquire w).1 ≡ (if (p.try_acquire w).0 then held w + 1 else held w)
  pub acquire_until :
      (deadline : ℕ) (w : W)
      → held (p.acquire_until deadline w).1
        ≡ (if (p.acquire_until deadline w).0 then held w + 1 else held w)
  pub drop_permit : (w : W) → held (p.drop_permit w) ≡ held w - 1
  pub enter_use : (w : W) → held (p.enter_use w) ≡ held w
  pub leave_use : (w : W) → held (p.leave_use w) ≡ held w
  pub count_saturated : (w : W) → held (p.count_saturated w) ≡ held w
  pub count_unavailable : (w : W) → held (p.count_unavailable w) ≡ held w

module _ {W : Type 0} (p : Semaphore W) (held : W → ℕ) (accounts : Accounts p held) where
  -- The permits after an acquisition: one more exactly on success.
  abbrev pub after : Result SynchronizationCapacityError (Unit {0}) → ℕ → ℕ
  after (ok _) n = n + 1
  after (err _) n = n

  checked-held :
      (context : SynchronizationContext) (w : W)
      → held (is_cancelled_or_expired p.signals context w).1 ≡ held w
  unfolding is_cancelled_or_expired
  checked-held context w = elim (Bool-cases (p.signals.is_cancelled w).0) [
    | inl h ↦ rw h (accounts.is_cancelled w)
    | inr h ↦ rw h (accounts.now (p.signals.is_cancelled w).1 ∙ accounts.is_cancelled w)
  ]

  confirmed-held :
      (r : Bool × W) (n : ℕ) → held r.1 ≡ n + 1 → held (confirmed p r).1 ≡ after (confirmed p r).0 n
  confirmed-held (true, w) n h =
      omega (arith, accounts.count_unavailable (p.drop_permit w), accounts.drop_permit w)
  confirmed-held (false, w) n h = omega (arith, accounts.enter_use w)

  confirm-held :
      (context : SynchronizationContext) (w : W) (n : ℕ)
      → held w ≡ n + 1
      → held (confirm p context w).1 ≡ after (confirm p context w).0 n
  unfolding confirm
  confirm-held context w n h =
      confirmed-held (is_cancelled_or_expired p.signals context w) n (checked-held context w ∙ h)

  waited-held :
      (context : SynchronizationContext) (r : Bool × W) (n : ℕ)
      → held r.1 ≡ (if r.0 then n + 1 else n)
      → held (waited p context r).1 ≡ after (waited p context r).0 n
  waited-held context (true, w) n h = confirm-held context w n h
  waited-held context (false, w) n h = accounts.count_unavailable w ∙ h

  tried-held :
      (context : SynchronizationContext) (r : Bool × W) (n : ℕ)
      → held r.1 ≡ (if r.0 then n + 1 else n)
      → held (tried p context r).1 ≡ after (tried p context r).0 n
  tried-held context (true, w) n h = confirm-held context w n h
  tried-held context (false, w) n h =
      waited-held context (p.acquire_until context.deadline (p.count_saturated w)) n (
        accounts.acquire_until context.deadline (p.count_saturated w)
        ∙ ap (λ m. if (p.acquire_until context.deadline (p.count_saturated w)).0 then m + 1 else m)
            (accounts.count_saturated w ∙ h))

  available-held :
      (context : SynchronizationContext) (r : Bool × W) (n : ℕ)
      → held r.1 ≡ n
      → held (available p context r).1 ≡ after (available p context r).0 n
  available-held context (true, w) n h = accounts.count_unavailable w ∙ h
  available-held context (false, w) n h =
      tried-held context (p.try_acquire w) n
        (accounts.try_acquire w ∙ ap (λ m. if (p.try_acquire w).0 then m + 1 else m) h)

  -- If the semaphore keeps account of its permits, an acquisition that succeeds holds exactly one
  -- permit more, one that fails on any branch holds none more, and a release after a successful
  -- acquisition restores the number held before it.
  pub acquire-held :
      (context : SynchronizationContext) (w : W)
      → (held (acquire p context w).1 ≡ after (acquire p context w).0 (held w))
        × ((acquire p context w).0 ≡ ok tt → held (release p (acquire p context w).1) ≡ held w)
  unfolding acquire release
  acquire-held context w =
      let (r, w') = acquire p context w in
      let balance : held w' ≡ after r (held w) =
        available-held context (is_cancelled_or_expired p.signals context w) (held w)
          (checked-held context w) in
      (
        balance,
        λ e.
            let more : held w' ≡ held w + 1 = balance ∙ ap (λ r. after r (held w)) e in
            omega (arith, accounts.drop_permit (p.leave_use w'), accounts.leave_use w'),
      )
