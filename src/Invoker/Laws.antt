-- ===== src/Invoker/Laws.antt =====
-- How a job ends.
use triggerlane.Common.{
  ℕ, ◌+◌, ◌%◌, ◌^◌, ◌<◌, Bool, true, false, Option, some, List, [], ◌∷◌, Result, ok, err, ◌≡◌, ◌↔◌,
  refl, arith, if◌then◌else◌, any, String, ap, ltb,
}
use triggerlane.Invoker.{
  Reservation, Broker, success, retryable_failure, terminal_failure, BoundedInvocation, completed,
  timed_out, heartbeat_failed, ProcessOutcome, retried, acked, failed, stale_resolution, Branch,
  finished, deadline, heartbeat, InvokerConfig, after_extend, go_on, run_rounds, run_bounded,
  resolve_as, resolving, retry_or_fail, resolve, process_reservation, resolve_ended,
}

-- Whether a branch ends the invocation by itself.
abbrev pub is_end : Branch → Bool
is_end (finished result) = true
is_end deadline = true
is_end heartbeat = false

-- Whether a run may be tried again.
abbrev pub is_retryable : BoundedInvocation → Bool
is_retryable (completed (retryable_failure error)) = true
is_retryable timed_out = true
is_retryable _ = false

module _ (B : Broker) where
  -- An error that says that the reservation is stale is not reported.
  abbrev pub NotStale : Result ProcessOutcome B.Error → Type 0
  NotStale (ok outcome) = Unit {0}
  NotStale (err error) = B.is_stale error ≡ false

  run_rounds_ends :
      (receipt : B.Receipt) (enabled : Bool) (branches : List Branch) (s : B.State)
      → any is_end branches ≡ true
      → (b : BoundedInvocation) × ((run_rounds B receipt enabled branches s).0 ≡ some b)
  unfolding run_rounds
  run_rounds_ends receipt enabled [] s h = ground arith
  run_rounds_ends receipt enabled (finished result ∷ rest) s h = (completed result, refl)
  run_rounds_ends receipt enabled (deadline ∷ rest) s h = (timed_out, refl)
  run_rounds_ends receipt false (heartbeat ∷ rest) s h = run_rounds_ends receipt false rest s h
  run_rounds_ends receipt true (heartbeat ∷ rest) s h =
      go_on_ends (after_extend B (B.extend receipt s).0) _ (B.extend receipt s).1
        (λ enabled. run_rounds_ends receipt enabled rest (B.extend receipt s).1 h)
    where
      go_on_ends :
          (next : Result Bool String) (rounds : Bool → B.State → Option BoundedInvocation × B.State)
          (t : B.State)
          → ((enabled : Bool) → (b : BoundedInvocation) × ((rounds enabled t).0 ≡ some b))
          → (b : BoundedInvocation) × ((go_on B next rounds t).0 ≡ some b)
      go_on_ends (ok enabled) rounds t ih = ih enabled
      go_on_ends (err error) rounds t ih = (heartbeat_failed error, refl)

  resolve_as-NotStale :
      (outcome : ProcessOutcome) (answer : Result (Unit {0}) B.Error)
      → NotStale (resolve_as B outcome answer)
  unfolding resolve_as
  resolve_as-NotStale outcome (ok u) = tt
  resolve_as-NotStale outcome (err error) = by_stale (B.is_stale error) refl
    where
      by_stale :
          (stale : Bool)
          → B.is_stale error ≡ stale
          → NotStale (if stale then ok stale_resolution else err error)
      by_stale true e = tt
      by_stale false e = e

  module _ (config : InvokerConfig B) where
    retry-NotStale :
        (reservation : Reservation B.JobId B.Receipt) (error : String) (s : B.State)
        → NotStale (retry_or_fail B config reservation error s).0
    unfolding retry_or_fail
    retry-NotStale reservation error s =
        by_test
          (ltb ((reservation.envelope.attempts + 1) % 2 ^ 32) reservation.envelope.max_attempts)
      where
        by_test :
            (left : Bool)
            → NotStale
                ((if left
                    then resolving B
                        (retried (B.delay_for config.retry_policy reservation.envelope.attempts))
                        (B.retry reservation.receipt
                          (B.delay_for config.retry_policy reservation.envelope.attempts))
                    else resolving B (failed error) (B.fail reservation.receipt error))
                  s).0
        by_test true = resolve_as-NotStale _ _
        by_test false = resolve_as-NotStale _ _

    resolve-NotStale :
        (reservation : Reservation B.JobId B.Receipt) (b : BoundedInvocation) (s : B.State)
        → NotStale (resolve B config reservation b s).0
    unfolding resolve
    resolve-NotStale reservation (completed success) s = resolve_as-NotStale acked _
    resolve-NotStale reservation (completed (retryable_failure error)) s =
        retry-NotStale reservation error s
    resolve-NotStale reservation (completed (terminal_failure error)) s =
        resolve_as-NotStale (failed error) _
    resolve-NotStale reservation timed_out s = retry-NotStale reservation "invocation timed out" s
    resolve-NotStale reservation (heartbeat_failed error) s = resolve_as-NotStale (failed error) _

    -- If the invocation finishes or the deadline passes, whatever the heartbeats before it come to,
    -- the processing of a reservation returns, and an error that it reports is none about a stale
    -- reservation.
    pub process_reservation_total :
        (reservation : Reservation B.JobId B.Receipt) (branches : List Branch) (s : B.State)
        → any is_end branches ≡ true
        → (out : Result ProcessOutcome B.Error × B.State) × (process_reservation B config
              reservation branches s
            ≡ some out)
          × NotStale out.0
    unfolding process_reservation run_bounded
    process_reservation_total reservation branches s h =
        let (b, ended) = run_rounds_ends reservation.receipt true branches s h in
        let t = (run_rounds B reservation.receipt true branches s).1 in
        (
          resolve B config reservation b t,
          ap (λ invocation. resolve_ended B config reservation invocation t) ended,
          resolve-NotStale reservation b t,
        )

    -- Where the count of attempts does not overflow, a job is retried, and that after this delay,
    -- exactly if its run failed in a way that may be tried again or timed out, attempts are left,
    -- the policy has this delay for them, and the broker takes the retry.
    pub resolve-retried_iff :
        (reservation : Reservation B.JobId B.Receipt) (b : BoundedInvocation) (s : B.State)
        (delay : ℕ)
        → reservation.envelope.attempts + 1 < 2 ^ 32
        → ((resolve B config reservation b s).0 ≡ ok (retried delay)) ↔ (
            (is_retryable b ≡ true)
            × (reservation.envelope.attempts + 1 < reservation.envelope.max_attempts)
            × (B.delay_for config.retry_policy reservation.envelope.attempts ≡ delay)
            × ((B.retry reservation.receipt delay s).0 ≡ ok tt))
    unfolding resolve retry_or_fail resolve_as
    resolve-retried_iff reservation (completed success) s delay fits =
        (λ h. ground arith, λ h. ground arith)
    resolve-retried_iff reservation (completed (retryable_failure error)) s delay fits =
        (λ h. ground arith, λ h. ground arith)
    resolve-retried_iff reservation (completed (terminal_failure error)) s delay fits =
        (λ h. ground arith, λ h. ground arith)
    resolve-retried_iff reservation timed_out s delay fits = (λ h. ground arith, λ h. ground arith)
    resolve-retried_iff reservation (heartbeat_failed error) s delay fits =
        (λ h. ground arith, λ h. ground arith)
