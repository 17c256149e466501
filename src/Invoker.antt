-- ===== src/Invoker.antt =====
-- examples/invoker/src/lib.rs: a worker that runs jobs through an HTTP endpoint or a subprocess, with
-- a deadline and heartbeats. `worklane-core`'s broker is the parameter `Broker`; sending a request
-- and running a process are parameters as well. Durations are nanoseconds.
pub mod Endpoints
pub mod Laws
use triggerlane.Common.{
  ℕ, ◌+◌, ◌*◌, ◌/◌, ◌%◌, ◌^◌, max, String, Bool, true, false, Option, none, some, List, [], ◌∷◌,
  map, Result, ok, err, Action, pure, lift, ◌>>=◌, ltb, if◌then◌else◌,
}

pub record JobEnvelope (JobId : Type 0) : Type 0 where
  pub id : JobId
  pub lane : String
  pub kind : String
  pub payload : List ℕ
  pub attempts : ℕ
  pub max_attempts : ℕ

pub record Reservation (JobId Receipt : Type 0) : Type 0 where
  pub receipt : Receipt
  pub envelope : JobEnvelope JobId
  pub lease : ℕ

pub record DeadLetter (JobId : Type 0) : Type 0 where
  pub envelope : JobEnvelope JobId
  pub error : String

-- What the worker uses of a broker. `is_stale` tells the error `StaleReservation` from the others.
pub record Broker : Type 1 where
  pub State : Type 0
  pub Error : Type 0
  pub JobId : Type 0
  pub Receipt : Type 0
  pub Lane : Type 0
  pub RetryPolicy : Type 0
  pub is_stale : Error → Bool
  pub show_error : Error → String
  pub delay_for : RetryPolicy → ℕ → ℕ
  pub reserve : Lane → Action State Error (Option (Reservation JobId Receipt))
  pub extend : Receipt → Action State Error (Unit {0})
  pub ack : Receipt → Action State Error (Unit {0})
  pub retry : Receipt → ℕ → Action State Error (Unit {0})
  pub fail : Receipt → String → Action State Error (Unit {0})
  pub read_dead_letters : Lane → ℕ → Action State Error (List (DeadLetter JobId))
  pub requeue : JobId → Action State Error (Unit {0})

pub record InvocationJob (JobId : Type 0) : Type 0 where
  pub id : JobId
  pub kind : String
  pub payload : List ℕ
  pub attempts : ℕ
  pub max_attempts : ℕ

unfoldable pub from_reservation :
    {JobId Receipt : Type 0} → Reservation JobId Receipt → InvocationJob JobId
from_reservation reservation = record {
  id = reservation.envelope.id;
  kind = reservation.envelope.kind;
  payload = reservation.envelope.payload;
  attempts = reservation.envelope.attempts;
  max_attempts = reservation.envelope.max_attempts;
}

pub record DeadInvocationJob (JobId : Type 0) : Type 0 where
  pub id : JobId
  pub lane : String
  pub kind : String
  pub payload : List ℕ
  pub attempts : ℕ
  pub max_attempts : ℕ
  pub error : String

unfoldable pub from_dead_letter : {JobId : Type 0} → DeadLetter JobId → DeadInvocationJob JobId
from_dead_letter dead_letter = record {
  id = dead_letter.envelope.id;
  lane = dead_letter.envelope.lane;
  kind = dead_letter.envelope.kind;
  payload = dead_letter.envelope.payload;
  attempts = dead_letter.envelope.attempts;
  max_attempts = dead_letter.envelope.max_attempts;
  error = dead_letter.error;
}

pub data InvocationResult : Type 0 where
  success : InvocationResult
  retryable_failure terminal_failure : String → InvocationResult

pub data BoundedInvocation : Type 0 where
  completed : InvocationResult → BoundedInvocation
  timed_out : BoundedInvocation
  heartbeat_failed : String → BoundedInvocation

pub data ProcessOutcome : Type 0 where
  idle acked stale_resolution : ProcessOutcome
  retried : ℕ → ProcessOutcome
  failed : String → ProcessOutcome

unfoldable pub heartbeat_delay : ℕ → ℕ
heartbeat_delay lease = max (lease / 2) (10 ^ 6)

-- The branch that a `select!` of `run_bounded` takes.
pub data Branch : Type 0 where
  finished : InvocationResult → Branch
  deadline heartbeat : Branch

module _ (B : Broker) where
  pub record InvokerConfig : Type 0 where
    pub lane : B.Lane
    pub deadline : ℕ
    pub retry_policy : B.RetryPolicy

  -- A round in which the heartbeat is due: whether to go on with heartbeats, or the error that ends
  -- the run.
  abbrev pub after_extend : Result (Unit {0}) B.Error → Result Bool String
  after_extend (ok u) = ok true
  after_extend (err error) = if B.is_stale error then ok false else err (B.show_error error)

  abbrev pub go_on :
      Result Bool String
      → (Bool → B.State → Option BoundedInvocation × B.State)
      → B.State
      → Option BoundedInvocation × B.State
  go_on (ok enabled) rounds s = rounds enabled s
  go_on (err error) rounds s = (some (heartbeat_failed error), s)

  -- The loop of `run_bounded`, on the branches that are taken; none if no branch has ended it. While
  -- the heartbeat is disabled its branch is not there, and a heartbeat that is due passes.
  unfoldable pub run_rounds :
      B.Receipt → Bool → List Branch → B.State → Option BoundedInvocation × B.State
  run_rounds receipt enabled [] s = (none, s)
  run_rounds receipt enabled (finished result ∷ rest) s = (some (completed result), s)
  run_rounds receipt enabled (deadline ∷ rest) s = (some timed_out, s)
  run_rounds receipt false (heartbeat ∷ rest) s = run_rounds receipt false rest s
  run_rounds receipt true (heartbeat ∷ rest) s =
      let (answer, t) = B.extend receipt s in
      go_on (after_extend answer) (λ enabled. run_rounds receipt enabled rest) t

  unfoldable pub run_bounded :
      Reservation B.JobId B.Receipt → List Branch → B.State → Option BoundedInvocation × B.State
  unfolding run_rounds
  run_bounded reservation = run_rounds reservation.receipt true

  -- `resolve_ack`, `resolve_retry` and `resolve_fail`, by the outcome of a call that succeeds.
  unfoldable pub resolve_as :
      ProcessOutcome → Result (Unit {0}) B.Error → Result ProcessOutcome B.Error
  resolve_as outcome (ok u) = ok outcome
  resolve_as outcome (err error) = if B.is_stale error then ok stale_resolution else err error

  abbrev pub resolving :
      ProcessOutcome → Action B.State B.Error (Unit {0}) → Action B.State B.Error ProcessOutcome
  resolving outcome call s = let (answer, t) = call s in (resolve_as outcome answer, t)

  module _ (config : InvokerConfig) where
    -- The sum of attempts wraps around.
    unfoldable pub retry_or_fail :
        Reservation B.JobId B.Receipt → String → Action B.State B.Error ProcessOutcome
    unfolding resolve_as
    retry_or_fail reservation error =
        let completed_attempts = (reservation.envelope.attempts + 1) % 2 ^ 32 in
        let delay = B.delay_for config.retry_policy reservation.envelope.attempts in
        if ltb completed_attempts reservation.envelope.max_attempts
        then resolving (retried delay) (B.retry reservation.receipt delay)
        else resolving (failed error) (B.fail reservation.receipt error)

    unfoldable pub resolve :
        Reservation B.JobId B.Receipt → BoundedInvocation → Action B.State B.Error ProcessOutcome
    unfolding retry_or_fail resolve_as
    resolve reservation (completed success) = resolving acked (B.ack reservation.receipt)
    resolve reservation (completed (retryable_failure error)) = retry_or_fail reservation error
    resolve reservation timed_out = retry_or_fail reservation "invocation timed out"
    resolve reservation (completed (terminal_failure error)) =
        resolving (failed error) (B.fail reservation.receipt error)
    resolve reservation (heartbeat_failed error) =
        resolving (failed error) (B.fail reservation.receipt error)

    abbrev pub resolve_ended :
        Reservation B.JobId B.Receipt
        → Option BoundedInvocation
        → B.State
        → Option (Result ProcessOutcome B.Error × B.State)
    resolve_ended reservation none s = none
    resolve_ended reservation (some invocation) s = some (resolve reservation invocation s)

    -- None if the branches do not end the invocation.
    unfoldable pub process_reservation :
        Reservation B.JobId B.Receipt
        → List Branch
        → B.State
        → Option (Result ProcessOutcome B.Error × B.State)
    unfolding run_bounded resolve
    process_reservation reservation branches s =
        let (invocation, t) = run_bounded reservation branches s in
        resolve_ended reservation invocation t

    abbrev pub process_reserved :
        List Branch
        → Result (Option (Reservation B.JobId B.Receipt)) B.Error
        → B.State
        → Option (Result ProcessOutcome B.Error × B.State)
    process_reserved branches (err error) s = some (err error, s)
    process_reserved branches (ok none) s = some (ok idle, s)
    process_reserved branches (ok (some reservation)) s = process_reservation reservation branches s

    unfoldable pub process_once :
        List Branch → B.State → Option (Result ProcessOutcome B.Error × B.State)
    unfolding process_reservation
    process_once branches s =
        let (answer, t) = B.reserve config.lane s in process_reserved branches answer t

  unfoldable pub list_dead_letters :
      B.Lane → ℕ → Action B.State B.Error (List (DeadInvocationJob B.JobId))
  unfolding from_dead_letter
  list_dead_letters lane limit =
      B.read_dead_letters lane limit >>= λ dead_letters. pure (map from_dead_letter dead_letters)

  unfoldable pub requeue_dead_letter : B.JobId → Action B.State B.Error (Unit {0})
  requeue_dead_letter id = B.requeue id
