-- ===== src/Runtime/Submit/Laws.antt =====
-- What a submission with retries does to the broker, how long it waits, and that it never panics.
use triggerlane.Common.{
  ℕ, zero, suc, String, List, [], ◌∷◌, ◌++◌, Result, ok, err, Option, none, some, max, ◌≡◌, ◌≤◌,
  ◌-◌, ap, ◌∙◌, arith, set_insert, string_eq, ◌==◌, nat_eq, if◌then◌else◌, append-nil, append_assoc,
  refl,
}
use triggerlane.Trigger.{WorklaneJob}
use triggerlane.DeadTriggerQueue.{DeadTriggerQueue}
use triggerlane.Runtime.{Worklane, RuntimeOptions, Runtime, Halt}
use triggerlane.Runtime.Backoff.{submission_backoff_delay, delay_bounds}
use triggerlane.Runtime.Submit.{
  unless_ok, attempts_from, enqueue_with_retries, back_off, in_lane, give_up,
}

-- The delays before the attempts from `attempt` on; a delay of zero is not slept.
abbrev pub naps : RuntimeOptions → ℕ → ℕ → List ℕ
naps options attempt zero = []
naps options attempt (suc n) =
    let rest = naps options (suc attempt) n in
    if submission_backoff_delay attempt options.submission_backoff == 0
    then rest
    else submission_backoff_delay attempt options.submission_backoff ∷ rest

naps-suc :
    (options : RuntimeOptions) (attempt n : ℕ)
    → naps options attempt (suc n) ≡ naps options attempt 1 ++ naps options (suc attempt) n
naps-suc options attempt n = ground arith

-- What calls of the broker came to: how many, the last answer, and the broker after them.
pub record Tried (W : Worklane) : Type 0 where
  pub calls : ℕ
  pub answer : Result W.JobId W.Error
  pub broker : W.State

module _ (W : Worklane) where
  abbrev pub unless_accepted : Result W.JobId W.Error → (W.State → Tried W) → W.State → Tried W
  unless_accepted (ok job_id) again b = record { calls = 1; answer = ok job_id; broker = b }
  unless_accepted (err error) again b = let t = again b in record t { calls = suc t.calls }

  -- The first success out of `suc more` calls of the broker, or else the last error.
  unfoldable pub first_success : W.NewJob → ℕ → W.State → Tried W
  first_success new_job zero b =
      let (answer, b') = W.enqueue new_job b in record { calls = 1; answer = answer; broker = b' }
  first_success new_job (suc more) b =
      let (answer, b') = W.enqueue new_job b in
      unless_accepted answer (first_success new_job more) b'

  first_success_bound :
      (new_job : W.NewJob) (more : ℕ) (b : W.State)
      → (first_success new_job more b).calls ≤ suc more
  unfolding first_success
  first_success_bound new_job zero b = ground arith
  first_success_bound new_job (suc more) b =
      ground (arith, first_success_bound new_job more (W.enqueue new_job b).1)

  first_success_exhausted :
      (new_job : W.NewJob) (more : ℕ) (b : W.State) (error : W.Error)
      → (first_success new_job more b).answer ≡ err error
      → (first_success new_job more b).calls ≡ suc more
  unfolding first_success
  first_success_exhausted new_job zero b error h = ground arith
  first_success_exhausted new_job (suc more) b error h =
      ground (arith, first_success_exhausted new_job more (W.enqueue new_job b).1 error)

  module _ (Q : DeadTriggerQueue) (options : RuntimeOptions) (lane : W.Lane) (job : WorklaneJob)
      (unique_key : String) where
    abbrev pub request : W.NewJob
    request = W.with_unique_key (W.new_job lane job.kind job.payload job.max_attempts) unique_key

    abbrev pub after_tries :
        Runtime W Q → ℕ → Tried W → Result (Result W.JobId W.Error) Halt × Runtime W Q
    after_tries s attempt t = (
      ok t.answer,
      record s { broker = t.broker; slept = s.slept ++ naps options attempt t.calls },
    )

    back_off_lem :
        (attempt : ℕ) (s : Runtime W Q)
        → back_off W Q options attempt s ≡ record s { slept = s.slept ++ naps options attempt 1 }
    unfolding back_off
    back_off_lem zero s =
        ground (arith, append-nil s.slept, (delay_bounds 0 options.submission_backoff).1)
    back_off_lem (suc attempt) s = ground (arith, append-nil s.slept)

    last_answer :
        (answer : Result W.JobId W.Error) (s : Runtime W Q)
        → unless_ok W Q answer (λ error. give_up W Q (some error)) s ≡ (ok answer, s)
    unfolding give_up
    last_answer (ok job_id) s = refl
    last_answer (err error) s = refl

    after_answer :
        (more attempt : ℕ) (s : Runtime W Q) (answer : Result W.JobId W.Error) (b : W.State)
        → ((last : Option W.Error) (t : Runtime W Q)
            → attempts_from W Q options lane job unique_key (suc more) (suc attempt) last t
              ≡ after_tries t (suc attempt) (first_success request more t.broker))
        → unless_ok W Q answer
            (λ error.
              attempts_from W Q options lane job unique_key (suc more) (suc attempt) (some error))
            (record s { broker = b; slept = s.slept ++ naps options attempt 1 })
          ≡ after_tries s attempt (unless_accepted answer (first_success request more) b)
    after_answer more attempt s (ok job_id) b ih = refl
    after_answer more attempt s (err error) b ih = rw (
      ih (some error),
      naps-suc options attempt (first_success request more b).calls,
      append_assoc,
    )

    attempts_lem :
        (more attempt : ℕ) (last : Option W.Error) (s : Runtime W Q)
        → attempts_from W Q options lane job unique_key (suc more) attempt last s
          ≡ after_tries s attempt (first_success request more s.broker)
    unfolding attempts_from first_success give_up
    attempts_lem zero attempt last s = rw (back_off_lem attempt s, last_answer _ _)
    attempts_lem (suc more) attempt last s =
        rw (
          back_off_lem attempt s,
          after_answer more attempt s _ _ (attempts_lem more (suc attempt)),
        )

  abbrev pub observe : {Q : DeadTriggerQueue} → String → Runtime W Q → Runtime W Q
  observe lane s = record s { observed_lanes = set_insert lane s.observed_lanes }

  -- How many attempts are made beyond the first.
  abbrev pub retries : RuntimeOptions → ℕ
  retries options = options.max_submission_attempts - 1

  max-retries :
      (options : RuntimeOptions) → max options.max_submission_attempts 1 ≡ suc (retries options)
  max-retries options = ground arith

  module _ (Q : DeadTriggerQueue) (options : RuntimeOptions) (job : WorklaneJob)
      (unique_key : String) (s : Runtime W Q) where
    in_lane_lem :
        (lane : W.Lane)
        → in_lane W Q options job unique_key (ok lane) s
          ≡ after_tries Q options lane job unique_key
              (observe job.lane s)
              0
              (first_success (request Q options lane job unique_key) (retries options) s.broker)
    unfolding in_lane
    in_lane_lem lane =
        ap (λ n. attempts_from W Q options lane job unique_key n 0 none (observe job.lane s))
          (max-retries options)
        ∙ attempts_lem Q options lane job unique_key (retries options) 0 none _

    in_lane_total :
        (r : Result W.Lane W.LaneError)
        → (answer : Result W.JobId W.Error) × ((in_lane W Q options job unique_key r s).0
            ≡ ok answer)
    unfolding in_lane
    in_lane_total (ok lane) = (_, ap (λ out. out.0) (in_lane_lem lane))
    in_lane_total (err error) = (_, refl)

    -- A submission to a valid lane calls the broker with the same job until the first success, at
    -- most as often as the options allow (and they allow one call at least); it sleeps the backoff
    -- delays before the calls, remembers the lane, and changes nothing else.
    pub enqueue_with_retries_correct :
        (lane : W.Lane)
        → W.lane_try_from job.lane ≡ ok lane
        → (enqueue_with_retries W Q options job unique_key s
            ≡ after_tries Q options lane job unique_key
                (observe job.lane s)
                0
                (first_success (request Q options lane job unique_key) (retries options) s.broker))
          × ((first_success
                (request Q options lane job unique_key)
                (retries options)
                s.broker).calls
              ≤ max options.max_submission_attempts 1)
    unfolding enqueue_with_retries
    enqueue_with_retries_correct lane h =
        (rw (h, in_lane_lem lane), rw (max-retries options) (first_success_bound _ _ _))

    -- When a submission to a valid lane reports an error, the broker was called as often as the
    -- options allow.
    pub enqueue_with_retries_exhausted :
        (lane : W.Lane) (error : W.Error)
        → W.lane_try_from job.lane ≡ ok lane
        → (enqueue_with_retries W Q options job unique_key s).0 ≡ ok (err error)
        → (first_success (request Q options lane job unique_key) (retries options) s.broker).calls
          ≡ max options.max_submission_attempts 1
    enqueue_with_retries_exhausted lane error h k = ground (
      arith,
      max-retries options,
      (enqueue_with_retries_correct lane h).0,
      first_success_exhausted (request Q options lane job unique_key) (retries options) s.broker
          error,
    )

    -- The `expect` on the last error never panics: every submission ends in a job id or an error.
    pub enqueue_with_retries_total :
        (answer : Result W.JobId W.Error) × ((enqueue_with_retries W Q options job unique_key s).0
          ≡ ok answer)
    unfolding enqueue_with_retries
    enqueue_with_retries_total = in_lane_total (W.lane_try_from job.lane)

    in_lane_frame :
        (r : Result W.Lane W.LaneError)
        → ((in_lane W Q options job unique_key r s).1.dead ≡ s.dead)
          × ((in_lane W Q options job unique_key r s).1.traces ≡ s.traces)
    unfolding in_lane
    in_lane_frame (ok lane) =
        (ap (λ out. out.1.dead) (in_lane_lem lane), ap (λ out. out.1.traces) (in_lane_lem lane))
    in_lane_frame (err error) = (refl, refl)

    pub enqueue_with_retries_frame :
        ((enqueue_with_retries W Q options job unique_key s).1.dead ≡ s.dead)
        × ((enqueue_with_retries W Q options job unique_key s).1.traces ≡ s.traces)
    unfolding enqueue_with_retries
    enqueue_with_retries_frame = in_lane_frame (W.lane_try_from job.lane)
