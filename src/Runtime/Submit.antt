-- ===== src/Runtime/Submit.antt =====
-- `TriggerRuntime::enqueue_with_retries`.
pub mod Laws
use triggerlane.Common.{
  ℕ, zero, suc, String, List, Action, Result, ok, err, Option, none, some, max, ◌==◌, nat_eq,
  if◌then◌else◌, set_insert, string_eq, ◌++◌, [], ◌∷◌, ltb,
}
use triggerlane.Trigger.{WorklaneJob}
use triggerlane.DeadTriggerQueue.{DeadTriggerQueue}
use triggerlane.Runtime.{Worklane, RuntimeOptions, Runtime, Halt, panicked, on_broker}
use triggerlane.Runtime.Backoff.{submission_backoff_delay}

module _ (W : Worklane) (Q : DeadTriggerQueue) where
  -- A submission that is over: the broker's answer, or the panic of the `expect`.
  abbrev pub Submission : Type 0
  Submission = Action (Runtime W Q) Halt (Result W.JobId W.Error)

  -- The sleep before a retry; `attempt` counts from 0.
  unfoldable pub back_off : RuntimeOptions → ℕ → Runtime W Q → Runtime W Q
  back_off options attempt s =
      if ltb 0 attempt
      then (let delay = submission_backoff_delay attempt options.submission_backoff in
          if delay == 0 then s else record s { slept = s.slept ++ delay ∷ [] })
      else s

  -- `Err(last_error.expect(..))`
  unfoldable pub give_up : Option W.Error → Submission
  give_up none s = (err panicked, s)
  give_up (some error) s = (ok (err error), s)

  -- `return` at the broker's `Ok`, on with the loop at its `Err`.
  abbrev pub unless_ok : Result W.JobId W.Error → (W.Error → Submission) → Submission
  unless_ok (ok job_id) again s = (ok (ok job_id), s)
  unless_ok (err error) again s = again error s

  -- The `for` loop, with the attempts that are left, the index of the next one and `last_error`.
  unfoldable pub attempts_from :
      RuntimeOptions → W.Lane → WorklaneJob → String → ℕ → ℕ → Option W.Error → Submission
  unfolding give_up back_off
  attempts_from options lane job unique_key zero attempt last_error s = give_up last_error s
  attempts_from options lane job unique_key (suc left) attempt last_error s =
      let new_job =
        W.with_unique_key (W.new_job lane job.kind job.payload job.max_attempts) unique_key in
      let (answer, s1) = on_broker (W.enqueue new_job) (back_off options attempt s) in
      unless_ok answer
        (λ error. attempts_from options lane job unique_key left (suc attempt) (some error)) s1

  unfoldable pub in_lane :
      RuntimeOptions → WorklaneJob → String → Result W.Lane W.LaneError → Submission
  in_lane options job unique_key (err error) s = (ok (err (W.invalid_lane job.lane error)), s)
  in_lane options job unique_key (ok lane) s =
      attempts_from options lane job unique_key (max options.max_submission_attempts 1) 0 none
        (record s { observed_lanes = set_insert job.lane s.observed_lanes })

  unfoldable pub enqueue_with_retries : RuntimeOptions → WorklaneJob → String → Submission
  unfolding in_lane
  enqueue_with_retries options job unique_key =
      in_lane options job unique_key (W.lane_try_from job.lane)
