-- ===== src/Tests/Runs.antt =====
-- The runtime at the deployment of the fixtures.
use triggerlane.Common.{
  ◌≡◌, ◌++◌, ◌∷◌, [], List, length, refl, ok, err, arith, suc, string_eq, ℕ_discrete, option_eq,
  none, some, max, ◌≤◌, ◌<◌, min, ◌*◌, ◌^◌,
}
use triggerlane.Common.Int.{pos}
use triggerlane.Jsonl.Read.{IoError, write}
use triggerlane.Registry
use triggerlane.Registry.{matching}
use triggerlane.Trigger
use triggerlane.Trigger.{WorklaneJob}
use triggerlane.Runtime.{returned, storage}
use triggerlane.Runtime.Backoff
use triggerlane.Runtime.Backoff.{
  submission_backoff_delay, max_submission_backoff, delay-eq-min, delay_bounds,
}
use triggerlane.Runtime.Submit
use triggerlane.Runtime.Submit.{enqueue_with_retries}
use triggerlane.Runtime.Submit.Laws.{
  enqueue_with_retries_correct, first_success, after_tries, request, retries, observe,
}
use triggerlane.Runtime.Handle
use triggerlane.Runtime.Handle.{handle, event_identity, Verdict}
use triggerlane.Runtime.Handle.Run.{job_ids, failures, Served, Stopped}
use triggerlane.Runtime.Handle.Laws.{trace, handle_ok, handle_err}
use triggerlane.Runtime.Replay
use triggerlane.Runtime.Replay.{
  ReplayEventReport, preview_range, replay_range, ReplayFilter, ReplayRangeReport,
}
use triggerlane.Runtime.Replay.Laws.{Handled, replay_range-preview_range}
use triggerlane.Runtime.Retry
use triggerlane.Runtime.Retry.{retry_dead_triggers, DeadTriggerRetryReport}
use triggerlane.Runtime.Retry.Loop.{Passed, retry_dead_triggers_ok}
use triggerlane.Runtime.Retry.Laws.{retry_dead_triggers_err}
use triggerlane.Tests.Fixtures.{
  worklane, queue, queue-IsQueue, events, deployment, ping, fresh, show_id, ping_job, with_failures,
  twice, stored_ping, ping_report,
}

handle_ping : (handle worklane (queue 5) show_id deployment ping (fresh 5)).0 ≡ ok ping_report
unfolding string_eq ℕ_discrete Handle.handle Handle.handle_each Handle.handle_one Handle.submit
    Handle.settle Handle.record_dead_trigger Handle.report_on Submit.enqueue_with_retries
    Submit.in_lane Submit.attempts_from Submit.back_off Submit.give_up
    Backoff.submission_backoff_delay Registry.matching Trigger.event_type_trigger
    Trigger.worklane_job_binding Trigger.new_binding Trigger.job_of Trigger.job_payload
handle_ping = refl

handle_ok_example :
    (verdicts : List Verdict) × (length verdicts ≡ length (matching deployment.registry ping))
    × Served worklane
        (queue 5)
        (queue-IsQueue 5)
        deployment
        ping
        (event_identity show_id ping)
        (fresh 5).broker
        (matching deployment.registry ping)
        verdicts
        (handle worklane (queue 5) show_id deployment ping (fresh 5)).1.broker
    × (ping_report.submitted ≡ job_ids verdicts)
    × (ping_report.failed ≡ failures ping (matching deployment.registry ping) verdicts)
    × ((queue 5).all (handle worklane (queue 5) show_id deployment ping (fresh 5)).1.dead
        ≡ (queue 5).all (fresh 5).dead ++ ping_report.failed)
    × ((handle worklane (queue 5) show_id deployment ping (fresh 5)).1.traces
        ≡ (fresh 5).traces
          ++ trace worklane
              (queue 5)
              (queue-IsQueue 5)
              deployment
              ping
              show_id
              (fresh 5)
              ping_report
            ∷ [])
handle_ok_example =
    handle_ok worklane (queue 5) (queue-IsQueue 5) deployment ping show_id (fresh 5) ping_report
      handle_ping

handle_full :
    (handle worklane (queue 0) show_id deployment ping (fresh 0)).0 ≡ err (returned (storage write))
unfolding string_eq ℕ_discrete Handle.handle Handle.handle_each Handle.handle_one Handle.submit
    Handle.settle Handle.record_dead_trigger Handle.report_on Submit.enqueue_with_retries
    Submit.in_lane Submit.attempts_from Submit.back_off Submit.give_up
    Backoff.submission_backoff_delay Registry.matching Trigger.event_type_trigger
    Trigger.worklane_job_binding Trigger.new_binding Trigger.job_of Trigger.job_payload
handle_full = refl

handle_err_example :
    (error : IoError) × (verdicts : List Verdict) × ((returned (storage write))
      ≡ returned (storage error))
    × (length verdicts < length (matching deployment.registry ping))
    × Stopped worklane
        (queue 0)
        (queue-IsQueue 0)
        deployment
        ping
        (event_identity show_id ping)
        error
        (fresh 0).broker
        (matching deployment.registry ping)
        verdicts
        (handle worklane (queue 0) show_id deployment ping (fresh 0)).1
    × ((queue 0).all (handle worklane (queue 0) show_id deployment ping (fresh 0)).1.dead
        ≡ (queue 0).all (fresh 0).dead
          ++ failures ping (matching deployment.registry ping) verdicts)
    × ((handle worklane (queue 0) show_id deployment ping (fresh 0)).1.traces ≡ (fresh 0).traces)
handle_err_example =
    handle_err worklane (queue 0) (queue-IsQueue 0) deployment ping show_id (fresh 0)
      (returned (storage write)) handle_full

lane_valid : worklane.lane_try_from ping_job.lane ≡ ok "lane"
unfolding string_eq
lane_valid = refl

enqueue_with_retries_correct_example :
    (enqueue_with_retries worklane (queue 5) deployment.options ping_job "key:good" (fresh 5)
      ≡ after_tries worklane
          (queue 5)
          deployment.options
          "lane"
          ping_job
          "key:good"
          (observe worklane ping_job.lane (fresh 5))
          0
          (first_success worklane
            (request worklane (queue 5) deployment.options "lane" ping_job "key:good")
            (retries worklane deployment.options)
            (fresh 5).broker))
    × ((first_success worklane
          (request worklane (queue 5) deployment.options "lane" ping_job "key:good")
          (retries worklane deployment.options)
          (fresh 5).broker).calls
        ≤ max deployment.options.max_submission_attempts 1)
enqueue_with_retries_correct_example =
    enqueue_with_retries_correct worklane (queue 5) deployment.options ping_job "key:good" (fresh 5)
      "lane" lane_valid

submit_down :
    (enqueue_with_retries worklane
      (queue 5)
      deployment.options
      ping_job
      "key:good"
      (with_failures 2)).0
    ≡ ok (err "down")
unfolding string_eq ℕ_discrete Handle.handle Handle.handle_each Handle.handle_one Handle.submit
    Handle.settle Handle.record_dead_trigger Handle.report_on Submit.enqueue_with_retries
    Submit.in_lane Submit.attempts_from Submit.back_off Submit.give_up
    Backoff.submission_backoff_delay Registry.matching Trigger.event_type_trigger
    Trigger.worklane_job_binding Trigger.new_binding Trigger.job_of Trigger.job_payload
submit_down = refl

delay-eq-min_example :
    submission_backoff_delay (suc 40) 100 ≡ min (100 * 2 ^ 40) max_submission_backoff
delay-eq-min_example = delay-eq-min 40 100 (omega arith)

abbrev any_event : ReplayFilter
any_event = record { event_type = some "ping"; source = none }

abbrev replayed : ReplayRangeReport
replayed = record { events = record { event_id = "id-0"; report = ping_report } ∷ [] }

replay_ping :
    (replay_range worklane
      (queue 5)
      events
      show_id
      deployment
      stored_ping.store
      (pos 5)
      (pos 6)
      any_event
      (fresh 5)).0
    ≡ ok replayed
unfolding string_eq ℕ_discrete Handle.handle Handle.handle_each Handle.handle_one Handle.submit
    Handle.settle Handle.record_dead_trigger Handle.report_on Submit.enqueue_with_retries
    Submit.in_lane Submit.attempts_from Submit.back_off Submit.give_up
    Backoff.submission_backoff_delay Registry.matching Trigger.event_type_trigger
    Trigger.worklane_job_binding Trigger.new_binding Trigger.job_of Trigger.job_payload
    Replay.replay_range Replay.replay_each Replay.matches
replay_ping = refl

replay_range-preview_range_example :
    Handled worklane
      (queue 5)
      events
      show_id
      deployment
      (preview_range events stored_ping.store (pos 5) (pos 6) any_event)
      (fresh 5)
      replayed.events
      (replay_range worklane
        (queue 5)
        events
        show_id
        deployment
        stored_ping.store
        (pos 5)
        (pos 6)
        any_event
        (fresh 5)).1
replay_range-preview_range_example =
    replay_range-preview_range worklane (queue 5) events show_id deployment stored_ping.store
      (pos 5) (pos 6) any_event (fresh 5) replayed replay_ping

abbrev retried : DeadTriggerRetryReport
retried = record {
  drained = 2;
  events_retried = 1;
  recovered = 0;
  still_failed = 1;
  submitted = "job-7" ∷ [];
}

retry_twice : (retry_dead_triggers worklane (queue 5) show_id deployment (twice 5)).0 ≡ ok retried
unfolding string_eq ℕ_discrete Handle.handle Handle.handle_each Handle.handle_one Handle.submit
    Handle.settle Handle.record_dead_trigger Handle.report_on Submit.enqueue_with_retries
    Submit.in_lane Submit.attempts_from Submit.back_off Submit.give_up
    Backoff.submission_backoff_delay Registry.matching Trigger.event_type_trigger
    Trigger.worklane_job_binding Trigger.new_binding Trigger.job_of Trigger.job_payload
    Retry.retry_dead_triggers Retry.retry_drained Retry.group Retry.retry_each Retry.handle_removed
    Retry.account Retry.tally
retry_twice = refl

retry_dead_triggers_ok_example :
    ((queue 5).all ((queue 5).drain (twice 5).dead).1 ≡ [])
    × Passed worklane
        (queue 5)
        (queue-IsQueue 5)
        show_id
        deployment
        ((queue 5).all (twice 5).dead)
        (record (twice 5) { dead = ((queue 5).drain (twice 5).dead).1 })
        retried
        (retry_dead_triggers worklane (queue 5) show_id deployment (twice 5)).1
retry_dead_triggers_ok_example =
    retry_dead_triggers_ok worklane (queue 5) (queue-IsQueue 5) show_id deployment (twice 5) retried
      retry_twice

retry_full :
    (retry_dead_triggers worklane (queue 0) show_id deployment (twice 0)).0
    ≡ err (returned (storage write))
unfolding string_eq ℕ_discrete Handle.handle Handle.handle_each Handle.handle_one Handle.submit
    Handle.settle Handle.record_dead_trigger Handle.report_on Submit.enqueue_with_retries
    Submit.in_lane Submit.attempts_from Submit.back_off Submit.give_up
    Backoff.submission_backoff_delay Registry.matching Trigger.event_type_trigger
    Trigger.worklane_job_binding Trigger.new_binding Trigger.job_of Trigger.job_payload
    Retry.retry_dead_triggers Retry.retry_drained Retry.group Retry.retry_each Retry.handle_removed
    Retry.account Retry.tally
retry_full = refl

retry_dead_triggers_err_example :
    (error : IoError) × ((returned (storage write)) ≡ returned (storage error))
retry_dead_triggers_err_example =
    retry_dead_triggers_err worklane (queue 0) (queue-IsQueue 0) show_id deployment (twice 0)
      (returned (storage write)) retry_full
