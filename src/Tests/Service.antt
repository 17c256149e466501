-- ===== src/Tests/Service.antt =====
-- Posts, dispatches and events that are sent again, at the deployment of the fixtures.
use triggerlane.Common.{
  ◌≡◌, String, [], ◌∷◌, ◌++◌, none, some, ok, err, refl, true, false, string_eq, ℕ_discrete,
  option_eq,
}
use triggerlane.EventStore.{find_by_idempotency_key}
use triggerlane.Ingest
use triggerlane.Jsonl.Read.{write}
use triggerlane.Registry
use triggerlane.Trigger
use triggerlane.Runtime.{Halt, returned, storage}
use triggerlane.Runtime.Backoff
use triggerlane.Runtime.Submit
use triggerlane.Runtime.Handle
use triggerlane.Runtime.Handle.{handle}
use triggerlane.Http.{new_error}
use triggerlane.Http.Post.{Accepting, accept_event, ingest_event, accepted_report, inline_report}
use triggerlane.Http.Post.Again.{ingest_event_again, accept_event_again}
use triggerlane.Cli.Serve.{dispatch_next}
use triggerlane.Cli.Serve.Async.{Steps, InStep, accepted, dispatched, done, step}
use triggerlane.Cli.Serve.Laws.{Steps-InStep}
use triggerlane.Tests.Fixtures.{
  worklane, queue, events, events_laws, deployment, ping, lost_ping, show_id, start, start_full,
  ping_report,
}

abbrev pub show_halt : Halt → String
show_halt halt = "halted"

abbrev opened : Accepting events worklane (queue 5)
opened = record { ingest = start; channel = []; open_channel = true }

abbrev closed : Accepting events worklane (queue 5)
closed = record { ingest = start; channel = []; open_channel = false }

abbrev posted : Accepting events worklane (queue 5)
posted = (accept_event events worklane (queue 5) show_id show_halt deployment ping opened).1

ping_accepted :
    (accept_event events worklane (queue 5) show_id show_halt deployment ping opened).0
    ≡ ok accepted_report
unfolding accept_event Ingest.accept Ingest.accept_after Ingest.earlier find_by_idempotency_key
ping_accepted = refl

ping_waits : posted.channel ≡ ping ∷ []
unfolding accept_event Ingest.accept Ingest.accept_after Ingest.earlier find_by_idempotency_key
ping_waits = refl

ping_dispatched :
    (Ingest.dispatch events worklane (queue 5) show_id deployment ping posted.ingest).0
    ≡ ok ping_report
unfolding string_eq ℕ_discrete Handle.handle Handle.handle_each Handle.handle_one Handle.submit
    Handle.settle Handle.record_dead_trigger Handle.report_on Submit.enqueue_with_retries
    Submit.in_lane Submit.attempts_from Submit.back_off Submit.give_up
    Backoff.submission_backoff_delay Registry.matching Trigger.event_type_trigger
    Trigger.worklane_job_binding Trigger.new_binding Trigger.job_of Trigger.job_payload
    Ingest.dispatch accept_event Ingest.accept Ingest.accept_after Ingest.earlier
    find_by_idempotency_key
ping_dispatched = refl

two-Steps :
    Steps events events_laws worklane
      (queue 5)
      show_id
      show_halt
      deployment
      []
      opened
      []
      (dispatch_next events worklane (queue 5) show_id deployment posted)
two-Steps =
    step (step done (accepted ping accepted_report refl refl ping_accepted))
      (dispatched ping [] ping_report ping_waits ping_dispatched)

opened-InStep : InStep events events_laws worklane (queue 5) show_id show_halt deployment [] opened
opened-InStep = record { distinct = tt; channel_lem = refl }

Steps-InStep_example :
    InStep events events_laws worklane
      (queue 5)
      show_id
      show_halt
      deployment
      []
      (dispatch_next events worklane (queue 5) show_id deployment posted)
Steps-InStep_example =
    Steps-InStep events events_laws worklane (queue 5) show_id show_halt deployment opened-InStep
      two-Steps

no_key : Ingest.earlier events start.store (some "key") ≡ none
unfolding Ingest.earlier find_by_idempotency_key
no_key = refl

handle_full :
    (handle worklane (queue 0) show_id deployment ping start_full.runtime).0
    ≡ err (returned (storage write))
unfolding string_eq ℕ_discrete Handle.handle Handle.handle_each Handle.handle_one Handle.submit
    Handle.settle Handle.record_dead_trigger Handle.report_on Submit.enqueue_with_retries
    Submit.in_lane Submit.attempts_from Submit.back_off Submit.give_up
    Backoff.submission_backoff_delay Registry.matching Trigger.event_type_trigger
    Trigger.worklane_job_binding Trigger.new_binding Trigger.job_of Trigger.job_payload
handle_full = refl

ingest_event_again_example :
    let failed =
      ingest_event events worklane (queue 0) show_id show_halt deployment ping start_full in
    (failed.0 ≡ err (new_error "halted"))
    × (ingest_event events worklane (queue 0) show_id show_halt deployment lost_ping failed.1
        ≡ (ok (inline_report [] 0), failed.1))
    × (events.undelivered failed.1.store ≡ events.undelivered start_full.store ++ ping ∷ [])
ingest_event_again_example =
    ingest_event_again events events_laws worklane (queue 0) show_id show_halt deployment ping
      lost_ping "key" start_full (returned (storage write)) refl refl no_key refl handle_full refl

accept_event_again_example :
    let refused = accept_event events worklane (queue 5) show_id show_halt deployment ping closed in
    (refused.0 ≡ err (new_error "dispatch channel closed"))
    × (accept_event events worklane (queue 5) show_id show_halt deployment lost_ping refused.1
        ≡ (ok accepted_report, refused.1))
    × (events.undelivered refused.1.ingest.store
        ≡ events.undelivered closed.ingest.store ++ ping ∷ [])
    × (refused.1.channel ≡ closed.channel)
accept_event_again_example =
    accept_event_again events events_laws worklane (queue 5) show_id show_halt deployment ping
      lost_ping "key" closed refl refl no_key refl refl refl
