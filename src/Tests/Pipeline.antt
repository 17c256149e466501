-- ===== src/Tests/Pipeline.antt =====
-- The ingest pipeline at the deployment of the fixtures.
use triggerlane.Common.{
  find, some, ◌≡◌, ◌++◌, ◌∷◌, [], List, length, refl, ok, err, string_eq, ℕ_discrete, option_eq,
  true, false, none, ◌>>=◌, pure, any,
}
use triggerlane.Event.{EventEnvelope}
use triggerlane.EventStore.{has_key, find_by_idempotency_key}
use triggerlane.Ingest
use triggerlane.Ingest.{accept, dispatch, ingest, recover_undelivered}
use triggerlane.Ingest.Laws.{ingest_duplicate, ingest-eq-accept-dispatch, ingest_ok, ingest_err}
use triggerlane.Ingest.Recovery.{recover_undelivered_ok}
use triggerlane.Jsonl.Read.{write}
use triggerlane.Registry
use triggerlane.Registry.{matching}
use triggerlane.Trigger
use triggerlane.Trigger.{WorklaneJob}
use triggerlane.Runtime.{returned, storage}
use triggerlane.Runtime.Backoff
use triggerlane.Runtime.Backoff.{
  submission_backoff_delay, max_submission_backoff, delay-eq-min, delay_bounds,
}
use triggerlane.Runtime.Submit
use triggerlane.Runtime.Submit.{enqueue_with_retries}
use triggerlane.Runtime.Handle
use triggerlane.Runtime.Handle.{handle, Verdict}
use triggerlane.Runtime.Replay.{ReplayEventReport}
use triggerlane.Runtime.Replay.Laws.{Handled}
use triggerlane.Tests.Fixtures.{
  worklane, queue, events, events_laws, deployment, ping, fresh, show_id, start, restarted,
  start_full, stored_ping, ping_report,
}

handle_queue_full :
    (handle worklane (queue 0) show_id deployment ping (fresh 0)).0 ≡ err (returned (storage write))
unfolding string_eq ℕ_discrete Handle.handle Handle.handle_each Handle.handle_one Handle.submit
    Handle.settle Handle.record_dead_trigger Handle.report_on Submit.enqueue_with_retries
    Submit.in_lane Submit.attempts_from Submit.back_off Submit.give_up
    Backoff.submission_backoff_delay Registry.matching Trigger.event_type_trigger
    Trigger.worklane_job_binding Trigger.new_binding Trigger.job_of Trigger.job_payload
handle_queue_full = refl

first_ping : Ingest.earlier events start.store ping.metadata.idempotency_key ≡ none
unfolding Ingest.earlier find_by_idempotency_key
first_ping = refl

ingest-eq-accept-dispatch_example :
    ingest events worklane (queue 5) show_id deployment ping start
    ≡ (accept events worklane (queue 5) show_id deployment ping >>= λ accepted.
          dispatch events worklane (queue 5) show_id deployment ping >>= λ handled. pure (record {
            event_id = accepted.event_id;
            handle = handled;
            deduplicated = accepted.deduplicated;
          }))
        start
ingest-eq-accept-dispatch_example =
    ingest-eq-accept-dispatch events events_laws worklane (queue 5) show_id deployment ping start
      first_ping

abbrev ping_ingested : Ingest.IngestReport
ping_ingested = record { event_id = "id-0"; handle = ping_report; deduplicated = false }

abbrev ping_accepted : Ingest.AcceptReport
ping_accepted = record { event_id = "id-0"; deduplicated = false }

ingest-ping : (ingest events worklane (queue 5) show_id deployment ping start).0 ≡ ok ping_ingested
unfolding string_eq ℕ_discrete Handle.handle Handle.handle_each Handle.handle_one Handle.submit
    Handle.settle Handle.record_dead_trigger Handle.report_on Submit.enqueue_with_retries
    Submit.in_lane Submit.attempts_from Submit.back_off Submit.give_up
    Backoff.submission_backoff_delay Registry.matching Trigger.event_type_trigger
    Trigger.worklane_job_binding Trigger.new_binding Trigger.job_of Trigger.job_payload
    Ingest.ingest Ingest.ingest_after Ingest.earlier find_by_idempotency_key Ingest.accept
    Ingest.accept_after Ingest.dispatch Ingest.recover_undelivered Ingest.recover_each
ingest-ping = refl

ingest_ok_example :
    (events.all (ingest events worklane (queue 5) show_id deployment ping start).1.store
      ≡ events.all start.store ++ ping ∷ [])
    × (events_laws.is_delivered
          (ingest events worklane (queue 5) show_id deployment ping start).1.store
          ping.id
        ≡ true)
    × (ping_ingested.event_id ≡ show_id ping.id)
    × (handle worklane (queue 5) show_id deployment ping start.runtime ≡ (
      ok ping_ingested.handle,
      (ingest events worklane (queue 5) show_id deployment ping start).1.runtime,
    ))
ingest_ok_example =
    ingest_ok events events_laws worklane (queue 5) show_id deployment ping start ping_ingested
      ingest-ping refl

accept-ping : (accept events worklane (queue 5) show_id deployment ping start).0 ≡ ok ping_accepted
unfolding string_eq ℕ_discrete Handle.handle Handle.handle_each Handle.handle_one Handle.submit
    Handle.settle Handle.record_dead_trigger Handle.report_on Submit.enqueue_with_retries
    Submit.in_lane Submit.attempts_from Submit.back_off Submit.give_up
    Backoff.submission_backoff_delay Registry.matching Trigger.event_type_trigger
    Trigger.worklane_job_binding Trigger.new_binding Trigger.job_of Trigger.job_payload
    Ingest.ingest Ingest.ingest_after Ingest.earlier find_by_idempotency_key Ingest.accept
    Ingest.accept_after Ingest.dispatch Ingest.recover_undelivered Ingest.recover_each
accept-ping = refl

first_ping_full : Ingest.earlier events start_full.store ping.metadata.idempotency_key ≡ none
unfolding Ingest.earlier find_by_idempotency_key
first_ping_full = refl

ingest_err_example :
    ((ingest events worklane (queue 0) show_id deployment ping start_full).0
      ≡ err (returned (storage write)))
    × (events.undelivered
          (ingest events worklane (queue 0) show_id deployment ping start_full).1.store
        ≡ events.undelivered start_full.store ++ ping ∷ [])
ingest_err_example =
    ingest_err events events_laws worklane (queue 0) show_id deployment ping start_full
      (returned (storage write)) first_ping_full refl handle_queue_full refl

has_ping : any (has_key "key") (events.all stored_ping.store) ≡ true
unfolding string_eq option_eq
has_ping = refl

ingest_duplicate_example :
    (existing : EventEnvelope) × (has_key "key" existing ≡ true)
    × (find (has_key "key") (events.all stored_ping.store) ≡ some existing)
    × (ingest events worklane (queue 5) show_id deployment ping stored_ping ≡ (
      ok (record {
        event_id = show_id existing.id;
        handle = record { submitted = []; failed = [] };
        deduplicated = true;
      }),
      stored_ping,
    ))
    × (accept events worklane (queue 5) show_id deployment ping stored_ping
        ≡ (ok (record { event_id = show_id existing.id; deduplicated = true }), stored_ping))
ingest_duplicate_example =
    ingest_duplicate events events_laws worklane (queue 5) show_id deployment ping "key" stored_ping
      refl has_ping

recover_ping : (recover_undelivered events worklane (queue 5) show_id deployment restarted).0 ≡ ok 1
unfolding string_eq ℕ_discrete Handle.handle Handle.handle_each Handle.handle_one Handle.submit
    Handle.settle Handle.record_dead_trigger Handle.report_on Submit.enqueue_with_retries
    Submit.in_lane Submit.attempts_from Submit.back_off Submit.give_up
    Backoff.submission_backoff_delay Registry.matching Trigger.event_type_trigger
    Trigger.worklane_job_binding Trigger.new_binding Trigger.job_of Trigger.job_payload
    Ingest.ingest Ingest.ingest_after Ingest.earlier find_by_idempotency_key Ingest.accept
    Ingest.accept_after Ingest.dispatch Ingest.recover_undelivered Ingest.recover_each
recover_ping = refl

recover_undelivered_ok_example :
    ((reports : List ReplayEventReport) × Handled worklane
        (queue 5)
        events
        show_id
        deployment
        (events.undelivered restarted.store)
        restarted.runtime
        reports
        (recover_undelivered events worklane (queue 5) show_id deployment restarted).1.runtime)
    × (1 ≡ length (events.undelivered restarted.store))
    × (events.all
          (recover_undelivered events worklane (queue 5) show_id deployment restarted).1.store
        ≡ events.all restarted.store)
    × (events.undelivered
          (recover_undelivered events worklane (queue 5) show_id deployment restarted).1.store
        ≡ [])
recover_undelivered_ok_example =
    recover_undelivered_ok events events_laws worklane (queue 5) show_id deployment restarted 1
      recover_ping
