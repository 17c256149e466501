-- ===== src/Runtime/Handle/Laws.antt =====
-- What `handle` does to the dead-trigger queue and to the trace sink, and how its report accounts for
-- the triggers that matched.
use triggerlane.Common.{
  String, List, [], ◌∷◌, ◌++◌, Result, ok, err, ◌≡◌, length, arith, continue, ◌<◌, sym, ap, ◌∙◌,
}
use triggerlane.Event.{EventId, EventEnvelope}
use triggerlane.Registry.{matching}
use triggerlane.DeadTriggerQueue.{DeadTriggerQueue}
use triggerlane.DeadTriggerQueue.Laws.{IsQueue}
use triggerlane.Jsonl.Read.{IoError}
use triggerlane.Runtime
use triggerlane.Runtime.{
  Worklane, TriggerRuntime, HandleReport, TriggerTrace, Halt, returned, storage, emit,
  trigger_matches, from_event_report,
}
use triggerlane.Runtime.Handle.{
  Progress, no_progress, event_identity, Verdict, handle, report_on, handle_report,
}
use triggerlane.Runtime.Handle.Run.{job_ids, failures, names, Served, Stopped, Ran, each_lem}

ok_injective : {A E : Type 0} {a b : A} → ◌≡◌ {A = Result A E} (ok a) (ok b) → a ≡ b
ok_injective h = ground arith

err_injective : {A E : Type 0} {a b : E} → ◌≡◌ {A = Result A E} (err a) (err b) → a ≡ b
err_injective h = ground arith

module _ (W : Worklane) (Q : DeadTriggerQueue) (queue : IsQueue Q) (r : TriggerRuntime)
    (event : EventEnvelope) where
  module _ (show_id : EventId → String) (s : Runtime.Runtime W Q) where
    -- The trace of the event, with what the report says.
    abbrev pub trace : HandleReport → TriggerTrace
    trace report = record {
      event_id = show_id event.id;
      event_type = event.event_type;
      source = event.source;
      matched_triggers = names (matching r.registry event);
      submitted = report.submitted;
      failure_count = length report.failed;
    }

    reported :
        (answer : Result Progress Halt) (s1 : Runtime.Runtime W Q) (report : HandleReport)
        → Ran W Q queue r event
            (event_identity show_id event)
            no_progress
            (matching r.registry event)
            s.broker
            s
            (answer, s1)
        → (continue answer (report_on W Q show_id event) s1).0 ≡ ok report
        → (verdicts : List Verdict) × (length verdicts ≡ length (matching r.registry event))
          × Served W Q queue r event
              (event_identity show_id event)
              s.broker
              (matching r.registry event)
              verdicts
              (continue answer (report_on W Q show_id event) s1).1.broker
          × (report.submitted ≡ job_ids verdicts)
          × (report.failed ≡ failures event (matching r.registry event) verdicts)
          × (Q.all (continue answer (report_on W Q show_id event) s1).1.dead
              ≡ Q.all s.dead ++ report.failed)
          × ((continue answer (report_on W Q show_id event) s1).1.traces
              ≡ s.traces ++ trace report ∷ [])
    unfolding report_on from_event_report
    reported (ok q) s1 report ran h =
        let e : handle_report q ≡ report = ok_injective h in
        let failed = sym (ap (λ t. t.failed) e) ∙ ap (λ t. t.failed) ran.ends.1 in
        (
          ran.verdicts,
          ran.ends.0,
          ran.account,
          sym (ap (λ t. t.submitted) e) ∙ ap (λ t. t.submitted) ran.ends.1,
          failed,
          rw failed ran.dead,
          rw (sym e, ran.traces, ran.ends.1),
        )
    reported (err halt) s1 report ran h = ground arith

    halted :
        (answer : Result Progress Halt) (s1 : Runtime.Runtime W Q) (halt : Halt)
        → Ran W Q queue r event
            (event_identity show_id event)
            no_progress
            (matching r.registry event)
            s.broker
            s
            (answer, s1)
        → (continue answer (report_on W Q show_id event) s1).0 ≡ err halt
        → (error : IoError) × (verdicts : List Verdict) × (halt ≡ returned (storage error))
          × (length verdicts < length (matching r.registry event))
          × Stopped W Q queue r event
              (event_identity show_id event)
              error
              s.broker
              (matching r.registry event)
              verdicts
              (continue answer (report_on W Q show_id event) s1).1
          × (Q.all (continue answer (report_on W Q show_id event) s1).1.dead
              ≡ Q.all s.dead ++ failures event (matching r.registry event) verdicts)
          × ((continue answer (report_on W Q show_id event) s1).1.traces ≡ s.traces)
    unfolding report_on
    halted (ok q) s1 halt ran h = ground arith
    halted (err e) s1 halt ran h = (
      ran.account.0,
      ran.verdicts,
      sym (err_injective h) ∙ ran.account.1,
      ran.ends.2,
      ran.account.2,
      ran.dead,
      ran.traces,
    )

    -- If handling an event succeeds, every trigger that matched came to one verdict, in the order of the
    -- registry and one after the other on the broker: the id of its job if the broker took it under the
    -- event's identity and the trigger's name, and else the error of the broker or of the binding. The
    -- report has the ids of the jobs and the records of the triggers that failed, the dead-trigger
    -- queue has grown by exactly those records, and the trace sink got one trace, of this event, the
    -- matched triggers and the report.
    pub handle_ok :
        (report : HandleReport)
        → (handle W Q show_id r event s).0 ≡ ok report
        → (verdicts : List Verdict) × (length verdicts ≡ length (matching r.registry event))
          × Served W Q queue r event
              (event_identity show_id event)
              s.broker
              (matching r.registry event)
              verdicts
              (handle W Q show_id r event s).1.broker
          × (report.submitted ≡ job_ids verdicts)
          × (report.failed ≡ failures event (matching r.registry event) verdicts)
          × (Q.all (handle W Q show_id r event s).1.dead ≡ Q.all s.dead ++ report.failed)
          × ((handle W Q show_id r event s).1.traces ≡ s.traces ++ trace report ∷ [])
    unfolding handle
    handle_ok report = reported _ _ report (each_lem W Q queue r event _ _ no_progress s)

    -- If handling an event fails, the error is one of the dead-trigger queue, and not a panic. The first
    -- of the matched triggers, short of all of them, came to a verdict each, one after the other on the
    -- broker; the next one failed as well, and recording that failed with this error. The queue has
    -- grown by the records of the failures among the first ones, and no trace was sent.
    pub handle_err :
        (halt : Halt)
        → (handle W Q show_id r event s).0 ≡ err halt
        → (error : IoError) × (verdicts : List Verdict) × (halt ≡ returned (storage error))
          × (length verdicts < length (matching r.registry event))
          × Stopped W Q queue r event
              (event_identity show_id event)
              error
              s.broker
              (matching r.registry event)
              verdicts
              (handle W Q show_id r event s).1
          × (Q.all (handle W Q show_id r event s).1.dead
              ≡ Q.all s.dead ++ failures event (matching r.registry event) verdicts)
          × ((handle W Q show_id r event s).1.traces ≡ s.traces)
    unfolding handle
    handle_err halt = halted _ _ halt (each_lem W Q queue r event _ _ no_progress s)
