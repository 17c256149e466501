-- ===== src/Runtime/Handle.antt =====
-- `TriggerRuntime::handle` and `record_dead_trigger`; the metrics sweeps.
pub mod Run
pub mod Laws
use triggerlane.Common.{
  String, ◌<>◌, List, [], ◌∷◌, ◌++◌, Action, Result, ok, err, pure, modify, with_error, ◌>>=◌, ◌>>◌,
  ℕ, ltb, if◌then◌else◌, continue,
}
use triggerlane.Common.Int.{ℤ}
use triggerlane.Event.{EventId, EventEnvelope, unwrap_or}
use triggerlane.Trigger.{WorklaneJob, BindingError}
use triggerlane.Registry.{RegisteredTrigger, matching}
use triggerlane.DeadTrigger.{DeadTriggerRecord}
use triggerlane.DeadTriggerQueue.{DeadTriggerQueue}
use triggerlane.Retention.{AutoRetention}
use triggerlane.Jsonl.Read.{IoError}
use triggerlane.Runtime
use triggerlane.Runtime.{
  Worklane, TriggerRuntime, HandleReport, Halt, returned, storage, emit, on_dead,
  record_dead_trigger_depth, show_binding_error, from_event_report, trigger_matches, jobs_submitted,
  trigger_failures, events_handled, handle_duration,
}
use triggerlane.Runtime.Submit.{enqueue_with_retries}

-- The vectors that `handle` fills.
pub record Progress : Type 0 where
  pub matched_triggers : List String
  pub submitted : List String
  pub failed : List DeadTriggerRecord

abbrev pub no_progress : Progress
no_progress = record { matched_triggers = []; submitted = []; failed = [] }

-- What a trigger came to: the text of the job's id, or that of the error.
abbrev pub Verdict : Type 0
Verdict = Result String String

abbrev pub event_identity : (EventId → String) → EventEnvelope → String
event_identity show_id event = unwrap_or event.metadata.idempotency_key (show_id event.id)

-- Named to give the record its type.
abbrev pub dead_trigger_record : EventEnvelope → String → String → DeadTriggerRecord
dead_trigger_record event trigger_name error = record {
  event = event;
  trigger_name = trigger_name;
  error = error;
}

abbrev pub handle_report : Progress → HandleReport
handle_report p = record { submitted = p.submitted; failed = p.failed }

module _ (W : Worklane) (Q : DeadTriggerQueue) where
  unfoldable pub record_dead_trigger :
      EventEnvelope → String → String → Action (Runtime.Runtime W Q) Halt DeadTriggerRecord
  record_dead_trigger event trigger_name error =
      let dead = dead_trigger_record event trigger_name error in
      do with_error (λ e. returned (storage e)) (on_dead (Q.record_dead dead)); pure dead

  abbrev pub verdict : Result W.JobId W.Error → Verdict
  verdict (ok job_id) = ok (W.show_id job_id)
  verdict (err error) = err (W.show_error error)

  unfoldable pub submit :
      TriggerRuntime
      → String
      → Result WorklaneJob BindingError
      → Action (Runtime.Runtime W Q) Halt Verdict
  submit r unique_key (err error) = pure (err (show_binding_error error))
  submit r unique_key (ok job) =
      enqueue_with_retries W Q r.options job unique_key >>= λ answer. pure (verdict answer)

  unfoldable pub settle :
      EventEnvelope → String → Progress → Verdict → Action (Runtime.Runtime W Q) Halt Progress
  unfolding record_dead_trigger
  settle event name p (ok job_id) = do
    modify (emit (jobs_submitted name))
    pure (record p { submitted = p.submitted ++ job_id ∷ [] })
  settle event name p (err error) = do
    modify (emit (trigger_failures name))
    dead ← record_dead_trigger event name error
    pure (record p { failed = p.failed ++ dead ∷ [] })

  -- The body of the loop over the matching triggers.
  unfoldable pub handle_one :
      TriggerRuntime
      → EventEnvelope
      → String
      → RegisteredTrigger
      → Progress
      → Action (Runtime.Runtime W Q) Halt Progress
  unfolding submit settle
  handle_one r event event_identity registration p = do
    modify (emit (trigger_matches registration.name))
    v ← submit r (event_identity <> ":" <> registration.name) (registration.binding.bind event)
    settle event registration.name
        (record p { matched_triggers = p.matched_triggers ++ registration.name ∷ [] }) v

  unfoldable pub handle_each :
      TriggerRuntime
      → EventEnvelope
      → String
      → List RegisteredTrigger
      → Progress
      → Action (Runtime.Runtime W Q) Halt Progress
  unfolding handle_one
  handle_each r event event_identity [] p = pure p
  handle_each r event event_identity (registration ∷ rest) p =
      handle_one r event event_identity registration p >>= λ q.
      handle_each r event event_identity rest q

  module _ (show_id : EventId → String) where
    -- From the loop on to the report.
    unfoldable pub report_on :
        EventEnvelope → Progress → Action (Runtime.Runtime W Q) Halt HandleReport
    report_on event p =
        let report = handle_report p in
        do
          modify (emit (events_handled event.source event.event_type))
          modify (emit handle_duration)
          modify record_dead_trigger_depth
          modify (λ s. record s {
            traces = s.traces ++ from_event_report show_id event p.matched_triggers report ∷ [];
          })
          pure report

    unfoldable pub handle :
        TriggerRuntime → EventEnvelope → Action (Runtime.Runtime W Q) Halt HandleReport
    unfolding handle_each report_on
    handle r event =
        handle_each r event (event_identity show_id event) (matching r.registry event) no_progress
        >>= report_on event

  unfoldable pub enforce_dead_trigger_retention :
      AutoRetention → ℤ → Action (Runtime.Runtime W Q) IoError ℕ
  enforce_dead_trigger_retention policy now =
      on_dead (Q.enforce_retention policy now) >>= λ removed.
      if ltb 0 removed then modify record_dead_trigger_depth >> pure removed else pure removed
