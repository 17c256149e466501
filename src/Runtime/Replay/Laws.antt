-- ===== src/Runtime/Replay/Laws.antt =====
-- A range replay handles the events of its dry run.
use triggerlane.Common.{
  String, List, [], ◌∷◌, ◌++◌, ◌≡◌, refl, ok, err, append_assoc, append-nil, arith, Result,
  continue, map_err, pure, subst,
}
use triggerlane.Common.Int.{ℤ}
use triggerlane.Event.{EventId, EventEnvelope}
use triggerlane.DeadTriggerQueue.{DeadTriggerQueue}
use triggerlane.EventStore.{EventStore}
use triggerlane.Runtime
use triggerlane.Runtime.{Worklane, TriggerRuntime, HandleReport, Halt}
use triggerlane.Runtime.Handle.{handle}
use triggerlane.Runtime.Replay.{
  ReplayError, runtime, range_report, ReplayFilter, ReplayEventReport, ReplayRangeReport,
  preview_range, replay_each, replay_range,
}

module _ (W : Worklane) (Q : DeadTriggerQueue) (S : EventStore) (show_id : EventId → String)
    (r : TriggerRuntime) where
  -- One event after the other is handled, each in the state that the one before left.
  pub data Handled
      : List EventEnvelope
        → Runtime.Runtime W Q
        → List ReplayEventReport
        → Runtime.Runtime W Q
        → Type 0 where
    finished : {s : Runtime.Runtime W Q} → Handled [] s [] s
    handled :
        {event : EventEnvelope} {rest : List EventEnvelope} {s s1 t : Runtime.Runtime W Q}
        {reports : List ReplayEventReport} (report : HandleReport)
        → handle W Q show_id r event s ≡ (ok report, s1)
        → Handled rest s1 reports t
        → Handled
            (event ∷ rest)
            s
            (record { event_id = show_id event.id; report = report } ∷ reports)
            t

  abbrev Replayed :
      List EventEnvelope
      → List ReplayEventReport
      → Runtime.Runtime W Q
      → List ReplayEventReport
      → Result (List ReplayEventReport) ReplayError × Runtime.Runtime W Q
      → Type 0
  Replayed events before s reports out =
      (new : List ReplayEventReport) × (reports ≡ before ++ new) × Handled events s new out.1

  after_one :
      (event : EventEnvelope) (rest : List EventEnvelope) (before : List ReplayEventReport)
      (s : Runtime.Runtime W Q) (reports : List ReplayEventReport)
      (answer : Result HandleReport Halt) (s1 : Runtime.Runtime W Q)
      (go : List ReplayEventReport
        → Runtime.Runtime W Q
        → Result (List ReplayEventReport) ReplayError × Runtime.Runtime W Q)
      → handle W Q show_id r event s ≡ (answer, s1)
      → ((before' : List ReplayEventReport)
          → (go before' s1).0 ≡ ok reports
          → Replayed rest before' s1 reports (go before' s1))
      → (continue
          (map_err runtime answer)
          (λ report. go (before ++ record { event_id = show_id event.id; report = report } ∷ []))
          s1).0
        ≡ ok reports
      → Replayed (event ∷ rest) before s reports (
          continue
            (map_err runtime answer)
            (λ report. go (before ++ record { event_id = show_id event.id; report = report } ∷ []))
            s1)
  after_one event rest before s reports (err halt) s1 go e ih h = ground arith
  after_one event rest before s reports (ok report) s1 go e ih h =
      let (new, eq, all) = ih _ h in (_, rw (eq, append_assoc), handled report e all)

  replay_each_ok :
      (events : List EventEnvelope) (before : List ReplayEventReport) (s : Runtime.Runtime W Q)
      (reports : List ReplayEventReport)
      → (replay_each W Q S show_id r events before s).0 ≡ ok reports
      → Replayed events before s reports (replay_each W Q S show_id r events before s)
  unfolding replay_each
  replay_each_ok [] before s reports h = ([], ground (arith, append-nil before), finished)
  replay_each_ok (event ∷ rest) before s reports h =
      after_one event rest before s reports _ _ (replay_each W Q S show_id r rest) refl
        (λ before' k. replay_each_ok rest before' _ reports k) h

  main_lem :
      (events : List EventEnvelope) (s : Runtime.Runtime W Q)
      (answer : Result (List ReplayEventReport) ReplayError) (s1 : Runtime.Runtime W Q)
      (report : ReplayRangeReport)
      → ((reports : List ReplayEventReport)
          → answer ≡ ok reports
          → Replayed events [] s reports (answer, s1))
      → (continue answer (λ events'. pure (range_report events')) s1).0 ≡ ok report
      → Handled events s report.events
          (continue answer (λ events'. pure (range_report events')) s1).1
  main_lem events s (err error) s1 report h k = ground arith
  main_lem events s (ok reports) s1 report h k =
      let (new, eq, all) = h reports refl in
      let e : new ≡ report.events = ground arith in subst (λ xs. Handled events s xs s1) e all

  -- If a range replay succeeds, it has handled exactly the events that the dry run shows, in
  -- that order, each in the state that the one before left, and its report lists theirs.
  pub replay_range-preview_range :
      (store : S.State) (start end : ℤ) (narrowing : ReplayFilter) (s : Runtime.Runtime W Q)
      (report : ReplayRangeReport)
      → (replay_range W Q S show_id r store start end narrowing s).0 ≡ ok report
      → Handled
          (preview_range S store start end narrowing)
          s
          report.events
          (replay_range W Q S show_id r store start end narrowing s).1
  unfolding replay_range preview_range
  replay_range-preview_range store start end narrowing s report h =
      main_lem _ s _ _ report (λ reports k. replay_each_ok _ [] s reports k) h
