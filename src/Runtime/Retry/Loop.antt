-- ===== src/Runtime/Retry/Loop.antt =====
-- The loop of a retry pass over the distinct events, and what the pass reports.
use triggerlane.Common.{
  ℕ, ◌+◌, String, Bool, true, false, not, ◌||◌, Option, some, none, List, [], ◌∷◌, ◌++◌, ◌≡◌, refl,
  sym, ◌∙◌, ap, subst, ok, err, Result, map, map_err, length, filter, any, arith, contains,
  string_eq, ◌==◌, continue, modify, pure, ◌>>◌,
}
use triggerlane.Event.{EventId, EventEnvelope, unwrap_or, or_else}
use triggerlane.DeadTrigger.{DeadTriggerRecord}
use triggerlane.DeadTriggerQueue.{DeadTriggerQueue}
use triggerlane.DeadTriggerQueue.Laws.{IsQueue}
use triggerlane.Jsonl.Read.{IoError}
use triggerlane.Runtime
use triggerlane.Runtime.{
  Worklane, TriggerRuntime, HandleReport, Halt, returned, storage, record_dead_trigger_depth,
}
use triggerlane.Runtime.Handle.{handle}
use triggerlane.Runtime.Retry.{
  HashMap, map_get, map_remove, DeadTriggerRetryReport, no_groups, new_report, tally, account,
  handle_removed, retry_each, retry_drained, retry_dead_triggers,
}
use triggerlane.Runtime.Retry.Pass.{
  Distinct, map_get-remove, last_of, IsFailedFor, groups, names_all, Distinct-all, events_lem,
  is_some, groups-IsOrdered, known_lem,
}

-- A report with this many more triggers recovered and still failing.
abbrev counted : ℕ → ℕ → DeadTriggerRetryReport → DeadTriggerRetryReport
counted recovered still_failed report = record report {
  recovered = report.recovered + recovered;
  still_failed = report.still_failed + still_failed;
}

tally-counted :
    (now_failed names : List String) (report : DeadTriggerRetryReport)
    → tally now_failed names report
      ≡ counted
          (length (filter (λ name. not (contains now_failed name)) names))
          (length (filter (contains now_failed) names))
          report
unfolding tally
tally-counted now_failed [] report = ground arith
tally-counted now_failed (name ∷ names) report = ground (
  arith,
  tally-counted now_failed names (record report { still_failed = report.still_failed + 1 }),
  tally-counted now_failed names (record report { recovered = report.recovered + 1 }),
)

module _ (W : Worklane) (Q : DeadTriggerQueue) (show_id : EventId → String) (r : TriggerRuntime)
    (records : List DeadTriggerRecord) where
  -- The names of the triggers that failed in a handling.
  abbrev pub failed_now : HandleReport → List String
  failed_now result = map (λ dead. dead.trigger_name) result.failed

  -- For each id in turn, the event of its last record is handled; of the triggers that its records
  -- name, those that fail again count as still failing and the others as recovered.
  abbrev pub Retried :
      List String
      → DeadTriggerRetryReport
      → Runtime.Runtime W Q
      → DeadTriggerRetryReport
      → Runtime.Runtime W Q
      → Type 0
  Retried [] before s after t = (after ≡ before) × (t ≡ s)
  Retried (id ∷ order) before s after t =
      (event : EventEnvelope) × (names : List String) × (result : HandleReport)
      × (mid : Runtime.Runtime W Q) × (last_of show_id id records ≡ some event)
      × IsFailedFor show_id records id names
      × (handle W Q show_id r event s ≡ (ok result, mid))
      × Retried order
          (record {
            drained = before.drained;
            events_retried = before.events_retried + 1;
            recovered =
                before.recovered
                + length (filter (λ name. not (contains (failed_now result) name)) names);
            still_failed =
                before.still_failed + length (filter (contains (failed_now result)) names);
            submitted = before.submitted ++ result.submitted;
          })
          mid after t

  abbrev Loop : Type 0
  Loop =
      DeadTriggerRetryReport
      → Runtime.Runtime W Q
      → Result DeadTriggerRetryReport Halt × Runtime.Runtime W Q

  account_counted :
      (names : List String) (result : HandleReport) (before : DeadTriggerRetryReport)
      → account names result before ≡ record {
        drained = before.drained;
        events_retried = before.events_retried + 1;
        recovered =
            before.recovered
            + length (filter (λ name. not (contains (failed_now result) name)) names);
        still_failed = before.still_failed + length (filter (contains (failed_now result)) names);
        submitted = before.submitted ++ result.submitted;
      }
  unfolding account
  account_counted names result before = tally-counted _ names _

  handled :
      (id : String) (order names : List String) (before : DeadTriggerRetryReport)
      (event : EventEnvelope) (s : Runtime.Runtime W Q) (after : DeadTriggerRetryReport) (go : Loop)
      (out : Result HandleReport Halt × Runtime.Runtime W Q)
      → handle W Q show_id r event s ≡ out
      → last_of show_id id records ≡ some event
      → IsFailedFor show_id records id names
      → ((report : DeadTriggerRetryReport) (mid : Runtime.Runtime W Q)
          → (go report mid).0 ≡ ok after
          → Retried order report mid after (go report mid).1)
      → (continue out.0 (λ result. go (account names result before)) out.1).0 ≡ ok after
      → Retried
          (id ∷ order)
          before
          s
          after
          (continue out.0 (λ result. go (account names result before)) out.1).1
  handled id order names before event s after go (err halt, mid) e last failed ih h = ground arith
  handled id order names before event s after go (ok result, mid) e last failed ih h = (
    event,
    names,
    result,
    mid,
    last,
    failed,
    e,
    subst
        (λ (report : DeadTriggerRetryReport).
          Retried order report mid after (go (account names result before) mid).1)
        (account_counted names result before) (ih (account names result before) mid h),
  )

  removed :
      (id : String) (order names : List String) (before : DeadTriggerRetryReport)
      (s : Runtime.Runtime W Q) (after : DeadTriggerRetryReport) (go : Loop)
      (found : Option EventEnvelope)
      → last_of show_id id records ≡ found
      → IsFailedFor show_id records id names
      → ((report : DeadTriggerRetryReport) (mid : Runtime.Runtime W Q)
          → (go report mid).0 ≡ ok after
          → Retried order report mid after (go report mid).1)
      → (continue
          (handle_removed W Q show_id r found s).0
          (λ result. go (account names result before))
          (handle_removed W Q show_id r found s).1).0
        ≡ ok after
      → Retried
          (id ∷ order)
          before
          s
          after
          (continue
            (handle_removed W Q show_id r found s).0
            (λ result. go (account names result before))
            (handle_removed W Q show_id r found s).1).1
  unfolding handle_removed
  removed id order names before s after go none last failed ih h = ground arith
  removed id order names before s after go (some event) last failed ih h =
      handled id order names before event s after go (handle W Q show_id r event s) refl last failed
        ih h

  -- What the two maps have for an id is what the records have.
  abbrev Agrees : HashMap EventEnvelope → HashMap (List String) → String → Type 0
  Agrees events failed_triggers id =
      (map_get id events ≡ last_of show_id id records)
      × IsFailedFor show_id records id (unwrap_or (map_get id failed_triggers) [])

  Agrees-rest :
      (id k : String) (order : List String) (events : HashMap EventEnvelope)
      (failed_triggers : HashMap (List String))
      → contains order id ≡ false
      → contains order k ≡ true
      → Agrees events failed_triggers k
      → Agrees (map_remove id events) (map_remove id failed_triggers) k
  Agrees-rest id k order events failed_triggers new there (e, f) =
      let other : (k == id) ≡ false = ground (arith, new, there) in
      rw (map_get-remove k id events other, map_get-remove k id failed_triggers other) (e, f)

  each_lem :
      (order : List String) (events : HashMap EventEnvelope)
      (failed_triggers : HashMap (List String)) (before : DeadTriggerRetryReport)
      (s : Runtime.Runtime W Q) (after : DeadTriggerRetryReport)
      → Distinct order
      → ((id : String) → contains order id ≡ true → Agrees events failed_triggers id)
      → (retry_each W Q show_id r order events failed_triggers before s).0 ≡ ok after
      → Retried order before s after
          (retry_each W Q show_id r order events failed_triggers before s).1
  unfolding retry_each
  each_lem [] events failed before s after distinct agrees h = (ground arith, refl)
  each_lem (id ∷ order) events failed before s after (new, distinct) agrees h =
      let (e, f) = agrees id (ground arith) in
      removed id order _ before s after _ (map_get id events) (sym e) f
        (λ report mid.
          each_lem order (map_remove id events) (map_remove id failed) report mid after distinct
            (λ k there. Agrees-rest id k order events failed new there (agrees k (ground arith))))
        h

or_nothing : (o : Option EventEnvelope) → or_else o none ≡ o
or_nothing none = refl
or_nothing (some event) = refl

or_false : (b : Bool) → (b || false) ≡ b
or_false b = ground arith

module _ (W : Worklane) (Q : DeadTriggerQueue) (queue : IsQueue Q) (show_id : EventId → String)
    (r : TriggerRuntime) where
  -- A pass over these records, from one state to another.
  abbrev pub Passed :
      List DeadTriggerRecord
      → Runtime.Runtime W Q
      → DeadTriggerRetryReport
      → Runtime.Runtime W Q
      → Type 0
  Passed records s report s' =
      (order : List String) × (t : Runtime.Runtime W Q) × Distinct order
      × ((id : String) → contains order id ≡ any (λ dead. id == show_id dead.event.id) records)
      × Retried W Q show_id r records order (new_report (length records)) s report t
      × (s' ≡ record_dead_trigger_depth t)

  finished :
      (out : Result DeadTriggerRetryReport Halt × Runtime.Runtime W Q)
      (report : DeadTriggerRetryReport)
      → let end =
          continue out.0 (λ report. modify record_dead_trigger_depth >> pure report) out.1 in
        end.0 ≡ ok report → (out.0 ≡ ok report) × (end.1 ≡ record_dead_trigger_depth out.1)
  finished (ok report', s) report h = (h, refl)
  finished (err halt, s) report h = ground arith

  drained_lem :
      (records : List DeadTriggerRecord) (s : Runtime.Runtime W Q) (report : DeadTriggerRetryReport)
      → (retry_drained W Q show_id r records s).0 ≡ ok report
      → Passed records s report (retry_drained W Q show_id r records s).1
  unfolding retry_drained
  drained_lem records s report h =
      let g = groups show_id no_groups records in
      let ordered =
        groups-IsOrdered show_id records no_groups
          (record { distinct = tt; same_ids = λ id. refl }) in
      let found : (id : String) → map_get id g.events ≡ last_of show_id id records =
        λ id. events_lem show_id records no_groups id ∙ or_nothing (last_of show_id id records) in
      let (done, depth) =
        finished
          (retry_each W Q show_id r g.order g.events g.failed_triggers (new_report (length records))
            s)
          report h in
      (
        g.order,
        (retry_each W Q show_id r g.order g.events g.failed_triggers (new_report (length records))
            s).1,
        ordered.distinct,
        λ id. ordered.same_ids id ∙ ap (is_some show_id) (found id) ∙ known_lem show_id records id,
        each_lem W Q show_id r records g.order g.events g.failed_triggers
            (new_report (length records)) s report ordered.distinct
            (λ id there. (
              found id,
              record {
                distinct = Distinct-all show_id records no_groups (λ k. tt) id;
                names_lem = λ name. names_all show_id records no_groups id name ∙ or_false _;
              },
            ))
            done,
        depth,
      )

  drain_lem :
      (s s1 : Runtime.Runtime W Q) (answer : Result (List DeadTriggerRecord) IoError)
      (report : DeadTriggerRetryReport)
      → (Q.drain s.dead).0 ≡ answer
      → let end =
          continue (map_err (λ e. returned (storage e)) answer) (retry_drained W Q show_id r) s1 in
        end.0 ≡ ok report → Passed (Q.all s.dead) s1 report end.1
  drain_lem s s1 (err e) report d h = ground arith
  drain_lem s s1 (ok records) report d h =
      rw (sym (queue.drain_ok s.dead records d).0) (drained_lem records s1 report h)

  emptied :
      (s s1 : Runtime.Runtime W Q) (answer : Result (List DeadTriggerRecord) IoError)
      (report : DeadTriggerRetryReport)
      → (Q.drain s.dead).0 ≡ answer
      → (continue (map_err (λ e. returned (storage e)) answer) (retry_drained W Q show_id r) s1).0
        ≡ ok report
      → Q.all (Q.drain s.dead).1 ≡ []
  emptied s s1 (err e) report d h = ground arith
  emptied s s1 (ok records) report d h = (queue.drain_ok s.dead records d).1

  -- If a retry pass succeeds, it has emptied the queue first, and reports the number of the records. For each id of an event among them, once, the event of the last record with that id is
  -- handled, one after the other, with the jobs that this submits in the report. Of the triggers that
  -- the records name for that id, each once, those that fail again are counted as still failing, and
  -- the others as recovered. The depth of the queue is published in the end.
  pub retry_dead_triggers_ok :
      (s : Runtime.Runtime W Q) (report : DeadTriggerRetryReport)
      → (retry_dead_triggers W Q show_id r s).0 ≡ ok report
      → (Q.all (Q.drain s.dead).1 ≡ [])
        × Passed
            (Q.all s.dead)
            (record s { dead = (Q.drain s.dead).1 })
            report
            (retry_dead_triggers W Q show_id r s).1
  unfolding retry_dead_triggers
  retry_dead_triggers_ok s report h =
      (emptied s _ (Q.drain s.dead).0 report refl h, drain_lem s _ (Q.drain s.dead).0 report refl h)
