-- ===== src/Runtime/Retry.antt =====
-- `TriggerRuntime::retry_dead_triggers`. A `HashMap` is the list of its entries.
pub mod Groups
pub mod Pass
pub mod Loop
pub mod Laws
use triggerlane.Common.{
  ℕ, ◌+◌, String, List, [], ◌∷◌, ◌++◌, length, map, Action, Option, none, some, Result, ok, err,
  pure, with_error, modify, ◌>>=◌, ◌>>◌, ◌==◌, string_eq, contains, set_insert, if◌then◌else◌,
}
use triggerlane.Event.{EventId, EventEnvelope, unwrap_or}
use triggerlane.DeadTrigger.{DeadTriggerRecord}
use triggerlane.DeadTriggerQueue.{DeadTriggerQueue}
use triggerlane.Runtime
use triggerlane.Runtime.{
  Worklane, TriggerRuntime, HandleReport, Halt, returned, panicked, storage, on_dead,
  record_dead_trigger_depth,
}
use triggerlane.Runtime.Handle.{handle}
use mathlib.Core.List.{foldl}

abbrev pub HashMap {ℓ} : Type ℓ → Type ℓ
HashMap A = List (String × A)

module _ {ℓ} {A : Type ℓ} where
  abbrev pub map_get : String → HashMap A → Option A
  map_get key [] = none
  map_get key ((k, a) ∷ entries) = if k == key then some a else map_get key entries

  abbrev pub map_insert : String → A → HashMap A → HashMap A
  map_insert key a [] = (key, a) ∷ []
  map_insert key a ((k, b) ∷ entries) =
      if k == key then (k, a) ∷ entries else (k, b) ∷ map_insert key a entries

  abbrev pub map_remove : String → HashMap A → HashMap A
  map_remove key [] = []
  map_remove key ((k, a) ∷ entries) = if k == key then entries else (k, a) ∷ map_remove key entries

pub record DeadTriggerRetryReport : Type 0 where
  pub drained : ℕ
  pub events_retried : ℕ
  pub recovered : ℕ
  pub still_failed : ℕ
  pub submitted : List String

abbrev pub new_report : ℕ → DeadTriggerRetryReport
new_report drained = record {
  drained = drained;
  events_retried = 0;
  recovered = 0;
  still_failed = 0;
  submitted = [];
}

-- The records of a pass, by the text of the event's id: the ids as they first came up, the event that
-- came last for each, and the triggers that failed for it.
pub record Grouped : Type 0 where
  pub order : List String
  pub events : HashMap EventEnvelope
  pub failed_triggers : HashMap (List String)

abbrev pub no_groups : Grouped
no_groups = record { order = []; events = []; failed_triggers = [] }

abbrev pub if_new : Option EventEnvelope → String → List String → List String
if_new none id order = order ++ id ∷ []
if_new (some earlier) id order = order

unfoldable pub group : (EventId → String) → Grouped → DeadTriggerRecord → Grouped
group show_id g dead =
    let id = show_id dead.event.id in
    record {
      order = if_new (map_get id g.events) id g.order;
      events = map_insert id dead.event g.events;
      failed_triggers =
          map_insert id (set_insert dead.trigger_name (unwrap_or (map_get id g.failed_triggers) []))
            g.failed_triggers;
    }

-- What the loop over the triggers of an event counts.
unfoldable pub tally : List String → List String → DeadTriggerRetryReport → DeadTriggerRetryReport
tally now_failed [] report = report
tally now_failed (trigger ∷ triggers) report =
    let rest = tally now_failed triggers in
    if contains now_failed trigger
    then rest (record report { still_failed = report.still_failed + 1 })
    else rest (record report { recovered = report.recovered + 1 })

unfoldable pub account :
    List String → HandleReport → DeadTriggerRetryReport → DeadTriggerRetryReport
unfolding tally
account previously_failed result report =
    tally (map (λ dead. dead.trigger_name) result.failed) previously_failed (record report {
      events_retried = report.events_retried + 1;
      submitted = report.submitted ++ result.submitted;
    })

module _ (W : Worklane) (Q : DeadTriggerQueue) (show_id : EventId → String)
    (r : TriggerRuntime) where
  -- `events.remove(&id).expect(..)`, and the handling.
  unfoldable pub handle_removed :
      Option EventEnvelope → Action (Runtime.Runtime W Q) Halt HandleReport
  handle_removed none s = (err panicked, s)
  handle_removed (some event) s = handle W Q show_id r event s

  -- The loop over the distinct events.
  unfoldable pub retry_each :
      List String
      → HashMap EventEnvelope
      → HashMap (List String)
      → DeadTriggerRetryReport
      → Action (Runtime.Runtime W Q) Halt DeadTriggerRetryReport
  unfolding handle_removed account
  retry_each [] events failed_triggers report = pure report
  retry_each (id ∷ order) events failed_triggers report =
      let previously_failed = unwrap_or (map_get id failed_triggers) [] in
      handle_removed (map_get id events) >>= λ result.
      retry_each order (map_remove id events) (map_remove id failed_triggers)
        (account previously_failed result report)

  -- `retry_dead_triggers` from the drained records on.
  unfoldable pub retry_drained :
      List DeadTriggerRecord → Action (Runtime.Runtime W Q) Halt DeadTriggerRetryReport
  unfolding group retry_each
  retry_drained drained =
      let g = foldl (group show_id) no_groups drained in
      do
        report ← retry_each g.order g.events g.failed_triggers (new_report (length drained))
        modify record_dead_trigger_depth
        pure report

  unfoldable pub retry_dead_triggers : Action (Runtime.Runtime W Q) Halt DeadTriggerRetryReport
  unfolding retry_drained
  retry_dead_triggers = with_error (λ e. returned (storage e)) (on_dead Q.drain) >>= retry_drained
