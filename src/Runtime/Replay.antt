-- ===== src/Runtime/Replay.antt =====
-- Replay by id and by range, and the dry run of the latter.
pub mod Laws
use triggerlane.Common.{
  String, List, [], ◌∷◌, ◌++◌, Action, Option, none, some, pure, with_error, ◌>>=◌, Bool, true,
  ◌&&◌, ◌==◌, Eq, string_eq, filter, err, not,
}
use triggerlane.Common.Int.{ℤ, leb_ℤ, ltb_ℤ}
use triggerlane.Event.{EventId, EventEnvelope, EventType, Source}
use triggerlane.DeadTriggerQueue.{DeadTriggerQueue}
use triggerlane.EventStore.{EventStore}
use triggerlane.Runtime
use triggerlane.Runtime.{Worklane, TriggerRuntime, HandleReport, Halt}
use triggerlane.Runtime.Handle.{handle}

-- `ReplayError`; `runtime` holds the error or the panic of the handling.
pub data ReplayError : Type 0 where
  event_not_found : String → ReplayError
  runtime : Halt → ReplayError

pub record ReplayFilter : Type 0 where
  pub event_type : Option String
  pub source : Option Source

-- `Option::is_none_or`, with an equation.
abbrev pub is_none_or {ℓ} : {A : Type ℓ} → (A → Bool) → Option A → Bool
is_none_or test none = true
is_none_or test (some a) = test a

abbrev pub same_source : Source → Source → Bool
same_source Source.http Source.http = true
same_source Source.github Source.github = true
same_source Source.discord Source.discord = true
same_source Source.slack Source.slack = true
same_source Source.cron Source.cron = true
same_source Source.manual Source.manual = true
same_source _ _ = not true

-- `ReplayFilter::matches`
unfoldable pub matches : ReplayFilter → EventEnvelope → Bool
matches filter event =
    is_none_or (λ wanted. event.event_type == wanted) filter.event_type
    && is_none_or (λ wanted. same_source event.source wanted) filter.source

abbrev pub in_window : ℤ → ℤ → EventEnvelope → Bool
in_window start end event = leb_ℤ start event.timestamp && ltb_ℤ event.timestamp end

pub record ReplayEventReport : Type 0 where
  pub event_id : String
  pub report : HandleReport

pub record ReplayRangeReport : Type 0 where
  pub events : List ReplayEventReport

abbrev pub range_report : List ReplayEventReport → ReplayRangeReport
range_report events = record { events = events }

module _ (S : EventStore) where
  unfoldable pub preview_range : S.State → ℤ → ℤ → ReplayFilter → List EventEnvelope
  preview_range store start end narrowing =
      filter (matches narrowing) (filter (in_window start end) (S.all store))

module _ (W : Worklane) (Q : DeadTriggerQueue) (S : EventStore) (show_id : EventId → String)
    (r : TriggerRuntime) where
  unfoldable pub found :
      EventId → Option EventEnvelope → Action (Runtime.Runtime W Q) ReplayError HandleReport
  found event_id none s = (err (event_not_found (show_id event_id)), s)
  found event_id (some event) s = with_error runtime (handle W Q show_id r event) s

  unfoldable pub replay_by_id :
      S.State → EventId → Action (Runtime.Runtime W Q) ReplayError HandleReport
  unfolding found
  replay_by_id store event_id = found event_id (S.get event_id store)

  -- The loop of `replay_range`.
  unfoldable pub replay_each :
      List EventEnvelope
      → List ReplayEventReport
      → Action (Runtime.Runtime W Q) ReplayError (List ReplayEventReport)
  replay_each [] events = pure events
  replay_each (event ∷ rest) events = with_error runtime (handle W Q show_id r event) >>= λ report.
      replay_each rest (events ++ record { event_id = show_id event.id; report = report } ∷ [])

  unfoldable pub replay_range :
      S.State → ℤ → ℤ → ReplayFilter → Action (Runtime.Runtime W Q) ReplayError ReplayRangeReport
  unfolding replay_each
  replay_range store start end narrowing =
      replay_each (filter (matches narrowing) (filter (in_window start end) (S.all store))) []
      >>= λ events. pure (range_report events)
