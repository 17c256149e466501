-- ===== src/Runtime.antt =====
-- crates/triggerlane-runtime/src/lib.rs: the data of `TriggerRuntime`. Its operations are in the
-- modules below. `worklane-core` is the parameter `Worklane`.
pub mod Backoff
pub mod Submit
pub mod Handle
pub mod Replay
pub mod Retry
pub mod Metrics
use triggerlane.Common.{ℕ, String, ◌<>◌, List, [], ◌∷◌, ◌++◌, length, Action, Result, ◌*◌, ◌^◌}
use triggerlane.Event.{EventId, EventType, EventEnvelope, Source}
use triggerlane.Registry.{TriggerRegistry}
use triggerlane.DeadTrigger.{DeadTriggerRecord}
use triggerlane.DeadTriggerQueue.{DeadTriggerQueue}
use triggerlane.Trigger.{BindingError, rejected}
use triggerlane.Jsonl.Read.{IoError}

-- What the runtime uses of `worklane-core`. `invalid_lane` is the error that the runtime builds out
-- of a lane's text and the reason why it is refused.
pub record Worklane : Type 1 where
  pub State : Type 0
  pub Lane : Type 0
  pub LaneError : Type 0
  pub NewJob : Type 0
  pub JobId : Type 0
  pub Error : Type 0
  pub lane_try_from : String → Result Lane LaneError
  pub invalid_lane : String → LaneError → Error
  pub new_job : Lane → String → List ℕ → ℕ → NewJob
  pub with_unique_key : NewJob → String → NewJob
  pub enqueue : NewJob → Action State Error JobId
  pub pending_count : Lane → Action State Error ℕ
  pub show_id : JobId → String
  pub show_error : Error → String

-- Durations are in nanoseconds.
pub record RuntimeOptions : Type 0 where
  pub max_submission_attempts : ℕ
  pub submission_backoff : ℕ

abbrev pub default_options : RuntimeOptions
default_options = record { max_submission_attempts = 1; submission_backoff = 100 * 10 ^ 6 }

pub record HandleReport : Type 0 where
  pub submitted : List String
  pub failed : List DeadTriggerRecord

pub record TriggerTrace : Type 0 where
  pub event_id : String
  pub event_type : EventType
  pub source : Source
  pub matched_triggers : List String
  pub submitted : List String
  pub failure_count : ℕ

-- What is published to the metrics recorder, a constructor for each name.
pub data Metric : Type 0 where
  trigger_matches jobs_submitted trigger_failures : String → Metric
  events_handled : Source → EventType → Metric
  handle_duration : Metric
  dead_triggers dead_trigger_bytes event_store_records event_store_bytes : ℕ → Metric
  broker_pending : String → ℕ → Metric

pub data RuntimeError : Type 0 where
  binding : BindingError → RuntimeError
  storage : IoError → RuntimeError

-- A call ends early with an error, or with a panic out of an `expect`.
pub data Halt : Type 0 where
  returned : RuntimeError → Halt
  panicked : Halt

abbrev pub show_binding_error : BindingError → String
show_binding_error (rejected reason) = "binding rejected event: " <> reason

-- The fields of `TriggerRuntime` that stay as they are.
pub record TriggerRuntime : Type 0 where
  pub registry : TriggerRegistry
  pub options : RuntimeOptions

-- What the calls change: the broker, the queue, the lanes seen, what is sent to the metrics recorder and
-- to the trace sink (`InMemoryTraceSink`, which keeps what it gets), and
-- the delays that were slept.
pub record Runtime (W : Worklane) (Q : DeadTriggerQueue) : Type 0 where
  pub broker : W.State
  pub dead : Q.State
  pub observed_lanes : List String
  pub slept : List ℕ
  pub metrics : List Metric
  pub traces : List TriggerTrace

module _ {W : Worklane} {Q : DeadTriggerQueue} where
  abbrev pub emit : Metric → Runtime W Q → Runtime W Q
  emit metric s = record s { metrics = s.metrics ++ metric ∷ [] }

  -- `record_dead_trigger_depth`
  abbrev pub record_dead_trigger_depth : Runtime W Q → Runtime W Q
  record_dead_trigger_depth s = emit (dead_triggers (Q.len s.dead)) s

  abbrev pub on_dead : {A : Type 0} → Action Q.State IoError A → Action (Runtime W Q) IoError A
  on_dead m s = let (r, dead) = m s.dead in (r, record s { dead = dead })

  abbrev pub on_broker : {A : Type 0} → Action W.State W.Error A → Action (Runtime W Q) W.Error A
  on_broker m s = let (r, broker) = m s.broker in (r, record s { broker = broker })

-- `TriggerTrace::from_event_report`
unfoldable pub from_event_report :
    (EventId → String) → EventEnvelope → List String → HandleReport → TriggerTrace
from_event_report show_id event matched_triggers report = record {
  event_id = show_id event.id;
  event_type = event.event_type;
  source = event.source;
  matched_triggers = matched_triggers;
  submitted = report.submitted;
  failure_count = length report.failed;
}
