-- ===== src/Event.antt =====
-- crates/triggerlane-core/src/event.rs: the event envelope, its metadata, and follow-up events.
-- An event id is the 128-bit number of its UUID; the text of a UUID belongs to the `uuid` crate and
-- is the parameter `show_id`. A fresh id and the current time are arguments.
pub mod Chain
use triggerlane.Common.{ℕ, String, Option, none, some, List}
use triggerlane.Common.Int.{ℤ}

abbrev pub EventId : Type 0
EventId = ℕ

pub data Source : Type 0 where
  http github discord slack cron manual : Source

abbrev pub EventType : Type 0
EventType = String

abbrev pub event_github_issue_created : EventType
event_github_issue_created = "event.github.issue.created"

abbrev pub event_github_pr_created : EventType
event_github_pr_created = "event.github.pr.created"

abbrev pub event_discord_message_created : EventType
event_discord_message_created = "event.discord.message.created"

abbrev pub event_cron_daily : EventType
event_cron_daily = "event.cron.daily"

pub record EventMetadata : Type 0 where
  pub trace_id : Option String
  pub correlation_id : Option String
  pub tenant_id : Option String
  pub idempotency_key : Option String
  pub causation_id : Option String

-- The derived `Default`.
abbrev pub default_metadata : EventMetadata
default_metadata = record {
  trace_id = none;
  correlation_id = none;
  tenant_id = none;
  idempotency_key = none;
  causation_id = none;
}

-- The timestamp counts nanoseconds from the Unix epoch.
pub record EventEnvelope : Type 0 where
  pub id : EventId
  pub source : Source
  pub event_type : EventType
  pub payload : List ℕ
  pub timestamp : ℤ
  pub metadata : EventMetadata

-- `EventEnvelope::new`, at a fresh id and the current time.
unfoldable pub new_event : EventId → ℤ → Source → EventType → List ℕ → EventEnvelope
new_event id now source event_type payload = record {
  id = id;
  source = source;
  event_type = event_type;
  payload = payload;
  timestamp = now;
  metadata = default_metadata;
}

unfoldable pub with_metadata : EventEnvelope → EventMetadata → EventEnvelope
with_metadata event metadata = record event { metadata = metadata }

-- `Option::or_else` and `Option::unwrap_or_else` at a value.
abbrev pub or_else {ℓ} : {A : Type ℓ} → Option A → Option A → Option A
or_else (some a) b = some a
or_else none b = b

abbrev pub unwrap_or {ℓ} : {A : Type ℓ} → Option A → A → A
unwrap_or (some a) b = a
unwrap_or none b = b

module _ (show_id : EventId → String) where
  unfoldable pub follow_up :
      EventEnvelope → EventId → ℤ → Source → EventType → List ℕ → EventEnvelope
  unfolding new_event with_metadata
  follow_up cause id now source event_type payload =
      let correlation_id = or_else cause.metadata.correlation_id (some (show_id cause.id)) in
      with_metadata (new_event id now source event_type payload) (record {
        trace_id = cause.metadata.trace_id;
        correlation_id = correlation_id;
        tenant_id = cause.metadata.tenant_id;
        idempotency_key = none;
        causation_id = some (show_id cause.id);
      })
