-- ===== src/Http/Post.antt =====
-- `POST /events`, and its two handlers: one ingests inline, the other accepts and leaves the event
-- to the dispatcher. `serde_json::from_slice` and the texts of the runtime's errors are parameters.
pub mod Laws
pub mod Again
use triggerlane.Common.{
  ℕ, String, Bool, true, false, not, ◌&&◌, List, [], ◌∷◌, ◌++◌, Option, none, some, Result, ok, err,
  Action, pure, raise, with_error, ◌>>=◌, length, if◌then◌else◌,
}
use triggerlane.Common.Int.{ℤ}
use triggerlane.Event.{
  EventId, EventEnvelope, EventMetadata, EventType, Source, new_event, with_metadata,
}
use triggerlane.DeadTriggerQueue.{DeadTriggerQueue}
use triggerlane.EventStore.{EventStore}
use triggerlane.Runtime.{Worklane, TriggerRuntime, Halt}
use triggerlane.Ingest.{Ingest, AcceptReport, ingest, accept}
use triggerlane.Http.{
  StatusCode, HttpRouteError, unauthorized, bad_request, handler, HandlerError, new_error,
}
use triggerlane.Http.Auth.{Headers}
use triggerlane.Http.Webhook.{Signatures, WebhookVerifier, verify}

pub record IncomingEvent : Type 0 where
  pub event_type : EventType
  pub payload : List ℕ
  pub metadata : EventMetadata

unfoldable pub post_events : EventId → ℤ → IncomingEvent → EventEnvelope
unfolding new_event with_metadata
post_events id now input =
    with_metadata (new_event id now Source.http input.event_type input.payload) input.metadata

pub record EventHandlingReport : Type 0 where
  pub submitted : List String
  pub failure_count : ℕ
  pub accepted : Bool

-- `EventHandlingReport::new`
abbrev pub inline_report : List String → ℕ → EventHandlingReport
inline_report submitted failure_count = record {
  submitted = submitted;
  failure_count = failure_count;
  accepted = false;
}

-- `EventHandlingReport::accepted`
abbrev pub accepted_report : EventHandlingReport
accepted_report = record { submitted = []; failure_count = 0; accepted = true }

pub record EventHandler : Type 1 where
  pub State : Type 0
  pub handle_event : EventEnvelope → Action State HandlerError EventHandlingReport

pub record EventResponse : Type 0 where
  pub event_id : String
  pub submitted : List String
  pub failure_count : ℕ
  pub accepted : Bool

unfoldable pub respond : String → EventHandlingReport → StatusCode × EventResponse
respond event_id report = (
  if report.accepted then 202 else 200,
  record {
    event_id = event_id;
    submitted = report.submitted;
    failure_count = report.failure_count;
    accepted = report.accepted;
  },
)

module _ (H : Headers) (G : Signatures) where
  unfoldable pub refuses : Option WebhookVerifier → H.HeaderMap → List ℕ → Bool
  refuses none headers body = false
  refuses (some verifier) headers body = not (verify H G verifier headers body)

  module _ (from_slice : List ℕ → Result IncomingEvent String) (show_id : EventId → String)
      (E : EventHandler) where
    -- `post_events_route`, from the parsed body on.
    unfoldable pub post_parsed :
        EventId
        → ℤ
        → Result IncomingEvent String
        → Action E.State HttpRouteError (StatusCode × EventResponse)
    unfolding post_events respond
    post_parsed id now (err error) = raise (bad_request error)
    post_parsed id now (ok input) =
        let event = post_events id now input in
        with_error handler (E.handle_event event) >>= λ report.
        pure (respond (show_id event.id) report)

    unfoldable pub post_events_route :
        Option WebhookVerifier
        → EventId
        → ℤ
        → H.HeaderMap
        → List ℕ
        → Action E.State HttpRouteError (StatusCode × EventResponse)
    unfolding post_parsed refuses
    post_events_route verifier id now headers body =
        if refuses verifier headers body
        then raise unauthorized
        else post_parsed id now (from_slice body)

-- The sending half of the dispatch channel: what waits in it, and whether it still has a receiver.
-- `send` waits for room, so the channel's capacity bounds no result.
pub record Accepting (S : EventStore) (W : Worklane) (Q : DeadTriggerQueue) : Type 0 where
  pub ingest : Ingest S W Q
  pub channel : List EventEnvelope
  pub open_channel : Bool

module _ (S : EventStore) (W : Worklane) (Q : DeadTriggerQueue) (show_id : EventId → String)
    (show_halt : Halt → String) (r : TriggerRuntime) where
  abbrev pub handler_error : Halt → HandlerError
  handler_error error = new_error (show_halt error)

  -- `IngestEventHandler`
  unfoldable pub ingest_event :
      EventEnvelope → Action (Ingest S W Q) HandlerError EventHandlingReport
  ingest_event event = with_error handler_error (ingest S W Q show_id r event) >>= λ report.
      pure (inline_report report.handle.submitted (length report.handle.failed))

  unfoldable pub ingest_event_handler : EventHandler
  unfolding ingest_event
  ingest_event_handler = record { State = Ingest S W Q; handle_event = ingest_event }

  abbrev pub on_ingest :
      {A : Type 0} → Action (Ingest S W Q) Halt A → Action (Accepting S W Q) Halt A
  on_ingest m s = let (answer, ingest) = m s.ingest in (answer, record s { ingest = ingest })

  abbrev pub send : EventEnvelope → Action (Accepting S W Q) HandlerError (Unit {0})
  send event s =
      if s.open_channel
      then (ok tt, record s { channel = s.channel ++ event ∷ [] })
      else (err (new_error "dispatch channel closed"), s)

  abbrev pub send_if_fresh :
      EventEnvelope → AcceptReport → Action (Accepting S W Q) HandlerError (Unit {0})
  send_if_fresh event report = if not report.deduplicated then send event else pure tt

  -- `AcceptEventHandler`
  unfoldable pub accept_event :
      EventEnvelope → Action (Accepting S W Q) HandlerError EventHandlingReport
  accept_event event =
      with_error handler_error (on_ingest (accept S W Q show_id r event)) >>= λ report.
      send_if_fresh event report >>= λ u. pure accepted_report

  unfoldable pub accept_event_handler : EventHandler
  unfolding accept_event
  accept_event_handler = record { State = Accepting S W Q; handle_event = accept_event }
