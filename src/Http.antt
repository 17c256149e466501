-- ===== src/Http.antt =====
-- crates/triggerlane-http/src/lib.rs: the errors of the routes and their answers, the probes, and
-- the events that come from other services. The other routes are in the modules below.
-- axum routes a request to its handler and enforces the body limit; it has no model here.
pub mod Auth
pub mod Webhook
pub mod Post
pub mod Read
use triggerlane.Common.{
  ℕ, ◌*◌, String, ◌<>◌, ◌==◌, string_eq, Bool, true, false, ◌&&◌, ◌||◌, List, Option, none, some,
  Result, ok, err, if◌then◌else◌,
}
use triggerlane.Common.Int.{ℤ}
use triggerlane.Event.{
  EventId, EventEnvelope, EventType, Source, new_event, event_github_issue_created,
  event_github_pr_created, event_discord_message_created,
}

-- `MAX_EVENT_BODY_BYTES`
abbrev pub max_event_body_bytes : ℕ
max_event_body_bytes = 2 * 1024 * 1024

-- `StatusCode`
abbrev pub StatusCode : Type 0
StatusCode = ℕ

-- The text is what `HandlerError::new` was given.
pub data HandlerError : Type 0 where
  new_error : String → HandlerError

pub data HttpRouteError : Type 0 where
  unauthorized : HttpRouteError
  bad_request not_found : String → HttpRouteError
  handler : HandlerError → HttpRouteError

-- `to_string` of both.
abbrev pub show_handler_error : HandlerError → String
show_handler_error (new_error message) = "event handler failed: " <> message

unfoldable pub show_route_error : HttpRouteError → String
show_route_error unauthorized = "unauthorized: webhook signature verification failed"
show_route_error (bad_request message) = "invalid event json: " <> message
show_route_error (not_found message) = "not found: " <> message
show_route_error (handler error) = show_handler_error error

-- What the client gets: a status, and a value or the text under `error`.
pub record Response (A : Type 0) : Type 0 where
  pub status : StatusCode
  pub body : Result A String

unfoldable pub status_of : HttpRouteError → StatusCode
status_of unauthorized = 401
status_of (bad_request message) = 400
status_of (not_found message) = 404
status_of (handler error) = 500

-- `HttpRouteError::into_response`
unfoldable pub into_response : {A : Type 0} → HttpRouteError → Response A
unfolding status_of show_route_error
into_response error = record { status = status_of error; body = err (show_route_error error) }

-- What axum makes of the value that a handler returns with a status.
abbrev pub answer : {A : Type 0} → Result (StatusCode × A) HttpRouteError → Response A
answer (ok (status, value)) = record { status = status; body = ok value }
answer (err error) = into_response error

-- `Readiness`: the flag that all its handles share.
abbrev pub Readiness : Type 0
Readiness = Bool

abbrev pub ready : Readiness
ready = true

abbrev pub set_ready : Bool → Readiness → Readiness
set_ready value readiness = value

abbrev pub is_ready : Readiness → Bool
is_ready readiness = readiness

unfoldable pub healthz_route : StatusCode
healthz_route = 200

unfoldable pub readyz_route : Readiness → StatusCode
readyz_route readiness = if is_ready readiness then 200 else 503

pub data SourceError : Type 0 where
  unsupported_github_event : String → SourceError

-- The pattern `Some("opened" | "created")`.
abbrev pub is_creation : Option String → Bool
is_creation none = false
is_creation (some action) = action == "opened" || action == "created"

abbrev pub github_event_type : String → Option String → Option EventType
github_event_type event_name action =
    if event_name == "issues" && is_creation action
    then some event_github_issue_created
    else if event_name == "pull_request" && is_creation action
    then some event_github_pr_created
    else none

abbrev pub github_event :
    EventId → ℤ → String → List ℕ → Option EventType → Result EventEnvelope SourceError
github_event id now event_name payload none = err (unsupported_github_event event_name)
github_event id now event_name payload (some event_type) =
    ok (new_event id now Source.github event_type payload)

unfoldable pub github_webhook :
    EventId → ℤ → String → Option String → List ℕ → Result EventEnvelope SourceError
github_webhook id now event_name action payload =
    github_event id now event_name payload (github_event_type event_name action)

unfoldable pub discord_message_created : EventId → ℤ → List ℕ → EventEnvelope
discord_message_created id now payload =
    new_event id now Source.discord event_discord_message_created payload

unfoldable pub slack_event : EventId → ℤ → List ℕ → EventType → EventEnvelope
slack_event id now payload event_type = new_event id now Source.slack event_type payload
