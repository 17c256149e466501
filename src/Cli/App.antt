-- ===== src/Cli/App.antt =====
-- `build_ingest`, and the router that `serve_ingest` puts together: the posted events, the read
-- routes, the probes and the metrics.
pub mod Laws
use triggerlane.Common.{
  ℕ, String, Bool, true, false, List, [], ◌∷◌, Option, none, some, Result, ok, err, Action, pure,
  map_err, ◌>>=◌,
}
use triggerlane.Common.Int.{ℤ}
use triggerlane.Event.{EventId, EventEnvelope}
use triggerlane.DeadTriggerQueue.{DeadTriggerQueue}
use triggerlane.EventStore.{EventStore}
use triggerlane.Jsonl.Read.{IoError}
use triggerlane.Registry.{TriggerRegistry}
use triggerlane.Runtime
use triggerlane.Runtime.{Worklane, TriggerRuntime, RuntimeOptions, Halt, record_dead_trigger_depth}
use triggerlane.Ingest.{Ingest}
use triggerlane.Http.{
  HttpRouteError, HandlerError, Response, StatusCode, Readiness, healthz_route, readyz_route,
  into_response,
}
use triggerlane.Http.Auth.{Headers}
use triggerlane.Http.Webhook.{Signatures}
use triggerlane.Http.Post.{
  Accepting, EventHandler, EventHandlingReport, EventResponse, IncomingEvent, accept_event,
  ingest_event, post_events_route,
}
use triggerlane.Http.Read.{ReadRequest, ReadBody, read_router}
use triggerlane.Cli.Errors.{CliError, io}
use triggerlane.Cli.Settings.{and_then_ok}
use triggerlane.Cli.Serve.{ServeConfig}

abbrev pub new_runtime : TriggerRegistry → RuntimeOptions → TriggerRuntime
new_runtime registry options = record { registry = registry; options = options }

module _ (S : EventStore) (W : Worklane) (Q : DeadTriggerQueue) where
  -- A runtime whose gauge of the queue is published as the queue is set.
  abbrev pub new_ingest : W.State → S.State → Q.State → Ingest S W Q
  new_ingest broker store dead = record {
    store = store;
    runtime = record_dead_trigger_depth (record {
      broker = broker;
      dead = dead;
      observed_lanes = [];
      slept = [];
      metrics = [];
      traces = [];
    });
  }

  -- From what opening the stores, loading the registry and reading the options give.
  unfoldable pub build_ingest :
      W.State
      → Result S.State IoError
      → Result Q.State IoError
      → Result TriggerRegistry CliError
      → Result RuntimeOptions CliError
      → Result (TriggerRuntime × Ingest S W Q) CliError
  build_ingest broker open_store open_queue load options =
      and_then_ok (map_err io open_store) λ store. and_then_ok (map_err io open_queue) λ dead.
        and_then_ok load λ registry.
          and_then_ok options
            λ settings. ok (new_runtime registry settings, new_ingest broker store dead)

  -- The state that the routes share.
  pub record Service : Type 0 where
    pub accepting : Accepting S W Q
    pub readiness : Readiness

-- The requests, by the route that takes them.
pub data Request (H : Headers) : Type 0 where
  post_event : H.HeaderMap → List ℕ → EventId → ℤ → Request H
  read : H.HeaderMap → ReadRequest → Request H
  healthz readyz metrics : Request H

pub data Body : Type 0 where
  event_body : EventResponse → Body
  read_body : ReadBody → Body
  metrics_text : String → Body
  no_body : Body

abbrev pub respond_with : StatusCode → Body → Response Body
respond_with status body = record { status = status; body = ok body }

abbrev pub posted : Result (StatusCode × EventResponse) HttpRouteError → Response Body
posted (ok (status, response)) = respond_with status (event_body response)
posted (err error) = into_response error

abbrev pub answered : Result ReadBody HttpRouteError → Response Body
answered (ok body) = respond_with 200 (read_body body)
answered (err error) = into_response error

module _ (S : EventStore) (W : Worklane) (Q : DeadTriggerQueue) (show_id : EventId → String)
    (show_halt : Halt → String) (r : TriggerRuntime) where
  -- The inline handler, on the shared state.
  abbrev pub ingest_shared :
      EventEnvelope → Action (Accepting S W Q) HandlerError EventHandlingReport
  ingest_shared event s =
      let (answer, after) = ingest_event S W Q show_id show_halt r event s.ingest in
      (answer, record s { ingest = after })

  abbrev pub handle_posted :
      Option ℕ → EventEnvelope → Action (Accepting S W Q) HandlerError EventHandlingReport
  handle_posted (some capacity) = accept_event S W Q show_id show_halt r
  handle_posted none = ingest_shared

  abbrev pub events_handler : ServeConfig → EventHandler
  events_handler config = record {
    State = Accepting S W Q;
    handle_event = handle_posted config.dispatch_capacity;
  }

  module _ (H : Headers) (G : Signatures) (from_slice : List ℕ → Result IncomingEvent String)
      (parse_id : String → Result EventId String) (show_debug : String → String)
      (render : Service S W Q → String) where
    unfoldable pub serve_ingest :
        ServeConfig → Request H → Service S W Q → Response Body × Service S W Q
    unfolding post_events_route read_router healthz_route readyz_route into_response
    serve_ingest config (post_event headers body id now) s =
        let (answer, after) =
          post_events_route H G from_slice show_id (events_handler config) config.verifier id now
            headers body s.accepting in
        (posted answer, record s { accepting = after })
    serve_ingest config (read headers request) s =
        let (answer, after) =
          read_router parse_id show_debug S W Q show_id show_halt r H config.read_auth headers
            request s.accepting.ingest in
        (answered answer, record s { accepting = record s.accepting { ingest = after } })
    serve_ingest config healthz s = (respond_with healthz_route no_body, s)
    serve_ingest config readyz s = (respond_with (readyz_route s.readiness) no_body, s)
    serve_ingest config metrics s = (respond_with 200 (metrics_text (render s)), s)
