-- ===== src/Tests/Worker.antt =====
-- The routes at small requests, and the worker at a job that times out.
use triggerlane.Common.{
  ◌≡◌, ◌≢◌, ◌⊎◌, ◌↔◌, ℕ, ◌+◌, ◌<◌, String, true, List, [], ◌∷◌, ◌++◌, none, some, Result, ok, err,
  refl, arith, Action, ◌==◌, string_eq, if◌then◌else◌,
}
use triggerlane.Event.{default_metadata}
use triggerlane.Event.{EventId}
use triggerlane.Http.Auth.{Headers, ReadAuth, bearer, header_text}
use triggerlane.Retention.{unbounded}
use triggerlane.Cli.Serve.{ServeConfig, serve_config}
use triggerlane.Cli.App.{Service, Request, read, serve_ingest}
use triggerlane.Cli.App.Laws.{IsAuthorized, serve_ingest_unauthorized}
use triggerlane.Http.Webhook.{Signatures, github}
use triggerlane.Http.Read.{list_dead_triggers, read_router}
use triggerlane.Http.Read.Laws.{read_router_guard}
use triggerlane.Http.{unauthorized}
use triggerlane.Http.Post.{IncomingEvent, EventHandler, ingest_event, post_events_route}
use triggerlane.Http.Post.Laws.{Admits, PostOutcome, post_events_route_cases}
use triggerlane.Common.Int.{pos}
use triggerlane.Ingest.{Ingest}
use triggerlane.Runtime.{Halt}
use triggerlane.Cli.Settings.{same_text}
use triggerlane.Invoker.{
  Broker, Reservation, InvokerConfig, deadline, heartbeat, ProcessOutcome, retried, timed_out,
  process_reservation, resolve,
}
use triggerlane.Invoker.Laws.{
  is_retryable, NotStale, process_reservation_total, resolve-retried_iff,
}
use triggerlane.Tests.Fixtures.{worklane, queue, events, deployment, show_id, start}

-- A request's only header.
abbrev headers : Headers
headers = record {
  HeaderMap = String × List ℕ;
  Value = List ℕ;
  get = λ name map. if map.0 == name then some map.1 else none;
  to_str = λ value. some value;
}

abbrev auth : ReadAuth
auth = record { token = 7 ∷ 8 ∷ [] }

abbrev wrong_token : String × List ℕ
wrong_token = ("authorization", bearer ++ 7 ∷ 9 ∷ [])

abbrev parse_id : String → Result EventId String
parse_id raw = ok 0

abbrev quoted : String → String
quoted text = text

abbrev halted : Halt → String
halted halt = "halted"

read_router_guard_example :
    let open_router =
      read_router parse_id quoted events worklane
        (queue 5)
        show_id
        halted
        deployment
        headers
        none
        wrong_token in
    let router =
      read_router parse_id quoted events worklane
        (queue 5)
        show_id
        halted
        deployment
        headers
        (some auth)
        wrong_token in
    ((header_text headers "authorization" wrong_token ≡ some (bearer ++ auth.token))
      × (router list_dead_triggers start ≡ open_router list_dead_triggers start))
    ⊎ ((header_text headers "authorization" wrong_token ≢ some (bearer ++ auth.token))
        × (router list_dead_triggers start ≡ (err unauthorized, start)))
read_router_guard_example =
    read_router_guard parse_id quoted events worklane (queue 5) show_id halted deployment headers
      auth wrong_token list_dead_triggers start

-- A signature is valid if it is the body.
abbrev signatures : Signatures
signatures = record {
  Mac = List ℕ;
  decode = λ text. some text;
  new_from_slice = λ secret. some [];
  update = λ body mac. body;
  verify_slice = λ expected mac. same_text expected mac;
}

abbrev signed : String × List ℕ
signed = ("x-hub-signature-256", 1 ∷ [])

abbrev incoming : List ℕ → Result IncomingEvent String
incoming body = ok (record { event_type = "ping"; payload = body; metadata = default_metadata })

abbrev inline_handler : EventHandler
inline_handler = record {
  State = Ingest events worklane (queue 5);
  handle_event = ingest_event events worklane (queue 5) show_id halted deployment;
}

post_events_route_cases_example :
    PostOutcome headers signatures incoming show_id inline_handler
      (Admits headers signatures (some (github [])) signed (1 ∷ []))
      (incoming (1 ∷ []))
      0
      (pos 5)
      start
      (post_events_route headers signatures incoming show_id inline_handler
        (some (github []))
        0
        (pos 5)
        signed
        (1 ∷ [])
        start)
post_events_route_cases_example =
    post_events_route_cases headers signatures incoming show_id inline_handler (some (github [])) 0
      (pos 5) signed (1 ∷ []) start

-- A broker that counts the calls and answers the first extension as stale.
abbrev counted : {A : Type 0} → A → Action ℕ String A
counted a n = (ok a, n + 1)

abbrev stale : Action ℕ String (Unit {0})
stale n = (err "stale", n + 1)

abbrev broker : Broker
broker = record {
  State = ℕ;
  Error = String;
  JobId = ℕ;
  Receipt = ℕ;
  Lane = String;
  RetryPolicy = ℕ;
  is_stale = λ error. error == "stale";
  show_error = λ error. error;
  delay_for = λ policy attempts. policy + attempts;
  reserve = λ lane. counted none;
  extend = λ receipt. stale;
  ack = λ receipt. counted tt;
  retry = λ receipt delay. counted tt;
  fail = λ receipt error. counted tt;
  read_dead_letters = λ lane limit. counted [];
  requeue = λ id. counted tt;
}

abbrev config : InvokerConfig broker
config = record { lane = "lane"; deadline = 100; retry_policy = 10 }

abbrev reservation : Reservation ℕ ℕ
reservation = record {
  receipt = 1;
  envelope = record {
    id = 2;
    lane = "lane";
    kind = "kind";
    payload = [];
    attempts = 0;
    max_attempts = 3;
  };
  lease = 50;
}

process_reservation_total_example :
    (out : Result ProcessOutcome String × ℕ) × (process_reservation broker config reservation
        (heartbeat ∷ heartbeat ∷ deadline ∷ [])
        0
      ≡ some out)
    × NotStale broker out.0
process_reservation_total_example =
    process_reservation_total broker config reservation (heartbeat ∷ heartbeat ∷ deadline ∷ []) 0
      refl

resolve-retried_iff_example :
    ((resolve broker config reservation timed_out 0).0 ≡ ok (retried 10)) ↔ (
      (is_retryable timed_out ≡ true)
      × (reservation.envelope.attempts + 1 < reservation.envelope.max_attempts)
      × (broker.delay_for config.retry_policy reservation.envelope.attempts ≡ 10)
      × ((broker.retry reservation.receipt 10 0).0 ≡ ok tt))
resolve-retried_iff_example =
    resolve-retried_iff broker config reservation timed_out 0 10 (omega arith)

abbrev guarded : ServeConfig
guarded = serve_config (some (github [])) (some auth) none unbounded 1 none

abbrev service : Service events worklane (queue 5)
service = record {
  accepting = record { ingest = start; channel = []; open_channel = true };
  readiness = true;
}

abbrev nothing : Service events worklane (queue 5) → String
nothing s = ""

abbrev wrong_request : Request headers
wrong_request = read wrong_token list_dead_triggers

wrong_request_lacks_token : ¬ IsAuthorized headers signatures guarded wrong_request
unfolding string_eq
wrong_request_lacks_token e = ground (arith, e)

serve_ingest_unauthorized_example :
    let out =
      serve_ingest events worklane
        (queue 5)
        show_id
        halted
        deployment
        headers
        signatures
        incoming
        parse_id
        quoted
        nothing
        guarded
        wrong_request
        service in
    (out.0.status ≡ 401) × (out.1 ≡ service)
serve_ingest_unauthorized_example =
    serve_ingest_unauthorized headers signatures events worklane (queue 5) show_id halted deployment
      incoming parse_id quoted nothing guarded wrong_request service wrong_request_lacks_token
