-- ===== src/Http/Read.antt =====
-- The read router: stored events, replays and dead triggers. The texts of event ids and errors are
-- parameters; a range is given with its times read.
pub mod Laws
use triggerlane.Common.{
  ℕ, String, ◌<>◌, ◌==◌, string_eq, Bool, true, false, List, Option, none, some, Result, ok, err,
  Action, pure, raise, lift, gets, with_error, map_err, ◌>>=◌, length, take, drop, if◌then◌else◌,
}
use triggerlane.Common.Int.{ℤ}
use triggerlane.Event.{EventId, EventEnvelope, EventType, Source, unwrap_or}
use triggerlane.DeadTrigger.{DeadTriggerRecord}
use triggerlane.DeadTriggerQueue.{DeadTriggerQueue}
use triggerlane.EventStore.{EventStore}
use triggerlane.Runtime
use triggerlane.Runtime.{Worklane, TriggerRuntime, Halt}
use triggerlane.Runtime.Replay.{
  ReplayError, event_not_found, runtime, ReplayFilter, preview_range, replay_by_id, replay_range,
}
use triggerlane.Ingest.{Ingest}
use triggerlane.Http.{HttpRouteError, bad_request, not_found, handler, new_error}
use triggerlane.Http.Auth.{Headers, ReadAuth, require_read_auth}
use triggerlane.Http.Post.{EventResponse}

abbrev pub default_event_list_limit : ℕ
default_event_list_limit = 1000

pub record ListEventsQuery : Type 0 where
  pub limit : Option ℕ
  pub offset : Option ℕ

pub record ReplayRangeQuery : Type 0 where
  pub start : ℤ
  pub end : ℤ
  pub event_type : Option String
  pub source : Option String
  pub dry_run : Bool

pub record ReplayRangeResponse : Type 0 where
  pub matched : ℕ
  pub dry_run : Bool

-- The routes, with what axum extracts for each.
pub data ReadRequest : Type 0 where
  list_events : ListEventsQuery → ReadRequest
  get_event replay_event : String → ReadRequest
  replay_events : ReplayRangeQuery → ReadRequest
  list_dead_triggers : ReadRequest

pub data ReadBody : Type 0 where
  event_list : List EventEnvelope → ReadBody
  one_event : EventEnvelope → ReadBody
  replayed : EventResponse → ReadBody
  range_replayed : ReplayRangeResponse → ReadBody
  dead_trigger_list : List DeadTriggerRecord → ReadBody

module _ (S : EventStore) where
  unfoldable pub list_events_route : ListEventsQuery → S.State → List EventEnvelope
  list_events_route page store =
      take (unwrap_or page.limit default_event_list_limit)
        (drop (unwrap_or page.offset 0) (S.all store))

-- The names are those of the derived `Deserialize`.
unfoldable pub source_named : String → Option Source
source_named raw =
    if raw == "Http"
    then some Source.http
    else if raw == "GitHub"
    then some Source.github
    else if raw == "Discord"
    then some Source.discord
    else if raw == "Slack"
    then some Source.slack
    else if raw == "Cron"
    then some Source.cron
    else if raw == "Manual"
    then some Source.manual
    else none

abbrev pub event_response : String → List String → ℕ → EventResponse
event_response event_id submitted failure_count = record {
  event_id = event_id;
  submitted = submitted;
  failure_count = failure_count;
  accepted = false;
}

abbrev pub range_response : ℕ → Bool → ReplayRangeResponse
range_response matched dry_run = record { matched = matched; dry_run = dry_run }

abbrev pub replay_filter_of : Option EventType → Option Source → ReplayFilter
replay_filter_of event_type source = record { event_type = event_type; source = source }

module _ (parse_id : String → Result EventId String) (show_debug : String → String) where
  unfoldable pub parse_source : String → Result Source HttpRouteError
  unfolding source_named
  parse_source raw = elim (source_named raw) [
    | some source ↦ ok source
    | none ↦ err (bad_request ("unknown source " <> show_debug raw))
  ]

  abbrev pub with_source :
      Option String → Result Source HttpRouteError → Result ReplayFilter HttpRouteError
  with_source event_type (ok source) = ok (replay_filter_of event_type (some source))
  with_source event_type (err error) = err error

  unfoldable pub replay_filter : Option String → Option String → Result ReplayFilter HttpRouteError
  unfolding parse_source
  replay_filter event_type none = ok (replay_filter_of event_type none)
  replay_filter event_type (some raw) = with_source event_type (parse_source raw)

  unfoldable pub parse_event_id : String → Result EventId HttpRouteError
  parse_event_id raw = map_err (λ error. bad_request ("invalid event id: " <> error)) (parse_id raw)

  module _ (S : EventStore) (W : Worklane) (Q : DeadTriggerQueue) (show_id : EventId → String)
      (show_halt : Halt → String) (r : TriggerRuntime) where
    unfoldable pub replay_to_http : ReplayError → HttpRouteError
    replay_to_http (event_not_found message) = not_found message
    replay_to_http (runtime error) = handler (new_error (show_halt error))

    abbrev pub ok_or_not_found :
        EventId → Option EventEnvelope → Result EventEnvelope HttpRouteError
    ok_or_not_found id none = err (not_found ("event " <> show_id id <> " not found"))
    ok_or_not_found id (some event) = ok event

    unfoldable pub get_event_route : String → Action (Ingest S W Q) HttpRouteError EventEnvelope
    unfolding parse_event_id
    get_event_route raw s =
        (lift (parse_event_id raw) >>= λ id. lift (ok_or_not_found id (S.get id s.store))) s

    -- The runtime's call with the store, which it only reads.
    abbrev pub on_replay :
        {A : Type 0}
        → (S.State → Action (Runtime.Runtime W Q) ReplayError A)
        → Action (Ingest S W Q) HttpRouteError A
    on_replay m =
        with_error replay_to_http
          (λ s. let (answer, after) = m s.store s.runtime in (answer, record s { runtime = after }))

    unfoldable pub replay_by_id_route : String → Action (Ingest S W Q) HttpRouteError EventResponse
    unfolding parse_event_id replay_to_http
    replay_by_id_route raw = lift (parse_event_id raw) >>= λ id.
        on_replay (λ store. replay_by_id W Q S show_id r store id) >>= λ report.
        pure (event_response (show_id id) report.submitted (length report.failed))

    -- `replay_range_route`, from the filter on.
    unfoldable pub replay_narrowed :
        ReplayRangeQuery
        → Result ReplayFilter HttpRouteError
        → Action (Ingest S W Q) HttpRouteError ReplayRangeResponse
    unfolding replay_to_http
    replay_narrowed range (err error) = raise error
    replay_narrowed range (ok filter) =
        if range.dry_run
        then gets (λ s.
          range_response (length (preview_range S s.store range.start range.end filter)) true)
        else (on_replay (λ store. replay_range W Q S show_id r store range.start range.end filter)
            >>= λ report. pure (range_response (length report.events) false))

    unfoldable pub replay_range_route :
        ReplayRangeQuery → Action (Ingest S W Q) HttpRouteError ReplayRangeResponse
    unfolding replay_filter replay_narrowed
    replay_range_route range = replay_narrowed range (replay_filter range.event_type range.source)

    unfoldable pub list_dead_triggers_route : Ingest S W Q → List DeadTriggerRecord
    list_dead_triggers_route s = Q.all s.runtime.dead

    abbrev pub read_route : ReadRequest → Action (Ingest S W Q) HttpRouteError ReadBody
    read_route (list_events page) = gets (λ s. event_list (list_events_route S page s.store))
    read_route (get_event id) = get_event_route id >>= λ event. pure (one_event event)
    read_route (replay_event id) = replay_by_id_route id >>= λ report. pure (replayed report)
    read_route (replay_events range) =
        replay_range_route range >>= λ report. pure (range_replayed report)
    read_route list_dead_triggers = gets (λ s. dead_trigger_list (list_dead_triggers_route s))

    -- `read_router`, with its guard if one is set.
    unfoldable pub read_router :
        (H : Headers)
        → Option ReadAuth
        → H.HeaderMap
        → ReadRequest
        → Action (Ingest S W Q) HttpRouteError ReadBody
    unfolding require_read_auth
    read_router H none headers request = read_route request
    read_router H (some auth) headers request =
        require_read_auth H auth headers (read_route request)
