-- ===== src/Cli/Commands.antt =====
-- `run` and the subcommands, on the stores and the runtime that they open. What they print is given
-- as an `Output`. The parser of the arguments is clap's, and has no model.
use triggerlane.Common.{
  ℕ, ◌+◌, String, ◌<>◌, Bool, Option, none, some, List, [], ◌∷◌, Result, ok, err, Action, pure,
  lift, gets, with_error, map_err, ◌>>=◌, ◌>>◌, length, if◌then◌else◌,
}
use triggerlane.Common.Int.{ℤ}
use triggerlane.Event.{
  EventId, EventEnvelope, EventMetadata, EventType, Source, new_event, with_metadata,
}
use triggerlane.DeadTrigger.{DeadTriggerRecord}
use triggerlane.DeadTriggerQueue.{DeadTriggerQueue}
use triggerlane.EventStore.{EventStore}
use triggerlane.Retention.{ManualRetention, keep_most_recent}
use triggerlane.Registry.{TriggerRegistry}
use triggerlane.Config.{ConfigError}
use triggerlane.Jsonl.Read.{IoError}
use triggerlane.Runtime
use triggerlane.Runtime.{Worklane, TriggerRuntime, RuntimeOptions, Halt, record_dead_trigger_depth}
use triggerlane.Runtime.Replay.{ReplayError, preview_range, replay_by_id, replay_range}
use triggerlane.Runtime.Retry.{DeadTriggerRetryReport, retry_dead_triggers}
use triggerlane.Ingest.{Ingest, ingest}
use triggerlane.Http.Read.{source_named, replay_filter_of}
use triggerlane.Cli.Number.{Text}
use triggerlane.Cli.Duration.{Chrono}
use triggerlane.Cli.Errors.{CliError, events, broker, config, io, runtime}
use triggerlane.Cli.Broker.{default_registry}
use triggerlane.Cli.Settings.{prune_older_than}

pub data PrunePolicy : Type 0 where
  older_than : Text → PrunePolicy
  keep : ℕ → PrunePolicy

pub record RangeArgs : Type 0 where
  pub start : String
  pub end : String
  pub event_type : Option EventType
  pub source : Option String
  pub dry_run : Bool

-- The commands that open a store and a broker.
pub data Command : Type 0 where
  inject_event : EventType → List ℕ → Command
  load_file : String → Command
  retry_dead : Command
  list_events list_dead_triggers : Command
  get_event replay_event : String → Command
  replay_events : RangeArgs → Command
  list_dead_letters : String → ℕ → Command
  count_dead_letters purge_dead_letters : String → Command

-- A dead letter comes as the JSON of its envelope and its error.
pub data Output : Type 0 where
  ingested : String → ℕ → Output
  loaded : ℕ → ℕ → Output
  retried : DeadTriggerRetryReport → Output
  pruned : ℕ → ℕ → Output
  event_lines : List EventEnvelope → Output
  dead_trigger_lines : List DeadTriggerRecord → Output
  replayed : String → ℕ → Output
  would_replay replayed_range counted purged : ℕ → Output
  dead_letter_lines : List (String × String) → Output

pub record FileEvent : Type 0 where
  pub event_type : EventType
  pub payload : List ℕ
  pub metadata : EventMetadata

unfoldable pub inject : EventId → ℤ → EventType → List ℕ → EventEnvelope
inject id now event_type payload = new_event id now Source.manual event_type payload

-- Each event has a fresh id and the time of its making.
unfoldable pub file_events : (ℕ → EventId × ℤ) → ℕ → List FileEvent → List EventEnvelope
file_events fresh n [] = []
file_events fresh n (input ∷ inputs) =
    let (id, now) = fresh n in
    with_metadata (new_event id now Source.manual input.event_type input.payload) input.metadata
    ∷ file_events fresh (n + 1) inputs

-- `load_registry`: the file that the environment names, if it names one.
unfoldable pub load_registry :
    Option (Result TriggerRegistry ConfigError) → Result TriggerRegistry CliError
unfolding default_registry
load_registry none = ok default_registry
load_registry (some loaded_file) = map_err config loaded_file

-- The order in which `prune` asks the two stores.
module _ (S : EventStore) (Q : DeadTriggerQueue) where
  abbrev pub on_first :
      {A : Type 0} → Action S.State IoError A → Action (S.State × Q.State) CliError A
  on_first m s = let (answer, store) = m s.0 in (map_err io answer, (store, s.1))

  abbrev pub on_second :
      {A : Type 0} → Action Q.State IoError A → Action (S.State × Q.State) CliError A
  on_second m s = let (answer, queue) = m s.1 in (map_err io answer, (s.0, queue))

  module _ (show_debug : Text → Text) (chrono : Chrono) (now : ℤ) where
    unfoldable pub resolve_prune_policy : PrunePolicy → Result ManualRetention CliError
    resolve_prune_policy (older_than duration) = prune_older_than show_debug chrono now duration
    resolve_prune_policy (keep count) = ok (keep_most_recent count)

    -- The queue is opened after the store was pruned; what opening the two gives is an argument.
    unfoldable pub run_prune :
        Result (Unit {0}) IoError
        → Result (Unit {0}) IoError
        → PrunePolicy
        → Action (S.State × Q.State) CliError Output
    unfolding resolve_prune_policy
    run_prune open_store open_queue policy = do
      retention ← lift (resolve_prune_policy policy)
      lift (map_err io open_store)
      n ← on_first (S.prune retention)
      lift (map_err io open_queue)
      m ← on_second (Q.prune retention)
      pure (pruned n m)

-- What the subcommand `worklane-dlq` uses of a broker.
pub record DeadLetters (W : Worklane) : Type 0 where
  pub read_dead_letters : W.Lane → ℕ → Action W.State W.Error (List (String × String))
  pub count_letters : W.Lane → Action W.State W.Error ℕ
  pub purge_letters : W.Lane → Action W.State W.Error ℕ
  pub show_lane_error : W.LaneError → String

-- What is read outside: ids, times, files and the texts of errors.
pub record Reading : Type 0 where
  pub parse_id : String → Result EventId String
  pub parse_time : String → Result ℤ String
  pub read_events_file : String → Result (List FileEvent) CliError
  pub show_debug : String → String
  pub show_replay_error : ReplayError → String

module _ (reading : Reading) where
  unfoldable pub parse_event_id : String → Result EventId CliError
  parse_event_id raw =
      map_err (λ error. events ("invalid event id " <> (reading.show_debug raw <> (": " <> error))))
        (reading.parse_id raw)

  unfoldable pub parse_timestamp : String → Result ℤ CliError
  parse_timestamp raw =
      map_err
        (λ error. events ("invalid timestamp " <> (reading.show_debug raw <> (": " <> error))))
        (reading.parse_time raw)

  abbrev pub known_source : String → Option Source → Result (Option Source) CliError
  known_source raw none = err (events ("unknown source " <> reading.show_debug raw))
  known_source raw (some source) = ok (some source)

  unfoldable pub parse_source : Option String → Result (Option Source) CliError
  unfolding source_named
  parse_source none = ok none
  parse_source (some raw) = known_source raw (source_named raw)

  module _ (S : EventStore) (W : Worklane) (Q : DeadTriggerQueue) (L : DeadLetters W)
      (show_id : EventId → String) (r : TriggerRuntime) (fresh : ℕ → EventId × ℤ) where
    -- The loop of `load-file`, which ends at the first error.
    unfoldable pub load_each : List EventEnvelope → ℕ → Action (Ingest S W Q) CliError ℕ
    load_each [] submitted = pure submitted
    load_each (event ∷ rest) submitted =
        with_error runtime (ingest S W Q show_id r event) >>= λ report.
        load_each rest (submitted + length report.handle.submitted)

    abbrev pub one_line : EventId → Option EventEnvelope → Result Output CliError
    one_line id none = err (events ("event " <> (show_id id <> " not found")))
    one_line id (some event) = ok (event_lines (event ∷ []))

    abbrev pub replaying :
        {A : Type 0}
        → (S.State → Action (Runtime.Runtime W Q) ReplayError A)
        → Action (Ingest S W Q) CliError A
    replaying m =
        with_error (λ error. events (reading.show_replay_error error))
          (λ s. let (answer, after) = m s.store s.runtime in (answer, record s { runtime = after }))

    unfoldable pub replay_range_args : RangeArgs → Action (Ingest S W Q) CliError Output
    unfolding parse_timestamp parse_source
    replay_range_args args = lift (parse_timestamp args.start) >>= λ start.
        lift (parse_timestamp args.end) >>= λ end. lift (parse_source args.source) >>= λ source.
        let filter = replay_filter_of args.event_type source in
        if args.dry_run
        then gets (λ s. would_replay (length (preview_range S s.store start end filter)))
        else (replaying (λ store. replay_range W Q S show_id r store start end filter) >>= λ report.
            pure (replayed_range (length report.events)))

    -- A call of the broker on a lane that is given by its name.
    abbrev pub on_lane :
        {A : Type 0}
        → String
        → (W.Lane → Action W.State W.Error A)
        → Action (Ingest S W Q) CliError A
    on_lane name call =
        lift (
          map_err
            (λ error.
              broker
                ("invalid lane " <> (reading.show_debug name <> (": " <> L.show_lane_error error))))
            (W.lane_try_from name))
        >>= λ lane.
            with_error (λ error. broker (W.show_error error))
              (λ s.
                let (answer, after) = call lane s.runtime.broker in
                (answer, record s { runtime = record s.runtime { broker = after } }))

    abbrev pub on_retry : Action (Ingest S W Q) CliError DeadTriggerRetryReport
    on_retry = with_error runtime (λ s.
        let (answer, after) = retry_dead_triggers W Q show_id r s.runtime in
        (answer, record s { runtime = after }))

    unfoldable pub run : Command → Action (Ingest S W Q) CliError Output
    unfolding inject file_events load_each parse_event_id replay_range_args
    run (inject_event event_type payload) =
        let (id, now) = fresh 0 in
        with_error runtime (ingest S W Q show_id r (inject id now event_type payload)) >>= λ report.
        pure (ingested report.event_id (length report.handle.submitted))
    run (load_file path) = lift (reading.read_events_file path) >>= λ inputs.
        let loading = file_events fresh 0 inputs in
        load_each loading 0 >>= λ submitted. pure (loaded (length loading) submitted)
    run retry_dead = on_retry >>= λ report. pure (retried report)
    run list_events = gets (λ s. event_lines (S.all s.store))
    run (get_event raw) = lift (parse_event_id raw) >>= λ id.
        gets (λ s. S.get id s.store) >>= λ found. lift (one_line id found)
    run (replay_event raw) = lift (parse_event_id raw) >>= λ id.
        replaying (λ store. replay_by_id W Q S show_id r store id) >>= λ report.
        pure (replayed (show_id id) (length report.submitted))
    run (replay_events args) = replay_range_args args
    run list_dead_triggers = gets (λ s. dead_trigger_lines (Q.all s.runtime.dead))
    run (list_dead_letters lane limit) =
        on_lane lane (λ l. L.read_dead_letters l limit) >>= λ letters.
        pure (dead_letter_lines letters)
    run (count_dead_letters lane) = on_lane lane L.count_letters >>= λ n. pure (counted n)
    run (purge_dead_letters lane) = on_lane lane L.purge_letters >>= λ n. pure (purged n)
