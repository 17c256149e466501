-- ===== src/Cli/Serve.antt =====
-- `serve`: the start of the service, the dispatcher and the maintenance rounds. Signals, sockets and
-- the timeout layer are tokio's, axum's and tower's, and have no model.
pub mod Laws
pub mod Async
pub mod Start
pub mod Maintenance
pub mod Distinct
use triggerlane.Common.{
  ℕ, ◌+◌, String, Bool, true, false, Option, none, some, List, [], ◌∷◌, Result, ok, err, Action,
  pure, lift, gets, modify, with_error, ◌>>=◌, ◌>>◌, if◌then◌else◌,
}
use triggerlane.Common.Int.{ℤ}
use triggerlane.Event.{EventId, EventEnvelope}
use triggerlane.DeadTriggerQueue.{DeadTriggerQueue}
use triggerlane.EventStore.{EventStore}
use triggerlane.Retention.{AutoRetention, is_unbounded}
use triggerlane.Jsonl.Read.{IoError}
use triggerlane.Runtime
use triggerlane.Runtime.{Worklane, TriggerRuntime, Halt}
use triggerlane.Runtime.Handle.{enforce_dead_trigger_retention}
use triggerlane.Runtime.Metrics.{record_store_metrics, record_broker_metrics}
use triggerlane.Ingest.{Ingest, dispatch, recover_undelivered}
use triggerlane.Http.Auth.{ReadAuth}
use triggerlane.Http.Webhook.{WebhookVerifier, github}
use triggerlane.Http.Post.{Accepting}
use triggerlane.Cli.Number.{Text}
use triggerlane.Cli.Duration.{Chrono}
use triggerlane.Cli.Errors.{CliError, runtime}
use triggerlane.Cli.Settings.{
  nonempty, auto_retention_from_env, retention_interval_from_env, async_dispatch_capacity,
  parse_request_timeout, env_flag_enabled,
}

module _ (S : EventStore) (W : Worklane) (Q : DeadTriggerQueue) where
  module _ (show_id : EventId → String) (r : TriggerRuntime) where
    -- One round of the loop of `spawn_dispatcher`, on what `recv` returns. An error is only logged.
    unfoldable pub receive : List EventEnvelope → Accepting S W Q → Accepting S W Q
    receive [] s = s
    receive (event ∷ channel) s = record s {
      channel = channel;
      ingest = (dispatch S W Q show_id r event s.ingest).1;
    }

    unfoldable pub dispatch_next : Accepting S W Q → Accepting S W Q
    unfolding receive
    dispatch_next s = receive s.channel s

  abbrev pub on_event_store :
      {A : Type 0} → Action S.State IoError A → Action (Ingest S W Q) IoError A
  on_event_store m s = let (answer, store) = m s.store in (answer, record s { store = store })

  abbrev pub on_trigger_runtime :
      {A : Type 0} → Action (Runtime.Runtime W Q) IoError A → Action (Ingest S W Q) IoError A
  on_trigger_runtime m s =
      let (answer, after) = m s.runtime in (answer, record s { runtime = after })

  -- The closure that a round of `spawn_maintenance` runs, at the current time.
  unfoldable pub enforce_bounds : AutoRetention → ℤ → Action (Ingest S W Q) IoError ℕ
  enforce_bounds policy now =
      if is_unbounded policy
      then pure 0
      else (on_event_store (S.enforce_retention policy now) >>= λ events.
          on_trigger_runtime (enforce_dead_trigger_retention W Q policy now) >>= λ dead.
          pure (events + dead))

  unfoldable pub maintain : AutoRetention → ℤ → Action (Ingest S W Q) IoError ℕ
  unfolding enforce_bounds
  maintain policy now = do
    modify (λ s. record s { runtime = record_broker_metrics W Q s.runtime })
    modify (λ s. record s { runtime = record_store_metrics W Q S s.store s.runtime })
    enforce_bounds policy now

-- What the service runs with. The channel is given by its capacity.
pub record ServeConfig : Type 0 where
  pub verifier : Option WebhookVerifier
  pub read_auth : Option ReadAuth
  pub request_timeout : Option ℕ
  pub retention : AutoRetention
  pub interval : ℕ
  pub dispatch_capacity : Option ℕ

abbrev pub verifier_of : (Text → List ℕ) → Option Text → Option WebhookVerifier
verifier_of as_bytes none = none
verifier_of as_bytes (some secret) = some (github (as_bytes secret))

abbrev pub read_auth_of : (Text → List ℕ) → Option Text → Option ReadAuth
read_auth_of as_bytes none = none
read_auth_of as_bytes (some token) = some (record { token = as_bytes token })

abbrev pub serve_config :
    Option WebhookVerifier → Option ReadAuth → Option ℕ → AutoRetention → ℕ → Option ℕ → ServeConfig
serve_config verifier read_auth request_timeout retention interval dispatch_capacity = record {
  verifier = verifier;
  read_auth = read_auth;
  request_timeout = request_timeout;
  retention = retention;
  interval = interval;
  dispatch_capacity = dispatch_capacity;
}

abbrev pub just_capacity : Result ℕ CliError → Result (Option ℕ) CliError
just_capacity (ok capacity) = ok (some capacity)
just_capacity (err error) = err error

module _ (show_debug : Text → Text) (chrono : Chrono) (as_bytes : Text → List ℕ)
    (env : String → Option Text) where
  unfoldable pub dispatch_capacity : Result (Option ℕ) CliError
  unfolding async_dispatch_capacity env_flag_enabled
  dispatch_capacity =
      if env_flag_enabled (env "TRIGGERLANE_ASYNC_DISPATCH")
      then just_capacity (async_dispatch_capacity show_debug env)
      else ok none

  module _ (S : EventStore) (W : Worklane) (Q : DeadTriggerQueue) (show_id : EventId → String) where
    -- `serve` from the recovery of undelivered events on to the listening: the settings of retention are
    -- read behind it.
    unfoldable pub serve_from :
        TriggerRuntime → Option ℕ → Action (Ingest S W Q) CliError ServeConfig
    unfolding dispatch_capacity
    serve_from r timeout = do
      with_error runtime (recover_undelivered S W Q show_id r)
      policy ← lift (auto_retention_from_env show_debug chrono env)
      interval ← lift (retention_interval_from_env show_debug chrono env)
      capacity ← lift dispatch_capacity
      pure (
          serve_config (verifier_of as_bytes (nonempty (env "TRIGGERLANE_WEBHOOK_SECRET")))
            (read_auth_of as_bytes (nonempty (env "TRIGGERLANE_READ_TOKEN"))) timeout policy
            interval capacity)

    abbrev pub serve_built :
        Result (TriggerRuntime × Ingest S W Q) CliError
        → Option ℕ
        → Result ServeConfig CliError × Option (TriggerRuntime × Ingest S W Q)
    serve_built (err error) timeout = (err error, none)
    serve_built (ok (r, s)) timeout =
        let (answer, after) = serve_from r timeout s in (answer, some (r, after))

    abbrev pub serve_timed :
        Result (TriggerRuntime × Ingest S W Q) CliError
        → Result (Option ℕ) CliError
        → Result ServeConfig CliError × Option (TriggerRuntime × Ingest S W Q)
    serve_timed built (err error) = (err error, none)
    serve_timed built (ok timeout) = serve_built built timeout

    -- `serve` up to the listening, on what `build_ingest` gives. The state is that of the ingest, where
    -- one was built.
    unfoldable pub serve :
        Result (TriggerRuntime × Ingest S W Q) CliError
        → Result ServeConfig CliError × Option (TriggerRuntime × Ingest S W Q)
    unfolding serve_from
    serve built = serve_timed built (parse_request_timeout (env "TRIGGERLANE_REQUEST_TIMEOUT_SECS"))
