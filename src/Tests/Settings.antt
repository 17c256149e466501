-- ===== src/Tests/Settings.antt =====
-- Settings, durations and the start of the service at small inputs.
use triggerlane.Common.{
  ◌≡◌, ◌↔◌, ℕ, ◌*◌, ◌^◌, String, [], ◌∷◌, ◌++◌, Option, none, some, ok, Result, refl, string_eq,
  ℕ_discrete, if◌then◌else◌, ◌==◌,
}
use triggerlane.Common.Int.{pos, pos_part}
use triggerlane.Retention.{AutoRetention}
use triggerlane.Ingest
use triggerlane.Ingest.{Ingest}
use triggerlane.Jsonl.Text
use triggerlane.Registry
use triggerlane.Trigger
use triggerlane.Runtime.{Halt, TriggerRuntime}
use triggerlane.Runtime.Backoff
use triggerlane.Runtime.Submit
use triggerlane.Runtime.Handle
use triggerlane.Cli.Number
use triggerlane.Cli.Number.{Text, codes}
use triggerlane.Cli.Number.Laws.{Unsigned}
use triggerlane.Cli.Duration
use triggerlane.Cli.Duration.{Chrono, parse_duration}
use triggerlane.Cli.Duration.Laws.{Lasts, parse_duration_iff}
use triggerlane.Cli.Settings
use triggerlane.Cli.Settings.{parse_auto_retention, nonempty}
use triggerlane.Cli.Settings.Laws.{Bounds, IsSpan, parse_auto_retention_ok}
use triggerlane.Cli.Serve
use triggerlane.Cli.Serve.{ServeConfig, serve, verifier_of, read_auth_of, serve_config}
use triggerlane.Cli.Serve.Start.{Listens, serve_ok}
use triggerlane.Cli.App
use triggerlane.Cli.App.{build_ingest}
use triggerlane.Cli.Errors.{CliError}
use triggerlane.Jsonl.Read.{IoError}
use triggerlane.Http.Webhook.{github}
use triggerlane.Tests.Fixtures.{
  worklane, queue, events, events_laws, deployment, show_id, restarted,
}

abbrev pub chrono : Chrono
chrono = record {
  try_seconds = λ seconds. some (pos (seconds * 10 ^ 9));
  to_std = λ span. some (pos_part span);
}

abbrev pub quoted : Text → Text
quoted text = text

parse_duration_iff_example : (parse_duration chrono (codes "90m") ≡ some (pos (5400 * 10 ^ 9))) ↔ (
    (front : Text) × (unit : ℕ) × (codes "90m" ≡ front ++ unit ∷ [])
    × Lasts chrono front unit (pos (5400 * 10 ^ 9)))
parse_duration_iff_example = parse_duration_iff chrono (codes "90m") (pos (5400 * 10 ^ 9))

abbrev halted : Halt → String
halted halt = "halted"

abbrev day_and_ten : AutoRetention
day_and_ten = record {
  delivered_grace = some (pos (86400 * 10 ^ 9));
  max_age = none;
  max_count = some 10;
  max_bytes = none;
}

read_bounds :
    parse_auto_retention quoted chrono
      (some (codes "24h"))
      (some (codes "off"))
      (some (codes " 10"))
      none
    ≡ ok day_and_ten
unfolding parse_auto_retention Settings.parse_bound_duration Settings.parse_bound_number
    parse_duration Duration.split_last Number.parse_signed Number.parse_digits Number.digits_from
    Number.parse_unsigned Number.trim Number.trim_start Text.is_whitespace ℕ_discrete
read_bounds = refl

parse_auto_retention_ok_example :
    Bounds (IsSpan quoted chrono) (some (codes "24h")) day_and_ten.delivered_grace
    × Bounds (IsSpan quoted chrono) (some (codes "off")) day_and_ten.max_age
    × Bounds (Unsigned Number.u64_max) (some (codes " 10")) day_and_ten.max_count
    × Bounds (Unsigned Number.u64_max) none day_and_ten.max_bytes
parse_auto_retention_ok_example =
    parse_auto_retention_ok quoted chrono (some (codes "24h")) (some (codes "off"))
      (some (codes " 10")) none day_and_ten read_bounds

-- A secret is set, and an empty token.
abbrev pub env : String → Option Text
env name =
    if name == "TRIGGERLANE_WEBHOOK_SECRET"
    then some (codes "s3")
    else if name == "TRIGGERLANE_READ_TOKEN"
    then some []
    else none

abbrev day_and_million : AutoRetention
day_and_million = record {
  delivered_grace = some (pos (86400 * 10 ^ 9));
  max_age = none;
  max_count = some 1000000;
  max_bytes = none;
}

abbrev pub served : ServeConfig
served =
    serve_config (some (github (codes "s3"))) none (some (30 * 10 ^ 9)) day_and_million
      (300 * 10 ^ 9) none

abbrev built : Result (TriggerRuntime × Ingest events worklane (queue 5)) CliError
built =
    build_ingest events worklane (queue 5) 1 (ok restarted.store) (ok []) (ok deployment.registry)
      (ok deployment.options)

abbrev start :
    Result ServeConfig CliError × Option (TriggerRuntime × Ingest events worklane (queue 5))
start = serve quoted chrono quoted env events worklane (queue 5) show_id built

serve-restarted : start.0 ≡ ok served
unfolding serve Serve.serve_from App.build_ingest Serve.dispatch_capacity
    Settings.async_dispatch_capacity Settings.env_flag_enabled Settings.auto_retention_from_env
    Settings.retention_interval_from_env Settings.parse_request_timeout parse_auto_retention
    Settings.parse_bound_duration Settings.parse_bound_number parse_duration Duration.split_last
    Number.parse_signed Number.parse_digits Number.digits_from Number.parse_unsigned Number.trim
    Number.trim_start Text.is_whitespace ℕ_discrete string_eq Handle.handle Handle.handle_each
    Handle.handle_one Handle.submit Handle.settle Handle.record_dead_trigger Handle.report_on
    Submit.enqueue_with_retries Submit.in_lane Submit.attempts_from Submit.back_off Submit.give_up
    Backoff.submission_backoff_delay Registry.matching Trigger.event_type_trigger
    Trigger.worklane_job_binding Trigger.new_binding Trigger.job_of Trigger.job_payload
    Ingest.recover_undelivered Ingest.recover_each
serve-restarted = refl

serve_ok_example :
    (r : TriggerRuntime) × (store : events.State) × (◌≡◌ {A = Result events.State IoError}
      (ok restarted.store)
      (ok store))
    × Listens quoted chrono quoted env events events_laws worklane
        (queue 5)
        show_id
        halted
        served
        start.1
        r
        store
serve_ok_example =
    serve_ok quoted chrono quoted env events events_laws worklane (queue 5) show_id halted 1
      (ok restarted.store) (ok []) (ok deployment.registry) (ok deployment.options) served
      serve-restarted
