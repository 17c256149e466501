-- ===== src/Cli/Broker.antt =====
-- The choice of the broker, and the built-in registry.
use triggerlane.Common.{
  String, ◌<>◌, ◌==◌, string_eq, Option, none, some, Result, ok, err, if◌then◌else◌,
}
use triggerlane.Common.Int.{pos}
use triggerlane.Event.{event_github_issue_created}
use triggerlane.Trigger.{event_type_trigger, new_binding, worklane_job_binding}
use triggerlane.Registry.{TriggerRegistry, new_registry, new_registered, register}
use triggerlane.Cli.Errors.{CliError, broker}

pub data BrokerBackend : Type 0 where
  sqlite postgres redis : BrokerBackend

unfoldable pub parse_backend : (String → String) → String → Result BrokerBackend CliError
parse_backend show_debug name =
    if name == "sqlite"
    then ok sqlite
    else if name == "postgres"
    then ok postgres
    else if name == "redis"
    then ok redis
    else err (
        broker ("unknown broker " <> (show_debug name <> " (expected sqlite, postgres, or redis)")))

-- The URL and where it comes from.
unfoldable pub resolve_broker_url :
    Option String
    → Option String
    → Option String
    → String
    → String
    → Result (String × String) CliError
resolve_broker_url (some url) triggerlane_url fallback fallback_var backend = ok (url, "--url")
resolve_broker_url none (some url) fallback fallback_var backend =
    ok (url, "$TRIGGERLANE_WORKLANE_URL")
resolve_broker_url none none (some url) fallback_var backend = ok (url, "$" <> fallback_var)
resolve_broker_url none none none fallback_var backend = err (
    broker (
      "--url, $TRIGGERLANE_WORKLANE_URL, or $"
      <> (fallback_var <> (" is required for --broker " <> backend))))

unfoldable pub default_registry : TriggerRegistry
default_registry = register new_registry (
    new_registered "github-issue-projection" (pos 10)
      (event_type_trigger event_github_issue_created)
      (worklane_job_binding (new_binding "projection" "CreateProjectionJob" 3)))
