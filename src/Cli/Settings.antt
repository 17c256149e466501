-- ===== src/Cli/Settings.antt =====
-- The settings that the command line reads: retention bounds, submission options, timeouts and
-- capacities. `show_debug` is the text that `{:?}` makes of a text.
pub mod Laws
use triggerlane.Common.{
  ℕ, ◌+◌, ◌*◌, ◌^◌, ◌<◌, max, String, Bool, true, false, ◌||◌, ◌&&◌, Option, none, some, List, [],
  ◌∷◌, ◌++◌, Result, ok, err, ltb, leb, ◌==◌, nat_eq, string_eq, map, any, if◌then◌else◌,
}
use triggerlane.Common.Int.{ℤ, pos, ◌-ℤ◌}
use triggerlane.Event.{unwrap_or, or_else}
use triggerlane.Retention.{AutoRetention, ManualRetention, older_than}
use triggerlane.Runtime.{RuntimeOptions}
use triggerlane.Cli.Number.{Text, codes, u32_max, u64_max, parse_unsigned, trim}
use triggerlane.Cli.Duration.{Chrono, parse_duration}
use triggerlane.Cli.Errors.{CliError, retention, submission, request_timeout}

abbrev pub same_text : Text → Text → Bool
same_text [] [] = true
same_text (c ∷ s) (d ∷ t) = c == d && same_text s t
same_text _ _ = false

-- The patterns `None`, `Some("")`, `Some("0")` and `Some("off")`, on a trimmed text.
abbrev pub is_off : Text → Bool
is_off value = any (same_text value) ([] ∷ codes "0" ∷ codes "off" ∷ [])

abbrev pub nanoseconds : ℕ
nanoseconds = 10 ^ 9

-- `DEFAULT_…`
abbrev pub default_retention_grace : Text
default_retention_grace = codes "24h"

abbrev pub default_retention_interval : Text
default_retention_interval = codes "5m"

abbrev pub default_retention_max_count : Text
default_retention_max_count = codes "1000000"

abbrev pub default_submission_attempts : Text
default_submission_attempts = codes "3"

abbrev pub default_submission_backoff_ms : Text
default_submission_backoff_ms = codes "100"

abbrev pub default_request_timeout_secs : ℕ
default_request_timeout_secs = 30

abbrev pub default_async_dispatch_capacity : ℕ
default_async_dispatch_capacity = 1024

-- `ok_or_else`
abbrev pub ok_or {ℓ κ} : {A : Type ℓ} {E : Type κ} → E → Option A → Result A E
ok_or error none = err error
ok_or error (some a) = ok a

abbrev pub and_then_ok {ℓ κ ν} :
    {A : Type ℓ} {B : Type κ} {E : Type ν} → Result A E → (A → Result B E) → Result B E
and_then_ok (ok a) f = f a
and_then_ok (err e) f = err e

abbrev pub just {ℓ κ} : {A : Type ℓ} {E : Type κ} → Result A E → Result (Option A) E
just (ok a) = ok (some a)
just (err e) = err e

-- `nonempty_env`
abbrev pub nonempty : Option Text → Option Text
nonempty (some []) = none
nonempty (some (c ∷ value)) = some (c ∷ value)
nonempty none = none

module _ (show_debug : Text → Text) where
  module _ (chrono : Chrono) where
    unfoldable pub parse_bound_duration : Option Text → Result (Option ℤ) CliError
    parse_bound_duration none = ok none
    parse_bound_duration (some raw) =
        let value = trim raw in
        if is_off value
        then ok none
        else just (
            ok_or (retention (codes "invalid retention duration " ++ show_debug value))
              (parse_duration chrono value))

  unfoldable pub parse_bound_number : Option Text → Text → Result (Option ℕ) CliError
  parse_bound_number none label = ok none
  parse_bound_number (some raw) label =
      let value = trim raw in
      if is_off value
      then ok none
      else just (
          ok_or
            (retention (codes "invalid retention " ++ (label ++ (codes " " ++ show_debug value))))
            (parse_unsigned u64_max value))

  abbrev pub auto_retention : Option ℤ → Option ℤ → Option ℕ → Option ℕ → AutoRetention
  auto_retention delivered_grace max_age max_count max_bytes = record {
    delivered_grace = delivered_grace;
    max_age = max_age;
    max_count = max_count;
    max_bytes = max_bytes;
  }

  module _ (chrono : Chrono) where
    -- The cast of the count to `usize` is between types of 64 bits.
    unfoldable pub parse_auto_retention :
        Option Text → Option Text → Option Text → Option Text → Result AutoRetention CliError
    unfolding parse_bound_duration parse_bound_number
    parse_auto_retention grace max_age max_count max_bytes =
        and_then_ok (parse_bound_duration chrono grace) λ delivered_grace.
          and_then_ok (parse_bound_duration chrono max_age) λ age.
            and_then_ok (parse_bound_number max_count (codes "max-count")) λ count.
              and_then_ok (parse_bound_number max_bytes (codes "max-bytes"))
                λ bytes. ok (auto_retention delivered_grace age count bytes)

    -- The environment is a function of the variable's name.
    unfoldable pub auto_retention_from_env : (String → Option Text) → Result AutoRetention CliError
    unfolding parse_auto_retention
    auto_retention_from_env env =
        parse_auto_retention
          (or_else (env "TRIGGERLANE_RETENTION_DELIVERED_GRACE") (some default_retention_grace))
          (env "TRIGGERLANE_RETENTION_MAX_AGE")
          (or_else (env "TRIGGERLANE_RETENTION_MAX_COUNT") (some default_retention_max_count))
          (env "TRIGGERLANE_RETENTION_MAX_BYTES")

    abbrev pub to_interval : Option ℤ → Option ℕ
    to_interval none = none
    to_interval (some span) = chrono.to_std span

    unfoldable pub retention_interval_from_env : (String → Option Text) → Result ℕ CliError
    retention_interval_from_env env =
        let raw = unwrap_or (env "TRIGGERLANE_RETENTION_INTERVAL") default_retention_interval in
        ok_or (retention (codes "invalid retention interval " ++ show_debug raw))
          (to_interval (parse_duration chrono raw))

    -- `resolve_prune_policy`, of a duration and of a count, at the current time.
    unfoldable pub prune_older_than : ℤ → Text → Result ManualRetention CliError
    prune_older_than now duration =
        and_then_ok
          (ok_or (retention (codes "invalid duration " ++ show_debug duration))
            (parse_duration chrono duration))
          λ span. ok (older_than (now -ℤ span))

  abbrev pub runtime_options : ℕ → ℕ → RuntimeOptions
  runtime_options attempts backoff = record {
    max_submission_attempts = attempts;
    submission_backoff = backoff;
  }

  -- Milliseconds become nanoseconds.
  unfoldable pub parse_runtime_options : Option Text → Option Text → Result RuntimeOptions CliError
  parse_runtime_options attempts backoff_ms =
      let attempts_text = unwrap_or attempts default_submission_attempts in
      let backoff_text = unwrap_or backoff_ms default_submission_backoff_ms in
      and_then_ok
        (ok_or (submission (codes "invalid submission attempts " ++ show_debug attempts_text))
          (parse_unsigned u32_max (trim attempts_text)))
        λ n.
          and_then_ok
            (ok_or (submission (codes "invalid submission backoff " ++ show_debug backoff_text))
              (parse_unsigned u64_max (trim backoff_text)))
            λ ms. ok (runtime_options (max n 1) (ms * 10 ^ 6))

  unfoldable pub runtime_options_from_env : (String → Option Text) → Result RuntimeOptions CliError
  unfolding parse_runtime_options
  runtime_options_from_env env =
      parse_runtime_options (env "TRIGGERLANE_SUBMISSION_ATTEMPTS")
        (env "TRIGGERLANE_SUBMISSION_BACKOFF_MS")

  -- `usize` has 64 bits.
  unfoldable pub async_dispatch_capacity : (String → Option Text) → Result ℕ CliError
  async_dispatch_capacity env = elim (nonempty (env "TRIGGERLANE_ASYNC_DISPATCH_CAPACITY")) [
    | none ↦ ok default_async_dispatch_capacity
    | some raw ↦
        and_then_ok
          (ok_or (submission (codes "invalid async dispatch capacity " ++ show_debug raw))
            (parse_unsigned u64_max (trim raw)))
          (λ capacity.
            if capacity == 0
            then err (submission (codes "async dispatch capacity must be greater than 0"))
            else ok capacity)
  ]

-- In nanoseconds; 0 seconds are no timeout.
abbrev pub timeout_of : ℕ → Option ℕ
timeout_of secs = if ltb 0 secs then some (secs * nanoseconds) else none

unfoldable pub parse_request_timeout : Option Text → Result (Option ℕ) CliError
parse_request_timeout none = ok (timeout_of default_request_timeout_secs)
parse_request_timeout (some raw) =
    and_then_ok (ok_or (request_timeout raw) (parse_unsigned u64_max raw))
      λ secs. ok (timeout_of secs)

-- `to_ascii_lowercase`
abbrev pub to_ascii_lowercase : Text → Text
to_ascii_lowercase = map (λ c. if leb b'A' c && leb c b'Z' then c + 32 else c)

unfoldable pub env_flag_enabled : Option Text → Bool
env_flag_enabled none = false
env_flag_enabled (some value) =
    any (same_text (to_ascii_lowercase (trim value)))
      (codes "1" ∷ codes "true" ∷ codes "yes" ∷ codes "on" ∷ [])
