-- ===== src/Cli/Settings/Laws.antt =====
-- What the settings for retention and submission come to.
use triggerlane.Common.{
  ℕ, ◌*◌, ◌^◌, max, Bool, true, false, Option, none, some, Result, ok, err, ◌≡◌, refl, ◌⊎◌, inl,
  inr, arith, Bool-cases, ap, if◌then◌else◌,
}
use triggerlane.Common.Int.{ℤ}
use triggerlane.Event.{unwrap_or}
use triggerlane.Retention.{AutoRetention}
use triggerlane.Runtime.{RuntimeOptions}
use triggerlane.Cli.Number.{Text, u32_max, u64_max, parse_unsigned, trim}
use triggerlane.Cli.Number.Laws.{Unsigned, parse_unsigned_iff}
use triggerlane.Cli.Duration.{Chrono, parse_duration}
use triggerlane.Cli.Errors.{CliError}
use triggerlane.Cli.Settings.{
  is_off, ok_or, and_then_ok, just, parse_bound_duration, parse_bound_number, parse_auto_retention,
  runtime_options, parse_runtime_options, default_submission_attempts,
  default_submission_backoff_ms,
}

-- Whether a setting asks for no bound.
abbrev pub off : Option Text → Bool
off none = true
off (some raw) = is_off (trim raw)

-- A setting and the bound it is read as: none if it is off, else what its trimmed text stands for.
abbrev pub Bounds : {A : Type 0} → (Text → A → Type 0) → Option Text → Option A → Type 0
Bounds {A} Reads raw bound =
    ((off raw ≡ true) × (bound ≡ none))
    ⊎ ((text : Text) × (a : A) × (off raw ≡ false)
        × (raw ≡ some text)
        × Reads (trim text) a
        × (bound ≡ some a))

just_ok :
    {A E : Type 0} (error : E) (o : Option A) (bound : Option A)
    → just (ok_or error o) ≡ ok bound
    → (a : A) × (o ≡ some a) × (bound ≡ some a)
just_ok error none bound h = ground arith
just_ok error (some a) bound h = (a, refl, ground arith)

bounds_lem :
    {A : Type 0} (Reads : Text → A → Type 0) (parse : Text → Option A)
    → ((text : Text) (a : A) → parse text ≡ some a → Reads text a)
    → (error : CliError) (raw : Text) (bound : Option A)
    → (if is_off (trim raw) then ok none else just (ok_or error (parse (trim raw)))) ≡ ok bound
    → Bounds Reads (some raw) bound
bounds_lem Reads parse reads error raw bound h = elim (Bool-cases (is_off (trim raw))) [
  | inl e ↦ inl (e, ground (arith, e))
  | inr e ↦
      (let (a, parsed, same) = just_ok error (parse (trim raw)) bound (ground (arith, e)) in
        inr (raw, a, e, refl, reads (trim raw) a parsed, same))
]

settings_lem :
    (grace age : Result (Option ℤ) CliError) (count bytes : Result (Option ℕ) CliError)
    (policy : AutoRetention)
    → (and_then_ok grace λ g. and_then_ok age λ a. and_then_ok count λ c.
        and_then_ok bytes λ b.
          Result.ok (record { delivered_grace = g; max_age = a; max_count = c; max_bytes = b }))
      ≡ ok policy
    → (grace ≡ ok policy.delivered_grace)
      × (age ≡ ok policy.max_age)
      × (count ≡ ok policy.max_count)
      × (bytes ≡ ok policy.max_bytes)
settings_lem (err e) age count bytes policy h = ground arith
settings_lem (ok g) (err e) count bytes policy h = ground arith
settings_lem (ok g) (ok a) (err e) bytes policy h = ground arith
settings_lem (ok g) (ok a) (ok c) (err e) policy h = ground arith
settings_lem (ok g) (ok a) (ok c) (ok b) policy h =
    (ground arith, ground arith, ground arith, ground arith)

module _ (show_debug : Text → Text) (chrono : Chrono) where
  -- That a text is the duration of a span.
  abbrev pub IsSpan : Text → ℤ → Type 0
  IsSpan text span = parse_duration chrono text ≡ some span

  duration_lem :
      (raw : Option Text) (bound : Option ℤ)
      → parse_bound_duration show_debug chrono raw ≡ ok bound
      → Bounds IsSpan raw bound
  unfolding parse_bound_duration
  duration_lem none bound h = inl (refl, ground arith)
  duration_lem (some raw) bound h =
      bounds_lem IsSpan (parse_duration chrono) (λ text a e. e) _ raw bound h

  number_lem :
      (raw : Option Text) (label : Text) (bound : Option ℕ)
      → parse_bound_number show_debug raw label ≡ ok bound
      → Bounds (Unsigned u64_max) raw bound
  unfolding parse_bound_number
  number_lem none label bound h = inl (refl, ground arith)
  number_lem (some raw) label bound h =
      bounds_lem (Unsigned u64_max) (parse_unsigned u64_max)
        (λ text a. (parse_unsigned_iff u64_max a text).0) _ raw bound h

  -- If the settings for retention are read, each of the four bounds is absent if its setting is
  -- unset, empty, `0` or `off`, and else it is what the trimmed text spells: a duration, or a number
  -- below 2^64.
  pub parse_auto_retention_ok :
      (grace max_age max_count max_bytes : Option Text) (policy : AutoRetention)
      → parse_auto_retention show_debug chrono grace max_age max_count max_bytes ≡ ok policy
      → Bounds IsSpan grace policy.delivered_grace
        × Bounds IsSpan max_age policy.max_age
        × Bounds (Unsigned u64_max) max_count policy.max_count
        × Bounds (Unsigned u64_max) max_bytes policy.max_bytes
  unfolding parse_auto_retention
  parse_auto_retention_ok grace max_age max_count max_bytes policy h =
      let (g, a, c, b) = settings_lem _ _ _ _ policy h in
      (
        duration_lem grace policy.delivered_grace g,
        duration_lem max_age policy.max_age a,
        number_lem max_count _ policy.max_count c,
        number_lem max_bytes _ policy.max_bytes b,
      )

  options_lem :
      {E : Type 0} (e f : E) (attempts backoff : Option ℕ) (options : RuntimeOptions)
      → (and_then_ok (ok_or e attempts) λ n.
          and_then_ok
            (ok_or f backoff)
            λ ms. Result.ok (runtime_options show_debug (max n 1) (ms * 10 ^ 6)))
        ≡ ok options
      → (n : ℕ) × (ms : ℕ) × (attempts ≡ some n)
        × (backoff ≡ some ms)
        × (options ≡ runtime_options show_debug (max n 1) (ms * 10 ^ 6))
  options_lem e f none backoff options h = ground arith
  options_lem e f (some n) none options h = ground arith
  options_lem e f (some n) (some ms) options h = (n, ms, refl, refl, ground arith)

  -- If the settings for submission are read, there is at least one attempt and fewer than 2^32, as
  -- many as the trimmed text spells if that is not 0, and the backoff is as many milliseconds, fewer
  -- than 2^64, as its trimmed text spells. A setting that is not there is 3 attempts, or 100
  -- milliseconds.
  pub parse_runtime_options_ok :
      (attempts backoff_ms : Option Text) (options : RuntimeOptions)
      → parse_runtime_options show_debug attempts backoff_ms ≡ ok options
      → (n : ℕ) × (ms : ℕ) × Unsigned u32_max
          (trim (unwrap_or attempts default_submission_attempts))
          n
        × Unsigned u64_max (trim (unwrap_or backoff_ms default_submission_backoff_ms)) ms
        × (options.max_submission_attempts ≡ max n 1)
        × (options.submission_backoff ≡ ms * 10 ^ 6)
  unfolding parse_runtime_options
  parse_runtime_options_ok attempts backoff_ms options h =
      let (n, ms, read_attempts, read_backoff, same) = options_lem _ _ _ _ options h in
      (
        n,
        ms,
        (parse_unsigned_iff u32_max n _).0 read_attempts,
        (parse_unsigned_iff u64_max ms _).0 read_backoff,
        ap (λ (o : RuntimeOptions). o.max_submission_attempts) same,
        ap (λ (o : RuntimeOptions). o.submission_backoff) same,
      )
