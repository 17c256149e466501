-- ===== src/Cli/Serve/Start.antt =====
-- What holds when the service begins to listen.
use triggerlane.Common.{
  ℕ, String, List, [], Option, Result, ok, err, ◌≡◌, refl, arith, none, some, ◌∷◌, ◌⊎◌, inl, inr,
}
use triggerlane.Event.{EventId}
use triggerlane.DeadTriggerQueue.{DeadTriggerQueue}
use triggerlane.EventStore.{EventStore}
use triggerlane.EventStore.Laws.{IsEventStore}
use triggerlane.Runtime.{Worklane, TriggerRuntime, RuntimeOptions, Halt}
use triggerlane.Ingest.{Ingest, recover_undelivered}
use triggerlane.Ingest.Laws.{recover_undelivered_counts}
use triggerlane.Cli.Number.{Text}
use triggerlane.Cli.Duration.{Chrono}
use triggerlane.Cli.Settings.{nonempty}
use triggerlane.Http.Webhook.{github}
use triggerlane.Http.Auth.{ReadAuth}
use triggerlane.Cli.Errors.{CliError}
use triggerlane.Cli.App.{build_ingest}
use triggerlane.Registry.{TriggerRegistry}
use triggerlane.Jsonl.Read.{IoError}
use triggerlane.Cli.Serve.{ServeConfig, serve, serve_timed, serve_from, verifier_of, read_auth_of}

abbrev pub read_auth : List ℕ → ReadAuth
read_auth token = record { token = token }

-- What an environment variable asks for: nothing if it is not set or empty, and else what is made of
-- its text.
abbrev pub IsRequired : {A : Type 0} → Option Text → (Text → A) → Option A → Type 0
IsRequired value made required =
    (((value ≡ none) ⊎ (value ≡ some [])) × (required ≡ none))
    ⊎ ((c : ℕ) × (rest : Text) × (value ≡ some (c ∷ rest)) × (required ≡ some (made (c ∷ rest))))

verifier_lem :
    (as_bytes : Text → List ℕ) (value : Option Text)
    → IsRequired value (λ secret. github (as_bytes secret)) (verifier_of as_bytes (nonempty value))
verifier_lem as_bytes none = inl (inl refl, refl)
verifier_lem as_bytes (some []) = inl (inr refl, refl)
verifier_lem as_bytes (some (c ∷ rest)) = inr (c, rest, refl, refl)

read_auth_lem :
    (as_bytes : Text → List ℕ) (value : Option Text)
    → IsRequired value
        (λ token. read_auth (as_bytes token))
        (read_auth_of as_bytes (nonempty value))
read_auth_lem as_bytes none = inl (inl refl, refl)
read_auth_lem as_bytes (some []) = inl (inr refl, refl)
read_auth_lem as_bytes (some (c ∷ rest)) = inr (c, rest, refl, refl)

module _ (show_debug : Text → Text) (chrono : Chrono) (as_bytes : Text → List ℕ)
    (env : String → Option Text) where
  module _ (S : EventStore) (D : IsEventStore S) (W : Worklane) (Q : DeadTriggerQueue)
      (show_id : EventId → String) (show_halt : Halt → String) where
    recover_cases :
        (r : TriggerRuntime) (s : Ingest S W Q) (answer : Result ℕ Halt)
        → (recover_undelivered S W Q show_id r s).0 ≡ answer
        → ((error : Halt) × ((recover_undelivered S W Q show_id r s).0 ≡ err error))
          ⊎ ((S.all (recover_undelivered S W Q show_id r s).1.store ≡ S.all s.store)
              × (S.undelivered (recover_undelivered S W Q show_id r s).1.store ≡ []))
    recover_cases r s (err error) e = inl (error, e)
    recover_cases r s (ok n) e =
        let (count, all, none_left) = recover_undelivered_counts S D W Q show_id r s n e in
        inr (all, none_left)

    -- How the service comes to listen on a store.
    abbrev pub Listens :
        ServeConfig → Option (TriggerRuntime × Ingest S W Q) → TriggerRuntime → S.State → Type 0
    Listens config state r store =
        (after : Ingest S W Q) × (state ≡ some (r, after))
        × (S.all after.store ≡ S.all store)
        × (S.undelivered after.store ≡ [])
        × IsRequired (env "TRIGGERLANE_WEBHOOK_SECRET") (λ secret. github (as_bytes secret))
            config.verifier
        × IsRequired (env "TRIGGERLANE_READ_TOKEN") (λ token. read_auth (as_bytes token))
            config.read_auth

    serve_from_ok :
        (r : TriggerRuntime) (timeout : Option ℕ) (s : Ingest S W Q) (config : ServeConfig)
        → (serve_from show_debug chrono as_bytes env S W Q show_id r timeout s).0 ≡ ok config
        → Listens config
            (some (r, (serve_from show_debug chrono as_bytes env S W Q show_id r timeout s).1))
            r
            s.store
    unfolding serve_from
    serve_from_ok r timeout s config h = (
      _,
      refl,
      ground (arith, recover_cases r s _ refl),
      ground (arith, recover_cases r s _ refl),
      ground (arith, verifier_lem as_bytes (env "TRIGGERLANE_WEBHOOK_SECRET")),
      ground (arith, read_auth_lem as_bytes (env "TRIGGERLANE_READ_TOKEN")),
    )

    abbrev Built :
        ServeConfig
        → Result (TriggerRuntime × Ingest S W Q) CliError
        → Option (TriggerRuntime × Ingest S W Q)
        → Type 0
    Built config built state =
        (r : TriggerRuntime) × (s : Ingest S W Q) × (built ≡ ok (r, s))
        × Listens config state r s.store

    timed_ok :
        (built : Result (TriggerRuntime × Ingest S W Q) CliError)
        (timeout : Result (Option ℕ) CliError) (config : ServeConfig)
        → (serve_timed show_debug chrono as_bytes env S W Q show_id built timeout).0 ≡ ok config
        → Built config built
            (serve_timed show_debug chrono as_bytes env S W Q show_id built timeout).1
    timed_ok built (err error) config h = ground arith
    timed_ok (err error) (ok timeout) config h = ground arith
    timed_ok (ok (r, s)) (ok timeout) config h = (r, s, refl, serve_from_ok r timeout s config h)

    opened_store :
        (broker : W.State) (store : Result S.State IoError) (dead : Result Q.State IoError)
        (load : Result TriggerRegistry CliError) (options : Result RuntimeOptions CliError)
        (r : TriggerRuntime) (s : Ingest S W Q)
        → build_ingest S W Q broker store dead load options ≡ ok (r, s)
        → store ≡ ok s.store
    unfolding build_ingest
    opened_store broker (err e) dead load options r s h = ground arith
    opened_store broker (ok store) (err e) load options r s h = ground arith
    opened_store broker (ok store) (ok dead) (err e) options r s h = ground arith
    opened_store broker (ok store) (ok dead) (ok registry) (err e) r s h = ground arith
    opened_store broker (ok store) (ok dead) (ok registry) (ok settings) r s h = ground arith

    -- If the service comes to listen, its event store was opened, the events that the store was opened
    -- with are still stored, and all are delivered. A webhook verifier with the secret, and a check of
    -- the read token, are set up exactly if the variable is set and not empty.
    pub serve_ok :
        (broker : W.State) (open_store : Result S.State IoError)
        (open_queue : Result Q.State IoError) (load : Result TriggerRegistry CliError)
        (options : Result RuntimeOptions CliError) (config : ServeConfig)
        → let out =
            serve show_debug chrono as_bytes env S W Q show_id
              (build_ingest S W Q broker open_store open_queue load options) in
          out.0 ≡ ok config
          → (r : TriggerRuntime) × (store : S.State) × (open_store ≡ ok store)
            × Listens config out.1 r store
    unfolding serve
    serve_ok broker open_store open_queue load options config h =
        let (r, s, e, listens) = timed_ok _ _ config h in
        (r, s.store, opened_store broker open_store open_queue load options r s e, listens)
