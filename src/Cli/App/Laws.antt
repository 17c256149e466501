-- ===== src/Cli/App/Laws.antt =====
-- What an unauthorized request does.
use triggerlane.Common.{
  inl, inr, Bool-cases, ◌++◌, ℕ, String, true, false, List, Option, none, some, Result, err, ◌≡◌,
  arith,
}
use triggerlane.Event.{EventId}
use triggerlane.DeadTriggerQueue.{DeadTriggerQueue}
use triggerlane.EventStore.{EventStore}
use triggerlane.Ingest.{Ingest}
use triggerlane.Runtime.{Worklane, TriggerRuntime, Halt}
use triggerlane.Http.{unauthorized, into_response, status_of}
use triggerlane.Http.Auth.{Headers, ReadAuth, bearer, header_text, authorized, require_read_auth}
use triggerlane.Http.Auth.Laws.{authorized_iff}
use triggerlane.Http.Post.Laws.{Admits, admitted_lem}
use triggerlane.Http.Webhook.{Signatures, WebhookVerifier}
use triggerlane.Http.Post.{IncomingEvent, refuses, post_events_route}
use triggerlane.Http.Read.{ReadRequest, read_router}
use triggerlane.Cli.Serve.{ServeConfig}
use triggerlane.Cli.App.{Service, Request, post_event, read, healthz, readyz, metrics, serve_ingest}

module _ (H : Headers) (G : Signatures) where
  -- No token is asked for, or the Authorization header is `Bearer ` and the token.
  abbrev pub HasToken : Option ReadAuth → H.HeaderMap → Type 0
  HasToken none headers = Unit {0}
  HasToken (some auth) headers = header_text H "authorization" headers ≡ some (bearer ++ auth.token)

  -- A post carries the signature, and a request to read or replay the token, that the service is
  -- configured with; the probes and the metrics are open.
  abbrev pub IsAuthorized : ServeConfig → Request H → Type 0
  IsAuthorized config (post_event headers body id now) = Admits H G config.verifier headers body
  IsAuthorized config (read headers request) = HasToken config.read_auth headers
  IsAuthorized config healthz = Unit {0}
  IsAuthorized config readyz = Unit {0}
  IsAuthorized config metrics = Unit {0}

  refuses_lem :
      (verifier : Option WebhookVerifier) (headers : H.HeaderMap) (body : List ℕ)
      → ¬ Admits H G verifier headers body
      → refuses H G verifier headers body ≡ true
  refuses_lem verifier headers body h = elim (Bool-cases (refuses H G verifier headers body)) [
    | inl e ↦ e
    | inr e ↦ absurd (h (admitted_lem H G verifier headers body e))
  ]

  unauthorized_lem :
      (auth : ReadAuth) (headers : H.HeaderMap)
      → ¬ HasToken (some auth) headers
      → authorized H auth headers ≡ false
  unauthorized_lem auth headers h = elim (Bool-cases (authorized H auth headers)) [
    | inl e ↦ absurd (h ((authorized_iff H auth headers).0 e))
    | inr e ↦ e
  ]

  module _ (S : EventStore) (W : Worklane) (Q : DeadTriggerQueue) (show_id : EventId → String)
      (show_halt : Halt → String) (r : TriggerRuntime)
      (from_slice : List ℕ → Result IncomingEvent String)
      (parse_id : String → Result EventId String) (show_debug : String → String)
      (render : Service S W Q → String) where
    read_lem :
        (auth : Option ReadAuth) (headers : H.HeaderMap) (request : ReadRequest) (s : Ingest S W Q)
        → ¬ HasToken auth headers
        → read_router parse_id show_debug S W Q show_id show_halt r H auth headers request s
          ≡ (err unauthorized, s)
    unfolding read_router require_read_auth
    read_lem none headers request s h = absurd (h tt)
    read_lem (some auth) headers request s h =
        let e = unauthorized_lem auth headers h in ground arith

    -- A post without the valid signature, or a request to read or replay without the token, that the
    -- service is configured with is answered with 401 whatever route it is for, and neither the store, the
    -- runtime nor the channel changes.
    pub serve_ingest_unauthorized :
        (config : ServeConfig) (request : Request H) (s : Service S W Q)
        → ¬ IsAuthorized config request
        → let out =
            serve_ingest S W Q show_id show_halt r H G from_slice parse_id show_debug render config
              request s in
          (out.0.status ≡ 401) × (out.1 ≡ s)
    unfolding serve_ingest post_events_route into_response status_of
    serve_ingest_unauthorized config (post_event headers body id now) s h =
        let e = refuses_lem config.verifier headers body h in (ground arith, ground arith)
    serve_ingest_unauthorized config (read headers request) s h =
        let e = read_lem config.read_auth headers request s.accepting.ingest h in
        (ground (arith, e), ground (arith, e))
    serve_ingest_unauthorized config healthz s h = absurd (h tt)
    serve_ingest_unauthorized config readyz s h = absurd (h tt)
    serve_ingest_unauthorized config metrics s h = absurd (h tt)
