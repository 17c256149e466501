-- ===== src/Http/Post/Laws.antt =====
-- The answers of `POST /events`, whatever handler is behind it.
use triggerlane.Common.{
  none, some, ℕ, String, Bool, true, false, List, Option, Result, ok, err, ◌≡◌, refl, ◌⊎◌, inl, inr,
  arith, if◌then◌else◌, raise,
}
use triggerlane.Common.Int.{ℤ}
use triggerlane.Event.{EventId}
use triggerlane.Http.{
  StatusCode, HttpRouteError, unauthorized, HandlerError, answer, into_response, status_of,
}
use triggerlane.Http.Auth.{Headers}
use triggerlane.Http.Webhook.{Signatures, WebhookVerifier}
use triggerlane.Http.Webhook.Laws.{Signed, verify_iff}
use triggerlane.Http.Post.{
  IncomingEvent, post_events, EventHandlingReport, EventHandler, EventResponse, respond, refuses,
  post_parsed, post_events_route,
}

-- The status that an answer of the handler is given.
abbrev pub handled_status : Result EventHandlingReport HandlerError → StatusCode
handled_status (ok report) = if report.accepted then 202 else 200
handled_status (err error) = 500

module _ (H : Headers) (G : Signatures) where
  -- No signature is asked for, or the body carries it.
  abbrev pub Admits : Option WebhookVerifier → H.HeaderMap → List ℕ → Type 0
  Admits none headers body = Unit {0}
  Admits (some verifier) headers body = Signed H G verifier headers body

  pub refused_lem :
      (verifier : Option WebhookVerifier) (headers : H.HeaderMap) (body : List ℕ)
      → refuses H G verifier headers body ≡ true
      → ¬ Admits verifier headers body
  unfolding refuses
  refused_lem none headers body h = ground arith
  refused_lem (some verifier) headers body h =
      λ signed. let valid = (verify_iff H G verifier headers body).1 signed in ground arith

  pub admitted_lem :
      (verifier : Option WebhookVerifier) (headers : H.HeaderMap) (body : List ℕ)
      → refuses H G verifier headers body ≡ false
      → Admits verifier headers body
  unfolding refuses
  admitted_lem none headers body h = tt
  admitted_lem (some verifier) headers body h =
      (verify_iff H G verifier headers body).0 (ground arith)

module _ (H : Headers) (G : Signatures) (from_slice : List ℕ → Result IncomingEvent String)
    (show_id : EventId → String) (E : EventHandler) where
  handled_lem :
      (input : IncomingEvent) (id : EventId) (now : ℤ) (s : E.State)
      → let out = post_parsed H G from_slice show_id E id now (ok input) s in
        (out.1 ≡ (E.handle_event (post_events id now input) s).1)
        × ((answer out.0).status ≡ handled_status (E.handle_event (post_events id now input) s).0)
  unfolding post_parsed respond into_response status_of
  handled_lem input id now s = ground arith

  -- What a call may come to, by what the body parses to.
  abbrev pub PostOutcome :
      Type 0
      → Result IncomingEvent String
      → EventId
      → ℤ
      → E.State
      → Result (StatusCode × EventResponse) HttpRouteError × E.State
      → Type 0
  PostOutcome Admitted parsed id now s out =
      ((¬ Admitted) × ((answer out.0).status ≡ 401) × (out.1 ≡ s))
      ⊎ ((error : String) × Admitted
          × (parsed ≡ err error)
          × ((answer out.0).status ≡ 400)
          × (out.1 ≡ s))
      ⊎ ((input : IncomingEvent) × Admitted
          × (parsed ≡ ok input)
          × (out.1 ≡ (E.handle_event (post_events id now input) s).1)
          × ((answer out.0).status
              ≡ handled_status (E.handle_event (post_events id now input) s).0))

  outcome_lem :
      (Admitted : Type 0) (refused : Bool) (parsed : Result IncomingEvent String) (id : EventId)
      (now : ℤ) (s : E.State)
      → (refused ≡ true → ¬ Admitted)
      → (refused ≡ false → Admitted)
      → PostOutcome Admitted parsed id now s (
          (if refused
              then raise unauthorized
              else post_parsed H G from_slice show_id E id now parsed)
            s)
  unfolding post_parsed into_response status_of
  outcome_lem Admitted true parsed id now s out admitted = inl (out refl, refl, refl)
  outcome_lem Admitted false (err error) id now s out admitted =
      inr (inl (error, admitted refl, refl, refl, refl))
  outcome_lem Admitted false (ok input) id now s out admitted =
      let (state, status) = handled_lem input id now s in
      inr (inr (input, admitted refl, refl, state, status))

  -- A posted event whose signature is asked for and not valid is answered with 401, and a body that is
  -- no event with 400; both leave the handler's state as it was. Otherwise the handler is called
  -- once, on the event that the body describes, and the answer is 202, 200 or 500: its event was
  -- accepted, was handled, or failed.
  pub post_events_route_cases :
      (verifier : Option WebhookVerifier) (id : EventId) (now : ℤ) (headers : H.HeaderMap)
      (body : List ℕ) (s : E.State)
      → PostOutcome
          (Admits H G verifier headers body)
          (from_slice body)
          id
          now
          s
          (post_events_route H G from_slice show_id E verifier id now headers body s)
  unfolding post_events_route
  post_events_route_cases verifier id now headers body s =
      outcome_lem (Admits H G verifier headers body) (refuses H G verifier headers body)
        (from_slice body) id now s (refused_lem H G verifier headers body)
        (admitted_lem H G verifier headers body)
