-- ===== src/Http/Read/Laws.antt =====
-- Paging, dry runs and the guard of the read router.
use triggerlane.Common.{
  ℕ, zero, suc, ◌+◌, ◌≤◌, String, true, false, List, [], ◌∷◌, ◌++◌, none, some, Result, ok, err,
  continue, map_err, pure, ◌⊎◌, ◌≡◌, ◌≢◌, refl, ap, sym, ◌∙◌, arith, length, take, drop,
  length-take, inl, inr, Bool-cases,
}
use triggerlane.Event.{EventId, EventEnvelope}
use triggerlane.DeadTriggerQueue.{DeadTriggerQueue}
use triggerlane.EventStore.{EventStore}
use triggerlane.Common.Int.{ℤ}
use triggerlane.Runtime
use triggerlane.Runtime.{Worklane, TriggerRuntime, Halt}
use triggerlane.Runtime.Replay.{
  ReplayError, ReplayRangeReport, ReplayEventReport, ReplayFilter, preview_range, replay_range,
}
use triggerlane.Runtime.Replay.Laws.{replay_range-preview_range, Handled, finished, handled}
use triggerlane.Ingest.{Ingest}
use triggerlane.Http.{HttpRouteError, unauthorized}
use triggerlane.Http.Auth.{Headers, ReadAuth, bearer, header_text, authorized, require_read_auth}
use triggerlane.Http.Auth.Laws.{authorized_iff}
use triggerlane.Http.Read.{
  ListEventsQuery, ReplayRangeQuery, ReplayRangeResponse, range_response, ReadRequest,
  list_events_route, replay_filter, replay_range_route, replay_narrowed, read_router,
}

take_nil : {A : Type 0} (n : ℕ) → take {A = A} n [] ≡ []
take_nil zero = refl
take_nil (suc n) = refl

drop_nil : {A : Type 0} (n : ℕ) → drop {A = A} n [] ≡ []
drop_nil zero = refl
drop_nil (suc n) = refl

take_add : {A : Type 0} (a b : ℕ) (xs : List A) → take a xs ++ take b (drop a xs) ≡ take (a + b) xs
take_add zero b xs = ground arith
take_add {A} (suc a) b [] = take_nil b ∙ sym (take_nil (suc a + b))
take_add (suc a) b (x ∷ xs) =
    let e : suc (a + b) ≡ suc a + b = omega arith in
    ap (λ l. x ∷ l) (take_add a b xs) ∙ ap (λ n. take n (x ∷ xs)) e

drop_add : {A : Type 0} (a b : ℕ) (xs : List A) → drop a (drop b xs) ≡ drop (b + a) xs
drop_add a zero xs = ground arith
drop_add a (suc b) [] = drop_nil a ∙ sym (drop_nil (suc b + a))
drop_add a (suc b) (x ∷ xs) =
    let e : suc (b + a) ≡ suc b + a = omega arith in drop_add a b xs ∙ ap (λ n. drop n (x ∷ xs)) e

-- The query for a page.
abbrev pub page : ℕ → ℕ → ListEventsQuery
page offset limit = record { limit = some limit; offset = some offset }

-- A page of the stored events is no longer than its limit, and two pages, the second of which starts
-- where the first may end, are together the page of both limits.
pub list_events_route_pages :
    (S : EventStore) (offset first second : ℕ) (store : S.State)
    → (length (list_events_route S (page offset first) store) ≤ first)
      × (list_events_route S (page offset first) store
            ++ list_events_route S (page (offset + first) second) store
          ≡ list_events_route S (page offset (first + second)) store)
unfolding list_events_route
list_events_route_pages S offset first second store = (
  omega (arith, length-take first (drop offset (S.all store))),
  ap (λ rest. take first (drop offset (S.all store)) ++ take second rest)
        (sym (drop_add first offset (S.all store)))
      ∙ take_add first second (drop offset (S.all store)),
)

module _ (parse_id : String → Result EventId String) (show_debug : String → String) (S : EventStore)
    (W : Worklane) (Q : DeadTriggerQueue) (show_id : EventId → String) (show_halt : Halt → String)
    (r : TriggerRuntime) where
  length-reports :
      {events : List EventEnvelope} {s t : Runtime.Runtime W Q} {reports : List ReplayEventReport}
      → Handled W Q S show_id r events s reports t
      → length reports ≡ length events
  length-reports finished = refl
  length-reports (handled report step rest) = ap suc (length-reports rest)

  matched_lem :
      (store : S.State) (start end : ℤ) (narrowing : ReplayFilter) (s : Runtime.Runtime W Q)
      (report : ReplayRangeReport)
      → (replay_range W Q S show_id r store start end narrowing s).0 ≡ ok report
      → length report.events ≡ length (preview_range S store start end narrowing)
  matched_lem store start end narrowing s report h =
      length-reports
        (replay_range-preview_range W Q S show_id r store start end narrowing s report h)

  -- The two modes of a call.
  abbrev pub dry : ReplayRangeQuery → ReplayRangeQuery
  dry range = record range { dry_run = true }

  abbrev pub live : ReplayRangeQuery → ReplayRangeQuery
  live range = record range { dry_run = false }

  reported_lem :
      (f : ReplayError → HttpRouteError) (answer : Result ReplayRangeReport ReplayError) (n : ℕ)
      (t : Ingest S W Q) (response : ReplayRangeResponse)
      → ((report : ReplayRangeReport) → answer ≡ ok report → length report.events ≡ n)
      → (continue
          (map_err f answer)
          (λ report. pure (range_response (length report.events) false))
          t).0
        ≡ ok response
      → response.matched ≡ n
  reported_lem f (ok report) n t response h k = ground (arith, h report)
  reported_lem f (err error) n t response h k = ground arith

  narrowed_lem :
      (range : ReplayRangeQuery) (narrowing : Result ReplayFilter HttpRouteError) (s : Ingest S W Q)
      (response : ReplayRangeResponse)
      → (replay_narrowed parse_id show_debug S W Q show_id show_halt r (live range) narrowing s).0
        ≡ ok response
      → replay_narrowed parse_id show_debug S W Q show_id show_halt r (dry range) narrowing s
        ≡ (ok (range_response response.matched true), s)
  unfolding replay_narrowed
  narrowed_lem range (err error) s response h = ground arith
  narrowed_lem range (ok narrowing) s response h =
      ap (λ n. (ok (range_response n true), s))
        (sym (
          reported_lem _ _ _ _ response
            (matched_lem s.store range.start range.end narrowing s.runtime) h))

  -- If a range replay succeeds, a dry run of the same range in the same state has the same count of
  -- matching events, and changes nothing.
  pub replay_range_route-dry :
      (range : ReplayRangeQuery) (s : Ingest S W Q) (response : ReplayRangeResponse)
      → (replay_range_route parse_id show_debug S W Q show_id show_halt r (live range) s).0
        ≡ ok response
      → replay_range_route parse_id show_debug S W Q show_id show_halt r (dry range) s
        ≡ (ok (range_response response.matched true), s)
  unfolding replay_range_route
  replay_range_route-dry range s response h =
      narrowed_lem range (replay_filter parse_id show_debug range.event_type range.source) s
        response h

  -- With a token set, a request whose Authorization header is the text `Bearer ` and that token is
  -- answered as by the router without a guard; any other is refused as unauthorized, whatever
  -- route it is for, and changes nothing.
  pub read_router_guard :
      (H : Headers) (auth : ReadAuth) (headers : H.HeaderMap) (request : ReadRequest)
      (s : Ingest S W Q)
      → let open_router =
          read_router parse_id show_debug S W Q show_id show_halt r H none headers in
        let router =
          read_router parse_id show_debug S W Q show_id show_halt r H (some auth) headers in
        ((header_text H "authorization" headers ≡ some (bearer ++ auth.token))
          × (router request s ≡ open_router request s))
        ⊎ ((header_text H "authorization" headers ≢ some (bearer ++ auth.token))
            × (router request s ≡ (err unauthorized, s)))
  unfolding read_router require_read_auth
  read_router_guard H auth headers request s = elim (Bool-cases (authorized H auth headers)) [
    | inl h ↦ inl ((authorized_iff H auth headers).0 h, ground arith)
    | inr h ↦
        inr
          (λ e. (let q = sym h ∙ (authorized_iff H auth headers).1 e in ground arith), ground arith)
  ]
