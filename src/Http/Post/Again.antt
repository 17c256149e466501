-- ===== src/Http/Post/Again.antt =====
-- An event that a client sends again after a failed answer.
use triggerlane.Common.{
  String, Bool, true, false, List, [], ◌∷◌, ◌++◌, none, some, ok, err, ◌≡◌, arith, any, option_eq,
  ap, ◌∙◌,
}
use triggerlane.Event.{EventId, EventEnvelope}
use triggerlane.DeadTriggerQueue.{DeadTriggerQueue}
use triggerlane.EventStore.{EventStore, has_key}
use triggerlane.EventStore.Laws.{IsEventStore}
use triggerlane.Runtime.{Worklane, TriggerRuntime, Halt}
use triggerlane.Runtime.Handle.{handle}
use triggerlane.Ingest.{Ingest, earlier, ingest, ingest_after, accept, accept_after}
use triggerlane.Ingest.Laws.{ingest_err, ingest_duplicate, undelivered_append}
use triggerlane.Http.Post.{Accepting, ingest_event, accept_event, inline_report, accepted_report}
use triggerlane.Http.{new_error}

any-append :
    {A : Type 0} (test : A → Bool) (xs : List A) (x : A)
    → test x ≡ true
    → any test (xs ++ x ∷ []) ≡ true
any-append test [] x h = ground arith
any-append test (y ∷ xs) x h = ground (arith, any-append test xs x h)

has_own_key :
    (key : String) (event : EventEnvelope)
    → event.metadata.idempotency_key ≡ some key
    → has_key key event ≡ true
unfolding option_eq
has_own_key key event h = ground arith

module _ (S : EventStore) (D : IsEventStore S) (W : Worklane) (Q : DeadTriggerQueue)
    (show_id : EventId → String) (show_halt : Halt → String) (r : TriggerRuntime) where
  stored_after_err :
      (event : EventEnvelope) (s : Ingest S W Q) (halt : Halt)
      → earlier S s.store event.metadata.idempotency_key ≡ none
      → (S.append event s.store).0 ≡ ok tt
      → (handle W Q show_id r event s.runtime).0 ≡ err halt
      → S.all (ingest S W Q show_id r event s).1.store ≡ S.all s.store ++ event ∷ []
  unfolding ingest ingest_after
  stored_after_err event s halt new appended failed = ground (arith, D.append_ok event s.store)

  -- If an event with an idempotency key that no stored event has, and an id that is not delivered, is
  -- stored and its handling fails, the inline handler reports the error. An event with the same key
  -- that is sent after it is then reported as handled, with no job and no failure; that call
  -- changes nothing, and the first event is the last of the undelivered ones.
  pub ingest_event_again :
      (event again : EventEnvelope) (key : String) (s : Ingest S W Q) (halt : Halt)
      → event.metadata.idempotency_key ≡ some key
      → again.metadata.idempotency_key ≡ some key
      → earlier S s.store (some key) ≡ none
      → (S.append event s.store).0 ≡ ok tt
      → (handle W Q show_id r event s.runtime).0 ≡ err halt
      → D.is_delivered s.store event.id ≡ false
      → let failed = ingest_event S W Q show_id show_halt r event s in
        (failed.0 ≡ err (new_error (show_halt halt)))
        × (ingest_event S W Q show_id show_halt r again failed.1
            ≡ (ok (inline_report [] 0), failed.1))
        × (S.undelivered failed.1.store ≡ S.undelivered s.store ++ event ∷ [])
  unfolding ingest_event
  ingest_event_again event again key s halt own same new appended failed undelivered =
      let fresh : earlier S s.store event.metadata.idempotency_key ≡ none =
        ap (earlier S s.store) own ∙ new in
      let (answer, left) =
        ingest_err S D W Q show_id r event s halt fresh appended failed undelivered in
      let stored =
        (ap (any (has_key key)) (stored_after_err event s halt fresh appended failed)
          ∙ any-append (has_key key) (S.all s.store) event (has_own_key key event own)) in
      let (existing, of_key, found, twice, accepted) =
        ingest_duplicate S D W Q show_id r again key (ingest S W Q show_id r event s).1 same
          stored in
      (ground (arith, answer), ground (arith, twice), ground (arith, left))

  accept_fresh :
      (event : EventEnvelope) (s : Ingest S W Q)
      → earlier S s.store event.metadata.idempotency_key ≡ none
      → (S.append event s.store).0 ≡ ok tt
      → accept S W Q show_id r event s ≡ (
        ok (record { event_id = show_id event.id; deduplicated = false }),
        record s { store = (S.append event s.store).1 },
      )
  unfolding accept accept_after
  accept_fresh event s new appended = ground arith

  -- If an event with an idempotency key that no stored event has, and an id that is not delivered, is
  -- stored and the dispatch channel is closed, the accepting handler reports an error. An event with
  -- the same key that is sent after it is then reported as accepted; that call changes nothing, and
  -- the first event is the last of the undelivered ones and not in the channel.
  pub accept_event_again :
      (event again : EventEnvelope) (key : String) (s : Accepting S W Q)
      → event.metadata.idempotency_key ≡ some key
      → again.metadata.idempotency_key ≡ some key
      → earlier S s.ingest.store (some key) ≡ none
      → (S.append event s.ingest.store).0 ≡ ok tt
      → s.open_channel ≡ false
      → D.is_delivered s.ingest.store event.id ≡ false
      → let refused = accept_event S W Q show_id show_halt r event s in
        (refused.0 ≡ err (new_error "dispatch channel closed"))
        × (accept_event S W Q show_id show_halt r again refused.1 ≡ (ok accepted_report, refused.1))
        × (S.undelivered refused.1.ingest.store ≡ S.undelivered s.ingest.store ++ event ∷ [])
        × (refused.1.channel ≡ s.channel)
  unfolding accept_event
  accept_event_again event again key s own same new appended closed undelivered =
      let fresh : earlier S s.ingest.store event.metadata.idempotency_key ≡ none =
        ap (earlier S s.ingest.store) own ∙ new in
      let first = accept_fresh event s.ingest fresh appended in
      let stored =
        (ap (any (has_key key)) (D.append_ok event s.ingest.store appended)
          ∙ any-append (has_key key) (S.all s.ingest.store) event (has_own_key key event own)) in
      let (existing, of_key, found, ingested, twice) =
        ingest_duplicate S D W Q show_id r again key
          (record s.ingest { store = (S.append event s.ingest.store).1 }) same stored in
      let left = undelivered_append S D W Q show_id r event s.ingest.store appended undelivered in
      (
        ground (arith, first),
        ground (arith, first, twice),
        ground (arith, first, left),
        ground (arith, first),
      )
