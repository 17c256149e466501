-- ===== src/Cli/Serve/Async.antt =====
-- The asynchronous path as steps: posts that are accepted and events that are dispatched, in any
-- order and with any answers. The ids of the events that a step gave up on are counted along.
use triggerlane.Common.{
  String, Bool, false, not, ◌||◌, List, [], ◌∷◌, ◌++◌, Result, ok, err, ◌≡◌, ◌⊎◌, inl, inr, refl,
  arith, filter, contains, ◌==◌, nat_eq, Option-cases,
}
use triggerlane.Event.{EventId, EventEnvelope}
use triggerlane.DeadTriggerQueue.{DeadTriggerQueue}
use triggerlane.EventStore.{EventStore}
use triggerlane.EventStore.Laws.{IsEventStore}
use triggerlane.EventStore.Memory.{ids}
use triggerlane.Jsonl.Read.{IoError}
use triggerlane.Runtime.{Worklane, TriggerRuntime, Halt, HandleReport}
use triggerlane.Ingest.{Ingest, earlier, accept, accept_after, dispatch}
use triggerlane.Http.{HandlerError}
use triggerlane.Http.Post.{Accepting, EventHandlingReport, accept_event}
use triggerlane.Cli.Serve.{dispatch_next}
use triggerlane.Cli.Serve.Distinct.{Distinct}

module _ (S : EventStore) (D : IsEventStore S) where
  -- An event that is lost or delivered waits no more.
  abbrev pub gone : List EventId → S.State → EventId → Bool
  gone lost store id = contains lost id || D.is_delivered store id

  abbrev pub waiting : List EventId → S.State → List EventEnvelope
  waiting lost store = filter (λ e. not (gone lost store e.id)) (S.all store)

module _ (S : EventStore) (D : IsEventStore S) (W : Worklane) (Q : DeadTriggerQueue)
    (show_id : EventId → String) (show_halt : Halt → String) (r : TriggerRuntime) where
  -- A step, and the ids of the events that were stored and are in no channel any more although they
  -- are not delivered. A posted event has an id that was not seen before.
  pub data Step : List EventId → Accepting S W Q → List EventId → Accepting S W Q → Type 0 where
    accepted :
        {lost : List EventId} {s : Accepting S W Q} (event : EventEnvelope)
        (report : EventHandlingReport)
        → contains (ids (S.all s.ingest.store)) event.id ≡ false
        → contains lost event.id || D.is_delivered s.ingest.store event.id ≡ false
        → (accept_event S W Q show_id show_halt r event s).0 ≡ ok report
        → Step lost s lost (accept_event S W Q show_id show_halt r event s).1
    unstored :
        {lost : List EventId} {s : Accepting S W Q} (event : EventEnvelope) (error : HandlerError)
        (failure : IoError)
        → (accept_event S W Q show_id show_halt r event s).0 ≡ err error
        → (S.append event s.ingest.store).0 ≡ err failure
        → Step lost s lost (accept_event S W Q show_id show_halt r event s).1
    unsent :
        {lost : List EventId} {s : Accepting S W Q} (event : EventEnvelope) (error : HandlerError)
        → contains (ids (S.all s.ingest.store)) event.id ≡ false
        → (accept_event S W Q show_id show_halt r event s).0 ≡ err error
        → (S.append event s.ingest.store).0 ≡ ok tt
        → Step lost s (event.id ∷ lost) (accept_event S W Q show_id show_halt r event s).1
    dispatched :
        {lost : List EventId} {s : Accepting S W Q} (event : EventEnvelope)
        (channel : List EventEnvelope) (report : HandleReport)
        → s.channel ≡ event ∷ channel
        → (dispatch S W Q show_id r event s.ingest).0 ≡ ok report
        → Step lost s lost (dispatch_next S W Q show_id r s)
    undispatched :
        {lost : List EventId} {s : Accepting S W Q} (event : EventEnvelope)
        (channel : List EventEnvelope) (error : Halt)
        → s.channel ≡ event ∷ channel
        → (dispatch S W Q show_id r event s.ingest).0 ≡ err error
        → Step lost s (event.id ∷ lost) (dispatch_next S W Q show_id r s)

  -- Any number of steps.
  pub data Steps : List EventId → Accepting S W Q → List EventId → Accepting S W Q → Type 0 where
    done : {lost : List EventId} {s : Accepting S W Q} → Steps lost s lost s
    step :
        {lost lost1 lost2 : List EventId} {s s1 s2 : Accepting S W Q}
        → Steps lost s lost1 s1
        → Step lost1 s1 lost2 s2
        → Steps lost s lost2 s2

  -- The events in the channel are the undelivered ones that are not lost, in order.
  pub record InStep (lost : List EventId) (s : Accepting S W Q) : Type 0 where
    pub distinct : Distinct (ids (S.all s.ingest.store))
    pub channel_lem : s.channel ≡ waiting S D lost s.ingest.store

  pub dispatch_ok :
      (event : EventEnvelope) (s : Ingest S W Q) (report : HandleReport)
      → (dispatch S W Q show_id r event s).0 ≡ ok report
      → (S.all (dispatch S W Q show_id r event s).1.store ≡ S.all s.store)
        × ((id : EventId)
            → D.is_delivered (dispatch S W Q show_id r event s).1.store id
              ≡ (id == event.id || D.is_delivered s.store id))
  unfolding dispatch
  dispatch_ok event s report h = (
    ground (arith, D.mark_all event.id s.store),
    λ id. ground (arith, D.mark_ok event.id s.store id),
  )

  mark_cases :
      (id : EventId) (store : S.State) (j : EventId)
      → ((S.mark_delivered id store).0 ≡ ok tt)
        ⊎ (D.is_delivered (S.mark_delivered id store).1 j ≡ D.is_delivered store j)
  mark_cases id store j = by_answer _ refl
    where
      by_answer :
          (answer : Result (Unit {0}) IoError)
          → (S.mark_delivered id store).0 ≡ answer
          → ((S.mark_delivered id store).0 ≡ ok tt)
            ⊎ (D.is_delivered (S.mark_delivered id store).1 j ≡ D.is_delivered store j)
      by_answer (ok tt) e = inl e
      by_answer (err error) e = inr (D.mark_err id store error j e)

  pub dispatch_err :
      (event : EventEnvelope) (s : Ingest S W Q) (error : Halt)
      → (dispatch S W Q show_id r event s).0 ≡ err error
      → (S.all (dispatch S W Q show_id r event s).1.store ≡ S.all s.store)
        × ((id : EventId)
            → D.is_delivered (dispatch S W Q show_id r event s).1.store id
              ≡ D.is_delivered s.store id)
  unfolding dispatch
  dispatch_err event s error h = (
    ground (arith, D.mark_all event.id s.store),
    λ id. ground (arith, mark_cases event.id s.store id),
  )

  -- The state behind an accepted event: the one before, or with the event stored and sent.
  pub accept_event_ok :
      (event : EventEnvelope) (s : Accepting S W Q) (report : EventHandlingReport)
      → (accept_event S W Q show_id show_halt r event s).0 ≡ ok report
      → let after = (accept_event S W Q show_id show_halt r event s).1 in
        (after ≡ s)
        ⊎ ((S.all after.ingest.store ≡ S.all s.ingest.store ++ event ∷ [])
            × ((id : EventId)
                → D.is_delivered after.ingest.store id ≡ D.is_delivered s.ingest.store id)
            × (after.channel ≡ s.channel ++ event ∷ []))
  unfolding accept_event accept accept_after
  accept_event_ok event s report h =
      elim (Option-cases (earlier S s.ingest.store event.metadata.idempotency_key)) [
        | inl new ↦ inr (
          ground (arith, new, D.append_ok event s.ingest.store),
          λ id. ground (arith, new, D.append_delivered event s.ingest.store id),
          ground (arith, new),
        )
        | inr (existing, found) ↦ inl (ground (arith, found))
      ]

  pub accept_event_unsent :
      (event : EventEnvelope) (s : Accepting S W Q) (error : HandlerError)
      → (accept_event S W Q show_id show_halt r event s).0 ≡ err error
      → (S.append event s.ingest.store).0 ≡ ok tt
      → let after = (accept_event S W Q show_id show_halt r event s).1 in
        (S.all after.ingest.store ≡ S.all s.ingest.store ++ event ∷ [])
        × ((id : EventId) → D.is_delivered after.ingest.store id ≡ D.is_delivered s.ingest.store id)
        × (after.channel ≡ s.channel)
  unfolding accept_event accept accept_after
  accept_event_unsent event s error h appended = (
    ground (arith, D.append_ok event s.ingest.store),
    λ id. ground (arith, D.append_delivered event s.ingest.store id),
    ground arith,
  )

  pub accept_event_unstored :
      (event : EventEnvelope) (s : Accepting S W Q) (error : HandlerError) (failure : IoError)
      → (accept_event S W Q show_id show_halt r event s).0 ≡ err error
      → (S.append event s.ingest.store).0 ≡ err failure
      → let after = (accept_event S W Q show_id show_halt r event s).1 in
        (S.all after.ingest.store ≡ S.all s.ingest.store)
        × ((id : EventId) → D.is_delivered after.ingest.store id ≡ D.is_delivered s.ingest.store id)
        × (after.channel ≡ s.channel)
  unfolding accept_event accept accept_after
  accept_event_unstored event s error failure h failed = (
    ground (arith, D.append_err event s.ingest.store failure),
    λ id. ground (arith, D.append_delivered event s.ingest.store id),
    ground arith,
  )
