-- ===== src/Ingest/Laws.antt =====
-- What the event store holds after an event was ingested, accepted, dispatched or recovered.
use triggerlane.Common.{
  ℕ, ◌+◌, String, Bool, true, false, not, ◌||◌, List, [], ◌∷◌, ◌++◌, some, none, ok, err, ◌≡◌, refl,
  arith, filter, length, any, find, contains, nat_eq, ◌>>=◌, pure, Bool-cases, fun_ext, inl, inr,
  sym, ◌∙◌, filter-append,
}
use triggerlane.Event.{EventId, EventEnvelope}
use triggerlane.DeadTriggerQueue.{DeadTriggerQueue}
use triggerlane.EventStore.{EventStore, has_key, find_by_idempotency_key}
use triggerlane.EventStore.Laws.{IsEventStore}
use triggerlane.EventStore.Memory.{ids}
use triggerlane.Runtime.{Worklane, TriggerRuntime, Halt}
use triggerlane.Runtime.Handle.{handle}
use triggerlane.Ingest.{
  Ingest, IngestReport, AcceptReport, earlier, ingest, ingest_after, accept, accept_after, dispatch,
  recover_each, recover_undelivered,
}

find_of_any :
    {A : Type 0} (test : A → Bool) (xs : List A)
    → any test xs ≡ true
    → (x : A) × (find test xs ≡ some x) × (test x ≡ true)
find_of_any test [] h = ground arith
find_of_any test (x ∷ xs) h = elim (Bool-cases (test x)) [
  | inl h' ↦ (x, rw h', h')
  | inr h' ↦
      (let (y, found, same) = find_of_any test xs (sym (rw h' refl) ∙ h) in (y, rw h' found, same))
]

module _ (S : EventStore) (D : IsEventStore S) (W : Worklane) (Q : DeadTriggerQueue)
    (show_id : EventId → String) (r : TriggerRuntime) where
  -- If an event with the same idempotency key is stored, ingesting and accepting change nothing and
  -- report the first of the stored events with that key as the one that counts.
  pub ingest_duplicate :
      (event : EventEnvelope) (key : String) (s : Ingest S W Q)
      → event.metadata.idempotency_key ≡ some key
      → any (has_key key) (S.all s.store) ≡ true
      → (existing : EventEnvelope) × (has_key key existing ≡ true)
        × (find (has_key key) (S.all s.store) ≡ some existing)
        × (ingest S W Q show_id r event s ≡ (
          ok (record {
            event_id = show_id existing.id;
            handle = record { submitted = []; failed = [] };
            deduplicated = true;
          }),
          s,
        ))
        × (accept S W Q show_id r event s
            ≡ (ok (record { event_id = show_id existing.id; deduplicated = true }), s))
  unfolding ingest accept earlier find_by_idempotency_key ingest_after accept_after
  ingest_duplicate event key s h stored =
      let (existing, found, same) = find_of_any (has_key key) (S.all s.store) stored in
      (existing, same, found, rw (h, found), rw (h, found))

  -- For an event whose key is not stored, ingesting is accepting and then dispatching: the same store,
  -- the same runtime and the same errors.
  pub ingest-eq-accept-dispatch :
      (event : EventEnvelope) (s : Ingest S W Q)
      → earlier S s.store event.metadata.idempotency_key ≡ none
      → ingest S W Q show_id r event s
        ≡ (accept S W Q show_id r event >>= λ accepted.
              dispatch S W Q show_id r event >>= λ handled. pure (record {
                event_id = accepted.event_id;
                handle = handled;
                deduplicated = accepted.deduplicated;
              }))
            s
  unfolding ingest accept dispatch ingest_after accept_after
  ingest-eq-accept-dispatch event s h = rw h (ground arith)

  -- If ingesting succeeds with an event that was not a duplicate, the event is stored after the others
  -- and delivered, and the report is that of its one handling.
  pub ingest_ok :
      (event : EventEnvelope) (s : Ingest S W Q) (report : IngestReport)
      → (ingest S W Q show_id r event s).0 ≡ ok report
      → report.deduplicated ≡ false
      → (S.all (ingest S W Q show_id r event s).1.store ≡ S.all s.store ++ event ∷ [])
        × (D.is_delivered (ingest S W Q show_id r event s).1.store event.id ≡ true)
        × (report.event_id ≡ show_id event.id)
        × (handle W Q show_id r event s.runtime
            ≡ (ok report.handle, (ingest S W Q show_id r event s).1.runtime))
  unfolding ingest ingest_after
  ingest_ok event s report h fresh = ground (
    arith,
    D.append_ok event s.store,
    D.append_delivered event s.store event.id,
    D.mark_all event.id (S.append event s.store).1,
    D.mark_ok event.id (S.append event s.store).1 event.id,
  )

  pub undelivered_append :
      (event : EventEnvelope) (store : S.State)
      → (S.append event store).0 ≡ ok tt
      → D.is_delivered store event.id ≡ false
      → S.undelivered (S.append event store).1 ≡ S.undelivered store ++ event ∷ []
  undelivered_append event store appended undelivered =
      rw
        (
          D.undelivered_lem (S.append event store).1,
          D.undelivered_lem store,
          D.append_ok event store appended,
          fun_ext (D.append_delivered event store),
          filter-append,
        )
        (rw undelivered refl)

  -- If accepting succeeds with an event that was not a duplicate, and its id was not delivered
  -- before, the event is stored after the others and is the last of the undelivered ones, and the
  -- runtime is as it was.
  pub accept_ok :
      (event : EventEnvelope) (s : Ingest S W Q) (report : AcceptReport)
      → (accept S W Q show_id r event s).0 ≡ ok report
      → report.deduplicated ≡ false
      → D.is_delivered s.store event.id ≡ false
      → (S.all (accept S W Q show_id r event s).1.store ≡ S.all s.store ++ event ∷ [])
        × (S.undelivered (accept S W Q show_id r event s).1.store
            ≡ S.undelivered s.store ++ event ∷ [])
        × ((accept S W Q show_id r event s).1.runtime ≡ s.runtime)
  unfolding accept accept_after
  accept_ok event s report h fresh undelivered =
      ground (arith, D.append_ok event s.store, undelivered_append event s.store)

  -- If an event is stored and its handling fails, ingesting fails and leaves it as the last of the
  -- undelivered events, for a later recovery.
  pub ingest_err :
      (event : EventEnvelope) (s : Ingest S W Q) (halt : Halt)
      → earlier S s.store event.metadata.idempotency_key ≡ none
      → (S.append event s.store).0 ≡ ok tt
      → (handle W Q show_id r event s.runtime).0 ≡ err halt
      → D.is_delivered s.store event.id ≡ false
      → ((ingest S W Q show_id r event s).0 ≡ err halt)
        × (S.undelivered (ingest S W Q show_id r event s).1.store
            ≡ S.undelivered s.store ++ event ∷ [])
  unfolding ingest ingest_after
  ingest_err event s halt new appended failed undelivered =
      ground (arith, undelivered_append event s.store appended undelivered)

  recover_each_ok :
      (pending : List EventEnvelope) (n m : ℕ) (s : Ingest S W Q) (j : EventId)
      → (recover_each S W Q show_id r pending n s).0 ≡ ok m
      → (m ≡ n + length pending)
        × (S.all (recover_each S W Q show_id r pending n s).1.store ≡ S.all s.store)
        × (D.is_delivered (recover_each S W Q show_id r pending n s).1.store j
            ≡ (contains (ids pending) j || D.is_delivered s.store j))
  unfolding recover_each
  recover_each_ok [] n m s j h = ground arith
  recover_each_ok (event ∷ pending) n m s j h = ground (
    arith,
    D.mark_all event.id s.store,
    D.mark_ok event.id s.store j,
    recover_each_ok pending (n + 1) m
        (record {
          store = (S.mark_delivered event.id s.store).1;
          runtime = (handle W Q show_id r event s.runtime).1;
        })
        j,
  )

  covered :
      (delivered : EventId → Bool) (pending : List EventId) (xs : List EventEnvelope)
      → ((j : EventId)
          → contains (ids (filter (λ event. not (delivered event.id)) xs)) j ≡ true
          → contains pending j ≡ true)
      → filter (λ event. not (contains pending event.id || delivered event.id)) xs ≡ []
  covered delivered pending [] h = refl
  covered delivered pending (x ∷ xs) h =
      ground (arith, h x.id, covered delivered pending xs (λ j k. h j (ground arith)))

  -- If recovering succeeds, it reports the number of the events that were not delivered, the same
  -- events are stored as before, and none of them is undelivered any more.
  pub recover_undelivered_counts :
      (s : Ingest S W Q) (recovered : ℕ)
      → (recover_undelivered S W Q show_id r s).0 ≡ ok recovered
      → (recovered ≡ length (S.undelivered s.store))
        × (S.all (recover_undelivered S W Q show_id r s).1.store ≡ S.all s.store)
        × (S.undelivered (recover_undelivered S W Q show_id r s).1.store ≡ [])
  unfolding recover_undelivered
  recover_undelivered_counts s recovered h =
      let (n, all, u) = recover_each_ok (S.undelivered s.store) 0 recovered s 0 h in
      (
        ground (arith, n),
        all,
        rw
            (
              D.undelivered_lem _,
              all,
              fun_ext (λ j. (recover_each_ok (S.undelivered s.store) 0 recovered s j h).2),
              D.undelivered_lem s.store,
            )
            (covered (D.is_delivered s.store) _ (S.all s.store) (λ j k. k)),
      )
