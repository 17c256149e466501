-- ===== src/EventStore/Laws.antt =====
-- What the runtime relies on of an event store, and that both implementations give it.
use triggerlane.Common.{
  ◌≡◌, refl, ap, Bool, not, ◌||◌, List, [], ◌∷◌, ◌++◌, ok, err, filter, arith, contains, ◌==◌,
  nat_eq, Option, ℕ, contains-set_insert,
}
use triggerlane.Event.{EventId, EventEnvelope}
use triggerlane.Jsonl.Serde.{Serde}
use triggerlane.Jsonl.Read.{IoError}
use triggerlane.Jsonl.Store
use triggerlane.EventStore.{EventStore}
use triggerlane.EventStore.Memory.{in_memory_event_store}
use triggerlane.EventStore.File.{FileEventStore, mark_delivered, file_event_store}

-- `append` and `mark_delivered` do what they say if they report success, and change nothing that
-- the other methods show if they do not.
pub record IsEventStore (S : EventStore) : Type 0 where
  pub is_delivered : S.State → EventId → Bool
  pub undelivered_lem :
      (s : S.State) → S.undelivered s ≡ filter (λ event. not (is_delivered s event.id)) (S.all s)
  pub append_ok :
      (event : EventEnvelope) (s : S.State)
      → (S.append event s).0 ≡ ok tt
      → S.all (S.append event s).1 ≡ S.all s ++ event ∷ []
  pub append_err :
      (event : EventEnvelope) (s : S.State) (error : IoError)
      → (S.append event s).0 ≡ err error
      → S.all (S.append event s).1 ≡ S.all s
  pub append_delivered :
      (event : EventEnvelope) (s : S.State) (id : EventId)
      → is_delivered (S.append event s).1 id ≡ is_delivered s id
  pub mark_all : (id : EventId) (s : S.State) → S.all (S.mark_delivered id s).1 ≡ S.all s
  pub mark_ok :
      (id : EventId) (s : S.State) (j : EventId)
      → (S.mark_delivered id s).0 ≡ ok tt
      → is_delivered (S.mark_delivered id s).1 j ≡ (j == id || is_delivered s j)
  pub mark_err :
      (id : EventId) (s : S.State) (error : IoError) (j : EventId)
      → (S.mark_delivered id s).0 ≡ err error
      → is_delivered (S.mark_delivered id s).1 j ≡ is_delivered s j

-- `InMemoryEventStore` is such a store.
pub in_memory-IsEventStore :
    (to_vec : EventEnvelope → Option (List ℕ)) → IsEventStore (in_memory_event_store to_vec)
unfolding in_memory_event_store
in_memory-IsEventStore to_vec = record {
  is_delivered = λ s id. contains s.delivered id;
  undelivered_lem = λ s. refl;
  append_ok = λ event s h. refl;
  append_err = λ event s error h. cc;
  append_delivered = λ event s id. refl;
  mark_all = λ id s. refl;
  mark_ok = λ id s j h. contains-set_insert id j s.delivered;
  mark_err = λ id s error j h. cc;
}

module _ (events : Serde EventEnvelope) (event_ids : Serde EventId) where
  append_records :
      {T : Type 0} (serde : Serde T) (r : T) (s : Store.JsonlStore T)
      → (Store.append serde r s).0 ≡ ok tt
      → (Store.append serde r s).1.records ≡ s.records ++ r ∷ []
  unfolding Store.append
  append_records serde r s h = ground arith

  append_records_err :
      {T : Type 0} (serde : Serde T) (r : T) (s : Store.JsonlStore T) (error : IoError)
      → (Store.append serde r s).0 ≡ err error
      → (Store.append serde r s).1.records ≡ s.records
  unfolding Store.append
  append_records_err serde r s error h = ground arith

  mark_all_lem :
      (id : EventId) (s : FileEventStore) → (mark_delivered events event_ids id s).1.inner ≡ s.inner
  unfolding mark_delivered Store.append
  mark_all_lem id s = ground arith

  mark_ok_lem :
      (id : EventId) (s : FileEventStore) (j : EventId)
      → (mark_delivered events event_ids id s).0 ≡ ok tt
      → contains (mark_delivered events event_ids id s).1.delivered_set j
        ≡ (j == id || contains s.delivered_set j)
  unfolding mark_delivered Store.append
  mark_ok_lem id s j h = ground (arith, contains-set_insert id j s.delivered_set)

  mark_err_lem :
      (id : EventId) (s : FileEventStore) (error : IoError) (j : EventId)
      → (mark_delivered events event_ids id s).0 ≡ err error
      → contains (mark_delivered events event_ids id s).1.delivered_set j
        ≡ contains s.delivered_set j
  unfolding mark_delivered Store.append
  mark_err_lem id s error j h = ground arith

  -- `FileEventStore` is such a store, whatever fails of its system calls.
  pub file-IsEventStore : IsEventStore (file_event_store events event_ids)
  unfolding file_event_store
  file-IsEventStore = record {
    is_delivered = λ s id. contains s.delivered_set id;
    undelivered_lem = λ s. refl;
    append_ok = λ event s h. append_records events event s.inner h;
    append_err = λ event s error h. append_records_err events event s.inner error h;
    append_delivered = λ event s id. refl;
    mark_all = λ id s. ap (λ inner. inner.records) (mark_all_lem id s);
    mark_ok = mark_ok_lem;
    mark_err = mark_err_lem;
  }
