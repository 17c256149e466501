-- ===== src/EventStore/Marks.antt =====
-- `FileEventStore::mark_delivered` and the journal of delivered ids that it leaves on the disk.
use triggerlane.Common.{
  ℕ, ◌≡◌, ◌≢◌, ◌∙◌, true, ◌||◌, List, [], ◌∷◌, ◌++◌, ok, arith, contains, ◌==◌, nat_eq, inl, inr,
  Bool-cases,
}
use triggerlane.Event.{EventId, EventEnvelope}
use triggerlane.Jsonl.Serde.{Serde, IsSerde}
use triggerlane.Jsonl.Read.{read_bytes}
use triggerlane.Jsonl.Store
use triggerlane.Jsonl.Durability.{InSync, CrashImage, append_crash_ok}
use triggerlane.Jsonl.Durability.Replace.{settled}
use triggerlane.EventStore.File.{FileEventStore, mark_delivered}

contains_last :
    (xs : List EventId) (id x : EventId) → contains (xs ++ id ∷ []) x ≡ (x == id || contains xs x)
contains_last [] id x = ground arith
contains_last (y ∷ xs) id x = ground (arith, contains_last xs id x)

contains_known :
    (xs : List EventId) (id x : EventId)
    → contains xs id ≡ true
    → contains xs x ≡ (x == id || contains xs x)
contains_known xs id x h = ground arith

module _ (events : Serde EventEnvelope) (event_ids : Serde EventId) (laws : IsSerde event_ids) where
  mark_new :
      (id : EventId) (s : FileEventStore)
      → contains s.delivered_set id ≢ true
      → (mark_delivered events event_ids id s).0 ≡ ok tt
      → ((Store.append event_ids id s.delivered).0 ≡ ok tt)
        × ((mark_delivered events event_ids id s).1.delivered
            ≡ (Store.append event_ids id s.delivered).1)
  unfolding mark_delivered
  mark_new id s h marked = ground arith

  -- If marking an event as delivered succeeds, on a store whose journal is in sync and has the ids of
  -- the set in memory, then whatever a crash behind it leaves, the journal reads back, with exactly
  -- the ids that were delivered before and this one.
  pub mark_delivered_durable :
      (id : EventId) (s : FileEventStore) (journal : List ℕ)
      → InSync event_ids laws s.delivered
      → ((j : EventId) → contains s.delivered.records j ≡ contains s.delivered_set j)
      → (mark_delivered events event_ids id s).0 ≡ ok tt
      → CrashImage (mark_delivered events event_ids id s).1.delivered.disk journal
      → (delivered : List EventId) × (read_bytes event_ids.from_str journal ≡ ok delivered)
        × ((j : EventId) → contains delivered j ≡ (j == id || contains s.delivered_set j))
  unfolding mark_delivered
  mark_delivered_durable id s journal sync same marked image =
      elim (Bool-cases (contains s.delivered_set id)) [
        | inl known ↦ (
          s.delivered.records,
          settled event_ids laws s.delivered journal sync (rw known at image),
          λ j. same j ∙ contains_known s.delivered_set id j known,
        )
        | inr new ↦
            let (appended, after) = mark_new id s (λ h. ground arith) marked in
            (
              s.delivered.records ++ id ∷ [],
              append_crash_ok event_ids laws id s.delivered journal sync (rw after at image)
                  appended,
              λ j. contains_last s.delivered.records id j ∙ ground (arith, same j),
            )
      ]
