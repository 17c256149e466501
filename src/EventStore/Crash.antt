-- ===== src/EventStore/Crash.antt =====
-- The two files of `FileEventStore` when retention is cut short: the log is rewritten first, then the
-- journal of delivered ids.
use triggerlane.Common.{
  ℕ, ◌<◌, ◌≡◌, refl, sym, not, Bool, true, false, List, [], ◌∷◌, Result, ok, err, arith, ◌⊎◌, inl,
  inr, filter, contains, nat_eq, Bool-cases, ltb,
}
use triggerlane.Common.Int.{ℤ}
use triggerlane.Event.{EventId, EventEnvelope}
use triggerlane.Retention.{AutoRetention, is_unbounded, retain_events}
use triggerlane.Jsonl.Serde.{Serde, IsSerde}
use triggerlane.Jsonl.Read.{IoError, read_bytes}
use triggerlane.Jsonl.Store
use triggerlane.Jsonl.Store.{JsonlStore, replace_all, replace_some}
use triggerlane.Jsonl.Durability.{InSync, CrashImage}
use triggerlane.Jsonl.Durability.Replace.{
  Replaced, replaced, nothing_removed, unchanged, split, replace_some_lem, retain-Replaced, settled,
  Replaced-crash, retain_crash,
}
use triggerlane.EventStore.Memory.{ids}
use triggerlane.EventStore.File.{FileEventStore, enforce_retention, drop_orphans}

contains_kept :
    (keep : EventId → Bool) (xs : List EventId) (id : EventId)
    → keep id ≡ true
    → contains (filter keep xs) id ≡ contains xs id
contains_kept keep [] id h = refl
contains_kept keep (x ∷ xs) id h = ground (arith, contains_kept keep xs id h)

module _ {T : Type 0} (serde : Serde T) (laws : IsSerde serde) where
  replace_all-eq-some :
      (kept : List T) (s : JsonlStore T)
      → (replace_all serde kept s).1 ≡ (replace_some serde 1 kept s).1
  unfolding replace_some replace_all
  replace_all-eq-some kept s = ground arith

  -- A journal that was being replaced reads back as the old one or as the new one.
  replace_all_crash :
      (kept : List T) (s : JsonlStore T) (bytes : List ℕ)
      → InSync serde laws s
      → CrashImage (replace_all serde kept s).1.disk bytes
      → (read_bytes serde.from_str bytes ≡ ok s.records)
        ⊎ (read_bytes serde.from_str bytes ≡ ok kept)
  replace_all_crash kept s bytes h image =
      Replaced-crash serde laws 1 s.records kept (replace_some serde 1 kept s).0
        (replace_some serde 1 kept s).1 bytes (replace_some_lem serde laws 1 kept s h)
        (rw (replace_all-eq-some kept s) at image)

module _ (events : Serde EventEnvelope) (event_ids : Serde EventId) (policy : AutoRetention)
    (now : ℤ) (s : FileEventStore) where
  abbrev survivors : List EventEnvelope → List EventEnvelope
  survivors live = retain_events events.to_vec live s.delivered_set policy now

  abbrev after : FileEventStore
  after = (enforce_retention events event_ids policy now s).1

  abbrev retained : JsonlStore EventEnvelope
  retained = (Store.retain events survivors s.inner).1

  abbrev answer : Result ℕ IoError
  answer = (Store.retain events survivors s.inner).0

  abbrev without_orphans : List EventId
  without_orphans = filter (λ id. contains (ids retained.records) id) s.delivered_set

  enforce_inner : is_unbounded policy ≡ false → after.inner ≡ retained
  unfolding enforce_retention drop_orphans
  enforce_inner bounded = ground arith

  enforce_delivered :
      (r : Result ℕ IoError)
      → answer ≡ r
      → is_unbounded policy ≡ false
      → (after.delivered ≡ s.delivered)
        ⊎ ((removed : ℕ) × (answer ≡ ok removed)
            × (0 < removed)
            × (after.delivered ≡ (replace_all event_ids without_orphans s.delivered).1))
  unfolding enforce_retention drop_orphans
  enforce_delivered (err error) e bounded = inl (ground arith)
  enforce_delivered (ok removed) e bounded = elim (Bool-cases (ltb 0 removed)) [
    | inl some_removed ↦ inr (removed, e, ground arith, ground arith)
    | inr none_removed ↦ inl (ground arith)
  ]

-- Both files agree with their records in memory, and the set has the ids of the journal.
module _ (events : Serde EventEnvelope) (event_laws : IsSerde events) (event_ids : Serde EventId)
    (id_laws : IsSerde event_ids) where
  record IsWhole (s : FileEventStore) : Type 0 where
    log : InSync events event_laws s.inner
    journal : InSync event_ids id_laws s.delivered
    set_lem : (id : EventId) → contains s.delivered_set id ≡ contains s.delivered.records id

abbrev undelivered_in : List EventId → List EventEnvelope → List EventEnvelope
undelivered_in marked = filter (λ event. not (contains marked event.id))

undelivered_in_same :
    (marked set : List EventId) (live : List EventEnvelope)
    → ((id : EventId) → contains (ids live) id ≡ true → contains marked id ≡ contains set id)
    → undelivered_in marked live ≡ undelivered_in set live
undelivered_in_same marked set [] same = refl
undelivered_in_same marked set (event ∷ live) same = ground (
  arith,
  same event.id,
  undelivered_in_same marked set live (λ id h. same id (ground (arith, h))),
)

module _ (events : Serde EventEnvelope) (event_laws : IsSerde events) (event_ids : Serde EventId)
    (id_laws : IsSerde event_ids) (policy : AutoRetention) (now : ℤ) (s : FileEventStore)
    (whole : IsWhole events event_laws event_ids id_laws s) where
  same_marked :
      (live : List EventEnvelope)
      → undelivered_in s.delivered.records live ≡ undelivered_in s.delivered_set live
  same_marked live =
      undelivered_in_same s.delivered.records s.delivered_set live (λ id h. sym (whole.set_lem id))

  orphans_gone :
      let new = survivors events event_ids policy now s s.inner.records in
      (retained events event_ids policy now s).records ≡ new
      → undelivered_in (without_orphans events event_ids policy now s) new
        ≡ undelivered_in s.delivered_set new
  orphans_gone e = undelivered_in_same _ _ _ λ id h. contains_kept _ s.delivered_set id (rw e h)

  -- A removal that succeeds leaves the log with the survivors alone.
  replaced_log :
      (removed : ℕ) (log : List ℕ)
      → answer events event_ids policy now s ≡ ok removed
      → 0 < removed
      → CrashImage (retained events event_ids policy now s).disk log
      → let new = survivors events event_ids policy now s s.inner.records in
        ((retained events event_ids policy now s).records ≡ new)
        × (read_bytes events.from_str log ≡ ok new)
  replaced_log removed log e some image = by_case (
      retain-Replaced events event_laws (survivors events event_ids policy now s) s.inner whole.log)
    where
      by_case :
          {n : ℕ} {new : List EventEnvelope}
          → Replaced events event_laws n s.inner.records new
              (answer events event_ids policy now s)
              (retained events event_ids policy now s)
          → ((retained events event_ids policy now s).records ≡ new)
            × (read_bytes events.from_str log ≡ ok new)
      by_case (replaced p q h f) = (
        f,
        rw f at (settled events event_laws (retained events event_ids policy now s) log h image),
      )
      by_case (nothing_removed p q h f) = absurd (grind arith)
      by_case (unchanged error p h f) = absurd (cc)
      by_case (split error p h) = absurd (cc)

  -- What is read back from the two files: the events from before or the survivors, and of these the
  -- same are undelivered as before.
  abbrev ReadsBack : List ℕ → List ℕ → Type 0
  ReadsBack log journal =
      (live : List EventEnvelope) × (marked : List EventId) × (read_bytes events.from_str log
        ≡ ok live)
      × (read_bytes event_ids.from_str journal ≡ ok marked)
      × ((live ≡ s.inner.records)
          ⊎ (live ≡ survivors events event_ids policy now s s.inner.records))
      × (undelivered_in marked live ≡ undelivered_in s.delivered_set live)

  journal_kept :
      (log journal : List ℕ)
      → CrashImage (retained events event_ids policy now s).disk log
      → CrashImage s.delivered.disk journal
      → ReadsBack log journal
  journal_kept log journal image1 image2 =
      let marked_read = settled event_ids id_laws s.delivered journal whole.journal image2 in
      elim (retain_crash events event_laws (survivors events event_ids policy now s) s.inner log
        whole.log image1) [
          | inl old ↦
              (s.inner.records, s.delivered.records, old, marked_read, inl refl, same_marked _)
          | inr new ↦ (_, s.delivered.records, new, marked_read, inr refl, same_marked _)
        ]

  journal_replaced :
      (removed : ℕ) (log journal : List ℕ)
      → answer events event_ids policy now s ≡ ok removed
      → 0 < removed
      → CrashImage (retained events event_ids policy now s).disk log
      → CrashImage
          (replace_all event_ids (without_orphans events event_ids policy now s) s.delivered).1.disk
          journal
      → ReadsBack log journal
  journal_replaced removed log journal e some image1 image2 =
      let (new, log_read) = replaced_log removed log e some image1 in
      elim (replace_all_crash event_ids id_laws _ s.delivered journal whole.journal image2) [
        | inl old ↦ (_, s.delivered.records, log_read, old, inr refl, same_marked _)
        | inr kept ↦ (_, _, log_read, kept, inr refl, orphans_gone new)
      ]

  -- Retention on a store whose files are whole, wherever it stops, and whatever a crash behind it
  -- leaves of the log and of the journal: both files read back, the log as the events from before or
  -- as the survivors, and of these events the same are undelivered as before.
  enforce_retention_crash :
      (log journal : List ℕ)
      → let after = (enforce_retention events event_ids policy now s).1 in
        CrashImage after.inner.disk log
        → CrashImage after.delivered.disk journal
        → ReadsBack log journal
  unfolding enforce_retention
  enforce_retention_crash log journal image1 image2 = elim (Bool-cases (is_unbounded policy)) [
    | inl unbounded ↦ (
      s.inner.records,
      s.delivered.records,
      settled events event_laws s.inner log whole.log (rw unbounded at image1),
      settled event_ids id_laws s.delivered journal whole.journal (rw unbounded at image2),
      inl refl,
      same_marked _,
    )
    | inr bounded ↦
        let image = rw (enforce_inner events event_ids policy now s bounded) at image1 in
        elim (enforce_delivered events event_ids policy now s _ refl bounded) [
          | inl same ↦ journal_kept log journal image (rw same at image2)
          | inr (removed, e, some, f) ↦
              journal_replaced removed log journal e some image (rw f at image2)
        ]
  ]
