-- ===== src/Jsonl/Durability/Replace.antt =====
-- The operations of `JsonlStore` that take records out: `retain`, `prune`, `replace_all`, `drain`.
use triggerlane.Common.{
  ℕ, ◌-◌, ◌≡◌, refl, sym, ap, ◌∙◌, false, some, none, take, take_of_nil, append_cancel_left,
  append-nil, List, [], ◌∷◌, ◌++◌, length, Result, ok, err, arith, ◌⊎◌, inl, inr, ◌≢◌, ltb,
  Bool-cases, ◌<◌,
}
use triggerlane.Common.Int.{ℤ}
use triggerlane.Retention
use triggerlane.Retention.{ManualRetention}
use triggerlane.Jsonl.Serde.{Serde, IsSerde, render}
use triggerlane.Jsonl.Read.{IoError, read_bytes}
use triggerlane.Jsonl.Read.RoundTrip.{read_bytes_whole}
use triggerlane.Jsonl.Disk.{compact_jsonl}
use triggerlane.Jsonl.Store.{JsonlStore, append, drain, retain, replace_some, prune}
use triggerlane.Jsonl.Durability.{InSync, CrashImage, lost, kept, torn, moved, CrashImage-settled}
use triggerlane.Jsonl.Durability.Compaction.{compact_jsonl_lem}

error_of : (r : Result (Unit {0}) IoError) → r ≢ ok tt → (error : IoError) × (r ≡ err error)
error_of (ok x) h = absurd (h refl)
error_of (err e) h = (e, refl)

-- If the file that a rename put in place was synced, it is whole after a crash.
moved_whole :
    {T : Type 0} (s : JsonlStore T) (whole durable pending bytes : List ℕ) (k : ℕ)
    → s.disk.current ≡ whole
    → s.disk.renamed ≡ some whole
    → s.disk.renamed ≡ some durable
    → s.disk.current ≡ durable ++ pending
    → bytes ≡ durable ++ take k pending
    → bytes ≡ whole
moved_whole s whole durable pending bytes k current renamed e f g =
    let same : durable ≡ whole = cc in
    let nothing : pending ≡ [] =
      append_cancel_left whole pending []
        (ap (λ b. b ++ pending) (sym same) ∙ sym f ∙ current ∙ sym (append-nil whole)) in
    g
    ∙ ap (λ b. b ++ take k pending) same
    ∙ ap (λ p. whole ++ take k p) nothing
    ∙ ap (◌++◌ whole) (take_of_nil k)
    ∙ append-nil whole

module _ {T : Type 0} (serde : Serde T) (laws : IsSerde serde) where
  -- The memory still has the old records, the path names the file with the new ones, and the handle
  -- is on neither.
  pub record IsSplit (old new : List T) (s : JsonlStore T) : Type 0 where
    pub records : s.records ≡ old
    pub current : s.disk.current ≡ render serde laws new
    pub attached : s.disk.attached ≡ false
    pub synced :
        ((s.disk.synced ≡ render serde laws old) × (s.disk.renamed ≡ some (render serde laws new)))
        ⊎ ((s.disk.synced ≡ render serde laws new) × (s.disk.renamed ≡ none))

  pub data Replaced (removed : ℕ) (old new : List T) (r : Result ℕ IoError) (s : JsonlStore T)
      : Type 0 where
    replaced :
        r ≡ ok removed
        → 0 < removed
        → InSync serde laws s
        → s.records ≡ new
        → Replaced removed old new r s
    nothing_removed :
        r ≡ ok removed
        → removed ≡ 0
        → InSync serde laws s
        → s.records ≡ old
        → Replaced removed old new r s
    unchanged :
        (error : IoError)
        → r ≡ err error
        → InSync serde laws s
        → s.records ≡ old
        → Replaced removed old new r s
    split : (error : IoError) → r ≡ err error → IsSplit old new s → Replaced removed old new r s

  pub replace_some_lem :
      (removed : ℕ) (new : List T) (s : JsonlStore T)
      → InSync serde laws s
      → Replaced removed s.records new
          (replace_some serde removed new s).0
          (replace_some serde removed new s).1
  unfolding replace_some
  replace_some_lem removed new s h = elim (Bool-cases (ltb 0 removed)) [
    | inr none_removed ↦
        nothing_removed (ground arith) (ground arith) (rw (none_removed, replace_some) h)
          (ground arith)
    | inl some_removed ↦ elim (compact_jsonl_lem serde laws new s.disk) [
      | inl (success, current, synced, attached, renamed, present) ↦
          replaced (ground arith) (ground arith)
            (record {
              present = ground arith;
              attached = ground arith;
              current = ground arith;
              synced = ground arith;
              renamed = ground arith;
            })
            (ground arith)
      | inr (inl (failure, same)) ↦
          let (error, e) = error_of (compact_jsonl serde new s.disk).0 failure in
          unchanged error (ground arith)
            (record {
              present = ground arith;
              attached = ground arith;
              current = ground arith;
              synced = ground arith;
              renamed = ground arith;
            })
            (ground arith)
      | inr (inr (failure, current, attached, synced)) ↦
          let (error, e) = error_of (compact_jsonl serde new s.disk).0 failure in
          split error (ground arith) (record {
            records = ground arith;
            current = ground arith;
            attached = ground arith;
            synced = ground arith;
          })
    ]
  ]

  pub retain-Replaced :
      (keep : List T → List T) (s : JsonlStore T)
      → InSync serde laws s
      → Replaced
          (length s.records - length (keep s.records))
          s.records
          (keep s.records)
          (retain serde keep s).0
          (retain serde keep s).1
  unfolding retain
  retain-Replaced keep s h =
      replace_some_lem (length s.records - length (keep s.records)) (keep s.records) s h

  -- The same for `prune`.
  pub prune-Replaced :
      (policy : ManualRetention) (timestamp : T → ℤ) (s : JsonlStore T)
      → InSync serde laws s
      → Replaced
          (length s.records - length (Retention.keep policy s.records timestamp))
          s.records
          (Retention.keep policy s.records timestamp)
          (prune serde policy timestamp s).0
          (prune serde policy timestamp s).1
  unfolding prune
  prune-Replaced policy timestamp s h =
      replace_some_lem (length s.records - length (Retention.keep policy s.records timestamp))
        (Retention.keep policy s.records timestamp) s h

  read_whole :
      (bytes : List ℕ) (records : List T)
      → bytes ≡ render serde laws records
      → read_bytes serde.from_str bytes ≡ ok records
  read_whole bytes records e = rw e (read_bytes_whole serde laws records)

  pub settled :
      (s : JsonlStore T) (bytes : List ℕ)
      → InSync serde laws s
      → CrashImage s.disk bytes
      → read_bytes serde.from_str bytes ≡ ok s.records
  settled s bytes h image =
      read_whole bytes s.records (CrashImage-settled serde laws s bytes h image)

  pub Replaced-crash :
      (removed : ℕ) (old new : List T) (r : Result ℕ IoError) (s : JsonlStore T) (bytes : List ℕ)
      → Replaced removed old new r s
      → CrashImage s.disk bytes
      → (read_bytes serde.from_str bytes ≡ ok old) ⊎ (read_bytes serde.from_str bytes ≡ ok new)
  Replaced-crash removed old new r s bytes (replaced p q h e) image =
      inr (rw e at (settled s bytes h image))
  Replaced-crash removed old new r s bytes (nothing_removed p q h e) image =
      inl (rw e at (settled s bytes h image))
  Replaced-crash removed old new r s bytes (unchanged error p h e) image =
      inl (rw e at (settled s bytes h image))
  Replaced-crash removed old new r s bytes (split error p h) image = split_crash image
    where
      split_crash :
          CrashImage s.disk bytes
          → (read_bytes serde.from_str bytes ≡ ok old) ⊎ (read_bytes serde.from_str bytes ≡ ok new)
      split_crash (lost e) = elim h.synced [
        | inl (before, renamed) ↦ inl (read_whole bytes old (e ∙ before))
        | inr (after, renamed) ↦ inr (read_whole bytes new (e ∙ after))
      ]
      split_crash (kept e) = inr (read_whole bytes new (e ∙ h.current))
      split_crash (torn pending k a e f) = cc (h.attached)
      split_crash (moved durable pending k e f g) = elim h.synced [
        | inl (before, renamed) ↦ inr (
            read_whole bytes new (
              moved_whole s (render serde laws new) durable pending bytes k h.current renamed e f
                g))
        | inr (after, renamed) ↦ absurd (cc)
      ]

  pub retain_crash :
      (keep : List T → List T) (s : JsonlStore T) (bytes : List ℕ)
      → InSync serde laws s
      → CrashImage (retain serde keep s).1.disk bytes
      → (read_bytes serde.from_str bytes ≡ ok s.records)
        ⊎ (read_bytes serde.from_str bytes ≡ ok (keep s.records))
  retain_crash keep s bytes h image =
      Replaced-crash _ s.records (keep s.records) (retain serde keep s).0 (retain serde keep s).1
        bytes (retain-Replaced keep s h) image

  -- On a split store an append can report success while the file at the path does not change: the
  -- acknowledged record is in memory alone.
  pub append_split :
      (old new : List T) (s : JsonlStore T) (r : T)
      → IsSplit old new s
      → ((append serde r s).1.disk.current ≡ render serde laws new)
        × ((append serde r s).0 ≡ ok tt → (append serde r s).1.records ≡ old ++ r ∷ [])
  unfolding append
  append_split old new s r h = ground (arith, laws.to_vec-encoded r)

  -- `drain` on a store in sync: on success it returns all records, and memory and file are empty. On
  -- an error the records stay in memory, and stay in the file unless it was truncated already.
  pub drain_lem :
      (s : JsonlStore T)
      → InSync serde laws s
      → (((drain serde s).0 ≡ ok s.records)
          × ((drain serde s).1.records ≡ [])
          × InSync serde laws (drain serde s).1)
        ⊎ (((error : IoError) × ((drain serde s).0 ≡ err error))
            × ((drain serde s).1.records ≡ s.records)
            × (((drain serde s).1.disk.current ≡ render serde laws s.records)
                ⊎ ((drain serde s).1.disk.current ≡ [])))
  unfolding drain render
  drain_lem s h = ground arith
