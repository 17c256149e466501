-- ===== src/Jsonl/Store.antt =====
-- `JsonlStore`: the records in memory and the file. An operation runs under the locks of both, so
-- each is one step.
use triggerlane.Common.{
  ℕ, ◌-◌, Bool, List, [], ◌∷◌, ◌++◌, length, Action, Option, pure, lift, gets, modify, ◌>>=◌, ◌>>◌,
  if◌then◌else◌, ltb, not, find,
}
use triggerlane.Common.Int.{ℤ}
use triggerlane.Retention
use triggerlane.Retention.{ManualRetention}
use triggerlane.Jsonl.Serde.{Serde}
use triggerlane.Jsonl.Read.{IoError}
use triggerlane.Jsonl.Disk.{
  Disk, write_all, sync_file, set_len_zero, sync_parent_dir, open_locked_append, encode,
  compact_jsonl, read_jsonl, metadata_len,
}

pub record JsonlStore (T : Type 0) : Type 0 where
  pub records : List T
  pub disk : Disk

module _ {T : Type 0} where
  -- A call on the file of a store.
  abbrev pub on_disk : {A : Type 0} → Action Disk IoError A → Action (JsonlStore T) IoError A
  on_disk m s = let (r, d) = m s.disk in (r, record s { disk = d })

module _ {T : Type 0} (serde : Serde T) where
  -- `JsonlStore::open`, on the file at the path.
  unfoldable pub open_store : Action Disk IoError (JsonlStore T)
  unfolding read_jsonl open_locked_append sync_parent_dir
  open_store = do
    records ← read_jsonl serde
    newly_created ← gets (λ d. not d.present)
    open_locked_append
    if newly_created then sync_parent_dir else pure tt
    gets (λ d. record { records = records; disk = d })

  unfoldable pub append : T → Action (JsonlStore T) IoError (Unit {0})
  unfolding write_all sync_file
  append record_ = do
    encoded ← lift (encode serde (serde.to_vec record_))
    on_disk (write_all (encoded ++ b'\n' ∷ []))
    on_disk sync_file
    modify (λ s. record s { records = s.records ++ record_ ∷ [] })

  abbrev pub all : JsonlStore T → List T
  all s = s.records

  abbrev pub find_record : (T → Bool) → JsonlStore T → Option T
  find_record predicate s = find predicate s.records

  abbrev pub len : JsonlStore T → ℕ
  len s = length s.records

  unfoldable pub size_bytes : JsonlStore T → ℕ
  unfolding metadata_len
  size_bytes s = metadata_len s.disk

  unfoldable pub drain : Action (JsonlStore T) IoError (List T)
  unfolding set_len_zero sync_file
  drain = do
    on_disk set_len_zero
    on_disk sync_file
    taken ← gets (λ s. s.records)
    modify (λ s. record s { records = [] })
    pure taken

  -- The handle that `compact_jsonl` returns becomes the store's.
  unfoldable pub replace_all : List T → Action (JsonlStore T) IoError (Unit {0})
  replace_all kept = do
    on_disk (compact_jsonl serde kept)
    modify (λ s. record s { records = kept })

  unfoldable pub replace_some : ℕ → List T → Action (JsonlStore T) IoError ℕ
  unfolding replace_all
  replace_some removed kept =
      if ltb 0 removed then (do replace_all kept; pure removed) else pure removed

  unfoldable pub retain : (List T → List T) → Action (JsonlStore T) IoError ℕ
  unfolding replace_some
  retain keep = do
    kept ← gets (λ s. keep s.records)
    removed ← gets (λ s. length s.records - length kept)
    replace_some removed kept

  unfoldable pub prune : ManualRetention → (T → ℤ) → Action (JsonlStore T) IoError ℕ
  unfolding replace_some
  prune policy timestamp = do
    kept ← gets (λ s. Retention.keep policy s.records timestamp)
    removed ← gets (λ s. length s.records - length kept)
    replace_some removed kept
