-- ===== src/EventStore/File.antt =====
-- `FileEventStore`: the event log, the journal of delivered ids, and the set of delivered ids.
use triggerlane.Common.{
  ℕ, ◌+◌, not, List, [], Option, Action, Result, ok, err, pure, modify, ◌>>=◌, ◌>>◌, filter, ltb,
  contains, set_insert, ◌==◌, nat_eq, if◌then◌else◌,
}
use triggerlane.Common.Int.{ℤ}
use triggerlane.Event.{EventId, EventEnvelope}
use triggerlane.Retention.{ManualRetention, AutoRetention, is_unbounded, retain_events}
use triggerlane.Jsonl.Serde.{Serde}
use triggerlane.Jsonl.Read.{IoError}
use triggerlane.Jsonl.Disk.{Disk}
use triggerlane.Jsonl.Store
use triggerlane.Jsonl.Store.{JsonlStore, open_store}
use triggerlane.EventStore.{EventStore}
use triggerlane.EventStore.Memory.{ids}
use mathlib.Core.List.{foldl}

pub record FileEventStore : Type 0 where
  pub inner : JsonlStore EventEnvelope
  pub delivered : JsonlStore EventId
  pub delivered_set : List EventId

abbrev pub on_inner :
    {A : Type 0} → Action (JsonlStore EventEnvelope) IoError A → Action FileEventStore IoError A
on_inner m s = let (r, inner) = m s.inner in (r, record s { inner = inner })

abbrev pub on_delivered :
    {A : Type 0} → Action (JsonlStore EventId) IoError A → Action FileEventStore IoError A
on_delivered m s = let (r, delivered) = m s.delivered in (r, record s { delivered = delivered })

-- `collect` into a `HashSet`.
abbrev pub to_set : List EventId → List EventId
to_set = foldl (λ set id. set_insert id set) []

module _ (events : Serde EventEnvelope) (event_ids : Serde EventId) where
  unfoldable pub opened :
      Result (JsonlStore EventEnvelope) IoError
      → Result (JsonlStore EventId) IoError
      → Result FileEventStore IoError
  opened (err error) journal = err error
  opened (ok inner) (err error) = err error
  opened (ok inner) (ok delivered) = ok (record {
    inner = inner;
    delivered = delivered;
    delivered_set = to_set (Store.all event_ids delivered);
  })

  -- `FileEventStore::open`, on the file at the path and on the journal beside it.
  unfoldable pub open_event_store : Disk → Disk → Result FileEventStore IoError
  unfolding opened open_store
  open_event_store log journal = opened (open_store events log).0 (open_store event_ids journal).0

  unfoldable pub append : EventEnvelope → Action FileEventStore IoError (Unit {0})
  append event = on_inner (Store.append events event)

  unfoldable pub get : EventId → FileEventStore → Option EventEnvelope
  get id s = Store.find_record events (λ event. event.id == id) s.inner

  abbrev pub all : FileEventStore → List EventEnvelope
  all s = Store.all events s.inner

  unfoldable pub mark_delivered : EventId → Action FileEventStore IoError (Unit {0})
  mark_delivered id s =
      if contains s.delivered_set id
      then (ok tt, s)
      else (do
        on_delivered (Store.append event_ids id)
        modify (λ t. record t { delivered_set = set_insert id t.delivered_set }))
          s

  unfoldable pub undelivered : FileEventStore → List EventEnvelope
  undelivered s = filter (λ event. not (contains s.delivered_set event.id)) (all s)

  -- The ids of the events that are left, out of a snapshot of the delivered ones.
  unfoldable pub drop_orphans : List EventId → ℕ → Action FileEventStore IoError ℕ
  drop_orphans snapshot removed s =
      let kept_delivered = filter (λ id. contains (ids s.inner.records) id) snapshot in
      if ltb 0 removed
      then (do
        on_delivered (Store.replace_all event_ids kept_delivered)
        modify (λ t. record t { delivered_set = to_set kept_delivered })
        pure removed)
          s
      else (ok removed, s)

  unfoldable pub enforce_retention : AutoRetention → ℤ → Action FileEventStore IoError ℕ
  unfolding drop_orphans
  enforce_retention policy now s =
      let snapshot = s.delivered_set in
      if is_unbounded policy
      then (ok 0, s)
      else (do
        removed ←
            on_inner
              (Store.retain events (λ live. retain_events events.to_vec live snapshot policy now))
        drop_orphans snapshot removed)
          s

  unfoldable pub prune : ManualRetention → Action FileEventStore IoError ℕ
  prune policy = on_inner (Store.prune events policy (λ event. event.timestamp))

  abbrev pub len : FileEventStore → ℕ
  len s = Store.len events s.inner

  unfoldable pub size_bytes : FileEventStore → ℕ
  size_bytes s = Store.size_bytes events s.inner + Store.size_bytes event_ids s.delivered

  -- `impl EventStore for FileEventStore`
  unfoldable pub file_event_store : EventStore
  unfolding append get mark_delivered undelivered enforce_retention prune size_bytes
  file_event_store = record {
    State = FileEventStore;
    append = append;
    get = get;
    all = all;
    mark_delivered = mark_delivered;
    undelivered = undelivered;
    enforce_retention = enforce_retention;
    len = len;
    size_bytes = size_bytes;
    prune = prune;
  }
