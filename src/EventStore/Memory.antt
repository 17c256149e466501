-- ===== src/EventStore/Memory.antt =====
-- `InMemoryEventStore`.
use triggerlane.Common.{
  ℕ, ◌-◌, not, List, [], ◌∷◌, ◌++◌, Option, Action, modify, ok, filter, find, length, map, ltb,
  contains, set_insert, ◌==◌, nat_eq, if◌then◌else◌,
}
use triggerlane.Common.Int.{ℤ}
use triggerlane.Event.{EventId, EventEnvelope}
use triggerlane.Retention
use triggerlane.Retention.{ManualRetention, AutoRetention, is_unbounded, retain_events}
use triggerlane.Jsonl.Read.{IoError}
use triggerlane.EventStore.{EventStore}

pub record InMemoryEventStore : Type 0 where
  pub events : List EventEnvelope
  pub delivered : List EventId

abbrev pub new_store : InMemoryEventStore
new_store = record { events = []; delivered = [] }

unfoldable pub append : EventEnvelope → Action InMemoryEventStore IoError (Unit {0})
append event = modify (λ s. record s { events = s.events ++ event ∷ [] })

unfoldable pub get : EventId → InMemoryEventStore → Option EventEnvelope
get id s = find (λ event. event.id == id) s.events

unfoldable pub mark_delivered : EventId → Action InMemoryEventStore IoError (Unit {0})
mark_delivered id = modify (λ s. record s { delivered = set_insert id s.delivered })

unfoldable pub undelivered : InMemoryEventStore → List EventEnvelope
undelivered s = filter (λ event. not (contains s.delivered event.id)) s.events

abbrev pub ids : List EventEnvelope → List EventId
ids = map (λ event. event.id)

module _ (to_vec : EventEnvelope → Option (List ℕ)) where
  abbrev pub keep_events : List EventEnvelope → InMemoryEventStore → InMemoryEventStore
  keep_events kept s = record {
    events = kept;
    delivered = filter (λ id. contains (ids kept) id) s.delivered;
  }

  unfoldable pub enforce_retention : AutoRetention → ℤ → Action InMemoryEventStore IoError ℕ
  enforce_retention policy now s =
      if is_unbounded policy
      then (ok 0, s)
      else let kept = retain_events to_vec s.events s.delivered policy now in
        let removed = length s.events - length kept in
        (ok removed, if ltb 0 removed then keep_events kept s else s)

  unfoldable pub prune : ManualRetention → Action InMemoryEventStore IoError ℕ
  prune policy s =
      let kept = Retention.keep policy s.events (λ event. event.timestamp) in
      (ok (length s.events - length kept), record s { events = kept })

  -- `impl EventStore for InMemoryEventStore`
  unfoldable pub in_memory_event_store : EventStore
  unfolding append get mark_delivered undelivered enforce_retention prune
  in_memory_event_store = record {
    State = InMemoryEventStore;
    append = append;
    get = get;
    all = λ s. s.events;
    mark_delivered = mark_delivered;
    undelivered = undelivered;
    enforce_retention = enforce_retention;
    len = λ s. length s.events;
    size_bytes = λ s. 0;
    prune = prune;
  }
