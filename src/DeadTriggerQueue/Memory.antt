-- ===== src/DeadTriggerQueue/Memory.antt =====
-- `InMemoryDeadTriggerQueue`, whose state is the vector of its records.
use triggerlane.Common.{ℕ, ◌-◌, List, [], ◌∷◌, ◌++◌, Option, Action, ok, length, ltb, if◌then◌else◌}
use triggerlane.Common.Int.{ℤ}
use triggerlane.DeadTrigger.{DeadTriggerRecord}
use triggerlane.Retention
use triggerlane.Retention.{ManualRetention, AutoRetention, is_unbounded, retain_dead_triggers}
use triggerlane.Jsonl.Read.{IoError}
use triggerlane.DeadTriggerQueue.{DeadTriggerQueue}

abbrev pub InMemoryDeadTriggerQueue : Type 0
InMemoryDeadTriggerQueue = List DeadTriggerRecord

unfoldable pub record_dead : DeadTriggerRecord → Action InMemoryDeadTriggerQueue IoError (Unit {0})
record_dead r records = (ok tt, records ++ r ∷ [])

unfoldable pub drain : Action InMemoryDeadTriggerQueue IoError (List DeadTriggerRecord)
drain records = (ok records, [])

unfoldable pub prune : ManualRetention → Action InMemoryDeadTriggerQueue IoError ℕ
prune policy records =
    let kept = Retention.keep policy records (λ r. r.event.timestamp) in
    (ok (length records - length kept), kept)

module _ (to_vec : DeadTriggerRecord → Option (List ℕ)) where
  unfoldable pub enforce_retention : AutoRetention → ℤ → Action InMemoryDeadTriggerQueue IoError ℕ
  enforce_retention policy now records =
      if is_unbounded policy
      then (ok 0, records)
      else let kept = retain_dead_triggers to_vec records policy now in
        let removed = length records - length kept in
        (ok removed, if ltb 0 removed then kept else records)

  -- `impl DeadTriggerQueue for InMemoryDeadTriggerQueue`
  unfoldable pub in_memory_dead_trigger_queue : DeadTriggerQueue
  unfolding record_dead drain prune enforce_retention
  in_memory_dead_trigger_queue = record {
    State = InMemoryDeadTriggerQueue;
    record_dead = record_dead;
    all = λ records. records;
    drain = drain;
    prune = prune;
    len = λ records. length records;
    size_bytes = λ records. 0;
    enforce_retention = enforce_retention;
  }
