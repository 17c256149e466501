-- ===== src/DeadTriggerQueue/File.antt =====
-- `FileDeadTriggerQueue`, a `JsonlStore` of the records.
use triggerlane.Common.{ℕ, Action, ok, if◌then◌else◌}
use triggerlane.Common.Int.{ℤ}
use triggerlane.DeadTrigger.{DeadTriggerRecord}
use triggerlane.Retention.{AutoRetention, is_unbounded, retain_dead_triggers}
use triggerlane.Jsonl.Serde.{Serde}
use triggerlane.Jsonl.Read.{IoError}
use triggerlane.Jsonl.Store
use triggerlane.Jsonl.Store.{JsonlStore}
use triggerlane.DeadTriggerQueue.{DeadTriggerQueue}

module _ (serde : Serde DeadTriggerRecord) where
  unfoldable pub enforce_retention :
      AutoRetention → ℤ → Action (JsonlStore DeadTriggerRecord) IoError ℕ
  enforce_retention policy now s =
      if is_unbounded policy
      then (ok 0, s)
      else Store.retain serde (λ records. retain_dead_triggers serde.to_vec records policy now) s

  -- `impl DeadTriggerQueue for FileDeadTriggerQueue`
  unfoldable pub file_dead_trigger_queue : DeadTriggerQueue
  unfolding enforce_retention
  file_dead_trigger_queue = record {
    State = JsonlStore DeadTriggerRecord;
    record_dead = Store.append serde;
    all = Store.all serde;
    drain = Store.drain serde;
    prune = λ policy. Store.prune serde policy (λ r. r.event.timestamp);
    len = Store.len serde;
    size_bytes = Store.size_bytes serde;
    enforce_retention = enforce_retention;
  }
