-- ===== src/DeadTriggerQueue/Laws.antt =====
-- What the runtime relies on of a dead-trigger queue, and that both implementations give it.
use triggerlane.Common.{◌≡◌, refl, List, [], ◌∷◌, ◌++◌, ok, err, arith, Option, ℕ, length}
use triggerlane.DeadTrigger.{DeadTriggerRecord}
use triggerlane.Jsonl.Serde.{Serde}
use triggerlane.Jsonl.Read.{IoError}
use triggerlane.Jsonl.Store
use triggerlane.DeadTriggerQueue.{DeadTriggerQueue}
use triggerlane.DeadTriggerQueue.Memory.{in_memory_dead_trigger_queue}
use triggerlane.DeadTriggerQueue.File.{file_dead_trigger_queue}

-- `record` adds a record at the end, `drain` takes all of them out, and neither changes the records
-- if it reports an error.
pub record IsQueue (Q : DeadTriggerQueue) : Type 0 where
  pub record_ok :
      (r : DeadTriggerRecord) (q : Q.State)
      → (Q.record_dead r q).0 ≡ ok tt
      → Q.all (Q.record_dead r q).1 ≡ Q.all q ++ r ∷ []
  pub record_err :
      (r : DeadTriggerRecord) (q : Q.State) (error : IoError)
      → (Q.record_dead r q).0 ≡ err error
      → Q.all (Q.record_dead r q).1 ≡ Q.all q
  pub drain_ok :
      (q : Q.State) (records : List DeadTriggerRecord)
      → (Q.drain q).0 ≡ ok records
      → (records ≡ Q.all q) × (Q.all (Q.drain q).1 ≡ [])
  pub drain_err :
      (q : Q.State) (error : IoError) → (Q.drain q).0 ≡ err error → Q.all (Q.drain q).1 ≡ Q.all q
  pub len_lem : (q : Q.State) → Q.len q ≡ length (Q.all q)

-- `InMemoryDeadTriggerQueue` is such a queue.
pub in_memory-IsQueue :
    (to_vec : DeadTriggerRecord → Option (List ℕ)) → IsQueue (in_memory_dead_trigger_queue to_vec)
unfolding in_memory_dead_trigger_queue
in_memory-IsQueue to_vec = record {
  record_ok = λ r q h. refl;
  record_err = λ r q error h. cc;
  drain_ok = λ q records h. (cc, refl);
  drain_err = λ q error h. cc;
  len_lem = λ q. refl;
}

-- `FileDeadTriggerQueue` is such a queue, whatever fails of its system calls.
pub file-IsQueue : (serde : Serde DeadTriggerRecord) → IsQueue (file_dead_trigger_queue serde)
unfolding file_dead_trigger_queue Store.append Store.drain
file-IsQueue serde = record {
  record_ok = λ r q h. ground arith;
  record_err = λ r q error h. ground arith;
  drain_ok = λ q records h. ground arith;
  drain_err = λ q error h. ground arith;
  len_lem = λ q. refl;
}
