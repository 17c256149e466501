-- ===== src/DeadTriggerQueue.antt =====
-- crates/triggerlane-storage/src/lib.rs: the trait `DeadTriggerQueue`.
pub mod Memory
pub mod File
pub mod Laws
use triggerlane.Common.{ℕ, List, Action}
use triggerlane.Common.Int.{ℤ}
use triggerlane.DeadTrigger.{DeadTriggerRecord}
use triggerlane.Retention.{ManualRetention, AutoRetention}
use triggerlane.Jsonl.Read.{IoError}

pub record DeadTriggerQueue : Type 1 where
  pub State : Type 0
  pub record_dead : DeadTriggerRecord → Action State IoError (Unit {0})
  pub all : State → List DeadTriggerRecord
  pub drain : Action State IoError (List DeadTriggerRecord)
  pub prune : ManualRetention → Action State IoError ℕ
  pub len : State → ℕ
  pub size_bytes : State → ℕ
  pub enforce_retention : AutoRetention → ℤ → Action State IoError ℕ
