-- ===== src/EventStore.antt =====
-- crates/triggerlane-storage/src/lib.rs: the trait `EventStore` with its default methods. The two
-- implementations are in the modules below.
pub mod Memory
pub mod File
pub mod Laws
pub mod Crash
pub mod Marks
use triggerlane.Common.{
  ℕ, String, ◌==◌, option_eq, string_eq, Bool, List, Option, some, Action, find,
}
use triggerlane.Common.Int.{ℤ}
use triggerlane.Event.{EventId, EventEnvelope}
use triggerlane.Retention.{ManualRetention, AutoRetention}
use triggerlane.Jsonl.Read.{IoError}

pub record EventStore : Type 1 where
  pub State : Type 0
  pub append : EventEnvelope → Action State IoError (Unit {0})
  pub get : EventId → State → Option EventEnvelope
  pub all : State → List EventEnvelope
  pub mark_delivered : EventId → Action State IoError (Unit {0})
  pub undelivered : State → List EventEnvelope
  pub enforce_retention : AutoRetention → ℤ → Action State IoError ℕ
  pub len : State → ℕ
  pub size_bytes : State → ℕ
  pub prune : ManualRetention → Action State IoError ℕ

-- The default `find_by_idempotency_key`, which both implementations keep.
abbrev pub has_key : String → EventEnvelope → Bool
has_key key event = event.metadata.idempotency_key == some key

module _ (S : EventStore) where
  unfoldable pub find_by_idempotency_key : String → S.State → Option EventEnvelope
  find_by_idempotency_key key s = find (has_key key) (S.all s)
