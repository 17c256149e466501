-- ===== src/DeadTrigger.antt =====
-- crates/triggerlane-storage/src/lib.rs: `DeadTriggerRecord`, a trigger-side failure.
use triggerlane.Common.{String}
use triggerlane.Event.{EventEnvelope}

pub record DeadTriggerRecord : Type 0 where
  pub event : EventEnvelope
  pub trigger_name : String
  pub error : String
