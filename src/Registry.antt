-- ===== src/Registry.antt =====
-- crates/triggerlane-runtime/src/lib.rs: `RegisteredTrigger` and `TriggerRegistry`.
-- A priority is an `i32`, kept as an integer.
pub mod Order
use triggerlane.Common.{String, Bool, true, false, ◌&&◌, List, [], ◌∷◌, ◌++◌, filter}
use triggerlane.Common.Int.{ℤ}
use triggerlane.Common.Sort.{sort_by_key}
use triggerlane.Event.{EventEnvelope}
use triggerlane.Trigger.{Trigger, Binding}

pub record RegisteredTrigger : Type 0 where
  pub name : String
  pub priority : ℤ
  pub enabled : Bool
  pub trigger : Trigger
  pub binding : Binding

-- `RegisteredTrigger::new`
unfoldable pub new_registered : String → ℤ → Trigger → Binding → RegisteredTrigger
new_registered name priority trigger binding = record {
  name = name;
  priority = priority;
  enabled = true;
  trigger = trigger;
  binding = binding;
}

unfoldable pub disabled : RegisteredTrigger → RegisteredTrigger
disabled registration = record registration { enabled = false }

pub record TriggerRegistry : Type 0 where
  pub registrations : List RegisteredTrigger

-- `TriggerRegistry::new`
abbrev pub new_registry : TriggerRegistry
new_registry = record { registrations = [] }

abbrev pub priority_of : RegisteredTrigger → ℤ
priority_of registration = registration.priority

unfoldable pub register : TriggerRegistry → RegisteredTrigger → TriggerRegistry
register registry registration = record {
  registrations = sort_by_key priority_of (registry.registrations ++ registration ∷ []);
}

abbrev pub fires : EventEnvelope → RegisteredTrigger → Bool
fires event registration = registration.enabled && registration.trigger.matches event

unfoldable pub matching : TriggerRegistry → EventEnvelope → List RegisteredTrigger
matching registry event = filter (fires event) registry.registrations
