-- ===== src/Trigger.antt =====
-- crates/triggerlane-core/src/trigger.rs: triggers, their combinators, and job bindings.
-- The traits `Trigger` and `Binding` are records of their one method, and each type that implements
-- one is a constructor function into it. `serde_json` is the parameter `Json`.
use triggerlane.Common.{ℕ, String, ◌==◌, string_eq, Bool, Option, none, some, List, all, any, false}
use triggerlane.Common.{Result, ok, err, Eq}
use triggerlane.Event.{EventEnvelope, EventType}

pub record Trigger : Type 0 where
  pub matches : EventEnvelope → Bool

pub data BindingError : Type 0 where
  rejected : String → BindingError

pub record WorklaneJob : Type 0 where
  pub lane : String
  pub kind : String
  pub payload : List ℕ
  pub max_attempts : ℕ

pub record Binding : Type 0 where
  pub bind : EventEnvelope → Result WorklaneJob BindingError

-- What the program uses of `serde_json`: parsing a payload, resolving a pointer, and `==`.
pub record Json : Type 1 where
  pub Value : Type 0
  pub from_slice : List ℕ → Option Value
  pub pointer : Value → String → Option Value
  pub value_eq : Eq Value

unfoldable pub event_type_trigger : EventType → Trigger
event_type_trigger event_type = record { matches = λ event. event.event_type == event_type }

module _ (json : Json) where
  -- `Option::is_some_and`, on the value at the pointer.
  unfoldable pub equals_expected : json.Value → Option json.Value → Bool
  equals_expected expected none = false
  equals_expected expected (some found) = ◌==◌ ⦃e = json.value_eq⦄ found expected

  unfoldable pub pointed : String → Option json.Value → Option json.Value
  pointed pointer none = none
  pointed pointer (some value) = json.pointer value pointer

  unfoldable pub payload_field_equals : String → json.Value → Trigger
  unfolding equals_expected pointed
  payload_field_equals pointer expected = record {
    matches = λ event. equals_expected expected (pointed pointer (json.from_slice event.payload));
  }

unfoldable pub all_of : List Trigger → Trigger
all_of triggers = record { matches = λ event. all (λ trigger. trigger.matches event) triggers }

unfoldable pub any_of : List Trigger → Trigger
any_of triggers = record { matches = λ event. any (λ trigger. trigger.matches event) triggers }

pub record WorklaneJobBinding : Type 0 where
  pub lane : String
  pub kind : String
  pub max_attempts : ℕ
  pub transform : Option (EventEnvelope → Result (List ℕ) BindingError)

-- `WorklaneJobBinding::new`
unfoldable pub new_binding : String → String → ℕ → WorklaneJobBinding
new_binding lane kind max_attempts = record {
  lane = lane;
  kind = kind;
  max_attempts = max_attempts;
  transform = none;
}

unfoldable pub with_payload_transform :
    WorklaneJobBinding → (EventEnvelope → Result (List ℕ) BindingError) → WorklaneJobBinding
with_payload_transform binding transform = record binding { transform = some transform }

unfoldable pub job_payload :
    Option (EventEnvelope → Result (List ℕ) BindingError)
    → EventEnvelope
    → Result (List ℕ) BindingError
job_payload (some transform) event = transform event
job_payload none event = ok event.payload

unfoldable pub job_of :
    WorklaneJobBinding → Result (List ℕ) BindingError → Result WorklaneJob BindingError
job_of binding (err error) = err error
job_of binding (ok payload) = ok (record {
  lane = binding.lane;
  kind = binding.kind;
  payload = payload;
  max_attempts = binding.max_attempts;
})

-- `impl Binding for WorklaneJobBinding`
unfoldable pub worklane_job_binding : WorklaneJobBinding → Binding
unfolding job_payload job_of
worklane_job_binding binding = record {
  bind = λ event. job_of binding (job_payload binding.transform event);
}
