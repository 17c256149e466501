-- ===== src/Config.antt =====
-- crates/triggerlane-cli/src/config.rs: the declarative trigger configuration. Reading the text of
-- the document into its records is `serde_json`'s, and is the parameter `from_str`; the records
-- come with the defaults of the absent fields filled in. What reading the file gives is an argument.
pub mod Meaning
use triggerlane.Common.{ℕ, String, Bool, List, [], ◌∷◌, Result, ok, err, if◌then◌else◌, not}
use triggerlane.Common.Int.{ℤ}
use triggerlane.Event.{EventType}
use triggerlane.Trigger
use triggerlane.Trigger.{Json, Trigger, new_binding, worklane_job_binding}
use triggerlane.Registry.{
  RegisteredTrigger, TriggerRegistry, new_registered, disabled, new_registry, register,
}

pub data ConfigError : Type 0 where
  read : String → ConfigError
  parse : String → ConfigError

module _ (json : Json) where
  mutual
    pub data MatchSpec : Type 0 where
      event_type : EventType → MatchSpec
      payload_field_equals : String → json.Value → MatchSpec
      all_of : Conditions → MatchSpec
      any_of : Conditions → MatchSpec

    -- A `Vec<MatchSpec>`.
    pub data Conditions : Type 0 where
      nil : Conditions
      cons : MatchSpec → Conditions → Conditions

  pub record BindSpec : Type 0 where
    pub lane : String
    pub kind : String
    pub max_attempts : ℕ

  pub record TriggerEntry : Type 0 where
    pub name : String
    pub priority : ℤ
    pub enabled : Bool
    pub condition : MatchSpec
    pub bind : BindSpec

  pub record TriggerFile : Type 0 where
    pub triggers : List TriggerEntry

  unfoldable mutual
    pub build_condition : MatchSpec → Trigger
    build_condition (event_type t) = Trigger.event_type_trigger t
    build_condition (payload_field_equals pointer value) =
        Trigger.payload_field_equals json pointer value
    build_condition (all_of conditions) = Trigger.all_of (build_conditions conditions)
    build_condition (any_of conditions) = Trigger.any_of (build_conditions conditions)

    pub build_conditions : Conditions → List Trigger
    build_conditions nil = []
    build_conditions (cons spec conditions) = build_condition spec ∷ build_conditions conditions

  -- `BoxedTrigger` passes its `matches` on, and is the trigger itself here.
  unfoldable pub registered_of : TriggerEntry → RegisteredTrigger
  registered_of entry =
      let trigger = build_condition entry.condition in
      let binding =
        worklane_job_binding
          (new_binding entry.bind.lane entry.bind.kind entry.bind.max_attempts) in
      let registered = new_registered entry.name entry.priority trigger binding in
      if not entry.enabled then disabled registered else registered

  -- The loop of `parse_registry`.
  unfoldable pub register_entries : TriggerRegistry → List TriggerEntry → TriggerRegistry
  unfolding registered_of
  register_entries registry [] = registry
  register_entries registry (entry ∷ entries) =
      register_entries (register registry (registered_of entry)) entries

  unfoldable pub registry_of : Result TriggerFile String → Result TriggerRegistry ConfigError
  registry_of (err error) = err (parse error)
  registry_of (ok file) = ok (register_entries new_registry file.triggers)

  module _ (from_str : String → Result TriggerFile String) where
    unfoldable pub parse_registry : String → Result TriggerRegistry ConfigError
    unfolding registry_of
    parse_registry text = registry_of (from_str text)

    unfoldable pub load_registry : Result String String → Result TriggerRegistry ConfigError
    load_registry (err error) = err (read error)
    load_registry (ok text) = parse_registry text
