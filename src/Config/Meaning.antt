-- ===== src/Config/Meaning.antt =====
-- What a configured condition means, and which triggers a configuration fires.
use triggerlane.Common.{
  String, ◌≡◌, ◌↔◌, ◌⊎◌, true, some, none, Option, List, [], ◌∷◌, map, arith, Result, ok, refl,
  filter,
}
use mathlib.Core.List.{foldl}
use triggerlane.Event.{EventEnvelope}
use triggerlane.Trigger
use triggerlane.Trigger.{Json, Trigger}
use triggerlane.Registry.{
  TriggerRegistry, new_registered, disabled, new_registry, register, matching, priority_of, fires,
}
use triggerlane.Registry.Order.{matching-register_all}
use triggerlane.Config.{
  MatchSpec, Conditions, event_type, payload_field_equals, all_of, any_of, nil, cons, TriggerEntry,
  TriggerFile, build_condition, build_conditions, registered_of, register_entries, parse_registry,
}
use triggerlane.Common.Sort.{sort_by_key}

module _ (json : Json) where
  -- What a condition asks of an event, read off its words.
  unfoldable mutual
    pub Satisfies : MatchSpec json → EventEnvelope → Type 0
    Satisfies (event_type t) event = event.event_type ≡ t
    Satisfies (payload_field_equals pointer expected) event =
        (value : json.Value) × (json.from_slice event.payload ≡ some value)
        × (json.pointer value pointer ≡ some expected)
    Satisfies (all_of conditions) event = SatisfiesAll conditions event
    Satisfies (any_of conditions) event = SatisfiesAny conditions event

    pub SatisfiesAll : Conditions json → EventEnvelope → Type 0
    SatisfiesAll nil event = Unit
    SatisfiesAll (cons spec conditions) event = Satisfies spec event × SatisfiesAll conditions event

    pub SatisfiesAny : Conditions json → EventEnvelope → Type 0
    SatisfiesAny nil event = ⊥
    SatisfiesAny (cons spec conditions) event = Satisfies spec event ⊎ SatisfiesAny conditions event

  equals_expected-eq_iff :
      (expected : json.Value) (found : Option json.Value)
      → (Trigger.equals_expected json expected found ≡ true) ↔ (found ≡ some expected)
  unfolding Trigger.payload_field_equals
  equals_expected-eq_iff expected none = (λ h. cc, λ h. cc)
  equals_expected-eq_iff expected (some found) = ground arith

  equals_expected_iff :
      (pointer : String) (expected : json.Value) (parsed : Option json.Value)
      → (Trigger.equals_expected json expected (Trigger.pointed json pointer parsed) ≡ true) ↔ (
          (value : json.Value) × (parsed ≡ some value)
          × (json.pointer value pointer ≡ some expected))
  unfolding Trigger.payload_field_equals
  equals_expected_iff pointer expected none = (λ h. cc, λ (value, p, q). cc)
  equals_expected_iff pointer expected (some value) =
      let inner = equals_expected-eq_iff expected (json.pointer value pointer) in
      (λ h. (value, refl, inner.0 h), λ (v, p, q). inner.1 (ground arith))

  mutual
    unfolding build_condition Satisfies Trigger.event_type_trigger Trigger.payload_field_equals
        Trigger.all_of Trigger.any_of

    matches_iff :
        (spec : MatchSpec json) (event : EventEnvelope)
        → ((build_condition json spec).matches event ≡ true) ↔ Satisfies spec event
    matches_iff (event_type t) event = ground arith
    matches_iff (payload_field_equals pointer expected) event =
        equals_expected_iff pointer expected (json.from_slice event.payload)
    matches_iff (all_of conditions) event = all_matches_iff conditions event
    matches_iff (any_of conditions) event = any_matches_iff conditions event

    all_matches_iff :
        (conditions : Conditions json) (event : EventEnvelope)
        → ((Trigger.all_of (build_conditions json conditions)).matches event ≡ true)
          ↔ SatisfiesAll conditions event
    all_matches_iff nil event = ground arith
    all_matches_iff (cons spec conditions) event =
        ground (arith, matches_iff spec event, all_matches_iff conditions event)

    any_matches_iff :
        (conditions : Conditions json) (event : EventEnvelope)
        → ((Trigger.any_of (build_conditions json conditions)).matches event ≡ true)
          ↔ SatisfiesAny conditions event
    any_matches_iff nil event = ground arith
    any_matches_iff (cons spec conditions) event =
        ground (arith, matches_iff spec event, any_matches_iff conditions event)

  -- The trigger built from a condition matches exactly the events that satisfy the condition, at
  -- any nesting: `all_of` asks for every one of its conditions, `any_of` for at least one.
  pub build_condition_correct :
      (spec : MatchSpec json) (event : EventEnvelope)
      → ((build_condition json spec).matches event ≡ true) ↔ Satisfies spec event
  build_condition_correct spec event = matches_iff spec event

  registered_of-fires :
      (entry : TriggerEntry json) (event : EventEnvelope)
      → (fires event (registered_of json entry) ≡ true)
        ↔ ((entry.enabled ≡ true) × Satisfies entry.condition event)
  unfolding registered_of new_registered disabled
  registered_of-fires entry event = ground (arith, matches_iff entry.condition event)

  register_entries-eq_foldl :
      (registry : TriggerRegistry) (entries : List (TriggerEntry json))
      → register_entries json registry entries
        ≡ foldl register registry (map (registered_of json) entries)
  unfolding register_entries
  register_entries-eq_foldl registry [] = refl
  register_entries-eq_foldl registry (entry ∷ entries) =
      register_entries-eq_foldl (register registry (registered_of json entry)) entries

  registered_of-entry :
      (entry : TriggerEntry json)
      → ((registered_of json entry).name ≡ entry.name)
        × ((registered_of json entry).priority ≡ entry.priority)
        × ((event : EventEnvelope)
            → (registered_of json entry).binding.bind event
              ≡ ok (record {
                lane = entry.bind.lane;
                kind = entry.bind.kind;
                payload = event.payload;
                max_attempts = entry.bind.max_attempts;
              }))
  unfolding registered_of new_registered disabled Trigger.worklane_job_binding Trigger.new_binding
      Trigger.job_of Trigger.job_payload
  registered_of-entry entry = (ground arith, ground arith, λ event. ground arith)

  -- A configuration that is read builds a registry. The triggers it offers for an event are those of
  -- the entries, by descending priority and in the order of the file where priorities are equal; an
  -- entry's trigger fires exactly if the entry is enabled and its condition is satisfied, and has the
  -- name and the priority of the entry and binds a job of its lane, kind and attempts, with the event's payload.
  pub parse_registry-fires :
      (from_str : String → Result (TriggerFile json) String) (text : String)
      (file : TriggerFile json)
      → from_str text ≡ ok file
      → (registry : TriggerRegistry) × (parse_registry json from_str text ≡ ok registry)
        × ((event : EventEnvelope)
            → matching registry event
              ≡ sort_by_key priority_of
                  (filter (fires event) (map (registered_of json) file.triggers)))
        × ((entry : TriggerEntry json) (event : EventEnvelope)
            → (fires event (registered_of json entry) ≡ true)
              ↔ ((entry.enabled ≡ true) × Satisfies entry.condition event))
        × ((entry : TriggerEntry json)
            → ((registered_of json entry).name ≡ entry.name)
              × ((registered_of json entry).priority ≡ entry.priority)
              × ((event : EventEnvelope)
                  → (registered_of json entry).binding.bind event
                    ≡ ok (record {
                      lane = entry.bind.lane;
                      kind = entry.bind.kind;
                      payload = event.payload;
                      max_attempts = entry.bind.max_attempts;
                    })))
  unfolding parse_registry
  parse_registry-fires from_str text file h = (
    register_entries json new_registry file.triggers,
    rw h,
    λ event.
        rw (register_entries-eq_foldl new_registry file.triggers)
          (matching-register_all (map (registered_of json) file.triggers) event).0,
    registered_of-fires,
    registered_of-entry,
  )
