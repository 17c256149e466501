-- ===== src/Tests/Rules.antt =====
-- Registries, configurations, retention and follow-up events at small inputs.
use triggerlane.Common.{
  ℕ, ◌≡◌, ◌↔◌, ◌⊎◌, ◌∷◌, [], List, length, filter, map, contains, refl, some, none, ok, Result,
  true, false, String, option_eq, nat_eq, Option,
}
use mathlib.Core.List.{Perm}
use triggerlane.Common.Int.{pos, ◌-ℤ◌}
use triggerlane.Common.Sort.{sort_by_key, IsSorted}
use triggerlane.Event.{EventEnvelope, Source, follow_up}
use triggerlane.Event.Chain.{Descends, first, next, chain_id, Descends-inherits}
use triggerlane.Trigger.{Json}
use triggerlane.Registry.{TriggerRegistry, matching, priority_of, fires}
use triggerlane.Registry.Order.{register_all, matching-register_all}
use triggerlane.Config.{
  MatchSpec, TriggerEntry, TriggerFile, event_type, payload_field_equals, all_of, any_of, nil, cons,
  build_condition, registered_of, parse_registry,
}
use triggerlane.Config.Meaning.{Satisfies, build_condition_correct, parse_registry-fires}
use triggerlane.Retention.{
  AutoRetention, retain_events, survives, serialized_len, apply_size_bounds,
}
use triggerlane.Retention.Size.{IsBounded, apply_size_bounds-IsBounded}
use triggerlane.Retention.Auto.{NoLonger, retain_events_correct}
use triggerlane.Tests.Fixtures.{good, bad, ping, lost_ping, show_id}

matching-register_all_example :
    (matching (register_all (good ∷ bad ∷ [])) ping
      ≡ sort_by_key priority_of (filter (fires ping) (good ∷ bad ∷ [])))
    × IsSorted priority_of (matching (register_all (good ∷ bad ∷ [])) ping)
    × Perm (matching (register_all (good ∷ bad ∷ [])) ping) (filter (fires ping) (good ∷ bad ∷ []))
matching-register_all_example = matching-register_all (good ∷ bad ∷ []) ping

-- A JSON value is a number, a payload is its digits, and a pointer always finds the value itself.
abbrev json : Json
json = record {
  Value = ℕ;
  from_slice = λ payload. some (length payload);
  pointer = λ value pointer. some value;
  value_eq = nat_eq;
}

abbrev condition : MatchSpec json
condition = all_of (
    cons (event_type "ping") (
      cons (any_of (cons (payload_field_equals "/a" 0) (cons (payload_field_equals "/b" 1) nil)))
        nil))

abbrev entry_ping : TriggerEntry json
entry_ping = record {
  name = "ping";
  priority = pos 2;
  enabled = true;
  condition = condition;
  bind = record { lane = "lane"; kind = "kind"; max_attempts = 1 };
}

abbrev entry_off : TriggerEntry json
entry_off = record entry_ping { name = "off"; enabled = false }

abbrev file_two : TriggerFile json
file_two = record { triggers = entry_ping ∷ entry_off ∷ [] }

abbrev parsed : String → Result (TriggerFile json) String
parsed text = ok file_two

build_condition_correct_example :
    ((build_condition json condition).matches ping ≡ true) ↔ Satisfies json condition ping
build_condition_correct_example = build_condition_correct json condition ping

parse_registry-fires_example :
    (registry : TriggerRegistry) × (parse_registry json parsed "" ≡ ok registry)
    × ((event : EventEnvelope)
        → matching registry event
          ≡ sort_by_key priority_of
              (filter (fires event) (map (registered_of json) file_two.triggers)))
    × ((entry : TriggerEntry json) (event : EventEnvelope)
        → (fires event (registered_of json entry) ≡ true)
          ↔ ((entry.enabled ≡ true) × Satisfies json entry.condition event))
    × ((entry : TriggerEntry json)
        → ((registered_of json entry).name ≡ entry.name)
          × ((registered_of json entry).priority ≡ entry.priority)
          × ((event : EventEnvelope)
              → (registered_of json entry).binding.bind event
                ≡ ok (record {
                  lane = entry.bind.lane;
                  kind = entry.bind.kind;
                  payload = event.payload;
                  max_attempts = entry.bind.max_attempts;
                })))
parse_registry-fires_example = parse_registry-fires json parsed "" file_two refl

abbrev policy_small : AutoRetention
policy_small = record {
  delivered_grace = some (pos 1);
  max_age = some (pos 100);
  max_count = some 2;
  max_bytes = some 3;
}

abbrev two_events : List EventEnvelope
two_events = ping ∷ lost_ping ∷ []

abbrev three : List ℕ
three = 1 ∷ 2 ∷ 3 ∷ []

abbrev no_json : {T : Type 0} → T → Option (List ℕ)
no_json t = none

apply_size_bounds-IsBounded_example :
    IsBounded
      (λ n. n)
      policy_small.max_count
      policy_small.max_bytes
      (3 ∷ 2 ∷ 1 ∷ [])
      (apply_size_bounds (λ n. n) (3 ∷ 2 ∷ 1 ∷ []) policy_small)
apply_size_bounds-IsBounded_example =
    apply_size_bounds-IsBounded (λ n. n) policy_small (3 ∷ 2 ∷ 1 ∷ [])

retain_events_correct_example :
    IsBounded
      (serialized_len no_json)
      policy_small.max_count
      policy_small.max_bytes
      (filter (survives (0 ∷ []) policy_small (pos 50)) two_events)
      (retain_events no_json two_events (0 ∷ []) policy_small (pos 50))
    × ((event : EventEnvelope)
        → (survives (0 ∷ []) policy_small (pos 50) event ≡ true) ↔ (
            NoLonger policy_small.max_age ((pos 50) -ℤ event.timestamp)
            × ((contains (0 ∷ []) event.id ≡ false)
                ⊎ NoLonger policy_small.delivered_grace ((pos 50) -ℤ event.timestamp))))
retain_events_correct_example =
    retain_events_correct no_json two_events (0 ∷ []) policy_small (pos 50)

abbrev pong : EventEnvelope
pong = follow_up show_id ping 1 (pos 6) Source.manual "pong" []

abbrev pong_again : EventEnvelope
pong_again = follow_up show_id pong 2 (pos 7) Source.manual "pong" []

abbrev chain : Descends show_id ping pong pong_again
chain =
    next 2 (pos 7) Source.manual "pong" [] (first 1 (pos 6) Source.manual "pong" [] refl refl) refl

Descends-inherits_example :
    (pong_again.metadata.correlation_id ≡ some (chain_id show_id ping))
    × (pong_again.metadata.tenant_id ≡ ping.metadata.tenant_id)
    × (pong_again.metadata.trace_id ≡ ping.metadata.trace_id)
    × (pong_again.metadata.causation_id ≡ some (show_id pong.id))
    × (pong_again.metadata.idempotency_key ≡ none)
Descends-inherits_example = Descends-inherits show_id ping pong pong_again chain
