-- ===== src/Runtime/Retry/Groups.antt =====
-- How the records of a retry pass are grouped by event.
use triggerlane.Common.{
  String, List, [], ◌∷◌, ◌++◌, ◌≡◌, refl, map, arith, contains, string_eq, if◌then◌else◌,
}
use triggerlane.Event.{EventId, EventEnvelope}
use triggerlane.DeadTrigger.{DeadTriggerRecord}
use triggerlane.Runtime.Retry.{HashMap, map_get, map_insert, Grouped, if_new, group}
use mathlib.Core.List.{foldl}

abbrev pub keys {ℓ} : {A : Type ℓ} → HashMap A → List String
keys = map (λ entry. entry.0)

abbrev add_key : String → List String → List String
add_key id order = if contains order id then order else order ++ id ∷ []

keys-map_insert :
    {A : Type 0} (id : String) (a : A) (m : HashMap A)
    → keys (map_insert id a m) ≡ add_key id (keys m)
keys-map_insert id a [] = refl
keys-map_insert id a ((k, b) ∷ m) = ground (arith, keys-map_insert id a m)

if_new_lem :
    (id : String) (m : HashMap EventEnvelope) (order : List String)
    → if_new (map_get id m) id order ≡ (if contains (keys m) id then order else order ++ id ∷ [])
if_new_lem id [] order = refl
if_new_lem id ((k, b) ∷ m) order = ground (arith, if_new_lem id m order)

-- The two maps have the ids in the order of their first record.
abbrev pub IsKeyed : Grouped → Type 0
IsKeyed g = (keys g.events ≡ g.order) × (keys g.failed_triggers ≡ g.order)

module _ (show_id : EventId → String) where
  group-IsKeyed :
      (g : Grouped) (dead : DeadTriggerRecord) → IsKeyed g → IsKeyed (group show_id g dead)
  unfolding group
  group-IsKeyed g dead (e, f) =
      let id = show_id dead.event.id in
      let new = if_new_lem id g.events g.order in
      (
        rw (keys-map_insert id dead.event g.events, new, e),
        rw (keys-map_insert id _ g.failed_triggers, new, e, f),
      )

  pub all-IsKeyed :
      (records : List DeadTriggerRecord) (g : Grouped)
      → IsKeyed g
      → IsKeyed (foldl (group show_id) g records)
  all-IsKeyed [] g k = k
  all-IsKeyed (dead ∷ records) g k = all-IsKeyed records _ (group-IsKeyed g dead k)
