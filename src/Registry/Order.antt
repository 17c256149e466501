-- ===== src/Registry/Order.antt =====
-- The order in which a registry offers its triggers.
use mathlib.Core.List.{Perm, foldl}
use triggerlane.Common.{◌≡◌, ap, ◌∙◌, List, [], ◌∷◌, ◌++◌, filter, append_assoc, append-nil}
use triggerlane.Common.Sort.{
  sort_by_key, sort_by_key-append_sorted, filter-sort_by_key, sort_by_key-IsSorted,
  sort_by_key-perm, IsSorted,
}
use triggerlane.Event.{EventEnvelope}
use triggerlane.Registry.{
  RegisteredTrigger, TriggerRegistry, new_registry, register, matching, priority_of, fires,
}

-- A registry that is filled one registration after the other.
abbrev pub register_all : List RegisteredTrigger → TriggerRegistry
register_all = foldl register new_registry

register_onto :
    (xs ys : List RegisteredTrigger)
    → foldl register (record { registrations = sort_by_key priority_of xs }) ys
      ≡ record { registrations = sort_by_key priority_of (xs ++ ys) }
unfolding register
register_onto xs [] = rw append-nil
register_onto xs (y ∷ ys) =
    rw (sort_by_key-append_sorted priority_of xs y, register_onto (xs ++ y ∷ []) ys, append_assoc)

-- After any registrations the registry is their one stable sort by descending priority.
pub register_all-eq-sort_by_key :
    (xs : List RegisteredTrigger) → (register_all xs).registrations ≡ sort_by_key priority_of xs
unfolding sort_by_key
register_all-eq-sort_by_key xs = ap (λ r. r.registrations) (register_onto [] xs)

-- The triggers that fire for an event are the enabled ones that match it, those of higher priority
-- first and those of equal priority as they were registered; none is lost and none is repeated.
pub matching-register_all :
    (xs : List RegisteredTrigger) (event : EventEnvelope)
    → (matching (register_all xs) event ≡ sort_by_key priority_of (filter (fires event) xs))
      × IsSorted priority_of (matching (register_all xs) event)
      × Perm (matching (register_all xs) event) (filter (fires event) xs)
unfolding matching
matching-register_all xs event =
    let e =
      ap (filter (fires event)) (register_all-eq-sort_by_key xs)
      ∙ filter-sort_by_key priority_of (fires event) xs in
    (e, rw e (sort_by_key-IsSorted priority_of _), rw e (sort_by_key-perm priority_of _))
