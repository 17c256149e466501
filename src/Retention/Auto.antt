-- ===== src/Retention/Auto.antt =====
-- Automatic retention of events and of dead triggers.
use triggerlane.Common.{
  ◌≡◌, refl, ◌↔◌, ◌⊎◌, Bool, true, false, not, Option, none, some, List, [], ◌∷◌, ℕ, arith, All,
  filter, All-filter_self, filter_of_All, All-append_right, contains, nat_eq,
}
use triggerlane.Common.Int.{ℤ, ◌-ℤ◌, ◌≤ℤ◌}
use triggerlane.Event.{EventId, EventEnvelope}
use triggerlane.DeadTrigger.{DeadTriggerRecord}
use triggerlane.Retention.{
  AutoRetention, exceeds, survives, is_young, serialized_len, apply_size_bounds, retain_events,
  retain_dead_triggers,
}
use triggerlane.Retention.Size.{IsBounded, apply_size_bounds-IsBounded, apply_size_bounds-Within}

-- A span is no longer than a bound, if there is one.
abbrev pub NoLonger : Option ℤ → ℤ → Type 0
NoLonger none age = Unit
NoLonger (some bound) age = age ≤ℤ bound

exceeds_iff : (bound : Option ℤ) (age : ℤ) → (exceeds bound age ≡ false) ↔ NoLonger bound age
exceeds_iff none age = ground arith
exceeds_iff (some bound) age = ground arith

-- What is bounded in size once more is left as it is, if all of it passes the filter.
retain_again :
    {T : Type 0} (size : T → ℕ) (p : T → Bool) (policy : AutoRetention) (records : List T)
    → let kept = apply_size_bounds size (filter p records) policy in
      (All (λ r. p r ≡ true) kept) × (apply_size_bounds size (filter p kept) policy ≡ kept)
retain_again size p policy records =
    let h = apply_size_bounds-IsBounded size policy (filter p records) in
    let kept = apply_size_bounds size (filter p records) policy in
    let passing : All (λ r. p r ≡ true) kept =
      All-append_right (λ r. p r ≡ true) h.dropped kept
        (rw h.parts at (All-filter_self p records)) in
    (
      passing,
      rw (filter_of_All p kept passing) (apply_size_bounds-Within size policy kept h.count h.bytes),
    )

module _ (to_vec : EventEnvelope → Option (List ℕ)) where
  -- Retention keeps the newest of the events that are not too old, as many as the size bounds
  -- allow. An event is not too old if its age is within `max_age` and, once it is delivered, within
  -- `delivered_grace`; a bound that is not set bounds nothing.
  pub retain_events_correct :
      (events : List EventEnvelope) (delivered : List EventId) (policy : AutoRetention) (now : ℤ)
      → IsBounded
          (serialized_len to_vec)
          policy.max_count
          policy.max_bytes
          (filter (survives delivered policy now) events)
          (retain_events to_vec events delivered policy now)
        × ((event : EventEnvelope)
            → (survives delivered policy now event ≡ true) ↔ (
                NoLonger policy.max_age (now -ℤ event.timestamp)
                × ((contains delivered event.id ≡ false)
                    ⊎ NoLonger policy.delivered_grace (now -ℤ event.timestamp))))
  unfolding retain_events
  retain_events_correct events delivered policy now = (
    apply_size_bounds-IsBounded (serialized_len to_vec) policy _,
    λ event.
        let age = now -ℤ event.timestamp in
        ground (arith, exceeds_iff policy.max_age age, exceeds_iff policy.delivered_grace age),
  )

  -- A second sweep at the same time, with the same delivered ids, removes nothing more.
  pub retain_events_idem :
      (events : List EventEnvelope) (delivered : List EventId) (policy : AutoRetention) (now : ℤ)
      → let kept = retain_events to_vec events delivered policy now in
        retain_events to_vec kept delivered policy now ≡ kept
  unfolding retain_events
  retain_events_idem events delivered policy now =
      (retain_again (serialized_len to_vec) (survives delivered policy now) policy events).1

  survives_undelivered :
      (events : List EventEnvelope) (delivered : List EventId) (policy : AutoRetention) (now : ℤ)
      → policy.max_age ≡ none
      → filter
          (λ event. not (contains delivered event.id))
          (filter (survives delivered policy now) events)
        ≡ filter (λ event. not (contains delivered event.id)) events
  unfolding survives
  survives_undelivered [] delivered policy now h = refl
  survives_undelivered (event ∷ events) delivered policy now h =
      ground (arith, survives_undelivered events delivered policy now h)

  -- With no hard bound set, retention keeps every event that is not delivered, in order.
  retain_events_undelivered :
      (events : List EventEnvelope) (delivered : List EventId) (policy : AutoRetention) (now : ℤ)
      → policy.max_age ≡ none
      → policy.max_count ≡ none
      → policy.max_bytes ≡ none
      → filter
          (λ event. not (contains delivered event.id))
          (retain_events to_vec events delivered policy now)
        ≡ filter (λ event. not (contains delivered event.id)) events
  unfolding retain_events
  retain_events_undelivered events delivered policy now a c b =
      rw
        (apply_size_bounds-Within (serialized_len to_vec) policy
          (filter (survives delivered policy now) events) (rw c tt) (rw b tt))
        (survives_undelivered events delivered policy now a)

module _ (to_vec : DeadTriggerRecord → Option (List ℕ)) where
  -- Of the dead triggers, retention keeps the newest whose event is within `max_age`, as many as the
  -- size bounds allow. The delivered grace plays no part.
  pub retain_dead_triggers_correct :
      (records : List DeadTriggerRecord) (policy : AutoRetention) (now : ℤ)
      → IsBounded
          (serialized_len to_vec)
          policy.max_count
          policy.max_bytes
          (filter (is_young policy now) records)
          (retain_dead_triggers to_vec records policy now)
        × ((r : DeadTriggerRecord)
            → (is_young policy now r ≡ true) ↔ NoLonger policy.max_age (now -ℤ r.event.timestamp))
        × ((grace : Option ℤ)
            → retain_dead_triggers to_vec records (record policy { delivered_grace = grace }) now
              ≡ retain_dead_triggers to_vec records policy now)
  unfolding retain_dead_triggers
  retain_dead_triggers_correct records policy now = (
    apply_size_bounds-IsBounded (serialized_len to_vec) policy _,
    λ r. ground (arith, exceeds_iff policy.max_age (now -ℤ r.event.timestamp)),
    λ grace. refl,
  )
