-- ===== src/Retention.antt =====
-- crates/triggerlane-storage/src/lib.rs: manual and automatic retention, which decide the records
-- that a store keeps. Times and spans are nanoseconds. `to_vec` is `serde_json::to_vec`.
pub mod Walk
pub mod Size
pub mod Manual
pub mod Auto
use triggerlane.Common.{
  ℕ, ◌+◌, ◌-◌, Bool, true, false, ◌&&◌, not, Option, none, some, List, [], ◌∷◌, filter, length,
  drop, ltb, if◌then◌else◌, contains, nat_eq,
}
use triggerlane.Common.Int.{ℤ, ◌-ℤ◌, ltb_ℤ, leb_ℤ}
use triggerlane.Event.{EventId, EventEnvelope}
use triggerlane.DeadTrigger.{DeadTriggerRecord}
use mathlib.Core.List.{reverse}

pub data ManualRetention : Type 0 where
  older_than : ℤ → ManualRetention
  keep_most_recent : ℕ → ManualRetention

-- `saturating_sub` is the subtraction on ℕ.
unfoldable pub keep {ℓ} : {T : Type ℓ} → ManualRetention → List T → (T → ℤ) → List T
keep (older_than cutoff) items timestamp = filter (λ item. leb_ℤ cutoff (timestamp item)) items
keep (keep_most_recent max) items timestamp = let skip = length items - max in drop skip items

pub record AutoRetention : Type 0 where
  pub delivered_grace : Option ℤ
  pub max_age : Option ℤ
  pub max_count : Option ℕ
  pub max_bytes : Option ℕ

abbrev pub is_none {ℓ} : {A : Type ℓ} → Option A → Bool
is_none none = true
is_none (some a) = false

unfoldable pub is_unbounded : AutoRetention → Bool
is_unbounded policy =
    is_none policy.delivered_grace
    && is_none policy.max_age
    && is_none policy.max_count
    && is_none policy.max_bytes

-- `AutoRetention::unbounded`
abbrev pub unbounded : AutoRetention
unbounded = record { delivered_grace = none; max_age = none; max_count = none; max_bytes = none }

-- Whether a span is longer than a bound, if there is one.
abbrev pub exceeds : Option ℤ → ℤ → Bool
exceeds none age = false
exceeds (some bound) age = ltb_ℤ bound age

-- The record as JSON with its newline, or 0 if it has no JSON.
unfoldable pub serialized_len {ℓ} : {T : Type ℓ} → (T → Option (List ℕ)) → T → ℕ
serialized_len to_vec record_ = elim (to_vec record_) [ none ↦ 0 | some bytes ↦ length bytes + 1 ]

module _ {T : Type 0} (size : T → ℕ) where
  -- The walk over the records, newest first: the index of a record is the number of those behind it.
  unfoldable pub walk : List T → ℕ → ℕ → ℕ
  walk [] budget first_kept = first_kept
  walk (r ∷ older) budget first_kept =
      let rest = walk older (budget - size r) (length older) in
      if ltb budget (size r) then first_kept else rest

  unfoldable pub bound_count : Option ℕ → List T → List T
  bound_count none kept = kept
  bound_count (some max) kept =
      if ltb max (length kept) then drop (length kept - max) kept else kept

  unfoldable pub bound_bytes : Option ℕ → List T → List T
  unfolding walk
  bound_bytes none kept = kept
  bound_bytes (some max_bytes) kept = drop (walk (reverse kept) max_bytes (length kept)) kept

  unfoldable pub apply_size_bounds : List T → AutoRetention → List T
  unfolding bound_count bound_bytes
  apply_size_bounds kept policy = bound_bytes policy.max_bytes (bound_count policy.max_count kept)

-- The test of the filter in `retain_events`.
unfoldable pub survives : List EventId → AutoRetention → ℤ → EventEnvelope → Bool
survives delivered policy now event =
    let age = now -ℤ event.timestamp in
    if exceeds policy.max_age age
    then false
    else not (contains delivered event.id && exceeds policy.delivered_grace age)

module _ (to_vec : EventEnvelope → Option (List ℕ)) where
  unfoldable pub retain_events :
      List EventEnvelope → List EventId → AutoRetention → ℤ → List EventEnvelope
  unfolding survives apply_size_bounds
  retain_events events delivered policy now =
      let kept = filter (survives delivered policy now) events in
      apply_size_bounds (serialized_len to_vec) kept policy

unfoldable pub is_young : AutoRetention → ℤ → DeadTriggerRecord → Bool
is_young policy now r = not (exceeds policy.max_age (now -ℤ r.event.timestamp))

module _ (to_vec : DeadTriggerRecord → Option (List ℕ)) where
  unfoldable pub retain_dead_triggers :
      List DeadTriggerRecord → AutoRetention → ℤ → List DeadTriggerRecord
  unfolding is_young apply_size_bounds
  retain_dead_triggers records policy now =
      apply_size_bounds (serialized_len to_vec) (filter (is_young policy now) records) policy
