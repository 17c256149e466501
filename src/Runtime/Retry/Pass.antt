-- ===== src/Runtime/Retry/Pass.antt =====
-- What a retry pass does, told from the records that it drained.
use triggerlane.Common.{
  String, Bool, true, false, ◌&&◌, ◌||◌, Option, some, none, List, [], ◌∷◌, ◌++◌, ◌≡◌, refl, sym,
  ◌∙◌, ap, any, arith, contains, set_insert, string_eq, ◌==◌, if◌then◌else◌, Bool-cases, inl, inr,
}
use triggerlane.Event.{EventId, EventEnvelope, unwrap_or, or_else}
use triggerlane.DeadTrigger.{DeadTriggerRecord}
use triggerlane.Runtime.Retry.{HashMap, map_get, map_insert, map_remove, Grouped, if_new, group}
use mathlib.Core.List.{foldl}

-- No text occurs twice.
abbrev pub Distinct : List String → Type 0
Distinct [] = Unit
Distinct (x ∷ xs) = (contains xs x ≡ false) × Distinct xs

Distinct-set_insert : (x : String) (xs : List String) → Distinct xs → Distinct (set_insert x xs)
Distinct-set_insert x xs d = ground arith

contains-set_insert :
    (x : String) (xs : List String) (y : String)
    → contains (set_insert x xs) y ≡ (y == x || contains xs y)
contains-set_insert x xs y = ground arith

contains-last :
    (xs : List String) (x y : String) → contains (xs ++ x ∷ []) y ≡ (y == x || contains xs y)
contains-last [] x y = ground arith
contains-last (z ∷ xs) x y = ground (arith, contains-last xs x y)

Distinct-last :
    (xs : List String) (x : String) → Distinct xs → contains xs x ≡ false → Distinct (xs ++ x ∷ [])
Distinct-last [] x d h = (refl, tt)
Distinct-last (y ∷ xs) x (new, d) h =
    (ground (arith, contains-last xs x y, new, h), Distinct-last xs x d (ground (arith, h)))

module _ {A : Type 0} where
  map_get-insert :
      (k id : String) (a : A) (m : HashMap A)
      → map_get k (map_insert id a m) ≡ (if k == id then some a else map_get k m)
  map_get-insert k id a [] = ground arith
  map_get-insert k id a ((j, b) ∷ m) = ground (arith, map_get-insert k id a m)

  pub map_get-remove :
      (k id : String) (m : HashMap A)
      → (k == id) ≡ false
      → map_get k (map_remove id m) ≡ map_get k m
  map_get-remove k id [] h = refl
  map_get-remove k id ((j, b) ∷ m) h = ground (arith, map_get-remove k id m h)

module _ (show_id : EventId → String) where
  -- The event of the last record with this id.
  abbrev pub last_of : String → List DeadTriggerRecord → Option EventEnvelope
  last_of id [] = none
  last_of id (dead ∷ records) =
      or_else (last_of id records) (if id == show_id dead.event.id then some dead.event else none)

  -- The names are those of the triggers that failed for the event with this id, each once.
  pub record IsFailedFor (records : List DeadTriggerRecord) (id : String) (names : List String)
      : Type 0 where
    pub distinct : Distinct names
    pub names_lem :
        (name : String)
        → contains names name
          ≡ any (λ dead. id == show_id dead.event.id && name == dead.trigger_name) records

  abbrev pub groups : Grouped → List DeadTriggerRecord → Grouped
  groups = foldl (group show_id)

  pub events_lem :
      (records : List DeadTriggerRecord) (g : Grouped) (id : String)
      → map_get id (groups g records).events ≡ or_else (last_of id records) (map_get id g.events)
  unfolding group
  events_lem [] g id = refl
  events_lem (dead ∷ records) g id = ground (
    arith,
    events_lem records (group show_id g dead) id,
    map_get-insert id (show_id dead.event.id) dead.event g.events,
  )

  abbrev pub names_for : String → Grouped → List String
  names_for id g = unwrap_or (map_get id g.failed_triggers) []

  names_group :
      (g : Grouped) (dead : DeadTriggerRecord) (id : String)
      → names_for id (group show_id g dead) ≡ (
          if id == show_id dead.event.id
          then set_insert dead.trigger_name (names_for (show_id dead.event.id) g)
          else names_for id g)
  unfolding group
  names_group g dead id =
      rw
        (map_get-insert id (show_id dead.event.id)
          (set_insert dead.trigger_name (names_for (show_id dead.event.id) g)) g.failed_triggers)
        (ground arith)

  abbrev pub fails_in : String → String → DeadTriggerRecord → Bool
  fails_in id name dead = id == show_id dead.event.id && name == dead.trigger_name

  names_one :
      (g : Grouped) (dead : DeadTriggerRecord) (id name : String)
      → contains (names_for id (group show_id g dead)) name
        ≡ (fails_in id name dead || contains (names_for id g) name)
  names_one g dead id name = elim (Bool-cases (id == show_id dead.event.id)) [
    | inl same ↦
        let e : id ≡ show_id dead.event.id = ground arith in
        rw (names_group g dead id, same)
          (contains-set_insert dead.trigger_name _ name
            ∙ ap (λ k. name == dead.trigger_name || contains (names_for k g) name) (sym e))
    | inr other ↦ rw (names_group g dead id, other) refl
  ]

  pub names_all :
      (records : List DeadTriggerRecord) (g : Grouped) (id name : String)
      → contains (names_for id (groups g records)) name
        ≡ (any (fails_in id name) records || contains (names_for id g) name)
  names_all [] g id name = refl
  names_all (dead ∷ records) g id name =
      ground (arith, names_all records (group show_id g dead) id name, names_one g dead id name)

  Distinct-one :
      (g : Grouped) (dead : DeadTriggerRecord)
      → ((id : String) → Distinct (names_for id g))
      → (id : String) → Distinct (names_for id (group show_id g dead))
  Distinct-one g dead d id = elim (Bool-cases (id == show_id dead.event.id)) [
    | inl same ↦
        rw (names_group g dead id, same)
          (Distinct-set_insert dead.trigger_name _ (d (show_id dead.event.id)))
    | inr other ↦ rw (names_group g dead id, other) (d id)
  ]

  pub Distinct-all :
      (records : List DeadTriggerRecord) (g : Grouped)
      → ((id : String) → Distinct (names_for id g))
      → (id : String) → Distinct (names_for id (groups g records))
  Distinct-all [] g d id = d id
  Distinct-all (dead ∷ records) g d id =
      Distinct-all records (group show_id g dead) (Distinct-one g dead d) id

  abbrev pub is_some : Option EventEnvelope → Bool
  is_some none = false
  is_some (some event) = true

  -- The ids in the order are those of the map, each once.
  pub record IsOrdered (g : Grouped) : Type 0 where
    pub distinct : Distinct g.order
    pub same_ids : (id : String) → contains g.order id ≡ is_some (map_get id g.events)

  Distinct-if_new :
      (o : Option EventEnvelope) (id : String) (order : List String)
      → Distinct order
      → contains order id ≡ is_some o
      → Distinct (if_new o id order)
  Distinct-if_new none id order d h = Distinct-last order id d h
  Distinct-if_new (some event) id order d h = d

  contains-if_new :
      (o : Option EventEnvelope) (id : String) (order : List String) (k : String)
      → contains order id ≡ is_some o
      → contains (if_new o id order) k ≡ (k == id || contains order k)
  contains-if_new none id order k h = contains-last order id k
  contains-if_new (some event) id order k h = ground arith

  group-IsOrdered :
      (g : Grouped) (dead : DeadTriggerRecord) → IsOrdered g → IsOrdered (group show_id g dead)
  unfolding group
  group-IsOrdered g dead inv =
      let id = show_id dead.event.id in
      record {
        distinct = Distinct-if_new (map_get id g.events) id g.order inv.distinct (inv.same_ids id);
        same_ids = λ k. ground (
          arith,
          contains-if_new (map_get id g.events) id g.order k (inv.same_ids id),
          map_get-insert k id dead.event g.events,
          inv.same_ids k,
        );
      }

  pub groups-IsOrdered :
      (records : List DeadTriggerRecord) (g : Grouped) → IsOrdered g → IsOrdered (groups g records)
  groups-IsOrdered [] g inv = inv
  groups-IsOrdered (dead ∷ records) g inv =
      groups-IsOrdered records (group show_id g dead) (group-IsOrdered g dead inv)

  pub known_lem :
      (records : List DeadTriggerRecord) (id : String)
      → is_some (last_of id records) ≡ any (λ dead. id == show_id dead.event.id) records
  known_lem [] id = refl
  known_lem (dead ∷ records) id = ground (arith, known_lem records id)
