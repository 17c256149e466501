-- ===== src/Cli/Serve/Distinct.antt =====
-- Lists of events with distinct ids, of which some are kept.
use triggerlane.Common.{
  Bool, true, false, not, ◌||◌, List, [], ◌∷◌, ◌++◌, ◌≡◌, refl, arith, filter, contains, ◌==◌,
  nat_eq, sym, ◌∙◌, ap, subst, map-append, if◌then◌else◌,
}
use triggerlane.Event.{EventId, EventEnvelope}
use triggerlane.EventStore.Memory.{ids}

-- No id occurs twice.
abbrev pub Distinct : List EventId → Type 0
Distinct [] = Unit
Distinct (id ∷ rest) = (contains rest id ≡ false) × Distinct rest

pub contains_last :
    (xs : List EventId) (id x : EventId) → contains (xs ++ id ∷ []) x ≡ (contains xs x || x == id)
contains_last [] id x = ground arith
contains_last (y ∷ xs) id x = ground (arith, contains_last xs id x)

pub Distinct-last :
    (xs : List EventId) (id : EventId)
    → Distinct xs
    → contains xs id ≡ false
    → Distinct (xs ++ id ∷ [])
Distinct-last [] id d h = (refl, tt)
Distinct-last (x ∷ xs) id (new, d) h =
    (ground (arith, contains_last xs id x, new, h), Distinct-last xs id d (ground (arith, h)))

-- Without the events whose id is this one.
abbrev pub but : EventId → List EventEnvelope → List EventEnvelope
but id = filter (λ event. not (event.id == id))

pub but_new :
    (id : EventId) (xs : List EventEnvelope) → contains (ids xs) id ≡ false → but id xs ≡ xs
but_new id [] h = refl
but_new id (x ∷ xs) h = ground (arith, but_new id xs)

pub contains-filter :
    (keep : EventEnvelope → Bool) (xs : List EventEnvelope) (id : EventId)
    → contains (ids xs) id ≡ false
    → contains (ids (filter keep xs)) id ≡ false
contains-filter keep [] id h = refl
contains-filter keep (x ∷ xs) id h = ground (arith, contains-filter keep xs id)

Distinct-cons :
    (b : Bool) (x : EventEnvelope) (xs : List EventEnvelope)
    → contains (ids xs) x.id ≡ false
    → Distinct (ids xs)
    → Distinct (ids (if b then x ∷ xs else xs))
Distinct-cons true x xs new d = (new, d)
Distinct-cons false x xs new d = d

Distinct-filter :
    (keep : EventEnvelope → Bool) (xs : List EventEnvelope)
    → Distinct (ids xs)
    → Distinct (ids (filter keep xs))
Distinct-filter keep [] d = tt
Distinct-filter keep (x ∷ xs) (new, d) =
    Distinct-cons (keep x) x (filter keep xs) (contains-filter keep xs x.id new)
      (Distinct-filter keep xs d)

pub filter_or :
    (a b : EventEnvelope → Bool) (xs : List EventEnvelope)
    → filter (λ e. not (a e || b e)) xs ≡ filter (λ e. not (a e)) (filter (λ e. not (b e)) xs)
filter_or a b [] = refl
filter_or a b (x ∷ xs) = ground (arith, filter_or a b xs)

but_head : (x : EventEnvelope) (xs : List EventEnvelope) → but x.id (x ∷ xs) ≡ but x.id xs
but_head x xs = ground arith

-- The head of what is kept goes, if its id counts as gone.
pub rest_lem :
    (gone : EventId → Bool) (xs : List EventEnvelope) (event : EventEnvelope)
    (rest : List EventEnvelope)
    → Distinct (ids xs)
    → event ∷ rest ≡ filter (λ e. not (gone e.id)) xs
    → filter (λ e. not (e.id == event.id || gone e.id)) xs ≡ rest
rest_lem gone xs event rest d h =
    let (new, d') =
      subst (λ (kept : List EventEnvelope). Distinct (ids kept)) (sym h)
        (Distinct-filter (λ e. not (gone e.id)) xs d) in
    filter_or (λ e. e.id == event.id) (λ e. gone e.id) xs
    ∙ ap (but event.id) (sym h)
    ∙ but_head event rest
    ∙ but_new event.id rest new

pub keep_last :
    (p : EventEnvelope → Bool) (xs : List EventEnvelope) (x : EventEnvelope)
    → p x ≡ true
    → filter p xs ++ x ∷ [] ≡ filter p (xs ++ x ∷ [])
keep_last p [] x h = ground arith
keep_last p (y ∷ xs) x h = ground (arith, keep_last p xs x)

pub drop_last :
    (p : EventEnvelope → Bool) (xs : List EventEnvelope) (x : EventEnvelope)
    → p x ≡ false
    → filter p xs ≡ filter p (xs ++ x ∷ [])
drop_last p [] x h = ground arith
drop_last p (y ∷ xs) x h = ground (arith, drop_last p xs x)

pub same-Distinct : (xs ys : List EventEnvelope) → ys ≡ xs → Distinct (ids xs) → Distinct (ids ys)
same-Distinct xs ys e d = subst (λ (l : List EventEnvelope). Distinct (ids l)) (sym e) d

pub stored-Distinct :
    (xs ys : List EventEnvelope) (event : EventEnvelope)
    → ys ≡ xs ++ event ∷ []
    → Distinct (ids xs)
    → contains (ids xs) event.id ≡ false
    → Distinct (ids ys)
stored-Distinct xs ys event e d new =
    subst (λ (l : List EventId). Distinct l)
      (sym (ap ids e ∙ map-append (λ (x : EventEnvelope). x.id) xs (event ∷ [])))
      (Distinct-last (ids xs) event.id d new)
