-- ===== src/Retention/Size.antt =====
-- The size bounds of automatic retention keep the newest records that fit.
use mathlib.Core.List.{reverse, reverse-reverse}
use mathlib.Core.Path.{subst₂, ap₂}
use triggerlane.Common.{
  ℕ, ◌+◌, ◌-◌, ◌≤◌, ◌<◌, ◌≡◌, refl, ap, ◌∙◌, sym, inl, inr, Option, none, some, List, [], ◌∷◌, ◌++◌,
  arith, length, take, drop, length-append, length-drop, take-append-drop, drop-append,
  nil_of_length, append_assoc, ltb, Bool-cases,
}
use triggerlane.Retention.{AutoRetention, walk, bound_count, bound_bytes, apply_size_bounds}
use triggerlane.Retention.Walk.{
  total, IsMaximal, nothing_dropped, next_too_large, Fits, walk-Fits, total-append, length-reverse,
}

module _ {T : Type 0} (size : T → ℕ) where
  abbrev pub Within : Option ℕ → ℕ → Type 0
  Within none n = Unit
  Within (some bound) n = n ≤ bound

  -- Why some records went: there were more than the count allows, or the next one was too large.
  pub data IsTight (max_count max_bytes : Option ℕ) (dropped kept : List T) : Type 0 where
    none_dropped : dropped ≡ [] → IsTight max_count max_bytes dropped kept
    full :
        (max : ℕ)
        → max_count ≡ some max
        → length kept ≡ max
        → IsTight max_count max_bytes dropped kept
    next_beyond :
        (budget : ℕ) (older : List T) (next : T)
        → max_bytes ≡ some budget
        → dropped ≡ older ++ next ∷ []
        → budget < size next + total size kept
        → IsTight max_count max_bytes dropped kept

  -- `kept` are the newest records of `all`, as many as the two bounds allow.
  pub record IsBounded (max_count max_bytes : Option ℕ) (all kept : List T) : Type 0 where
    pub dropped : List T
    pub parts : all ≡ dropped ++ kept
    pub count : Within max_count (length kept)
    pub bytes : Within max_bytes (total size kept)
    pub tight : IsTight max_count max_bytes dropped kept

  bound_count-IsBounded :
      (max_count : Option ℕ) (xs : List T)
      → IsBounded max_count none xs (bound_count size max_count xs)
  unfolding bound_count
  bound_count-IsBounded none xs = record {
    dropped = [];
    parts = refl;
    count = tt;
    bytes = tt;
    tight = none_dropped refl;
  }
  bound_count-IsBounded (some max) xs = elim (Bool-cases (ltb max (length xs))) [
    | inl over ↦ rw over (record {
      dropped = take (length xs - max) xs;
      parts = sym (take-append-drop (length xs - max) xs);
      count = ground (arith, length-drop (length xs - max) xs);
      bytes = tt;
      tight = full max refl (ground (arith, length-drop (length xs - max) xs));
    })
    | inr room ↦ rw room (record {
      dropped = [];
      parts = refl;
      count = ground arith;
      bytes = tt;
      tight = none_dropped refl;
    })
  ]

  Within-suffix :
      (b : Option ℕ) (dropped kept : List T)
      → Within b (length (dropped ++ kept))
      → Within b (length kept)
  Within-suffix none dropped kept h = tt
  Within-suffix (some b) dropped kept h = omega (arith, length-append dropped kept)

  suffix-Fits :
      (budget : ℕ) (xs : List T) → Fits size budget xs (walk size (reverse xs) budget (length xs))
  suffix-Fits budget xs =
      subst₂ (λ ys n. Fits size budget ys (walk size (reverse xs) budget n)) (reverse-reverse xs)
        (length-reverse size xs) (walk-Fits size (reverse xs) budget)

  -- Dropping more records from the front keeps a reason why records went.
  tighten :
      (max_count : Option ℕ) (budget : ℕ) (gone xs dropped kept : List T)
      → IsTight max_count none gone xs
      → xs ≡ dropped ++ kept
      → IsMaximal size budget dropped kept
      → IsTight max_count (some budget) (gone ++ dropped) kept
  tighten max_count budget gone xs dropped kept t e (next_too_large older next p q) =
      next_beyond budget (gone ++ older) next refl
        (ap (◌++◌ gone) p ∙ sym (append_assoc gone older (next ∷ []))) q
  tighten max_count budget gone xs dropped kept (none_dropped p) e (nothing_dropped q) =
      none_dropped (rw (p, q))
  tighten max_count budget gone xs dropped kept (full max p n) e (nothing_dropped q) =
      full max p (omega (arith, ap length e, ap length q, length-append dropped kept))
  tighten max_count budget gone xs dropped kept (next_beyond b older next p q r) e m = cc

  both_bounds-Fits :
      (max_count : Option ℕ) (budget : ℕ) (all xs : List T) (first_kept : ℕ)
      → IsBounded max_count none all xs
      → (f : Fits size budget xs first_kept) → IsBounded max_count (some budget) all f.kept
  both_bounds-Fits max_count budget all xs first_kept h f = record {
    dropped = h.dropped ++ f.dropped;
    parts = h.parts ∙ ap (◌++◌ h.dropped) f.parts ∙ sym (append_assoc h.dropped f.dropped f.kept);
    count = Within-suffix max_count f.dropped f.kept (rw f.parts at h.count);
    bytes = f.fits;
    tight = tighten max_count budget h.dropped xs f.dropped f.kept h.tight f.parts f.maximal;
  }

  drop-kept :
      (budget : ℕ) (xs : List T) (first_kept : ℕ) (f : Fits size budget xs first_kept)
      → drop first_kept xs ≡ f.kept
  drop-kept budget xs first_kept f = ap₂ drop f.index f.parts ∙ drop-append f.dropped f.kept

  -- The byte bound, applied to what the count bound has left.
  both_bounds :
      (max_count max_bytes : Option ℕ) (all xs : List T)
      → IsBounded max_count none all xs
      → IsBounded max_count max_bytes all (bound_bytes size max_bytes xs)
  unfolding bound_bytes
  both_bounds max_count none all xs h = h
  both_bounds max_count (some budget) all xs h =
      let f = suffix-Fits budget xs in
      rw (drop-kept budget xs _ f) (both_bounds-Fits max_count budget all xs _ h f)

  -- The size bounds keep the newest records, no more than `max_count` of them and no more than
  -- `max_bytes` together. Where they drop any, the count is full or the next record too large.
  pub apply_size_bounds-IsBounded :
      (policy : AutoRetention) (records : List T)
      → IsBounded policy.max_count policy.max_bytes records (apply_size_bounds size records policy)
  unfolding apply_size_bounds
  apply_size_bounds-IsBounded policy records =
      both_bounds policy.max_count policy.max_bytes records _
        (bound_count-IsBounded policy.max_count records)

  Within-none :
      (max_count max_bytes : Option ℕ) (dropped kept : List T)
      → Within max_count (length (dropped ++ kept))
      → Within max_bytes (total size (dropped ++ kept))
      → IsTight max_count max_bytes dropped kept
      → dropped ≡ []
  unfolding total
  Within-none max_count max_bytes dropped kept c b (none_dropped p) = p
  Within-none max_count max_bytes dropped kept c b (full max p n) =
      let fits : length (dropped ++ kept) ≤ max = rw p at c in
      nil_of_length dropped (omega (arith, length-append dropped kept))
  Within-none max_count max_bytes dropped kept c b (next_beyond budget older next p q r) =
      let fits : total size (dropped ++ kept) ≤ budget = rw p at b in
      absurd (
        omega (
          arith,
          ap (total size) q,
          total-append size dropped kept,
          total-append size older (next ∷ []),
        ))

  -- Records within the bounds are all kept.
  pub apply_size_bounds-Within :
      (policy : AutoRetention) (records : List T)
      → Within policy.max_count (length records)
      → Within policy.max_bytes (total size records)
      → apply_size_bounds size records policy ≡ records
  apply_size_bounds-Within policy records c b =
      let h = apply_size_bounds-IsBounded policy records in
      let none_gone =
        Within-none policy.max_count policy.max_bytes h.dropped _ (rw h.parts at c)
          (rw h.parts at b) h.tight in
      sym (h.parts ∙ ap (λ xs. xs ++ apply_size_bounds size records policy) none_gone)
