-- ===== src/Retention/Walk.antt =====
-- The walk over the records, newest first, finds how many of them fit into the byte bound.
use mathlib.Core.List.{reverse, reverse-append}
use triggerlane.Common.{
  ℕ, ◌+◌, ◌-◌, ◌≤◌, ◌<◌, ◌≡◌, refl, ap, ◌∙◌, sym, inl, inr, List, [], ◌∷◌, ◌++◌, arith, length,
  length-append, append_assoc, append-nil, ltb, Bool-cases,
}
use triggerlane.Retention.{walk}

module _ {T : Type 0} (size : T → ℕ) where
  -- The bytes of all records together.
  unfoldable pub total : List T → ℕ
  total [] = 0
  total (x ∷ xs) = size x + total xs

  -- The last of the records that were dropped would not have fitted.
  pub data IsMaximal (budget : ℕ) (dropped kept : List T) : Type 0 where
    nothing_dropped : dropped ≡ [] → IsMaximal budget dropped kept
    next_too_large :
        (older : List T) (next : T)
        → dropped ≡ older ++ next ∷ []
        → budget < size next + total kept
        → IsMaximal budget dropped kept

  pub record Fits (budget : ℕ) (all : List T) (first_kept : ℕ) : Type 0 where
    pub dropped : List T
    pub kept : List T
    pub parts : all ≡ dropped ++ kept
    pub index : first_kept ≡ length dropped
    pub fits : total kept ≤ budget
    pub maximal : IsMaximal budget dropped kept

  pub total-append : (xs ys : List T) → total (xs ++ ys) ≡ total xs + total ys
  unfolding total
  total-append [] ys = omega arith
  total-append (x ∷ xs) ys = omega (arith, total-append xs ys)

  pub length-reverse : (xs : List T) → length (reverse xs) ≡ length xs
  length-reverse [] = refl
  length-reverse (x ∷ xs) =
      ap length (reverse-append (x ∷ []) xs)
      ∙ length-append (reverse xs) (x ∷ [])
      ∙ omega (arith, length-reverse xs)

  extend-IsMaximal :
      (budget : ℕ) (r : T) (dropped kept : List T)
      → size r ≤ budget
      → IsMaximal (budget - size r) dropped kept
      → IsMaximal budget dropped (kept ++ r ∷ [])
  unfolding total
  extend-IsMaximal budget r dropped kept h (nothing_dropped p) = nothing_dropped p
  extend-IsMaximal budget r dropped kept h (next_too_large older next p q) =
      next_too_large older next p (omega (arith, total-append kept (r ∷ [])))

  pub walk-Fits :
      (newest_first : List T) (budget : ℕ)
      → Fits budget (reverse newest_first) (walk size newest_first budget (length newest_first))
  unfolding walk total
  walk-Fits [] budget = record {
    dropped = [];
    kept = [];
    parts = refl;
    index = refl;
    fits = omega arith;
    maximal = nothing_dropped refl;
  }
  walk-Fits (r ∷ older) budget = elim (Bool-cases (ltb budget (size r))) [
    | inl over ↦ rw over (record {
      dropped = reverse (r ∷ older);
      kept = [];
      parts = sym (append-nil _);
      index = sym (length-reverse (r ∷ older));
      fits = omega arith;
      maximal = next_too_large (reverse older) r (reverse-append (r ∷ []) older) (ground arith);
    })
    | inr room ↦
        let ih = walk-Fits older (budget - size r) in
        rw room (record {
          dropped = ih.dropped;
          kept = ih.kept ++ r ∷ [];
          parts =
              reverse-append (r ∷ []) older
              ∙ ap (λ xs. xs ++ r ∷ []) ih.parts
              ∙ append_assoc ih.dropped ih.kept (r ∷ []);
          index = ih.index;
          fits = ground (arith, total-append ih.kept (r ∷ []), ih.fits);
          maximal = extend-IsMaximal budget r ih.dropped ih.kept (ground arith) ih.maximal;
        })
  ]
