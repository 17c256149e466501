-- ===== src/Common/Sort.antt =====
-- `slice::sort_by_key` with a key in `Reverse`: the stable sort by descending keys, which the
-- standard library specifies. Insertion sort is such a sort.
use triggerlane.Common.{
  ◌≡◌, refl, ap, ◌∙◌, sym, Bool, List, [], ◌∷◌, ◌++◌, arith, filter, All, Bool-cases, inl, inr,
  if◌then◌else◌,
}
use triggerlane.Common.Int.{ℤ, ltb_ℤ, ◌≤ℤ◌}
use mathlib.Core.List.{Perm}
use mathlib.Core.List.Perm

module _ {A : Type 0} (key : A → ℤ) where
  -- Before the first element whose key is not greater: earlier elements stay before equal ones.
  unfoldable pub sort_insert : A → List A → List A
  sort_insert x [] = x ∷ []
  sort_insert x (y ∷ ys) =
      let rest = sort_insert x ys in if ltb_ℤ (key x) (key y) then y ∷ rest else x ∷ y ∷ ys

  unfoldable pub sort_by_key : List A → List A
  unfolding sort_insert
  sort_by_key [] = []
  sort_by_key (x ∷ xs) = sort_insert x (sort_by_key xs)

  -- Behind every element whose key is not smaller: where a stable sort puts a last element.
  unfoldable pub insert_last : A → List A → List A
  insert_last x [] = x ∷ []
  insert_last x (y ∷ ys) =
      let rest = insert_last x ys in if ltb_ℤ (key y) (key x) then x ∷ y ∷ ys else y ∷ rest

  -- Keys descend.
  abbrev pub IsSorted : List A → Type 0
  IsSorted [] = Unit
  IsSorted (x ∷ xs) = All (λ y. key y ≤ℤ key x) xs × IsSorted xs

module _ {A : Type 0} (key : A → ℤ) where
  All-sort_insert :
      (P : A → Type 0) (x : A) (ys : List A) → P x → All P ys → All P (sort_insert key x ys)
  unfolding sort_insert
  All-sort_insert P x [] p h = (p, tt)
  All-sort_insert P x (y ∷ ys) p (q, h) = ground (arith, All-sort_insert P x ys p h)

  below_trans :
      (x y : A) (ys : List A)
      → key y ≤ℤ key x
      → All (λ z. key z ≤ℤ key y) ys
      → All (λ z. key z ≤ℤ key x) ys
  below_trans x y [] h a = tt
  below_trans x y (z ∷ ys) h (p, a) = (omega arith, below_trans x y ys h a)

  All-filter : (p : A → Bool) (P : A → Type 0) (ys : List A) → All P ys → All P (filter p ys)
  All-filter p P [] h = tt
  All-filter p P (y ∷ ys) (q, h) = ground (arith, All-filter p P ys h)

  sort_insert-IsSorted :
      (x : A) (ys : List A) → IsSorted key ys → IsSorted key (sort_insert key x ys)
  unfolding sort_insert
  sort_insert-IsSorted x [] s = (tt, tt)
  sort_insert-IsSorted x (y ∷ ys) (h, s) = elim (Bool-cases (ltb_ℤ (key x) (key y))) [
    | inl lt ↦
        rw lt
          (All-sort_insert (λ z. key z ≤ℤ key y) x ys (ground arith) h, sort_insert-IsSorted x ys s)
    | inr ge ↦ rw ge ((ground arith, below_trans x y ys (ground arith) h), (h, s))
  ]

  pub sort_by_key-IsSorted : (xs : List A) → IsSorted key (sort_by_key key xs)
  unfolding sort_by_key
  sort_by_key-IsSorted [] = tt
  sort_by_key-IsSorted (x ∷ xs) = sort_insert-IsSorted x _ (sort_by_key-IsSorted xs)

  sort_insert_of_sorted :
      (x : A) (xs : List A) → All (λ y. key y ≤ℤ key x) xs → sort_insert key x xs ≡ x ∷ xs
  unfolding sort_insert
  sort_insert_of_sorted x [] h = refl
  sort_insert_of_sorted x (y ∷ xs) (p, h) = ground arith

  -- A sorted list is left as it is.
  pub sort_by_key_of_sorted : (xs : List A) → IsSorted key xs → sort_by_key key xs ≡ xs
  unfolding sort_by_key
  sort_by_key_of_sorted [] s = refl
  sort_by_key_of_sorted (x ∷ xs) (h, s) =
      ap (sort_insert key x) (sort_by_key_of_sorted xs s) ∙ sort_insert_of_sorted x xs h

  insert_last-sort_insert :
      (x y : A) (zs : List A)
      → insert_last key y (sort_insert key x zs) ≡ sort_insert key x (insert_last key y zs)
  unfolding sort_insert insert_last
  insert_last-sort_insert x y [] = ground arith
  insert_last-sort_insert x y (z ∷ zs) = ground (arith, insert_last-sort_insert x y zs)

  sort_by_key-append_one :
      (xs : List A) (y : A)
      → sort_by_key key (xs ++ y ∷ []) ≡ insert_last key y (sort_by_key key xs)
  unfolding sort_by_key insert_last
  sort_by_key-append_one [] y = refl
  sort_by_key-append_one (x ∷ xs) y =
      ap (sort_insert key x) (sort_by_key-append_one xs y)
      ∙ sym (insert_last-sort_insert x y (sort_by_key key xs))

  -- Adding to a sorted list and sorting again is sorting once.
  pub sort_by_key-append_sorted :
      (xs : List A) (y : A)
      → sort_by_key key (sort_by_key key xs ++ y ∷ []) ≡ sort_by_key key (xs ++ y ∷ [])
  sort_by_key-append_sorted xs y =
      sort_by_key-append_one (sort_by_key key xs) y
      ∙ ap (insert_last key y) (sort_by_key_of_sorted _ (sort_by_key-IsSorted xs))
      ∙ sym (sort_by_key-append_one xs y)

  filter-sort_insert :
      (p : A → Bool) (x : A) (ys : List A)
      → IsSorted key ys
      → filter p (sort_insert key x ys)
        ≡ (if p x then sort_insert key x (filter p ys) else filter p ys)
  unfolding sort_insert
  filter-sort_insert p x [] s = ground arith
  filter-sort_insert p x (y ∷ ys) (h, s) = ground (
    arith,
    filter-sort_insert p x ys s,
    sort_insert_of_sorted x (filter p ys),
    below_trans x y ys,
    All-filter p (λ z. key z ≤ℤ key x) ys,
  )

  -- Selecting and sorting commute.
  pub filter-sort_by_key :
      (p : A → Bool) (xs : List A) → filter p (sort_by_key key xs) ≡ sort_by_key key (filter p xs)
  unfolding sort_by_key
  filter-sort_by_key p [] = refl
  filter-sort_by_key p (x ∷ xs) =
      rw
        (
          filter-sort_insert p x (sort_by_key key xs) (sort_by_key-IsSorted xs),
          filter-sort_by_key p xs,
        )
        (ground arith)

  perm-sort_insert : (x : A) (ys : List A) → Perm (sort_insert key x ys) (x ∷ ys)
  unfolding sort_insert
  perm-sort_insert x [] = Perm.refl (x ∷ [])
  perm-sort_insert x (y ∷ ys) = elim (Bool-cases (ltb_ℤ (key x) (key y))) [
    | inl lt ↦ rw lt (Perm.trans (Perm.cons y (perm-sort_insert x ys)) (Perm.swap x y ys))
    | inr ge ↦ rw ge (Perm.refl (x ∷ y ∷ ys))
  ]

  pub sort_by_key-perm : (xs : List A) → Perm (sort_by_key key xs) xs
  unfolding sort_by_key
  sort_by_key-perm [] = Perm.refl []
  sort_by_key-perm (x ∷ xs) =
      Perm.trans (perm-sort_insert x (sort_by_key key xs)) (Perm.cons x (sort_by_key-perm xs))
