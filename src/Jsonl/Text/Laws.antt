-- ===== src/Jsonl/Text/Laws.antt =====
-- Decoding and line splitting over concatenated texts.
use triggerlane.Common.{
  ℕ, zero, suc, ◌≡◌, refl, ap, sym, ◌∙◌, ◌≢◌, Option, none, some, List, [], ◌∷◌, ◌++◌, arith,
  append_assoc, append-nil, All, Option-cases, Bool-cases, leb, ◌&&◌, ◌+◌, ◌*◌, ◌%◌, inl, inr,
  nat_eq,
}
use triggerlane.Jsonl.Text.{
  lead, prepend, emit, utf8, from_utf8, strip_cr, lines_from, lines, last_line,
}

prepend_assoc :
    (c : ℕ) (t : List ℕ) (o : Option (List ℕ)) → prepend (c ∷ []) (prepend t o) ≡ prepend (c ∷ t) o
prepend_assoc c t none = refl
prepend_assoc c t (some u) = refl

prepend_nil : (o : Option (List ℕ)) → prepend [] o ≡ o
prepend_nil none = refl
prepend_nil (some t) = refl

emit-append :
    (more c : ℕ) (rest longer tail : Option (List ℕ)) (t : List ℕ)
    → ((u : List ℕ) → rest ≡ some u → longer ≡ prepend u tail)
    → emit more c rest ≡ some t
    → emit more c longer ≡ prepend t tail
emit-append zero c none longer tail t ih h = cc
emit-append zero c (some u) longer tail t ih h =
    rw (ih u refl) (prepend_assoc c u tail ∙ ap (λ v. prepend v tail) (some_inj h))
  where
    some_inj : {A : Type 0} {a b : A} → some a ≡ some b → a ≡ b
    some_inj p = cc
emit-append (suc more) c rest longer tail t ih h = ih t h

utf8_start : (lo hi acc : ℕ) (ys : List ℕ) → utf8 0 lo hi acc ys ≡ from_utf8 ys
unfolding from_utf8
utf8_start lo hi acc [] = refl
utf8_start lo hi acc (y ∷ ys) = refl

nil_eq : (t : List ℕ) → some [] ≡ some t → [] ≡ t
nil_eq t h = cc

utf8-append :
    (more lo hi acc : ℕ) (xs ys t : List ℕ)
    → utf8 more lo hi acc xs ≡ some t
    → utf8 more lo hi acc (xs ++ ys) ≡ prepend t (from_utf8 ys)
unfolding utf8
utf8-append zero lo hi acc [] ys t h =
    utf8_start lo hi acc ys
    ∙ sym (prepend_nil (from_utf8 ys))
    ∙ ap (λ u. prepend u (from_utf8 ys)) (nil_eq t h)
utf8-append (suc more) lo hi acc [] ys t h = cc
utf8-append zero lo hi acc (b ∷ xs) ys t h = elim (Option-cases (lead b)) [
  | inl e ↦ cc (rw (e, utf8) at h)
  | inr ((more, lo', hi', bits), e) ↦
      rw (e, utf8)
        (emit-append more bits (utf8 more lo' hi' bits xs) (utf8 more lo' hi' bits (xs ++ ys)) _ t
          (utf8-append more lo' hi' bits xs ys) (rw (e, utf8) at h))
]
utf8-append (suc more) lo hi acc (b ∷ xs) ys t h = elim (Bool-cases (leb lo b && leb b hi)) [
  | inl e ↦
      let c = acc * 64 + b % 64 in
      rw e (
        emit-append more c (utf8 more 0x80 0xbf c xs) (utf8 more 0x80 0xbf c (xs ++ ys)) _ t
          (utf8-append more 0x80 0xbf c xs ys) (rw (e, utf8) at h))
  | inr e ↦ cc (rw (e, utf8) at h)
]

-- A text in front decodes by itself.
pub from_utf8-append :
    (xs ys t : List ℕ) → from_utf8 xs ≡ some t → from_utf8 (xs ++ ys) ≡ prepend t (from_utf8 ys)
from_utf8-append xs ys t h = unfold from_utf8 in utf8-append 0 0 0 0 xs ys t h

-- A line feed decodes to itself.
pub from_utf8_newline :
    (ys t : List ℕ) → from_utf8 ys ≡ some t → from_utf8 (b'\n' ∷ ys) ≡ some (b'\n' ∷ t)
from_utf8_newline ys t h =
    from_utf8-append (b'\n' ∷ []) ys (b'\n' ∷ []) (unfold from_utf8 in refl)
    ∙ ap (prepend (b'\n' ∷ [])) h

lines_from-line :
    (line t rest : List ℕ)
    → All (λ c. c ≢ b'\n') t
    → lines_from line (t ++ b'\n' ∷ rest) ≡ strip_cr (line ++ t) ∷ lines rest
unfolding lines
lines_from-line line [] rest h = ground (arith, append-nil line)
lines_from-line line (c ∷ t) rest (p, h) =
    ground (arith, lines_from-line (line ++ c ∷ []) t rest h, append_assoc line (c ∷ []) t)

-- A line feed ends a line.
pub lines-line :
    (t rest : List ℕ) → All (λ c. c ≢ b'\n') t → lines (t ++ b'\n' ∷ rest) ≡ strip_cr t ∷ lines rest
unfolding lines
lines-line t rest h = lines_from-line [] t rest h

lines_from-last :
    (line t : List ℕ) → All (λ c. c ≢ b'\n') t → lines_from line t ≡ last_line (line ++ t)
unfolding lines
lines_from-last line [] h = rw append-nil
lines_from-last line (c ∷ t) (p, h) =
    ground (arith, lines_from-last (line ++ c ∷ []) t h, append_assoc line (c ∷ []) t)

-- A text without a line feed is one line, or none if it is empty.
pub lines-last : (t : List ℕ) → All (λ c. c ≢ b'\n') t → lines t ≡ last_line t
unfolding lines
lines-last t h = lines_from-last [] t h
