-- ===== src/Tests/Records.antt =====
-- A concrete type of records, the JSON booleans, with the laws of its encoding.
use triggerlane.Common.{
  ℕ, zero, suc, ◌<◌, ◌≡◌, ◌≢◌, refl, Bool, true, false, ◌&&◌, ◌==◌, nat_eq, ℕ_discrete, Option,
  none, some, List, [], ◌∷◌, All, length, take, if◌then◌else◌, arith,
}
use triggerlane.Jsonl.Text
use triggerlane.Jsonl.Text.{from_utf8, strip_cr, is_blank}
use triggerlane.Jsonl.Serde.{Serde, IsSerde, IsTearable}

abbrev pub word : Bool → List ℕ
word true = 116 ∷ 114 ∷ 117 ∷ 101 ∷ []
word false = 102 ∷ 97 ∷ 108 ∷ 115 ∷ 101 ∷ []

abbrev pub same : List ℕ → List ℕ → Bool
same [] [] = true
same [] (y ∷ ys) = false
same (x ∷ xs) [] = false
same (x ∷ xs) (y ∷ ys) = x == y && same xs ys

abbrev pub from_word : List ℕ → Option Bool
from_word t =
    if same t (word true) then some true else if same t (word false) then some false else none

abbrev pub bools : Serde Bool
bools = record { to_vec = λ b. some (word b); from_str = from_word }

pub word_utf8 : (b : Bool) → from_utf8 (word b) ≡ some (word b)
unfolding Text.utf8 Text.lead from_utf8 strip_cr is_blank Text.is_whitespace ℕ_discrete
word_utf8 true = refl
word_utf8 false = refl

pub word_text : (b : Bool) → from_word (word b) ≡ some b
unfolding ℕ_discrete
word_text true = refl
word_text false = refl

pub word_one_line : (b : Bool) → All (λ c. c ≢ b'\n') (word b)
word_one_line true = ground arith
word_one_line false = ground arith

pub word_no_cr : (b : Bool) → strip_cr (word b) ≡ word b
unfolding Text.utf8 Text.lead from_utf8 strip_cr is_blank Text.is_whitespace ℕ_discrete
word_no_cr true = refl
word_no_cr false = refl

pub word_not_blank : (b : Bool) → is_blank (word b) ≡ false
unfolding Text.utf8 Text.lead from_utf8 strip_cr is_blank Text.is_whitespace ℕ_discrete
word_not_blank true = refl
word_not_blank false = refl

abbrev pub bools_laws : IsSerde bools
bools_laws = record {
  encoded = word;
  text = word;
  to_vec-encoded = λ r. refl;
  from_utf8-encoded = word_utf8;
  from_str-text = word_text;
  one_line = word_one_line;
  no_cr = word_no_cr;
  not_blank = word_not_blank;
}

pub cut_utf8 : (b : Bool) (k : ℕ) → from_utf8 (take k (word b)) ≡ some (take k (word b))
unfolding Text.utf8 Text.lead from_utf8 strip_cr is_blank Text.is_whitespace ℕ_discrete
cut_utf8 true zero = refl
cut_utf8 true (suc zero) = refl
cut_utf8 true (suc (suc zero)) = refl
cut_utf8 true (suc (suc (suc zero))) = refl
cut_utf8 true (suc (suc (suc (suc zero)))) = refl
cut_utf8 true (suc (suc (suc (suc (suc k))))) = refl
cut_utf8 false zero = refl
cut_utf8 false (suc zero) = refl
cut_utf8 false (suc (suc zero)) = refl
cut_utf8 false (suc (suc (suc zero))) = refl
cut_utf8 false (suc (suc (suc (suc zero)))) = refl
cut_utf8 false (suc (suc (suc (suc (suc zero))))) = refl
cut_utf8 false (suc (suc (suc (suc (suc (suc k)))))) = refl

pub cut_one_line : (b : Bool) (k : ℕ) → All (λ c. c ≢ b'\n') (take k (word b))
cut_one_line true zero = ground arith
cut_one_line true (suc zero) = ground arith
cut_one_line true (suc (suc zero)) = ground arith
cut_one_line true (suc (suc (suc zero))) = ground arith
cut_one_line true (suc (suc (suc (suc zero)))) = ground arith
cut_one_line true (suc (suc (suc (suc (suc k))))) = ground arith
cut_one_line false zero = ground arith
cut_one_line false (suc zero) = ground arith
cut_one_line false (suc (suc zero)) = ground arith
cut_one_line false (suc (suc (suc zero))) = ground arith
cut_one_line false (suc (suc (suc (suc zero)))) = ground arith
cut_one_line false (suc (suc (suc (suc (suc zero))))) = ground arith
cut_one_line false (suc (suc (suc (suc (suc (suc k)))))) = ground arith

pub cut_no_word : (b : Bool) (k : ℕ) → k < length (word b) → from_word (take k (word b)) ≡ none
unfolding ℕ_discrete
cut_no_word true zero h = refl
cut_no_word true (suc zero) h = refl
cut_no_word true (suc (suc zero)) h = refl
cut_no_word true (suc (suc (suc zero))) h = refl
cut_no_word true (suc (suc (suc (suc k)))) h = ground arith
cut_no_word false zero h = refl
cut_no_word false (suc zero) h = refl
cut_no_word false (suc (suc zero)) h = refl
cut_no_word false (suc (suc (suc zero))) h = refl
cut_no_word false (suc (suc (suc (suc zero)))) h = refl
cut_no_word false (suc (suc (suc (suc (suc k))))) h = ground arith

pub part_lem :
    (b : Bool) (k : ℕ) (part : List ℕ)
    → from_utf8 (take k (word b)) ≡ some part
    → take k (word b) ≡ part
part_lem b k part h = cc (cut_utf8 b k)

abbrev pub bools_tearable : IsTearable bools bools_laws
bools_tearable = record {
  part_one_line = λ r k part h. rw (part_lem r k part h) at (cut_one_line r k);
  part_ends = cut_one_line;
  from_str-part = λ r k part lt h. rw (part_lem r k part h) at (cut_no_word r k lt);
}
