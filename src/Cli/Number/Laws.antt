-- ===== src/Cli/Number/Laws.antt =====
-- Which texts are numbers, and of what value.
use mathlib.Core.List.{foldl, cons-ne-nil}
use triggerlane.Common.{
  ℕ, zero, suc, ◌+◌, ◌-◌, ◌*◌, ◌≤◌, ◌≡◌, ◌≢◌, ◌↔◌, ◌⊎◌, inl, inr, refl, sym, ◌∙◌, ap, arith,
  Bool-cases, ◌==◌, nat_eq, ℕ_discrete, Option, none, some, false, [], ◌∷◌, All,
}
use triggerlane.Cli.Number.{
  Text, i64_max, digits_from, parse_digits, parse_unsigned, parse_signed, negated,
}
use triggerlane.Common.Int.{pos}

abbrev pub IsDigit : ℕ → Type 0
IsDigit c = (b'0' ≤ c) × (c ≤ b'9')

-- The number that digits spell behind `n`, with no bound.
abbrev pub value_from : ℕ → Text → ℕ
value_from = foldl (λ n c. n * 10 + (c - b'0'))

le-value_from : (n : ℕ) (text : Text) → n ≤ value_from n text
le-value_from n [] = omega arith
le-value_from n (c ∷ text) = omega (arith, le-value_from (n * 10 + (c - b'0')) text)

digits_from_sound :
    (limit n m : ℕ) (text : Text)
    → n ≤ limit
    → digits_from limit n text ≡ some m
    → All IsDigit text × (value_from n text ≡ m) × (m ≤ limit)
unfolding digits_from
digits_from_sound limit n m [] le h = ground arith
digits_from_sound limit n m (c ∷ text) le h =
    ground (arith, digits_from_sound limit (n * 10 + (c - b'0')) m text)

digits_from_complete :
    (limit n : ℕ) (text : Text)
    → All IsDigit text
    → value_from n text ≤ limit
    → digits_from limit n text ≡ some (value_from n text)
unfolding digits_from
digits_from_complete limit n [] h le = refl
digits_from_complete limit n (c ∷ text) (hc, h) le = ground (
  arith,
  digits_from_complete limit (n * 10 + (c - b'0')) text h le,
  le-value_from (n * 10 + (c - b'0')) text,
)

-- A text of digits, at least one, whose value is within the limit.
abbrev pub Spells : ℕ → Text → ℕ → Type 0
Spells limit text n = (text ≢ []) × All IsDigit text × (value_from 0 text ≡ n) × (n ≤ limit)

parse_digits_sound :
    (limit n : ℕ) (text : Text) → parse_digits limit text ≡ some n → Spells limit text n
unfolding parse_digits
parse_digits_sound limit n [] h = ground arith
parse_digits_sound limit n (c ∷ text) h =
    let (digits, same, le) = digits_from_sound limit 0 n (c ∷ text) (omega arith) h in
    (cons-ne-nil c text, digits, same, le)

parse_digits_complete :
    (limit n : ℕ) (text : Text) → Spells limit text n → parse_digits limit text ≡ some n
unfolding parse_digits
parse_digits_complete limit n [] (ne, digits, same, le) = absurd (ne refl)
parse_digits_complete limit n (c ∷ text) (ne, digits, same, le) =
    digits_from_complete limit 0 (c ∷ text) digits (omega (arith, same, le)) ∙ ap some same

pub parse_digits_iff :
    (limit n : ℕ) (text : Text) → (parse_digits limit text ≡ some n) ↔ Spells limit text n
parse_digits_iff limit n text =
    (parse_digits_sound limit n text, parse_digits_complete limit n text)

-- The digits of an unsigned number, with a plus sign in front or not.
abbrev pub Unsigned : ℕ → Text → ℕ → Type 0
Unsigned limit text n =
    Spells limit text n ⊎ ((rest : Text) × (text ≡ b'+' ∷ rest) × Spells limit rest n)

Unsigned-sound :
    (limit n : ℕ) (text : Text) → parse_unsigned limit text ≡ some n → Unsigned limit text n
unfolding parse_unsigned
Unsigned-sound limit n [] h = ground arith
Unsigned-sound limit n (c ∷ text) h = elim (Bool-cases (c == b'+')) [
  | inl e ↦
      (let plus : c ≡ b'+' = ground arith in
        inr (text, ap (λ x. x ∷ text) plus, parse_digits_sound limit n text (ground arith)))
  | inr e ↦ inl (parse_digits_sound limit n (c ∷ text) (ground arith))
]

Unsigned-complete :
    (limit n : ℕ) (text : Text) → Unsigned limit text n → parse_unsigned limit text ≡ some n
unfolding parse_unsigned ℕ_discrete
Unsigned-complete limit n [] (inl (ne, digits, same, le)) = absurd (ne refl)
Unsigned-complete limit n (c ∷ text) (inl (ne, digits, same, le)) =
    ground (arith, parse_digits_complete limit n (c ∷ text) (ne, digits, same, le), digits.0)
Unsigned-complete limit n text (inr (rest, e, spells)) =
    ap (parse_unsigned limit) e ∙ parse_digits_complete limit n rest spells

-- A text is read as an unsigned number exactly if it is one or more digits, with a plus sign in front
-- or not, that spell this number, and the number is at most the greatest value of the type.
pub parse_unsigned_iff :
    (limit n : ℕ) (text : Text) → (parse_unsigned limit text ≡ some n) ↔ Unsigned limit text n
parse_unsigned_iff limit n text = (Unsigned-sound limit n text, Unsigned-complete limit n text)

-- The texts of the numbers from 0 on that a signed type reads: also a zero with a minus sign.
abbrev pub Unnegative : Text → ℕ → Type 0
Unnegative text n =
    Unsigned i64_max text n
    ⊎ ((rest : Text) × (text ≡ b'-' ∷ rest) × Spells (i64_max + 1) rest 0 × (n ≡ 0))

negated_pos : (o : Option ℕ) (n : ℕ) → negated o ≡ some (pos n) → (o ≡ some 0) × (n ≡ 0)
negated_pos none n h = ground arith
negated_pos (some zero) n h = ground arith
negated_pos (some (suc m)) n h = ground arith

signed_sound : (n : ℕ) (text : Text) → parse_signed text ≡ some (pos n) → Unnegative text n
unfolding parse_signed
signed_sound n [] h = ground arith
signed_sound n (c ∷ text) h = elim (Bool-cases (c == b'-')) [
  | inl e ↦
      (let minus : c ≡ b'-' = ground arith in
        let (zero_, same) = negated_pos (parse_digits (i64_max + 1) text) n (ground arith) in
        inr (text, ap (λ x. x ∷ text) minus, parse_digits_sound (i64_max + 1) 0 text zero_, same))
  | inr e ↦ inl (Unsigned-sound i64_max n (c ∷ text) (ground arith))
]

no_minus : (n : ℕ) (c : ℕ) (text : Text) → Unsigned i64_max (c ∷ text) n → (c == b'-') ≡ false
no_minus n c text (inl (ne, digits, same, le)) = ground (arith, digits.0)
no_minus n c text (inr (rest, e, spells)) = ground arith

signed_complete : (n : ℕ) (text : Text) → Unnegative text n → parse_signed text ≡ some (pos n)
unfolding parse_signed ℕ_discrete
signed_complete n [] (inl (inl (ne, digits, same, le))) = absurd (ne refl)
signed_complete n [] (inl (inr (rest, e, spells))) = ground arith
signed_complete n (c ∷ text) (inl spells) =
    ground (arith, no_minus n c text spells, Unsigned-complete i64_max n (c ∷ text) spells)
signed_complete n text (inr (rest, e, spells, same)) =
    ap parse_signed e
    ∙ ap negated (parse_digits_complete (i64_max + 1) 0 rest spells)
    ∙ ap (λ m. some (pos m)) (sym same)

pub parse_signed_iff :
    (n : ℕ) (text : Text) → (parse_signed text ≡ some (pos n)) ↔ Unnegative text n
parse_signed_iff n text = (signed_sound n text, signed_complete n text)
