-- ===== src/Cli/Number.antt =====
-- What the command line uses of the standard library to read numbers: `parse::<uN>`, `parse::<i64>`
-- and `trim`. A text is the list of its code points.
pub mod Laws
use Prim.Native.Char.{code}
use Prim.Native.String
use triggerlane.Common.{
  ℕ, zero, suc, ◌+◌, ◌-◌, ◌*◌, ◌^◌, String, Bool, ◌&&◌, ◌==◌, nat_eq, Option, none, some, List, [],
  ◌∷◌, ltb, leb, if◌then◌else◌,
}
use triggerlane.Common.Int.{ℤ, pos, negsuc}
use triggerlane.Jsonl.Text.{is_whitespace}
use mathlib.Core.List.{reverse}

abbrev pub Text : Type 0
Text = List ℕ

abbrev pub codes : String → Text
codes String.[] = []
codes (String.◌∷◌ c s) = code c ∷ codes s

-- `MAX` of `u32`, `u64` and `i64`.
abbrev pub u32_max : ℕ
u32_max = 2 ^ 32 - 1

abbrev pub u64_max : ℕ
u64_max = 2 ^ 64 - 1

abbrev pub i64_max : ℕ
i64_max = 2 ^ 63 - 1

abbrev pub is_digit : ℕ → Bool
is_digit c = leb b'0' c && leb c b'9'

-- The digits behind `n`, while the number stays within the limit.
unfoldable pub digits_from : ℕ → ℕ → Text → Option ℕ
digits_from limit n [] = some n
digits_from limit n (c ∷ text) =
    let m = n * 10 + (c - b'0') in
    let rest = digits_from limit m text in
    if is_digit c then if ltb limit m then none else rest else none

-- At least one digit.
unfoldable pub parse_digits : ℕ → Text → Option ℕ
unfolding digits_from
parse_digits limit [] = none
parse_digits limit (c ∷ text) = digits_from limit 0 (c ∷ text)

-- `parse` to an unsigned type with this greatest value.
unfoldable pub parse_unsigned : ℕ → Text → Option ℕ
unfolding parse_digits
parse_unsigned limit [] = none
parse_unsigned limit (c ∷ text) =
    if c == b'+' then parse_digits limit text else parse_digits limit (c ∷ text)

-- The negative of a number.
abbrev pub negated : Option ℕ → Option ℤ
negated none = none
negated (some zero) = some (pos 0)
negated (some (suc n)) = some (negsuc n)

abbrev pub positive : Option ℕ → Option ℤ
positive none = none
positive (some n) = some (pos n)

-- `parse::<i64>`, whose least value is one further from 0 than its greatest.
unfoldable pub parse_signed : Text → Option ℤ
unfolding parse_digits parse_unsigned
parse_signed [] = none
parse_signed (c ∷ text) =
    if c == b'-'
    then negated (parse_digits (i64_max + 1) text)
    else positive (parse_unsigned i64_max (c ∷ text))

-- `trim_start`
unfoldable pub trim_start : Text → Text
unfolding is_whitespace
trim_start [] = []
trim_start (c ∷ text) = let rest = trim_start text in if is_whitespace c then rest else c ∷ text

unfoldable pub trim : Text → Text
unfolding trim_start
trim text = reverse (trim_start (reverse (trim_start text)))
