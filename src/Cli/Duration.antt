-- ===== src/Cli/Duration.antt =====
-- `parse_duration`. `chrono` is the parameter `Chrono`; spans of time are nanoseconds.
pub mod Laws
use triggerlane.Common.{ℕ, ◌*◌, Option, none, some, List, [], ◌∷◌, ◌==◌, nat_eq, ltb, if◌then◌else◌}
use triggerlane.Common.Int.{ℤ, pos, negsuc}
use triggerlane.Cli.Number.{Text, i64_max, parse_signed}

-- `TimeDelta::try_seconds`, and `to_std`, which has no value at a negative span.
pub record Chrono : Type 0 where
  pub try_seconds : ℕ → Option ℤ
  pub to_std : ℤ → Option ℕ

abbrev pub split_cons : ℕ → Option (Text × ℕ) → Option (Text × ℕ)
split_cons c none = some ([], c)
split_cons c (some (front, last)) = some (c ∷ front, last)

-- The last character, and what is before it.
unfoldable pub split_last : Text → Option (Text × ℕ)
split_last [] = none
split_last (c ∷ text) = split_cons c (split_last text)

abbrev pub unit_seconds : ℕ → Option ℕ
unit_seconds unit =
    if unit == b's'
    then some 1
    else if unit == b'm'
    then some 60
    else if unit == b'h'
    then some 3600
    else if unit == b'd'
    then some 86400
    else none

-- `checked_mul` on `i64`, of numbers that are not negative.
abbrev pub checked_mul : ℕ → ℕ → Option ℕ
checked_mul a b = if ltb i64_max (a * b) then none else some (a * b)

module _ (chrono : Chrono) where
  abbrev pub from_seconds : Option ℕ → Option ℤ
  from_seconds none = none
  from_seconds (some seconds) = chrono.try_seconds seconds

  abbrev pub with_unit : ℕ → Option ℕ → Option ℤ
  with_unit amount none = none
  with_unit amount (some scale) = from_seconds (checked_mul amount scale)

  abbrev pub amount_of : ℕ → Option ℤ → Option ℤ
  amount_of unit none = none
  amount_of unit (some (negsuc n)) = none
  amount_of unit (some (pos amount)) = with_unit amount (unit_seconds unit)

  abbrev pub parse_split : Option (Text × ℕ) → Option ℤ
  parse_split none = none
  parse_split (some (front, unit)) = amount_of unit (parse_signed front)

  unfoldable pub parse_duration : Text → Option ℤ
  unfolding split_last parse_signed
  parse_duration raw = parse_split (split_last raw)
