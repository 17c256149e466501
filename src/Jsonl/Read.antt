-- ===== src/Jsonl/Read.antt =====
-- `read_jsonl`, on the bytes of a file that is there.
pub mod RoundTrip
use triggerlane.Common.{
  ℕ, suc, ◌+◌, Bool, true, false, not, ◌&&◌, Option, none, some, List, [], ◌∷◌, Result, ok, err,
  ◌==◌, nat_eq, if◌then◌else◌,
}
use triggerlane.Jsonl.Text.{from_utf8, lines, is_blank}

-- Errors of the durable stores, by the call that failed.
pub data IoError : Type 0 where
  serialize : IoError
  read : IoError
  open_append : IoError
  locked : IoError
  create : IoError
  write : IoError
  sync : IoError
  truncate : IoError
  rename : IoError
  sync_dir : IoError
  invalid_utf8 : IoError
  invalid_json : ℕ → IoError

-- `bytes.last() == Some(&b'\n')`
unfoldable pub ends_with_newline : List ℕ → Bool
ends_with_newline [] = false
ends_with_newline (b ∷ []) = b == b'\n'
ends_with_newline (b ∷ c ∷ bytes) = ends_with_newline (c ∷ bytes)

-- `lines().enumerate()` without the blank lines.
unfoldable pub number_lines : ℕ → List (List ℕ) → List (ℕ × List ℕ)
number_lines index [] = []
number_lines index (line ∷ rest) =
    let numbered = number_lines (index + 1) rest in
    if not (is_blank line) then (index, line) ∷ numbered else numbered

abbrev pub is_empty {ℓ} : {A : Type ℓ} → List A → Bool
is_empty [] = true
is_empty (x ∷ xs) = false

abbrev pub cons_ok {ℓ} : {T : Type ℓ} → T → Result (List T) IoError → Result (List T) IoError
cons_ok record_ (ok records) = ok (record_ ∷ records)
cons_ok record_ (err error) = err error

module _ {T : Type 0} (from_str : List ℕ → Option T) where
  -- The loop over the numbered lines. A line is the last if none follows.
  unfoldable pub parse_lines : Bool → List (ℕ × List ℕ) → Result (List T) IoError
  parse_lines newline [] = ok []
  parse_lines newline ((index, line) ∷ rest) =
      let others = parse_lines newline rest in
      elim (from_str line) [
        | some record_ ↦ cons_ok record_ others
        | none ↦ if is_empty rest && not newline then ok [] else err (invalid_json (index + 1))
      ]

  unfoldable pub parse_text : Bool → Option (List ℕ) → Result (List T) IoError
  unfolding parse_lines number_lines is_blank lines
  parse_text newline none = err invalid_utf8
  parse_text newline (some text) = parse_lines newline (number_lines 0 (lines text))

  -- `read_jsonl` behind `std::fs::read`.
  unfoldable pub read_bytes : List ℕ → Result (List T) IoError
  unfolding parse_text from_utf8 ends_with_newline
  read_bytes bytes = parse_text (ends_with_newline bytes) (from_utf8 bytes)
