-- ===== src/Jsonl/Serde.antt =====
-- What the durable stores use of `serde_json` for one type of records, and the documented behaviour
-- that the theorems rely on.
use triggerlane.Common.{
  ℕ, ◌<◌, ◌≡◌, ◌≢◌, false, Option, none, some, List, [], ◌∷◌, ◌++◌, All, length, take,
}
use triggerlane.Jsonl.Text.{from_utf8, strip_cr, is_blank}

pub record Serde (T : Type 0) : Type 0 where
  pub to_vec : T → Option (List ℕ)
  pub from_str : List ℕ → Option T

-- Every record has a JSON text, which reads back as the record. The text is in UTF-8, is not blank,
-- holds no raw line feed and does not end in a carriage return: `serde_json` escapes control
-- characters, and its compact form has no white space outside of strings.
pub record IsSerde {T : Type 0} (serde : Serde T) : Type 0 where
  pub encoded : T → List ℕ
  pub text : T → List ℕ
  pub to_vec-encoded : (r : T) → serde.to_vec r ≡ some (encoded r)
  pub from_utf8-encoded : (r : T) → from_utf8 (encoded r) ≡ some (text r)
  pub from_str-text : (r : T) → serde.from_str (text r) ≡ some r
  pub one_line : (r : T) → All (λ c. c ≢ b'\n') (text r)
  pub no_cr : (r : T) → strip_cr (text r) ≡ text r
  pub not_blank : (r : T) → is_blank (text r) ≡ false

-- A part of a record's JSON is no JSON: so it is for an object or a string. The JSON may hold characters
-- of several bytes, so that a part need not be UTF-8. If it is, it has no line feeds either.
pub record IsTearable {T : Type 0} (serde : Serde T) (laws : IsSerde serde) : Type 0 where
  pub part_one_line :
      (r : T) (k : ℕ) (part : List ℕ)
      → from_utf8 (take k (laws.encoded r)) ≡ some part
      → All (λ c. c ≢ b'\n') part
  pub part_ends : (r : T) (k : ℕ) → All (λ b. b ≢ b'\n') (take k (laws.encoded r))
  pub from_str-part :
      (r : T) (k : ℕ) (part : List ℕ)
      → k < length (laws.encoded r)
      → from_utf8 (take k (laws.encoded r)) ≡ some part
      → serde.from_str part ≡ none

-- The bytes of a file that holds the records.
module _ {T : Type 0} (serde : Serde T) (laws : IsSerde serde) where
  unfoldable pub render : List T → List ℕ
  render [] = []
  render (r ∷ records) = laws.encoded r ++ b'\n' ∷ render records

  unfoldable pub render_text : List T → List ℕ
  render_text [] = []
  render_text (r ∷ records) = laws.text r ++ b'\n' ∷ render_text records
