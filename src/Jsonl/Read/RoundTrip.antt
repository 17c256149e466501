-- ===== src/Jsonl/Read/RoundTrip.antt =====
-- Reading back what a store has written, whole or cut short by a crash.
use triggerlane.Common.{
  ℕ, ◌+◌, ◌<◌, ◌≡◌, ◌≢◌, refl, ap, sym, ◌∙◌, false, Bool, none, some, List, [], ◌∷◌, ◌++◌, arith,
  append_assoc, append-nil, All, ok, err, length, take, Bool-cases, inl, inr, ◌==◌, nat_eq,
}
use mathlib.Core.Path.{subst, subst₂}
use triggerlane.Jsonl.Text.{from_utf8, prepend, lines, last_line, is_blank}
use triggerlane.Jsonl.Text.Laws.{from_utf8-append, from_utf8_newline, lines-line, lines-last}
use triggerlane.Jsonl.Serde.{Serde, IsSerde, IsTearable, render, render_text}
use triggerlane.Jsonl.Read.{ends_with_newline, number_lines, parse_lines, read_bytes, invalid_utf8}

-- A text without line feeds has no effect on the lines before it.
module _ {T : Type 0} (serde : Serde T) (laws : IsSerde serde) where
  pub from_utf8-render :
      (records : List T) (rest t : List ℕ)
      → from_utf8 rest ≡ some t
      → from_utf8 (render serde laws records ++ rest) ≡ some (render_text serde laws records ++ t)
  unfolding render render_text
  from_utf8-render [] rest t h = h
  from_utf8-render (r ∷ records) rest t h =
      ap from_utf8 (append_assoc (laws.encoded r) (b'\n' ∷ render serde laws records) rest)
      ∙ from_utf8-append (laws.encoded r) _ (laws.text r) (laws.from_utf8-encoded r)
      ∙ ap (prepend (laws.text r)) (from_utf8_newline _ _ (from_utf8-render records rest t h))
      ∙ ap some (sym (append_assoc (laws.text r) (b'\n' ∷ render_text serde laws records) t))

  pub lines-render :
      (r : T) (records : List T) (rest : List ℕ)
      → lines (render_text serde laws (r ∷ records) ++ rest)
        ≡ laws.text r ∷ lines (render_text serde laws records ++ rest)
  unfolding render_text
  lines-render r records rest =
      ap lines (append_assoc (laws.text r) (b'\n' ∷ render_text serde laws records) rest)
      ∙ lines-line (laws.text r) (render_text serde laws records ++ rest) (laws.one_line r)
      ∙ ap (λ line. line ∷ lines (render_text serde laws records ++ rest)) (laws.no_cr r)

  pub number_lines-cons :
      (index : ℕ) (r : T) (others : List (List ℕ))
      → number_lines index (laws.text r ∷ others)
        ≡ (index, laws.text r) ∷ number_lines (index + 1) others
  unfolding number_lines
  number_lines-cons index r others = rw (laws.not_blank r)

  pub parse_lines-cons :
      (newline : Bool) (index : ℕ) (r : T) (others : List (ℕ × List ℕ)) (records : List T)
      → parse_lines serde.from_str newline others ≡ ok records
      → parse_lines serde.from_str newline ((index, laws.text r) ∷ others) ≡ ok (r ∷ records)
  unfolding parse_lines
  parse_lines-cons newline index r others records h = rw (laws.from_str-text r, parse_lines, h)

  -- The lines of the records give the records, and the rest of the text what it gives.
  parse_lines-render :
      (newline : Bool) (index : ℕ) (records : List T) (rest : List ℕ) (others : List T)
      → ((i : ℕ) → parse_lines serde.from_str newline (number_lines i (lines rest)) ≡ ok others)
      → parse_lines serde.from_str newline
          (number_lines index (lines (render_text serde laws records ++ rest)))
        ≡ ok (records ++ others)
  parse_lines-render newline index [] rest others h = unfold render_text in h index
  parse_lines-render newline index (r ∷ records) rest others h =
      rw (lines-render r records rest, number_lines-cons index r)
        (parse_lines-cons newline index r _ (records ++ others)
          (parse_lines-render newline (index + 1) records rest others h))

  pub ends_with_newline-append :
      (xs : List ℕ) (b : ℕ) → ends_with_newline (xs ++ b ∷ []) ≡ (b == b'\n')
  unfolding ends_with_newline
  ends_with_newline-append [] b = refl
  ends_with_newline-append (x ∷ []) b = refl
  ends_with_newline-append (x ∷ y ∷ xs) b = ends_with_newline-append (y ∷ xs) b

  -- What follows the records decides about the end of the file: here a text that decodes.
  pub read_bytes-render :
      (records others : List T) (rest t : List ℕ)
      → from_utf8 rest ≡ some t
      → ((i : ℕ)
          → parse_lines serde.from_str
              (ends_with_newline (render serde laws records ++ rest))
              (number_lines i (lines t))
            ≡ ok others)
      → read_bytes serde.from_str (render serde laws records ++ rest) ≡ ok (records ++ others)
  unfolding read_bytes
  read_bytes-render records others rest t d h =
      rw (from_utf8-render records rest t d) (parse_lines-render _ 0 records t others h)

  -- A file of whole lines reads back as the records that were written, in order.
  pub read_bytes_whole :
      (records : List T) → read_bytes serde.from_str (render serde laws records) ≡ ok records
  read_bytes_whole records =
      subst₂ (λ bytes rs. read_bytes serde.from_str bytes ≡ ok rs) (append-nil _) (append-nil _)
        (read_bytes-render records [] [] [] (unfold from_utf8 in refl)
          (λ i. unfold parse_lines number_lines lines in refl))

  ends_with_newline_last :
      (xs : List ℕ) (y : ℕ) (ys : List ℕ)
      → All (λ b. b ≢ b'\n') (y ∷ ys)
      → ends_with_newline (xs ++ y ∷ ys) ≡ false
  unfolding ends_with_newline
  ends_with_newline_last [] y [] (p, h) = ground arith
  ends_with_newline_last [] y (z ∷ ys) (p, h) = ends_with_newline_last [] z ys h
  ends_with_newline_last (x ∷ []) y ys h = ends_with_newline_last [] y ys h
  ends_with_newline_last (x ∷ w ∷ xs) y ys h = ends_with_newline_last (w ∷ xs) y ys h

  -- One last line without a line feed that is no JSON is passed over.
  parse_lines_torn :
      (index : ℕ) (t : List ℕ)
      → serde.from_str t ≡ none
      → parse_lines serde.from_str false (number_lines index (last_line t)) ≡ ok []
  unfolding parse_lines number_lines
  parse_lines_torn index [] h = refl
  parse_lines_torn index (c ∷ t) h = elim (Bool-cases (is_blank (c ∷ t))) [
    | inl blank ↦ rw blank
    | inr there ↦ rw (there, h, parse_lines)
  ]

  -- The same behind whole records, where the last line has at least one byte.
  read_bytes_cut :
      (records : List T) (bytes t : List ℕ)
      → from_utf8 bytes ≡ some t
      → All (λ b. b ≢ b'\n') bytes
      → All (λ c. c ≢ b'\n') t
      → serde.from_str t ≡ none
      → read_bytes serde.from_str (render serde laws records ++ bytes) ≡ ok records
  read_bytes_cut records [] t d hb ht h = rw append-nil (read_bytes_whole records)
  read_bytes_cut records (b ∷ bytes) t d hb ht h =
      subst (λ rs. read_bytes serde.from_str (render serde laws records ++ b ∷ bytes) ≡ ok rs)
        (append-nil records)
        (read_bytes-render records [] (b ∷ bytes) t d (λ i.
          rw (ends_with_newline_last (render serde laws records) b bytes hb, lines-last t ht)
            (parse_lines_torn i t h)))

  -- A file whose last line is a record that was cut between two characters reads back as the whole
  -- records before it.
  pub read_bytes_torn :
      IsTearable serde laws
      → (records : List T) (r : T) (k : ℕ) (part : List ℕ) → k < length (laws.encoded r)
      → from_utf8 (take k (laws.encoded r)) ≡ some part
      → read_bytes serde.from_str (render serde laws records ++ take k (laws.encoded r))
        ≡ ok records
  read_bytes_torn tearable records r k part h d =
      read_bytes_cut records (take k (laws.encoded r)) part d (tearable.part_ends r k)
        (tearable.part_one_line r k part d) (tearable.from_str-part r k part h d)

  from_utf8-render-none :
      (records : List T) (rest : List ℕ)
      → from_utf8 rest ≡ none
      → from_utf8 (render serde laws records ++ rest) ≡ none
  unfolding render
  from_utf8-render-none [] rest h = h
  from_utf8-render-none (r ∷ records) rest h =
      ap from_utf8 (append_assoc (laws.encoded r) (b'\n' ∷ render serde laws records) rest)
      ∙ from_utf8-append (laws.encoded r) _ (laws.text r) (laws.from_utf8-encoded r)
      ∙ ap (prepend (laws.text r)) (
          from_utf8-append (b'\n' ∷ []) (render serde laws records ++ rest) (b'\n' ∷ [])
            (unfold from_utf8 in refl)
          ∙ ap (prepend (b'\n' ∷ [])) (from_utf8-render-none records rest h))

  -- A file whose last line is a record that was cut inside a character cannot be read.
  pub read_bytes_undecoded :
      (records : List T) (rest : List ℕ)
      → from_utf8 rest ≡ none
      → read_bytes serde.from_str (render serde laws records ++ rest) ≡ err invalid_utf8
  unfolding read_bytes
  read_bytes_undecoded records rest h = rw (from_utf8-render-none records rest h) refl

  last_line_of : (r : T) → last_line (laws.text r) ≡ laws.text r ∷ []
  unfolding is_blank
  last_line_of r = elim_line (laws.text r) (laws.not_blank r)
    where
      elim_line : (t : List ℕ) → is_blank t ≡ false → last_line t ≡ t ∷ []
      elim_line [] h = cc
      elim_line (c ∷ t) h = refl

  -- A last record whose line feed is missing is read.
  pub read_bytes_unended :
      (records : List T) (r : T)
      → read_bytes serde.from_str (render serde laws records ++ laws.encoded r)
        ≡ ok (records ++ r ∷ [])
  read_bytes_unended records r =
      read_bytes-render records (r ∷ []) (laws.encoded r) (laws.text r) (laws.from_utf8-encoded r)
        (λ i.
          rw (lines-last (laws.text r) (laws.one_line r), last_line_of r, number_lines-cons i r [])
            (parse_lines-cons _ i r (number_lines (i + 1) []) []
              (unfold number_lines parse_lines in refl)))

  pub render-append :
      (xs ys : List T) → render serde laws (xs ++ ys) ≡ render serde laws xs ++ render serde laws ys
  unfolding render
  render-append [] ys = refl
  render-append (x ∷ xs) ys =
      ap (λ bytes. laws.encoded x ++ b'\n' ∷ bytes) (render-append xs ys)
      ∙ sym (append_assoc (laws.encoded x) (b'\n' ∷ render serde laws xs) (render serde laws ys))
