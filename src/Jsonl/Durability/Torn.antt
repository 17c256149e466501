-- ===== src/Jsonl/Durability/Torn.antt =====
-- A torn last line stays in the file when the store is opened, and the next append goes behind it.
use triggerlane.Common.{
  ℕ, suc, ◌+◌, ◌<◌, ◌≡◌, refl, ap, sym, ◌∙◌, Bool, true, false, none, some, List, [], ◌∷◌, ◌++◌,
  length, take, ok, err, arith, append_assoc, ◌≢◌, All, ◌==◌, nat_eq,
}
use triggerlane.Jsonl.Text.{from_utf8, prepend, strip_cr, is_blank, lines}
use triggerlane.Jsonl.Text.Laws.{from_utf8-append, from_utf8_newline, lines-line}
use triggerlane.Jsonl.Serde.{Serde, IsSerde, IsTearable, render, render_text}
use triggerlane.Jsonl.Read.{
  invalid_json, read_bytes, parse_lines, parse_text, number_lines, ends_with_newline,
}
use triggerlane.Jsonl.Read.RoundTrip.{
  read_bytes_torn, from_utf8-render, lines-render, number_lines-cons, ends_with_newline-append,
}
use triggerlane.Jsonl.Disk.{Disk}
use triggerlane.Jsonl.Store.{JsonlStore, append, open_store}

newline_eq : ◌==◌ {A = ℕ} b'\n' b'\n' ≡ true
newline_eq = ground arith

is_blank-append : (xs ys : List ℕ) → is_blank ys ≡ false → is_blank (xs ++ ys) ≡ false
unfolding is_blank
is_blank-append [] ys h = h
is_blank-append (x ∷ xs) ys h = ground (arith, is_blank-append xs ys h)

strip_cr-append : (xs ys : List ℕ) → ys ≢ [] → strip_cr (xs ++ ys) ≡ xs ++ strip_cr ys
unfolding strip_cr
strip_cr-append [] ys h = refl
strip_cr-append (x ∷ []) [] h = absurd (h refl)
strip_cr-append (x ∷ []) (y ∷ ys) h = refl
strip_cr-append (x ∷ w ∷ xs) ys h = ap (◌∷◌ x) (strip_cr-append (w ∷ xs) ys h)

All-append :
    (xs ys : List ℕ)
    → All (λ c. c ≢ b'\n') xs
    → All (λ c. c ≢ b'\n') ys
    → All (λ c. c ≢ b'\n') (xs ++ ys)
All-append [] ys p q = q
All-append (x ∷ xs) ys (h, p) q = (h, All-append xs ys p q)

module _ {T : Type 0} (serde : Serde T) (laws : IsSerde serde) where
  text_ne_nil : (r : T) → laws.text r ≢ []
  unfolding is_blank
  text_ne_nil r e = cc (laws.not_blank r, ap is_blank e)

  parse_lines-cons_err :
      (newline : Bool) (index : ℕ) (r : T) (others : List (ℕ × List ℕ)) (number : ℕ)
      → parse_lines serde.from_str newline others ≡ err (invalid_json number)
      → parse_lines serde.from_str newline ((index, laws.text r) ∷ others)
        ≡ err (invalid_json number)
  unfolding parse_lines
  parse_lines-cons_err newline index r others number h = rw (laws.from_str-text r, parse_lines, h)

  render_text_nil : (rest : List ℕ) → render_text serde laws [] ++ rest ≡ rest
  unfolding render_text
  render_text_nil rest = refl

  parse_lines-err :
      (newline : Bool) (index : ℕ) (records : List T) (rest : List ℕ)
      → ((i : ℕ)
          → parse_lines serde.from_str newline (number_lines i (lines rest))
            ≡ err (invalid_json (i + 1)))
      → parse_lines serde.from_str newline
          (number_lines index (lines (render_text serde laws records ++ rest)))
        ≡ err (invalid_json (index + length records + 1))
  parse_lines-err newline index [] rest h =
      rw (render_text_nil rest, h index) (ap (λ n. err (invalid_json n)) (omega arith))
  parse_lines-err newline index (r ∷ records) rest h =
      rw (lines-render serde laws r records rest, number_lines-cons serde laws index r)
        (parse_lines-cons_err newline index r _ (index + suc (length records) + 1) (
          parse_lines-err newline (index + 1) records rest h
          ∙ ap (λ n. err (invalid_json n)) (omega arith)))

  bad_line :
      (newline : Bool) (index : ℕ) (line : List ℕ)
      → is_blank line ≡ false
      → serde.from_str line ≡ none
      → newline ≡ true
      → parse_lines serde.from_str newline (number_lines index (line ∷ []))
        ≡ err (invalid_json (index + 1))
  unfolding parse_lines number_lines
  bad_line newline index line b h e = rw (b, h, parse_lines) (rw e)

  decode_glued :
      (r next : T) (k : ℕ) (part : List ℕ)
      → from_utf8 (take k (laws.encoded r)) ≡ some part
      → from_utf8 (take k (laws.encoded r) ++ (laws.encoded next ++ b'\n' ∷ []))
        ≡ some ((part ++ laws.text next) ++ b'\n' ∷ [])
  decode_glued r next k part d =
      from_utf8-append (take k (laws.encoded r)) _ part d
      ∙ ap (prepend part) (
          from_utf8-append (laws.encoded next) (b'\n' ∷ []) (laws.text next)
            (laws.from_utf8-encoded next)
          ∙ ap (prepend (laws.text next)) (from_utf8_newline [] [] (unfold from_utf8 in refl)))
      ∙ ap some (sym (append_assoc part (laws.text next) (b'\n' ∷ [])))

  lines_glued :
      (next : T) (part : List ℕ)
      → All (λ c. c ≢ b'\n') part
      → lines ((part ++ laws.text next) ++ b'\n' ∷ []) ≡ (part ++ laws.text next) ∷ []
  unfolding lines
  lines_glued next part one_line =
      lines-line (part ++ laws.text next) []
        (All-append part (laws.text next) one_line (laws.one_line next))
      ∙ ap (λ line. line ∷ [])
          (strip_cr-append part (laws.text next) (text_ne_nil next)
            ∙ ap (◌++◌ part) (laws.no_cr next))

  -- Whole records, then a part of a record and a whole record with no line feed between them: if
  -- part and record together are no JSON, the file cannot be read.
  read_bytes_glued :
      (tearable : IsTearable serde laws)
      → (records : List T) (r next : T) (k : ℕ) (part : List ℕ)
      → from_utf8 (take k (laws.encoded r)) ≡ some part
      → serde.from_str (part ++ laws.text next) ≡ none
      → read_bytes serde.from_str (
          (render serde laws records ++ take k (laws.encoded r))
          ++ (laws.encoded next ++ b'\n' ∷ []))
        ≡ err (invalid_json (length records + 1))
  unfolding read_bytes
  read_bytes_glued tearable records r next k part d h =
      let rest = take k (laws.encoded r) ++ (laws.encoded next ++ b'\n' ∷ []) in
      let glued = part ++ laws.text next in
      let bytes =
        (render serde laws records ++ take k (laws.encoded r))
        ++ (laws.encoded next ++ b'\n' ∷ []) in
      let decoded : from_utf8 bytes
          ≡ some (render_text serde laws records ++ (glued ++ b'\n' ∷ [])) =
        ap from_utf8 (append_assoc (render serde laws records) (take k (laws.encoded r)) _)
        ∙ from_utf8-render serde laws records rest (glued ++ b'\n' ∷ [])
            (decode_glued r next k part d) in
      rw (decoded, parse_text)
        (parse_lines-err (ends_with_newline bytes) 0 records (glued ++ b'\n' ∷ []) (λ i.
            rw (lines_glued next part (tearable.part_one_line r k part d)) (
              bad_line (ends_with_newline bytes) i glued
                (is_blank-append part (laws.text next) (laws.not_blank next)) h
                (ap ends_with_newline (
                    sym (
                      append_assoc (render serde laws records ++ take k (laws.encoded r))
                        (laws.encoded next) (b'\n' ∷ [])))
                  ∙ ends_with_newline-append serde laws
                      ((render serde laws records ++ take k (laws.encoded r)) ++ laws.encoded next)
                      b'\n'
                  ∙ newline_eq)))
          ∙ ap (λ n. err (invalid_json n)) (omega arith))

  -- After a crash that tore a record between two characters, the store opens with the whole records. But the torn part is
  -- still in the file: the next append reports success, and if what it wrote gives no JSON behind
  -- the torn part, then the file, the acknowledged record included, can no longer be opened.
  pub append_after_torn :
      (tearable : IsTearable serde laws)
      → (d : Disk) (records : List T) (r next : T) (k : ℕ) (part : List ℕ)
      → from_utf8 (take k (laws.encoded r)) ≡ some part
      → d.present ≡ true
      → d.outcomes ≡ []
      → d.current ≡ render serde laws records ++ take k (laws.encoded r)
      → k < length (laws.encoded r)
      → serde.from_str (part ++ laws.text next) ≡ none
      → (s : JsonlStore T) × ((open_store serde d).0 ≡ ok s)
        × (s.records ≡ records)
        × ((append serde next s).0 ≡ ok tt)
        × (read_bytes serde.from_str (append serde next s).1.disk.current
            ≡ err (invalid_json (length records + 1)))
  unfolding open_store append
  append_after_torn tearable d records r next k part decoded p o c lt h =
      let opened : read_bytes serde.from_str d.current ≡ ok records =
        rw c (read_bytes_torn serde laws tearable records r k part lt decoded) in
      let s : JsonlStore T = record {
        records = records;
        disk = record d { present = true; attached = true; outcomes = [] };
      } in
      (
        s,
        ground arith,
        refl,
        ground (arith, laws.to_vec-encoded next),
        rw (laws.to_vec-encoded next, c)
            (read_bytes_glued tearable records r next k part decoded h),
      )
