-- ===== src/Cli/Duration/Laws.antt =====
-- Which texts are durations, and how long they are.
use triggerlane.Common.{
  ℕ, ◌*◌, ◌≤◌, ltb, ◌≡◌, ◌↔◌, refl, ◌∙◌, ap, arith, Option, none, some, [], ◌∷◌, ◌++◌, false,
}
use triggerlane.Common.Int.{ℤ, pos, negsuc}
use triggerlane.Cli.Number.{Text, i64_max, parse_signed}
use triggerlane.Cli.Number.Laws.{Unnegative, parse_signed_iff}
use triggerlane.Cli.Duration.{
  Chrono, split_cons, split_last, unit_seconds, with_unit, amount_of, parse_split, parse_duration,
}

split_last-append : (front : Text) (last : ℕ) → split_last (front ++ last ∷ []) ≡ some (front, last)
unfolding split_last
split_last-append [] last = refl
split_last-append (c ∷ front) last = ap (split_cons c) (split_last-append front last)

split_some :
    (o : Option (Text × ℕ)) (c : ℕ) (text front : Text) (last : ℕ)
    → ((f : Text) (l : ℕ) → o ≡ some (f, l) → text ≡ f ++ l ∷ [])
    → (o ≡ none → text ≡ [])
    → split_cons c o ≡ some (front, last)
    → c ∷ text ≡ front ++ last ∷ []
split_some none c text front last h none_h e = ground (arith, none_h refl)
split_some (some (f, l)) c text front last h none_h e = ground (arith, h f l refl)

split_last-none : (text : Text) → split_last text ≡ none → text ≡ []
unfolding split_last
split_last-none [] h = refl
split_last-none (c ∷ text) h = ground arith

split_last-some :
    (text front : Text) (last : ℕ)
    → split_last text ≡ some (front, last)
    → text ≡ front ++ last ∷ []
unfolding split_last
split_last-some [] front last h = ground arith
split_last-some (c ∷ text) front last h =
    split_some (split_last text) c text front last (split_last-some text) (split_last-none text) h

module _ (chrono : Chrono) where
  -- An amount and a unit that last this many nanoseconds.
  abbrev pub Lasts : Text → ℕ → ℤ → Type 0
  Lasts front unit span =
      (amount : ℕ) × (scale : ℕ) × Unnegative front amount
      × (unit_seconds unit ≡ some scale)
      × (amount * scale ≤ i64_max)
      × (chrono.try_seconds (amount * scale) ≡ some span)

  scaled_sound :
      (amount : ℕ) (o : Option ℕ) (span : ℤ)
      → with_unit chrono amount o ≡ some span
      → (scale : ℕ) × (o ≡ some scale)
        × (amount * scale ≤ i64_max)
        × (chrono.try_seconds (amount * scale) ≡ some span)
  scaled_sound amount none span h = ground arith
  scaled_sound amount (some scale) span h =
      let le : ltb i64_max (amount * scale) ≡ false = ground arith in
      (scale, refl, ground (arith, le), ground (arith, le))

  amount_sound :
      (front : Text) (unit : ℕ) (o : Option ℤ) (span : ℤ)
      → parse_signed front ≡ o
      → amount_of chrono unit o ≡ some span
      → Lasts front unit span
  amount_sound front unit none span e h = ground arith
  amount_sound front unit (some (negsuc n)) span e h = ground arith
  amount_sound front unit (some (pos amount)) span e h =
      let (scale, unit_e, le, lasts) = scaled_sound amount (unit_seconds unit) span h in
      (amount, scale, (parse_signed_iff amount front).0 e, unit_e, le, lasts)

  split_sound :
      (raw : Text) (o : Option (Text × ℕ)) (span : ℤ)
      → split_last raw ≡ o
      → parse_split chrono o ≡ some span
      → (front : Text) × (unit : ℕ) × (raw ≡ front ++ unit ∷ []) × Lasts front unit span
  split_sound raw none span e h = ground arith
  split_sound raw (some (front, unit)) span e h =
      (front, unit, split_last-some raw front unit e, amount_sound front unit _ span refl h)

  split_complete :
      (front : Text) (unit : ℕ) (span : ℤ)
      → Lasts front unit span
      → amount_of chrono unit (parse_signed front) ≡ some span
  split_complete front unit span (amount, scale, number, unit_e, le, lasts) =
      ap (amount_of chrono unit) ((parse_signed_iff amount front).1 number)
      ∙ ap (with_unit chrono amount) unit_e
      ∙ ground (arith, lasts)

  -- A text is a duration exactly if it is a number that is not negative, followed by `s`, `m`, `h` or
  -- `d`, the seconds of that fit into 64 bits with a sign, and they make a span of time for `chrono`,
  -- which is then the result.
  pub parse_duration_iff :
      (raw : Text) (span : ℤ)
      → (parse_duration chrono raw ≡ some span)
        ↔ ((front : Text) × (unit : ℕ) × (raw ≡ front ++ unit ∷ []) × Lasts front unit span)
  unfolding parse_duration
  parse_duration_iff raw span = (
    split_sound raw (split_last raw) span refl,
    λ found.
        ap (λ text. parse_split chrono (split_last text)) found.2
        ∙ ap (parse_split chrono) (split_last-append found.0 found.1)
        ∙ split_complete found.0 found.1 span found.3,
  )
