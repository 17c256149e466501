-- ===== src/Tests/Marks.antt =====
-- Ids in a journal, written as strokes, and a mark that is kept over a crash.
use triggerlane.Common.{
  ℕ, zero, suc, ◌≡◌, ◌≢◌, refl, true, false, ◌||◌, Option, none, some, List, [], ◌∷◌, ok, arith,
  contains, ◌==◌, nat_eq, ℕ_discrete, All, ap, ◌∙◌,
}
use triggerlane.Event.{EventId, EventEnvelope}
use triggerlane.Jsonl.Text
use triggerlane.Jsonl.Text.{from_utf8, prepend, strip_cr, is_blank}
use triggerlane.Jsonl.Text.Laws.{from_utf8-append}
use triggerlane.Jsonl.Serde.{Serde, IsSerde, render}
use triggerlane.Jsonl.Read.{read_bytes}
use triggerlane.Jsonl.Store
use triggerlane.Jsonl.Store.{JsonlStore}
use triggerlane.Jsonl.Disk
use triggerlane.Jsonl.Disk.{Disk}
use triggerlane.Jsonl.Durability.{InSync, CrashImage, lost}
use triggerlane.EventStore.File.{FileEventStore, mark_delivered}
use triggerlane.EventStore.Marks.{mark_delivered_durable}

abbrev strokes : ℕ → List ℕ
strokes zero = 49 ∷ []
strokes (suc n) = 49 ∷ strokes n

abbrev one_more : Option ℕ → Option ℕ
one_more none = none
one_more (some n) = some (suc n)

abbrev counted : List ℕ → Option ℕ
counted [] = none
counted (c ∷ []) = some 0
counted (c ∷ d ∷ rest) = one_more (counted (d ∷ rest))

counted-strokes : (n : ℕ) → counted (strokes n) ≡ some n
counted-strokes zero = refl
counted-strokes (suc zero) = refl
counted-strokes (suc (suc n)) = ap one_more (counted-strokes (suc n))

stroke_utf8 : from_utf8 (49 ∷ []) ≡ some (49 ∷ [])
unfolding Text.utf8 Text.lead from_utf8 ℕ_discrete
stroke_utf8 = refl

strokes_utf8 : (n : ℕ) → from_utf8 (strokes n) ≡ some (strokes n)
strokes_utf8 zero = stroke_utf8
strokes_utf8 (suc n) =
    from_utf8-append (49 ∷ []) (strokes n) (49 ∷ []) stroke_utf8
    ∙ ap (prepend (49 ∷ [])) (strokes_utf8 n)

strokes_one_line : (n : ℕ) → All (λ c. c ≢ b'\n') (strokes n)
strokes_one_line zero = ground arith
strokes_one_line (suc n) = (ground arith, strokes_one_line n)

strokes_no_cr : (n : ℕ) → strip_cr (strokes n) ≡ strokes n
unfolding strip_cr ℕ_discrete
strokes_no_cr zero = refl
strokes_no_cr (suc zero) = refl
strokes_no_cr (suc (suc n)) = ap (◌∷◌ 49) (strokes_no_cr (suc n))

strokes_not_blank : (n : ℕ) → is_blank (strokes n) ≡ false
unfolding is_blank Text.is_whitespace ℕ_discrete
strokes_not_blank zero = refl
strokes_not_blank (suc n) = refl

abbrev numbers : Serde EventId
numbers = record { to_vec = λ n. some (strokes n); from_str = counted }

abbrev numbers_laws : IsSerde numbers
numbers_laws = record {
  encoded = strokes;
  text = strokes;
  to_vec-encoded = λ n. refl;
  from_utf8-encoded = strokes_utf8;
  from_str-text = counted-strokes;
  one_line = strokes_one_line;
  no_cr = strokes_no_cr;
  not_blank = strokes_not_blank;
}

abbrev no_events : Serde EventEnvelope
no_events = record { to_vec = λ e. none; from_str = λ t. none }

abbrev empty_disk : Disk
empty_disk = record {
  present = true;
  synced = [];
  current = [];
  temp = [];
  temp_synced = [];
  renamed = none;
  attached = true;
  outcomes = [];
}

-- The journal has one id.
abbrev marked_one : FileEventStore
marked_one = record {
  inner = record { records = []; disk = empty_disk };
  delivered = record {
    records = 1 ∷ [];
    disk = record empty_disk { synced = 49 ∷ 49 ∷ 10 ∷ []; current = 49 ∷ 49 ∷ 10 ∷ [] };
  };
  delivered_set = 1 ∷ [];
}

journal-InSync : InSync numbers numbers_laws marked_one.delivered
unfolding render
journal-InSync = record {
  present = refl;
  attached = refl;
  current = refl;
  synced = refl;
  renamed = refl;
}

abbrev two_ids : List ℕ
two_ids = 49 ∷ 49 ∷ 10 ∷ 49 ∷ 10 ∷ []

mark_succeeds : (mark_delivered no_events numbers 0 marked_one).0 ≡ ok tt
unfolding mark_delivered Store.append Disk.write_all Disk.sync_file Disk.call ℕ_discrete
mark_succeeds = refl

two_kept : CrashImage (mark_delivered no_events numbers 0 marked_one).1.delivered.disk two_ids
unfolding mark_delivered Store.append Disk.write_all Disk.sync_file Disk.call ℕ_discrete
two_kept = lost refl

mark_delivered_durable_example :
    (delivered : List EventId) × (read_bytes numbers.from_str two_ids ≡ ok delivered)
    × ((j : EventId) → contains delivered j ≡ (j == 0 || contains marked_one.delivered_set j))
mark_delivered_durable_example =
    mark_delivered_durable no_events numbers numbers_laws 0 marked_one two_ids journal-InSync
      (λ j. refl) mark_succeeds two_kept
