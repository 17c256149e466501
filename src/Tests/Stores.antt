-- ===== src/Tests/Stores.antt =====
-- The durable stores on files of JSON booleans.
use triggerlane.Common.{
  ℕ, ◌+◌, ◌≡◌, ◌⊎◌, ◌++◌, ◌∷◌, [], List, length, take, Bool, true, false, some, none, ok, err, refl,
  arith, ℕ_discrete,
}
use triggerlane.Jsonl.Text.{from_utf8}
use triggerlane.Jsonl.Serde.{render}
use triggerlane.Jsonl.Read.{IoError, read_bytes, invalid_json, invalid_utf8}
use triggerlane.Jsonl.Read.RoundTrip.{read_bytes_whole}
use triggerlane.Jsonl.Disk
use triggerlane.Jsonl.Store
use triggerlane.Jsonl.Disk.{Disk, done, failed}
use triggerlane.Jsonl.Store.{JsonlStore, open_store, append, drain}
use triggerlane.Jsonl.Durability.{IsUndecoded, InSync, CrashImage, torn, append_crash}
use triggerlane.Jsonl.Durability.Replace.{drain_lem}
use triggerlane.Jsonl.Durability.Torn.{append_after_torn}
use triggerlane.Tests.Records.{cut_utf8, bools, bools_laws, bools_tearable}

abbrev line_true : List ℕ
line_true = 116 ∷ 114 ∷ 117 ∷ 101 ∷ 10 ∷ []

abbrev line_false : List ℕ
line_false = 102 ∷ 97 ∷ 108 ∷ 115 ∷ 101 ∷ 10 ∷ []

abbrev store_with : List Disk.Outcome → JsonlStore Bool
store_with outcomes = record {
  records = true ∷ [];
  disk = record {
    present = true;
    synced = line_true;
    current = line_true;
    temp = [];
    temp_synced = [];
    renamed = none;
    attached = true;
    outcomes = outcomes;
  };
}

store_with-InSync : (outcomes : List Disk.Outcome) → InSync bools bools_laws (store_with outcomes)
unfolding render
store_with-InSync outcomes = record {
  present = refl;
  attached = refl;
  current = refl;
  synced = refl;
  renamed = refl;
}

read_bytes_whole_example :
    read_bytes bools.from_str (render bools bools_laws (true ∷ false ∷ [])) ≡ ok (true ∷ false ∷ [])
read_bytes_whole_example = read_bytes_whole bools bools_laws (true ∷ false ∷ [])

abbrev sync_fails : JsonlStore Bool
sync_fails = store_with (done ∷ failed 0 ∷ [])

abbrev all_succeeds : JsonlStore Bool
all_succeeds = store_with []

torn_image : CrashImage (append bools false sync_fails).1.disk (line_true ++ take 3 line_false)
unfolding append Disk.write_all Disk.sync_file Disk.call
torn_image = torn line_false 3 refl refl refl

append_crash_example :
    (read_bytes bools.from_str (line_true ++ take 3 line_false) ≡ ok sync_fails.records)
    ⊎ (read_bytes bools.from_str (line_true ++ take 3 line_false)
        ≡ ok (sync_fails.records ++ false ∷ []))
    ⊎ ((k : ℕ) × IsUndecoded bools bools_laws false k
        × (read_bytes bools.from_str (line_true ++ take 3 line_false) ≡ err invalid_utf8))
append_crash_example =
    append_crash bools bools_laws bools_tearable false sync_fails (line_true ++ take 3 line_false)
      (store_with-InSync _) torn_image

abbrev none_kept : List Bool → List Bool
none_kept records = []

-- Creating, syncing and renaming succeed, and syncing the directory fails.
abbrev dir_sync_fails : JsonlStore Bool
dir_sync_fails = store_with (done ∷ done ∷ done ∷ failed 0 ∷ [])

drain_lem_example :
    (((drain bools sync_fails).0 ≡ ok sync_fails.records)
      × ((drain bools sync_fails).1.records ≡ [])
      × InSync bools bools_laws (drain bools sync_fails).1)
    ⊎ (((error : IoError) × ((drain bools sync_fails).0 ≡ err error))
        × ((drain bools sync_fails).1.records ≡ sync_fails.records)
        × (((drain bools sync_fails).1.disk.current ≡ render bools bools_laws sync_fails.records)
            ⊎ ((drain bools sync_fails).1.disk.current ≡ [])))
drain_lem_example = drain_lem bools bools_laws sync_fails (store_with-InSync _)

-- The file after a crash that tore the record behind the first.
abbrev torn_disk : Disk.Disk
torn_disk = record (all_succeeds.disk) {
  current = line_true ++ 102 ∷ 97 ∷ [];
  synced = line_true ++ 102 ∷ 97 ∷ [];
}

torn_current :
    torn_disk.current ≡ render bools bools_laws (true ∷ []) ++ take 2 (bools_laws.encoded false)
unfolding render
torn_current = refl

two_decoded : from_utf8 (take 2 (bools_laws.encoded false)) ≡ some (102 ∷ 97 ∷ [])
two_decoded = cut_utf8 false 2

no_word : bools.from_str (take 2 (bools_laws.encoded false) ++ bools_laws.text true) ≡ none
unfolding ℕ_discrete
no_word = refl

append_after_torn_example :
    (s : JsonlStore Bool) × ((open_store bools torn_disk).0 ≡ ok s)
    × (s.records ≡ (true ∷ []))
    × ((append bools true s).0 ≡ ok tt)
    × (read_bytes bools.from_str (append bools true s).1.disk.current
        ≡ err (invalid_json (length (true ∷ []) + 1)))
append_after_torn_example =
    append_after_torn bools bools_laws bools_tearable torn_disk (true ∷ []) false true 2
      (102 ∷ 97 ∷ []) two_decoded refl refl torn_current (omega arith) no_word
