-- ===== src/Jsonl/Durability/Compaction.antt =====
-- `compact_jsonl` replaces the file as a whole, and the operations that use it.
use triggerlane.Common.{
  ◌≡◌, refl, sym, true, false, List, [], ◌∷◌, ◌++◌, ok, some, none, arith, append_assoc, append-nil,
  ◌⊎◌, ◌≢◌,
}
use triggerlane.Jsonl.Serde.{Serde, IsSerde, render}
use triggerlane.Jsonl.Disk.{
  Disk, call, sync_parent_dir, open_locked_append, write_records, compact_jsonl, outcomes_after,
}

module _ {T : Type 0} (serde : Serde T) (laws : IsSerde serde) where
  -- The file at the path, and the handle, are as they were.
  pub record SameFile (d d' : Disk) : Type 0 where
    pub present : d'.present ≡ d.present
    pub synced : d'.synced ≡ d.synced
    pub current : d'.current ≡ d.current
    pub attached : d'.attached ≡ d.attached
    pub renamed : d'.renamed ≡ d.renamed

  write_records_lem :
      (kept : List T) (d : Disk)
      → SameFile d (write_records serde kept d).1
        × ((write_records serde kept d).0 ≡ ok tt
            → (write_records serde kept d).1.temp ≡ d.temp ++ render serde laws kept)
  unfolding write_records render
  write_records_lem [] d = (
    record { present = refl; synced = refl; current = refl; attached = refl; renamed = refl },
    λ _. sym (append-nil d.temp),
  )
  write_records_lem (r ∷ kept) d =
      let enc = laws.encoded r in
      ground (
        arith,
        laws.to_vec-encoded r,
        write_records_lem kept (record d {
          temp = (d.temp ++ enc) ++ b'\n' ∷ [];
          outcomes = outcomes_after (outcomes_after d.outcomes);
        }),
        append_assoc (d.temp ++ enc) (b'\n' ∷ []) (render serde laws kept),
        append_assoc d.temp enc (b'\n' ∷ render serde laws kept),
      )

  -- A compaction that reports success has replaced the file by one with the lines of the records.
  -- One that fails has left the file alone, or has replaced it and left the handle behind.
  pub compact_jsonl_lem :
      (kept : List T) (d : Disk)
      → (((compact_jsonl serde kept d).0 ≡ ok tt)
          × ((compact_jsonl serde kept d).1.current ≡ render serde laws kept)
          × ((compact_jsonl serde kept d).1.synced ≡ render serde laws kept)
          × ((compact_jsonl serde kept d).1.attached ≡ true)
          × ((compact_jsonl serde kept d).1.renamed ≡ none)
          × ((compact_jsonl serde kept d).1.present ≡ true))
        ⊎ (((compact_jsonl serde kept d).0 ≢ ok tt) × SameFile d (compact_jsonl serde kept d).1)
        ⊎ (((compact_jsonl serde kept d).0 ≢ ok tt)
            × ((compact_jsonl serde kept d).1.current ≡ render serde laws kept)
            × ((compact_jsonl serde kept d).1.attached ≡ false)
            × ((((compact_jsonl serde kept d).1.synced ≡ d.synced)
                  × ((compact_jsonl serde kept d).1.renamed ≡ some (render serde laws kept)))
                ⊎ (((compact_jsonl serde kept d).1.synced ≡ render serde laws kept)
                    × ((compact_jsonl serde kept d).1.renamed ≡ none))))
  unfolding call sync_parent_dir open_locked_append compact_jsonl
  compact_jsonl_lem kept d = ground (
    arith,
    write_records_lem kept
        (record d { temp = []; temp_synced = []; outcomes = outcomes_after d.outcomes }),
  )
