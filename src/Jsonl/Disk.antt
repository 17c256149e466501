-- ===== src/Jsonl/Disk.antt =====
-- The file behind a `JsonlStore`, and the system calls on it. Each call takes the next outcome from
-- a list that stands for the environment, and succeeds where the list has ended.
use triggerlane.Common.{
  ℕ, Bool, true, false, List, [], ◌∷◌, ◌++◌, take, Result, ok, err, Action, Option, none, some,
  pure, lift, gets, ◌>>=◌, ◌>>◌, if◌then◌else◌, length,
}
use triggerlane.Jsonl.Serde.{Serde}
use triggerlane.Jsonl.Read.{
  IoError, serialize, read, open_append, locked, create, write, sync, truncate, rename, sync_dir,
  read_bytes,
}

-- A call that fails may have written some bytes first.
pub data Outcome : Type 0 where
  done : Outcome
  failed : ℕ → Outcome

-- `current` is what a reader of the path sees and `synced` what is on the disk for certain. The
-- handle is `attached` while it is on the file that the path names, and not on one that a rename
-- has replaced. `temp` is the file that a compaction writes, and `temp_synced` what of it is on the
-- disk for certain. After a rename, and until the directory is synced, `renamed` is what is on the disk
-- for certain of the file that came in, while `synced` is still that of the one before.
pub record Disk : Type 0 where
  pub present : Bool
  pub synced : List ℕ
  pub current : List ℕ
  pub temp : List ℕ
  pub temp_synced : List ℕ
  pub renamed : Option (List ℕ)
  pub attached : Bool
  pub outcomes : List Outcome

abbrev pub outcome_of : List Outcome → Outcome
outcome_of [] = done
outcome_of (o ∷ os) = o

abbrev pub outcomes_after : List Outcome → List Outcome
outcomes_after [] = []
outcomes_after (o ∷ os) = os

-- The disk behind a call: its effect if it succeeds.
abbrev pub call_with : IoError → (Disk → Disk) → Outcome → Action Disk IoError (Unit {0})
call_with error effect done d = (ok tt, effect d)
call_with error effect (failed n) d = (err error, d)

unfoldable pub call : IoError → (Disk → Disk) → Action Disk IoError (Unit {0})
call error effect d =
    call_with error effect (outcome_of d.outcomes)
      (record d { outcomes = outcomes_after d.outcomes })

abbrev pub add_bytes : List ℕ → Disk → Disk
add_bytes bytes d = if d.attached then record d { current = d.current ++ bytes } else d

abbrev pub write_with : List ℕ → Outcome → Action Disk IoError (Unit {0})
write_with bytes done d = (ok tt, add_bytes bytes d)
write_with bytes (failed n) d = (err write, add_bytes (take n bytes) d)

-- `File::write_all` on the append handle.
unfoldable pub write_all : List ℕ → Action Disk IoError (Unit {0})
write_all bytes d =
    write_with bytes (outcome_of d.outcomes) (record d { outcomes = outcomes_after d.outcomes })

abbrev pub settle : Disk → Disk
settle d = record d { synced = d.current }

abbrev pub settle_attached : Disk → Disk
settle_attached d = if d.attached then settle d else d

-- `File::sync_data` and `File::sync_all` on the append handle.
unfoldable pub sync_file : Action Disk IoError (Unit {0})
unfolding call
sync_file = call sync settle_attached

-- `File::set_len(0)`
unfoldable pub set_len_zero : Action Disk IoError (Unit {0})
unfolding call
set_len_zero = call truncate (λ d. if d.attached then record d { current = [] } else d)

-- The entry of the directory is on the disk: after a crash the path names the new file, with what of
-- its bytes is on the disk.
abbrev pub settle_entry : Disk → Disk
settle_entry d = elim d.renamed [
  | none ↦ d
  | some bytes ↦ record d { synced = bytes; renamed = none }
]

-- `sync_parent_dir`
unfoldable pub sync_parent_dir : Action Disk IoError (Unit {0})
unfolding call
sync_parent_dir = call sync_dir settle_entry

-- `open_locked_append`: the file is opened, and created if it is not there, and then locked.
unfoldable pub open_locked_append : Action Disk IoError (Unit {0})
unfolding call
open_locked_append = do
  call open_append (λ d. record d { present = true })
  call locked (λ d. record d { attached = true })

module _ {T : Type 0} (serde : Serde T) where
  abbrev pub encode : Option (List ℕ) → Result (List ℕ) IoError
  encode none = err serialize
  encode (some bytes) = ok bytes

  -- The loop of `compact_jsonl`, which writes each record and its line feed to the temporary file.
  unfoldable pub write_records : List T → Action Disk IoError (Unit {0})
  unfolding call
  write_records [] = pure tt
  write_records (item ∷ rest) = do
    encoded ← lift (encode (serde.to_vec item))
    call write (λ d. record d { temp = d.temp ++ encoded })
    call write (λ d. record d { temp = d.temp ++ b'\n' ∷ [] })
    write_records rest

  unfoldable pub compact_jsonl : List T → Action Disk IoError (Unit {0})
  unfolding call sync_parent_dir open_locked_append
  compact_jsonl kept = do
    call create (λ d. record d { temp = []; temp_synced = [] })
    write_records kept
    call sync (λ d. record d { temp_synced = d.temp })
    call rename (λ d. record d { current = d.temp; renamed = some d.temp_synced; attached = false })
    sync_parent_dir
    open_locked_append

-- `std::fs::read`, behind the test for a file that is not there.
module _ {T : Type 0} (serde : Serde T) where
  unfoldable pub read_jsonl : Action Disk IoError (List T)
  unfolding call
  read_jsonl d =
      if d.present
      then (do
        call read (λ d. d)
        bytes ← gets (λ d. d.current)
        lift (read_bytes serde.from_str bytes))
          d
      else (ok [], d)

-- `std::fs::metadata(path).len()`, or 0 if the file is missing.
unfoldable pub metadata_len : Disk → ℕ
metadata_len d = if d.present then length d.current else 0
