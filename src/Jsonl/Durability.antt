-- ===== src/Jsonl/Durability.antt =====
-- What survives a crash, and when the file agrees with the records in memory.
pub mod Compaction
pub mod Replace
pub mod Torn
use triggerlane.Common.{
  ℕ, ◌+◌, ◌-◌, ◌<◌, ◌≤◌, ◌≡◌, refl, ap, sym, ◌∙◌, Bool, true, false, List, [], ◌∷◌, ◌++◌, length,
  take, Result, ok, err, Option, Option-cases, some, none, arith, append_assoc, append-nil, ◌⊎◌,
  inl, inr, ◌≢◌, dec_lt, take-take, take_of_nil, take_of_length-le, take-append_left,
  append_cancel_left, length-append,
}
use triggerlane.Jsonl.Serde.{Serde, IsSerde, IsTearable, render}
use triggerlane.Jsonl.Text.{from_utf8}
use triggerlane.Jsonl.Read.{IoError, read_bytes, invalid_utf8}
use triggerlane.Jsonl.Read.RoundTrip.{
  read_bytes_whole, read_bytes_torn, read_bytes_unended, read_bytes_undecoded, render-append,
}
use triggerlane.Jsonl.Disk.{Disk, Outcome, done, failed, outcome_of}
use triggerlane.Jsonl.Store.{JsonlStore, append}

-- What the file may hold after a crash: what was synced, what was written, or what was synced with
-- a part of what was written behind it through the handle. If the directory was not synced behind a
-- rename, it may be the new file as well, with what of it was synced and a part of what was not.
pub data CrashImage (d : Disk) (bytes : List ℕ) : Type 0 where
  lost : bytes ≡ d.synced → CrashImage d bytes
  kept : bytes ≡ d.current → CrashImage d bytes
  torn :
      (pending : List ℕ) (k : ℕ)
      → d.attached ≡ true
      → d.current ≡ d.synced ++ pending
      → bytes ≡ d.synced ++ take k pending
      → CrashImage d bytes
  moved :
      (durable pending : List ℕ) (k : ℕ)
      → d.renamed ≡ some durable
      → d.current ≡ durable ++ pending
      → bytes ≡ durable ++ take k pending
      → CrashImage d bytes

unit_cases : (r : Result (Unit {0}) IoError) → (r ≡ ok tt) ⊎ (r ≢ ok tt)
unit_cases (ok x) = inl refl
unit_cases (err e) = inr (λ h. cc)

module _ {T : Type 0} (serde : Serde T) (laws : IsSerde serde) where
  -- The file holds the lines of the records and nothing else, all of it is on the disk, and the
  -- handle is on the file.
  pub record InSync (s : JsonlStore T) : Type 0 where
    pub present : s.disk.present ≡ true
    pub attached : s.disk.attached ≡ true
    pub current : s.disk.current ≡ render serde laws s.records
    pub synced : s.disk.synced ≡ render serde laws s.records
    pub renamed : s.disk.renamed ≡ none

  -- An append that reports success keeps the store in sync, with the new record last.
  pub append-InSync :
      (r : T) (s : JsonlStore T)
      → InSync s
      → (append serde r s).0 ≡ ok tt
      → InSync (append serde r s).1 × ((append serde r s).1.records ≡ s.records ++ r ∷ [])
  unfolding append render
  append-InSync r s h e =
      ground (arith, laws.to_vec-encoded r, render-append serde laws s.records (r ∷ []))

  abbrev pub line : T → List ℕ
  line r = laws.encoded r ++ b'\n' ∷ []

  render-last :
      (records : List T) (r : T)
      → render serde laws (records ++ r ∷ []) ≡ render serde laws records ++ line r
  unfolding render
  render-last records r = render-append serde laws records (r ∷ [])

  -- The first bytes of the record's JSON end inside a character.
  abbrev pub IsUndecoded : T → ℕ → Type 0
  IsUndecoded r k = (k < length (laws.encoded r)) × (from_utf8 (take k (laws.encoded r)) ≡ none)

  -- Behind whole lines, any first part of one more line is read as that record or not at all, or it
  -- ends inside a character and nothing can be read.
  read_bytes_part :
      IsTearable serde laws
      → (records : List T) (r : T) (k : ℕ)
      → let bytes = render serde laws records ++ take k (line r) in
        (read_bytes serde.from_str bytes ≡ ok records)
        ⊎ (read_bytes serde.from_str bytes ≡ ok (records ++ r ∷ []))
        ⊎ (IsUndecoded r k × (read_bytes serde.from_str bytes ≡ err invalid_utf8))
  read_bytes_part tearable records r k = elim (dec_lt k (length (laws.encoded r))) [
    | yes short ↦
        let cut = take-append_left k (laws.encoded r) (b'\n' ∷ []) (omega arith) in
        elim (Option-cases (from_utf8 (take k (laws.encoded r)))) [
          | inl undecoded ↦ inr (
              inr (
                (short, undecoded),
                rw cut
                    (read_bytes_undecoded serde laws records (take k (laws.encoded r)) undecoded),
              ))
          | inr (part, decoded) ↦
              inl (rw cut (read_bytes_torn serde laws tearable records r k part short decoded))
        ]
    | no long ↦ elim (dec_lt (length (laws.encoded r)) k) [
      | yes beyond ↦ inr (
          inl (
            rw
              (
                take_of_length-le k (line r)
                    (omega (arith, length-append (laws.encoded r) (b'\n' ∷ []))),
                ← render-last records r,
              )
              (read_bytes_whole serde laws (records ++ r ∷ []))))
      | no most ↦
          let exactly : k ≡ length (laws.encoded r) = omega arith in
          inr (
            inl (
              rw
                (
                  take-append_left k (laws.encoded r) (b'\n' ∷ []) (omega arith),
                  take_of_length-le k (laws.encoded r) (omega arith),
                )
                (read_bytes_unended serde laws records r)))
    ]
  ]

  -- A crash on the way to a part of a line leaves a part of that line.
  CrashImage-part :
      (d : Disk) (base new bytes : List ℕ) (n : ℕ)
      → d.synced ≡ base
      → d.current ≡ base ++ take n new
      → d.renamed ≡ none
      → CrashImage d bytes
      → (k : ℕ) × (bytes ≡ base ++ take k new)
  CrashImage-part d base new bytes n p q m (lost e) = (0, e ∙ p ∙ sym (append-nil base))
  CrashImage-part d base new bytes n p q m (kept e) = (n, e ∙ q)
  CrashImage-part d base new bytes n p q m (moved durable pending k e f g) = absurd (cc)
  CrashImage-part d base new bytes n p q not_moved (torn pending k a e f) =
      let same : pending ≡ take n new =
        append_cancel_left base pending (take n new) (ap (λ b. b ++ pending) (sym p) ∙ sym e ∙ q) in
      let (m, shorter) = take-take k n new in
      (
        m,
        f
            ∙ ap (λ b. b ++ take k pending) p
            ∙ ap (λ ys. base ++ take k ys) same
            ∙ ap (◌++◌ base) shorter,
      )

  -- How much of a line a write has put into the file.
  abbrev written : Outcome → ℕ → ℕ
  written done all = all
  written (failed n) all = n

  -- Where an append fails, the file is what it was with a part of the new line behind it.
  append_part :
      (r : T) (s : JsonlStore T)
      → InSync s
      → (append serde r s).0 ≢ ok tt
      → ((append serde r s).1.disk.synced ≡ render serde laws s.records)
        × ((append serde r s).1.disk.current
            ≡ render serde laws s.records
              ++ take (written (outcome_of s.disk.outcomes) (length (line r))) (line r))
        × ((append serde r s).1.disk.renamed ≡ none)
  unfolding append
  append_part r s h e =
      ground (arith, laws.to_vec-encoded r, take_of_length-le (length (line r)) (line r))

  -- An append that fails leaves the records in memory as they were.
  pub append_err :
      (r : T) (s : JsonlStore T) (error : IoError)
      → (append serde r s).0 ≡ err error
      → (append serde r s).1.records ≡ s.records
  unfolding append
  append_err r s error e = ground (arith, laws.to_vec-encoded r)

  pub CrashImage-settled :
      (s : JsonlStore T) (bytes : List ℕ)
      → InSync s
      → CrashImage s.disk bytes
      → bytes ≡ render serde laws s.records
  CrashImage-settled s bytes h image =
      let (k, e) =
        CrashImage-part s.disk (render serde laws s.records) [] bytes 0 h.synced
          (h.current ∙ sym (append-nil _)) h.renamed image in
      e ∙ ap (◌++◌ (render serde laws s.records)) (take_of_nil k) ∙ append-nil _

  pub append_crash_ok :
      (r : T) (s : JsonlStore T) (bytes : List ℕ)
      → InSync s
      → CrashImage (append serde r s).1.disk bytes
      → (append serde r s).0 ≡ ok tt
      → read_bytes serde.from_str bytes ≡ ok (s.records ++ r ∷ [])
  append_crash_ok r s bytes h image success =
      let (after, records) = append-InSync r s h success in
      rw (CrashImage-settled (append serde r s).1 bytes after image, records)
        (read_bytes_whole serde laws (s.records ++ r ∷ []))

  -- Whatever the outcomes of its system calls, and whatever a crash behind it leaves of the file:
  -- after an append to a store in sync, the file reads back as the records from before, with the
  -- new record behind them or not; or some first bytes of the new record's JSON end inside a
  -- character, and then the file cannot be read for being no UTF-8.
  pub append_crash :
      IsTearable serde laws
      → (r : T) (s : JsonlStore T) (bytes : List ℕ) → InSync s
      → CrashImage (append serde r s).1.disk bytes
      → (read_bytes serde.from_str bytes ≡ ok s.records)
        ⊎ (read_bytes serde.from_str bytes ≡ ok (s.records ++ r ∷ []))
        ⊎ ((k : ℕ) × IsUndecoded r k × (read_bytes serde.from_str bytes ≡ err invalid_utf8))
  append_crash tearable r s bytes h image = elim (unit_cases (append serde r s).0) [
    | inl success ↦ inr (inl (append_crash_ok r s bytes h image success))
    | inr failure ↦
        let (synced, current, renamed) = append_part r s h failure in
        let (k, e) =
          CrashImage-part (append serde r s).1.disk (render serde laws s.records) (line r) bytes _
            synced current renamed image in
        elim (read_bytes_part tearable s.records r k) [
          | inl old ↦ inl (rw e old)
          | inr (inl new) ↦ inr (inl (rw e new))
          | inr (inr (undecoded, unread)) ↦ inr (inr (k, undecoded, rw e unread))
        ]
  ]
