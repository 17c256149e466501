-- ===== src/Runtime/Retry/Laws.antt =====
-- A retry pass never panics, and fails only with the queue.
use triggerlane.Common.{
  true, String, List, [], ◌∷◌, ◌≡◌, refl, ok, err, length, arith, Result, string_eq, ◌==◌, continue,
  map_err, modify, pure, ◌>>◌,
}
use triggerlane.Event.{EventId, EventEnvelope}
use triggerlane.DeadTrigger.{DeadTriggerRecord}
use triggerlane.DeadTriggerQueue.{DeadTriggerQueue}
use triggerlane.DeadTriggerQueue.Laws.{IsQueue}
use triggerlane.Jsonl.Read.{IoError}
use triggerlane.Runtime
use triggerlane.Runtime.{
  Worklane, TriggerRuntime, HandleReport, Halt, returned, storage, record_dead_trigger_depth,
}
use triggerlane.Runtime.Handle.{handle}
use triggerlane.Runtime.Handle.Laws.{handle_err}
use triggerlane.Runtime.Retry.{
  HashMap, DeadTriggerRetryReport, Grouped, no_groups, group, account, new_report, retry_drained,
  handle_removed, retry_each, retry_dead_triggers,
}
use mathlib.Core.List.{foldl}
use triggerlane.Runtime.Retry.Groups.{keys, all-IsKeyed}

key_eq : (k id : String) → k ≡ id → (k == id) ≡ true
key_eq k id h = ground arith

head_eq : (k id : String) (ks ids : List String) → k ∷ ks ≡ id ∷ ids → (k ≡ id) × (ks ≡ ids)
head_eq k id ks ids h = ground arith

module _ (W : Worklane) (Q : DeadTriggerQueue) (queue : IsQueue Q) (show_id : EventId → String)
    (r : TriggerRuntime) where
  -- How a part of the loop ends: well, or with an error of the queue.
  abbrev Ends : Result DeadTriggerRetryReport Halt → Type 0
  Ends (ok after) = Unit
  Ends (err halt) = (error : IoError) × (halt ≡ returned (storage error))

  after_one :
      (names : List String) (before : DeadTriggerRetryReport) (event : EventEnvelope)
      (s : Runtime.Runtime W Q) (answer : Result HandleReport Halt)
      (go : DeadTriggerRetryReport
        → Runtime.Runtime W Q
        → Result DeadTriggerRetryReport Halt × Runtime.Runtime W Q)
      → (handle W Q show_id r event s).0 ≡ answer
      → ((report : DeadTriggerRetryReport) (t : Runtime.Runtime W Q) → Ends (go report t).0)
      → Ends
          (continue answer
            (λ result. go (account names result before))
            (handle W Q show_id r event s).1).0
  after_one names before event s (ok result) go e ih = ih _ _
  after_one names before event s (err halt) go e ih =
      let (error, verdicts, eq, fewer, stopped, dead, traces) =
        handle_err W Q queue r event show_id s halt e in
      (error, eq)

  each_lem :
      (order : List String) (events : HashMap EventEnvelope)
      (failed_triggers : HashMap (List String)) (before : DeadTriggerRetryReport)
      (s : Runtime.Runtime W Q)
      → keys events ≡ order
      → keys failed_triggers ≡ order
      → Ends (retry_each W Q show_id r order events failed_triggers before s).0
  unfolding retry_each handle_removed
  each_lem [] events failed before s e f = tt
  each_lem (id ∷ order) [] failed before s e f = ground arith
  each_lem (id ∷ order) (x ∷ events) [] before s e f = ground arith
  each_lem (id ∷ order) ((k, event) ∷ events) ((k', names) ∷ failed) before s e f =
      let (same, rest) = head_eq k id (keys events) order e in
      let (same', rest') = head_eq k' id (keys failed) order f in
      rw (key_eq k id same, key_eq k' id same')
        (after_one names before event s _ (retry_each W Q show_id r order events failed) refl
          (λ report t. each_lem order events failed report t rest rest'))

  abbrev pub groups : List DeadTriggerRecord → Grouped
  groups = foldl (group show_id) no_groups

  unchanged :
      (out : Result DeadTriggerRetryReport Halt) (s : Runtime.Runtime W Q)
      → Ends out
      → Ends (continue out (λ report. modify record_dead_trigger_depth >> pure report) s).0
  unchanged (ok report) s ends = ends
  unchanged (err halt) s ends = ends

  drained-Ends :
      (drained : List DeadTriggerRecord) (s : Runtime.Runtime W Q)
      → Ends (retry_drained W Q show_id r drained s).0
  unfolding retry_drained
  drained-Ends drained s =
      let (e, f) = all-IsKeyed show_id drained no_groups (refl, refl) in
      unchanged _ _ (each_lem _ _ _ (new_report (length drained)) s e f)

  Ends-err :
      (out : Result DeadTriggerRetryReport Halt) (halt : Halt)
      → Ends out
      → out ≡ err halt
      → (error : IoError) × (halt ≡ returned (storage error))
  Ends-err (ok after) halt ends h = ground arith
  Ends-err (err e) halt (error, eq) h = (error, ground arith)

  module _ (s : Runtime.Runtime W Q) where
    drain_err_lem :
        (answer : Result (List DeadTriggerRecord) IoError) (s1 : Runtime.Runtime W Q) (halt : Halt)
        → (continue (map_err (λ e. returned (storage e)) answer) (retry_drained W Q show_id r) s1).0
          ≡ err halt
        → (error : IoError) × (halt ≡ returned (storage error))
    drain_err_lem (err e) s1 halt h = (e, ground arith)
    drain_err_lem (ok records) s1 halt h =
        Ends-err (retry_drained W Q show_id r records s1).0 halt (drained-Ends records s1) h

    -- If a retry pass fails, an operation of the dead-trigger queue failed: the `expect` on the event of a
    -- group never panics.
    pub retry_dead_triggers_err :
        (halt : Halt)
        → (retry_dead_triggers W Q show_id r s).0 ≡ err halt
        → (error : IoError) × (halt ≡ returned (storage error))
    unfolding retry_dead_triggers
    retry_dead_triggers_err halt h =
        drain_err_lem (Q.drain s.dead).0 (record s { dead = (Q.drain s.dead).1 }) halt h
