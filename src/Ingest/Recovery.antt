-- ===== src/Ingest/Recovery.antt =====
-- Recovery handles the events that were not delivered, in order.
use triggerlane.Common.{
  ℕ, ◌+◌, String, List, [], ◌∷◌, Result, ok, err, map_err, ◌≡◌, refl, arith, length, continue,
  ◌>>=◌, Action,
}
use triggerlane.Event.{EventId, EventEnvelope}
use triggerlane.DeadTriggerQueue.{DeadTriggerQueue}
use triggerlane.EventStore.{EventStore}
use triggerlane.EventStore.Laws.{IsEventStore}
use triggerlane.Jsonl.Read.{IoError}
use triggerlane.Runtime
use triggerlane.Runtime.{Worklane, TriggerRuntime, HandleReport, Halt, returned, storage}
use triggerlane.Runtime.Handle.{handle}
use triggerlane.Runtime.Replay.{ReplayEventReport}
use triggerlane.Runtime.Replay.Laws.{Handled, finished, handled}
use triggerlane.Ingest.{Ingest, recover_each, recover_undelivered, on_store}
use triggerlane.Ingest.Laws.{recover_undelivered_counts}

module _ (S : EventStore) (D : IsEventStore S) (W : Worklane) (Q : DeadTriggerQueue)
    (show_id : EventId → String) (r : TriggerRuntime) where
  -- From a state on, the events are handled on the way to the state of `out`.
  abbrev Recovers : List EventEnvelope → Runtime.Runtime W Q → Result ℕ Halt × Ingest S W Q → Type 0
  Recovers pending before out =
      (reports : List ReplayEventReport) × Handled W Q S show_id r pending before reports
        out.1.runtime

  after_marking :
      (pending : List EventEnvelope) (m : ℕ) (answer : Result (Unit {0}) IoError) (t : Ingest S W Q)
      (go : Action (Ingest S W Q) Halt ℕ)
      → ((u : Ingest S W Q) → (go u).0 ≡ ok m → Recovers pending u.runtime (go u))
      → (continue (map_err (λ e. returned (storage e)) answer) (λ u. go) t).0 ≡ ok m
      → Recovers pending t.runtime
          (continue (map_err (λ e. returned (storage e)) answer) (λ u. go) t)
  after_marking pending m (ok u) t go ih h = ih t h
  after_marking pending m (err e) t go ih h = ground arith

  after_handling :
      (event : EventEnvelope) (pending : List EventEnvelope) (m : ℕ)
      (answer : Result HandleReport Halt) (s : Ingest S W Q) (runtime : Runtime.Runtime W Q)
      (go : Action (Ingest S W Q) Halt ℕ)
      → handle W Q show_id r event s.runtime ≡ (answer, runtime)
      → ((u : Ingest S W Q) → (go u).0 ≡ ok m → Recovers pending u.runtime (go u))
      → (continue answer
          (λ report. on_store S W Q (S.mark_delivered event.id) >>= λ u. go)
          (record s { runtime = runtime })).0
        ≡ ok m
      → Recovers (event ∷ pending) s.runtime (
          continue answer
            (λ report. on_store S W Q (S.mark_delivered event.id) >>= λ u. go)
            (record s { runtime = runtime }))
  after_handling event pending m (err e) s runtime go eq ih h = ground arith
  after_handling event pending m (ok report) s runtime go eq ih h =
      let (reports, all) = after_marking pending m _ _ go ih h in (_, handled report eq all)

  each_lem :
      (pending : List EventEnvelope) (n m : ℕ) (s : Ingest S W Q)
      → (recover_each S W Q show_id r pending n s).0 ≡ ok m
      → Recovers pending s.runtime (recover_each S W Q show_id r pending n s)
  unfolding recover_each
  each_lem [] n m s h = ([], finished)
  each_lem (event ∷ pending) n m s h =
      after_handling event pending m _ s _ (recover_each S W Q show_id r pending (n + 1)) refl
        (λ u k. each_lem pending (n + 1) m u k) h

  -- If recovering succeeds, it has handled exactly the events that were not delivered, in the order of
  -- the store and each in the state that the one before left, and reports their number. The same
  -- events are stored as before, and none of them is undelivered any more.
  pub recover_undelivered_ok :
      (s : Ingest S W Q) (recovered : ℕ)
      → (recover_undelivered S W Q show_id r s).0 ≡ ok recovered
      → ((reports : List ReplayEventReport) × Handled W Q S show_id r
            (S.undelivered s.store)
            s.runtime
            reports
            (recover_undelivered S W Q show_id r s).1.runtime)
        × (recovered ≡ length (S.undelivered s.store))
        × (S.all (recover_undelivered S W Q show_id r s).1.store ≡ S.all s.store)
        × (S.undelivered (recover_undelivered S W Q show_id r s).1.store ≡ [])
  unfolding recover_undelivered
  recover_undelivered_ok s recovered h =
      let (n, all, none_left) = recover_undelivered_counts S D W Q show_id r s recovered h in
      (each_lem (S.undelivered s.store) 0 recovered s h, n, all, none_left)
