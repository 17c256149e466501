-- ===== src/Ingest.antt =====
-- crates/triggerlane-runtime/src/lib.rs: `EventIngest`, the event store in front of the runtime.
pub mod Laws
pub mod Recovery
use triggerlane.Common.{
  ℕ, ◌+◌, String, Bool, true, false, List, [], ◌∷◌, Action, Option, none, some, pure, with_error,
  ◌>>=◌, ◌>>◌,
}
use triggerlane.Event.{EventId, EventEnvelope}
use triggerlane.DeadTriggerQueue.{DeadTriggerQueue}
use triggerlane.EventStore.{EventStore, find_by_idempotency_key}
use triggerlane.Jsonl.Read.{IoError}
use triggerlane.Runtime
use triggerlane.Runtime.{Worklane, TriggerRuntime, HandleReport, Halt, returned, storage}
use triggerlane.Runtime.Handle.{handle}

pub record IngestReport : Type 0 where
  pub event_id : String
  pub handle : HandleReport
  pub deduplicated : Bool

pub record AcceptReport : Type 0 where
  pub event_id : String
  pub deduplicated : Bool

-- The store and the runtime of an `EventIngest`, which its methods change.
pub record Ingest (S : EventStore) (W : Worklane) (Q : DeadTriggerQueue) : Type 0 where
  pub store : S.State
  pub runtime : Runtime.Runtime W Q

module _ (S : EventStore) where
  -- The stored event with the same idempotency key.
  unfoldable pub earlier : S.State → Option String → Option EventEnvelope
  earlier store none = none
  earlier store (some key) = find_by_idempotency_key S key store

module _ (S : EventStore) (W : Worklane) (Q : DeadTriggerQueue) where
  abbrev pub on_store : {A : Type 0} → Action S.State IoError A → Action (Ingest S W Q) Halt A
  on_store m =
      with_error (λ e. returned (storage e))
        (λ s. let (r, store) = m s.store in (r, record s { store = store }))

  abbrev pub on_runtime :
      {A : Type 0} → Action (Runtime.Runtime W Q) Halt A → Action (Ingest S W Q) Halt A
  on_runtime m s = let (r, runtime) = m s.runtime in (r, record s { runtime = runtime })

  module _ (show_id : EventId → String) (r : TriggerRuntime) where
    -- `EventIngest::ingest`, from the answer of the lookup on.
    unfoldable pub ingest_after :
        Option EventEnvelope → EventEnvelope → Action (Ingest S W Q) Halt IngestReport
    ingest_after (some existing) event = pure (record {
      event_id = show_id existing.id;
      handle = record { submitted = []; failed = [] };
      deduplicated = true;
    })
    ingest_after none event = do
      on_store (S.append event)
      handled ← on_runtime (handle W Q show_id r event)
      on_store (S.mark_delivered event.id)
      pure (record { event_id = show_id event.id; handle = handled; deduplicated = false })

    unfoldable pub ingest : EventEnvelope → Action (Ingest S W Q) Halt IngestReport
    unfolding earlier ingest_after
    ingest event s = ingest_after (earlier S s.store event.metadata.idempotency_key) event s

    unfoldable pub accept_after :
        Option EventEnvelope → EventEnvelope → Action (Ingest S W Q) Halt AcceptReport
    accept_after (some existing) event =
        pure (record { event_id = show_id existing.id; deduplicated = true })
    accept_after none event = do
      on_store (S.append event)
      pure (record { event_id = show_id event.id; deduplicated = false })

    unfoldable pub accept : EventEnvelope → Action (Ingest S W Q) Halt AcceptReport
    unfolding earlier accept_after
    accept event s = accept_after (earlier S s.store event.metadata.idempotency_key) event s

    unfoldable pub dispatch : EventEnvelope → Action (Ingest S W Q) Halt HandleReport
    dispatch event = do
      handled ← on_runtime (handle W Q show_id r event)
      on_store (S.mark_delivered event.id)
      pure handled

    -- The loop of `recover_undelivered`.
    unfoldable pub recover_each : List EventEnvelope → ℕ → Action (Ingest S W Q) Halt ℕ
    recover_each [] recovered = pure recovered
    recover_each (event ∷ pending) recovered = on_runtime (handle W Q show_id r event) >>= λ report.
        on_store (S.mark_delivered event.id) >>= λ u. recover_each pending (recovered + 1)

    unfoldable pub recover_undelivered : Action (Ingest S W Q) Halt ℕ
    unfolding recover_each
    recover_undelivered s = recover_each (S.undelivered s.store) 0 s
