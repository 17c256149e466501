-- ===== src/Event/Chain.antt =====
-- Chains of follow-up events: what an event inherits from the first of its chain.
use triggerlane.Common.{String, ◌≡◌, none, some, List, ℕ, arith}
use triggerlane.Common.Int.{ℤ}
use triggerlane.Event.{EventId, EventType, EventEnvelope, Source, follow_up, unwrap_or}

module _ (show_id : EventId → String) where
  -- `e` was emitted at the end of a chain that began with `root`; `cause` is the event before `e`.
  pub data Descends (root : EventEnvelope) : EventEnvelope → EventEnvelope → Type 0 where
    first :
        {cause e : EventEnvelope} (id : EventId) (now : ℤ) (source : Source)
        (event_type : EventType) (payload : List ℕ)
        → cause ≡ root
        → e ≡ follow_up show_id cause id now source event_type payload
        → Descends root cause e
    next :
        {before cause e : EventEnvelope} (id : EventId) (now : ℤ) (source : Source)
        (event_type : EventType) (payload : List ℕ)
        → Descends root before cause
        → e ≡ follow_up show_id cause id now source event_type payload
        → Descends root cause e

  -- What a chain from `root` is known by: its correlation id, or else its own id.
  abbrev pub chain_id : EventEnvelope → String
  chain_id root = unwrap_or root.metadata.correlation_id (show_id root.id)

  -- However long the chain, an event in it carries the correlation id of the first event, or the
  -- first event's id if that had none, with the first event's tenant and trace; it names the event
  -- before it as its cause, and has no idempotency key.
  pub Descends-inherits :
      (root cause e : EventEnvelope)
      → Descends root cause e
      → (e.metadata.correlation_id ≡ some (chain_id root))
        × (e.metadata.tenant_id ≡ root.metadata.tenant_id)
        × (e.metadata.trace_id ≡ root.metadata.trace_id)
        × (e.metadata.causation_id ≡ some (show_id cause.id))
        × (e.metadata.idempotency_key ≡ none)
  unfolding follow_up
  Descends-inherits root cause e (first id now source event_type payload p q) = ground arith
  Descends-inherits root cause e (next {before} id now source event_type payload d q) =
      ground (arith, Descends-inherits root before cause d)
