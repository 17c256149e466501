-- ===== src/Cli/Serve/Maintenance.antt =====
-- What a maintenance round does.
use triggerlane.Common.{
  ℕ, ◌+◌, String, Bool, true, false, List, [], ◌∷◌, Result, ok, err, ◌≡◌, refl, arith, ◌∙◌, ◌||◌,
  if◌then◌else◌,
}
use triggerlane.Common.Int.{ℤ}
use triggerlane.DeadTriggerQueue.{DeadTriggerQueue}
use triggerlane.EventStore.{EventStore}
use triggerlane.Jsonl.Read.{IoError}
use triggerlane.Retention.{AutoRetention, is_unbounded}
use triggerlane.Runtime
use triggerlane.Runtime.{Worklane, record_dead_trigger_depth}
use triggerlane.Runtime.Handle.{enforce_dead_trigger_retention}
use triggerlane.Runtime.Metrics.{
  record_store_metrics, record_broker_metrics, record_each_lane, record_lane,
}
use triggerlane.Ingest.{Ingest}
use triggerlane.Cli.Serve.{maintain, enforce_bounds}

-- The sum of two counts, or the first error.
abbrev pub removed : Result ℕ IoError → Result ℕ IoError → Result ℕ IoError
removed (ok n) (ok m) = ok (n + m)
removed (ok n) (err e) = err e
removed (err e) dead = err e

abbrev pub fails : Result ℕ IoError → Bool
fails (ok n) = false
fails (err e) = true

module _ (S : EventStore) (W : Worklane) (Q : DeadTriggerQueue) where
  record_lane_dead :
      (lane : String) (answer : Result W.Lane W.LaneError) (s : Runtime.Runtime W Q)
      → (record_lane W Q lane answer s).dead ≡ s.dead
  unfolding record_lane
  record_lane_dead lane answer s = ground arith

  record_each_lane_dead :
      (lanes : List String) (s : Runtime.Runtime W Q) → (record_each_lane W Q lanes s).dead ≡ s.dead
  unfolding record_each_lane
  record_each_lane_dead [] s = refl
  record_each_lane_dead (lane ∷ lanes) s =
      record_each_lane_dead lanes (record_lane W Q lane (W.lane_try_from lane) s)
      ∙ record_lane_dead lane (W.lane_try_from lane) s

  -- The sweeps of metrics leave the queue alone.
  swept : Ingest S W Q → Runtime.Runtime W Q
  swept s = record_store_metrics W Q S s.store (record_broker_metrics W Q s.runtime)

  swept_dead : (s : Ingest S W Q) → (swept s).dead ≡ s.runtime.dead
  unfolding swept record_store_metrics record_broker_metrics
  swept_dead s = record_each_lane_dead s.runtime.observed_lanes s.runtime

  -- A maintenance round with no bound succeeds, removes nothing and leaves store and queue alone.
  -- With a bound it enforces it on the store and, if that succeeds, on the queue; it succeeds if
  -- both do, and counts what both removed.
  pub maintain_cases :
      (policy : AutoRetention) (now : ℤ) (s : Ingest S W Q)
      → let after = maintain S W Q policy now s in
        let (events, store) = S.enforce_retention policy now s.store in
        let (dead, queue) = Q.enforce_retention policy now s.runtime.dead in
        (after.0 ≡ (if is_unbounded policy then ok 0 else removed events dead))
        × (after.1.store ≡ (if is_unbounded policy then s.store else store))
        × (after.1.runtime.dead
            ≡ (if is_unbounded policy || fails events then s.runtime.dead else queue))
  unfolding maintain enforce_bounds enforce_dead_trigger_retention swept
  maintain_cases policy now s =
      (ground (arith, swept_dead s), ground (arith, swept_dead s), ground (arith, swept_dead s))
