-- ===== src/Runtime/Metrics.antt =====
-- The sweeps that publish the sizes of the stores and the broker's backlog, and the change of queue.
use triggerlane.Common.{ℕ, String, List, [], ◌∷◌, Result, ok, err}
use triggerlane.DeadTriggerQueue.{DeadTriggerQueue}
use triggerlane.EventStore.{EventStore}
use triggerlane.Runtime.{
  Worklane, Runtime, emit, record_dead_trigger_depth, event_store_records, event_store_bytes,
  dead_triggers, dead_trigger_bytes, broker_pending,
}

module _ (W : Worklane) (Q : DeadTriggerQueue) where
  -- The gauges are set one after the other.
  unfoldable pub record_store_metrics : (S : EventStore) → S.State → Runtime W Q → Runtime W Q
  record_store_metrics S store s =
      let s1 = emit (event_store_records (S.len store)) s in
      let s2 = emit (event_store_bytes (S.size_bytes store)) s1 in
      let s3 = emit (dead_triggers (Q.len s2.dead)) s2 in
      emit (dead_trigger_bytes (Q.size_bytes s3.dead)) s3

  abbrev pub publish_pending : String → Result ℕ W.Error → Runtime W Q → Runtime W Q
  publish_pending lane (ok pending) s = emit (broker_pending lane pending) s
  publish_pending lane (err error) s = s

  -- The body of the loop: a lane that is not valid, or whose count cannot be read, is passed over.
  unfoldable pub record_lane : String → Result W.Lane W.LaneError → Runtime W Q → Runtime W Q
  record_lane lane (err error) s = s
  record_lane lane (ok parsed) s =
      let (answer, broker) = W.pending_count parsed s.broker in
      publish_pending lane answer (record s { broker = broker })

  unfoldable pub record_each_lane : List String → Runtime W Q → Runtime W Q
  unfolding record_lane
  record_each_lane [] s = s
  record_each_lane (lane ∷ lanes) s =
      record_each_lane lanes (record_lane lane (W.lane_try_from lane) s)

  unfoldable pub record_broker_metrics : Runtime W Q → Runtime W Q
  unfolding record_each_lane
  record_broker_metrics s = record_each_lane s.observed_lanes s

-- `TriggerRuntime::with_dead_trigger_queue`
unfoldable pub with_dead_trigger_queue :
    (W : Worklane) (Q Q' : DeadTriggerQueue) → Q'.State → Runtime W Q → Runtime W Q'
with_dead_trigger_queue W Q Q' dead s = record_dead_trigger_depth (record {
  broker = s.broker;
  dead = dead;
  observed_lanes = s.observed_lanes;
  slept = s.slept;
  metrics = s.metrics;
  traces = s.traces;
})
