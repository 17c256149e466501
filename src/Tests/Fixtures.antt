-- ===== src/Tests/Fixtures.antt =====
-- A small deployment: two triggers, one of them bound to a lane that is not valid, and a broker that
-- refuses the first submission.
use triggerlane.Common.{
  ◌≡◌, Bool, not, contains, set_insert, contains-set_insert, find, filter, nat_eq, ltb, length,
  ◌++◌, arith, refl, ℕ, zero, suc, String, ◌==◌, string_eq, if◌then◌else◌, List, [], ◌∷◌, some,
  Result, ok, err, Action, true,
}
use triggerlane.Common.Int.{pos}
use triggerlane.Event.{EventId, EventEnvelope, Source, default_metadata}
use triggerlane.Trigger.{
  Trigger, event_type_trigger, worklane_job_binding, new_binding, WorklaneJob,
}
use triggerlane.Registry.{RegisteredTrigger}
use triggerlane.DeadTrigger.{DeadTriggerRecord}
use triggerlane.DeadTriggerQueue.{DeadTriggerQueue}
use triggerlane.DeadTriggerQueue.Laws.{IsQueue}
use triggerlane.Jsonl.Read.{IoError, write}
use triggerlane.EventStore.{EventStore}
use triggerlane.EventStore.Laws.{IsEventStore}
use triggerlane.Ingest.{Ingest}
use triggerlane.Runtime.{HandleReport, Worklane, TriggerRuntime, Runtime}

abbrev pub show_id : EventId → String
show_id zero = "id-0"
show_id (suc n) = "id-n"

abbrev lane_named : String → Result String String
lane_named lane = if lane == "" then err "empty" else ok lane

-- The state is the number of submissions that will be refused.
abbrev flaky : String → Action ℕ String ℕ
flaky job zero = (ok 7, zero)
flaky job (suc n) = (err "down", n)

abbrev pub worklane : Worklane
worklane = record {
  State = ℕ;
  Lane = String;
  LaneError = String;
  NewJob = String;
  JobId = ℕ;
  Error = String;
  lane_try_from = lane_named;
  invalid_lane = λ lane error. error;
  new_job = λ lane kind payload max_attempts. kind;
  with_unique_key = λ job key. key;
  enqueue = flaky;
  pending_count = λ lane b. (ok b, b);
  show_id = λ job_id. "job-7";
  show_error = λ error. error;
}

-- A queue in memory that takes records up to a capacity.
abbrev offered : ℕ → DeadTriggerRecord → Action (List DeadTriggerRecord) IoError (Unit {0})
offered capacity r records =
    if ltb (length records) capacity then (ok tt, records ++ r ∷ []) else (err write, records)

abbrev pub queue : ℕ → DeadTriggerQueue
queue capacity = record {
  State = List DeadTriggerRecord;
  record_dead = offered capacity;
  all = λ records. records;
  drain = λ records. (ok records, []);
  prune = λ policy records. (ok 0, records);
  len = length;
  size_bytes = λ records. 0;
  enforce_retention = λ policy now records. (ok 0, records);
}

pub queue-IsQueue : (capacity : ℕ) → IsQueue (queue capacity)
queue-IsQueue capacity = record {
  record_ok = λ r q h. ground arith;
  record_err = λ r q error h. ground arith;
  drain_ok = λ q records h. (ground arith, refl);
  drain_err = λ q error h. ground arith;
  len_lem = λ q. refl;
}

-- Events in memory, with the ids of the delivered ones.
abbrev pub Log : Type 0
Log = List EventEnvelope × List EventId

abbrev pub with_event : EventEnvelope → Action Log IoError (Unit {0})
with_event event (log, delivered) = (ok tt, (log ++ event ∷ [], delivered))

abbrev pub marked : EventId → Action Log IoError (Unit {0})
marked id (log, delivered) = (ok tt, (log, set_insert id delivered))

abbrev not_in : List EventId → EventEnvelope → Bool
not_in delivered event = not (contains delivered event.id)

abbrev pub events : EventStore
events = record {
  State = Log;
  append = with_event;
  get = λ id s. find (λ event. event.id == id) s.0;
  all = λ s. s.0;
  mark_delivered = marked;
  undelivered = λ s. filter (not_in s.1) s.0;
  enforce_retention = λ policy now s. (ok 0, s);
  len = λ s. length s.0;
  size_bytes = λ s. 0;
  prune = λ policy s. (ok 0, s);
}

pub append_never_fails :
    (event : EventEnvelope) (s : Log) (error : IoError)
    → (with_event event s).0 ≡ err error
    → (with_event event s).1.0 ≡ s.0
append_never_fails event s error h = ground arith

pub mark_never_fails :
    (id : EventId) (s : Log) (error : IoError) (j : EventId)
    → (marked id s).0 ≡ err error
    → contains (marked id s).1.1 j ≡ contains s.1 j
mark_never_fails id s error j h = ground arith

abbrev pub events_laws : IsEventStore events
events_laws = record {
  is_delivered = λ s id. contains s.1 id;
  undelivered_lem = λ s. refl;
  append_ok = λ event s h. refl;
  append_err = append_never_fails;
  append_delivered = λ event s id. refl;
  mark_all = λ id s. refl;
  mark_ok = λ id s j h. contains-set_insert id j s.1;
  mark_err = mark_never_fails;
}

abbrev bound_to : String → Trigger → String → RegisteredTrigger
bound_to name trigger lane = record {
  name = name;
  priority = pos 1;
  enabled = true;
  trigger = trigger;
  binding = worklane_job_binding (new_binding lane "kind" 3);
}

abbrev pub good : RegisteredTrigger
good = bound_to "good" (event_type_trigger "ping") "lane"

abbrev pub bad : RegisteredTrigger
bad = bound_to "bad" (event_type_trigger "ping") ""

abbrev pub deployment : TriggerRuntime
deployment = record {
  registry = record { registrations = good ∷ bad ∷ [] };
  options = record { max_submission_attempts = 2; submission_backoff = 100 };
}

abbrev pub ping : EventEnvelope
ping = record {
  id = 0;
  source = Source.manual;
  event_type = "ping";
  payload = [];
  timestamp = pos 5;
  metadata = record default_metadata { idempotency_key = some "key" };
}

abbrev pub fresh : (capacity : ℕ) → Runtime worklane (queue capacity)
fresh capacity = record {
  broker = 1;
  dead = [];
  observed_lanes = [];
  slept = [];
  metrics = [];
  traces = [];
}

-- An event like `ping` that was stored and not delivered, as after a crash.
abbrev pub lost_ping : EventEnvelope
lost_ping = record ping { id = 3 }

abbrev pub start : Ingest events worklane (queue 5)
start = record { store = ([], []); runtime = fresh 5 }

abbrev pub restarted : Ingest events worklane (queue 5)
restarted = record { store = (lost_ping ∷ [], []); runtime = fresh 5 }

abbrev pub start_full : Ingest events worklane (queue 0)
start_full = record { store = ([], []); runtime = fresh 0 }

abbrev pub stored_ping : Ingest events worklane (queue 5)
stored_ping = record { store = (ping ∷ [], 0 ∷ []); runtime = fresh 5 }

abbrev pub with_failures : ℕ → Runtime worklane (queue 5)
with_failures n = record (fresh 5) { broker = n }

abbrev pub ping_job : WorklaneJob
ping_job = record { lane = "lane"; kind = "kind"; payload = []; max_attempts = 3 }

abbrev pub ping_failure : DeadTriggerRecord
ping_failure = record { event = ping; trigger_name = "bad"; error = "empty" }

-- The same failure was recorded twice.
abbrev pub twice : (capacity : ℕ) → Runtime worklane (queue capacity)
twice capacity = record (fresh capacity) { dead = ping_failure ∷ ping_failure ∷ [] }

abbrev pub ping_report : HandleReport
ping_report = record { submitted = "job-7" ∷ []; failed = ping_failure ∷ [] }
