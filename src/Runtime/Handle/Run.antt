-- ===== src/Runtime/Handle/Run.antt =====
-- The loop of `handle` over the triggers that match.
use triggerlane.Common.{
  String, List, [], ◌∷◌, ◌++◌, Result, ok, err, ◌≡◌, refl, map, length, arith, continue, ◌<◌, suc,
  append-nil, append_assoc, ◌<>◌, sym, ap, ◌∙◌,
}
use triggerlane.Event.{EventEnvelope}
use triggerlane.Trigger.{WorklaneJob, BindingError}
use triggerlane.Registry.{RegisteredTrigger}
use triggerlane.DeadTrigger.{DeadTriggerRecord}
use triggerlane.DeadTriggerQueue.{DeadTriggerQueue}
use triggerlane.DeadTriggerQueue.Laws.{IsQueue}
use triggerlane.Jsonl.Read.{IoError}
use triggerlane.Runtime
use triggerlane.Runtime.{
  Worklane, TriggerRuntime, HandleReport, Halt, returned, storage, emit, trigger_matches,
  show_binding_error,
}
use triggerlane.Runtime.Submit.Laws.{enqueue_with_retries_total, enqueue_with_retries_frame}
use triggerlane.Runtime.Submit.{enqueue_with_retries}
use triggerlane.Runtime.Handle.{
  Progress, Verdict, verdict, submit, settle, record_dead_trigger, dead_trigger_record, handle_one,
  handle_each,
}

-- The ids of the jobs that were submitted.
abbrev pub job_ids : List Verdict → List String
job_ids [] = []
job_ids (ok job_id ∷ verdicts) = job_id ∷ job_ids verdicts
job_ids (err error ∷ verdicts) = job_ids verdicts

-- The records of the triggers that failed.
abbrev pub failures : EventEnvelope → List RegisteredTrigger → List Verdict → List DeadTriggerRecord
failures event [] verdicts = []
failures event (r ∷ registrations) [] = []
failures event (r ∷ registrations) (ok job_id ∷ verdicts) = failures event registrations verdicts
failures event (r ∷ registrations) (err error ∷ verdicts) =
    record { event = event; trigger_name = r.name; error = error }
    ∷ failures event registrations verdicts

abbrev pub names : List RegisteredTrigger → List String
names = map (λ r. r.name)

abbrev pub advanced : EventEnvelope → Progress → List RegisteredTrigger → List Verdict → Progress
advanced event p registrations verdicts = record {
  matched_triggers = p.matched_triggers ++ names registrations;
  submitted = p.submitted ++ job_ids verdicts;
  failed = p.failed ++ failures event registrations verdicts;
}

pair_eq : {A B : Type 0} {a : A} (p : A × B) → p.0 ≡ a → p ≡ (a, p.1)
pair_eq (a, b) h = ap (λ c. (c, b)) h

module _ (W : Worklane) (Q : DeadTriggerQueue) (queue : IsQueue Q) (r : TriggerRuntime)
    (event : EventEnvelope) (identity : String) where
  -- What a registration came to, with the broker before and behind it: no job could be bound, or the
  -- broker took the job under the event's identity and the name of the trigger, or it did not.
  pub data Outcome (registration : RegisteredTrigger) (b : W.State) (v : Verdict) (b' : W.State)
      : Type 0 where
    unbound :
        (error : BindingError)
        → registration.binding.bind event ≡ err error
        → v ≡ err (show_binding_error error)
        → b' ≡ b
        → Outcome registration b v b'
    submitted :
        (job : WorklaneJob) (t : Runtime.Runtime W Q) (id : W.JobId)
        → registration.binding.bind event ≡ ok job
        → t.broker ≡ b
        → (enqueue_with_retries W Q r.options job (identity <> ":" <> registration.name) t).0
          ≡ ok (ok id)
        → (enqueue_with_retries W Q r.options job (identity <> ":" <> registration.name) t).1.broker
          ≡ b'
        → v ≡ ok (W.show_id id)
        → Outcome registration b v b'
    refused :
        (job : WorklaneJob) (t : Runtime.Runtime W Q) (error : W.Error)
        → registration.binding.bind event ≡ ok job
        → t.broker ≡ b
        → (enqueue_with_retries W Q r.options job (identity <> ":" <> registration.name) t).0
          ≡ ok (err error)
        → (enqueue_with_retries W Q r.options job (identity <> ":" <> registration.name) t).1.broker
          ≡ b'
        → v ≡ err (W.show_error error)
        → Outcome registration b v b'

  -- Each registration came to its verdict, one after the other on the broker.
  abbrev pub Served : W.State → List RegisteredTrigger → List Verdict → W.State → Type 0
  Served b [] [] b' = b' ≡ b
  Served b [] (v ∷ verdicts) b' = ⊥
  Served b (registration ∷ rest) [] b' = ⊥
  Served b (registration ∷ rest) (v ∷ verdicts) b' =
      (mid : W.State) × Outcome registration b v mid × Served mid rest verdicts b'

  -- The first registrations came to their verdicts; the next one failed as well, and recording that
  -- failed with the error.
  abbrev pub Stopped :
      IoError → W.State → List RegisteredTrigger → List Verdict → Runtime.Runtime W Q → Type 0
  Stopped error b [] verdicts s = ⊥
  Stopped error b (registration ∷ rest) [] s =
      (reason : String) × (dead : Q.State) × Outcome registration b (err reason) s.broker
      × (Q.record_dead (record { event = event; trigger_name = registration.name; error = reason })
            dead
          ≡ (err error, s.dead))
  Stopped error b (registration ∷ rest) (v ∷ verdicts) s =
      (mid : W.State) × Outcome registration b v mid × Stopped error mid rest verdicts s

  abbrev pub Account :
      W.State
      → List RegisteredTrigger
      → List Verdict
      → Result Progress Halt
      → Runtime.Runtime W Q
      → Type 0
  Account b registrations verdicts (ok q) s = Served b registrations verdicts s.broker
  Account b registrations verdicts (err halt) s =
      (error : IoError) × (halt ≡ returned (storage error))
      × Stopped error b registrations verdicts s

  -- How a part of the loop ends: every registration got its verdict, or the queue reported an error.
  abbrev pub Ends : Progress → List RegisteredTrigger → List Verdict → Result Progress Halt → Type 0
  Ends p registrations verdicts (ok q) =
      (length verdicts ≡ length registrations) × (q ≡ advanced event p registrations verdicts)
  Ends p registrations verdicts (err halt) =
      (error : IoError) × (halt ≡ returned (storage error))
      × (length verdicts < length registrations)

  pub record Ran (p : Progress) (registrations : List RegisteredTrigger) (b : W.State)
      (s : Runtime.Runtime W Q) (out : Result Progress Halt × Runtime.Runtime W Q) : Type 0 where
    pub verdicts : List Verdict
    pub ends : Ends p registrations verdicts out.0
    pub dead : Q.all out.1.dead ≡ Q.all s.dead ++ failures event registrations verdicts
    pub traces : out.1.traces ≡ s.traces
    pub account : Account b registrations verdicts out.0 out.1

  answered :
      (registration : RegisteredTrigger) (job : WorklaneJob) (s : Runtime.Runtime W Q)
      (answer : Result W.JobId W.Error)
      → registration.binding.bind event ≡ ok job
      → (enqueue_with_retries W Q r.options job (identity <> ":" <> registration.name) s).0
        ≡ ok answer
      → Outcome registration s.broker
          (verdict W Q answer)
          (enqueue_with_retries W Q r.options job (identity <> ":" <> registration.name) s).1.broker
  answered registration job s (ok id) e total = submitted job s id e refl total refl refl
  answered registration job s (err error) e total = refused job s error e refl total refl refl

  submit_lem :
      (registration : RegisteredTrigger) (bound : Result WorklaneJob BindingError)
      (s : Runtime.Runtime W Q)
      → registration.binding.bind event ≡ bound
      → let after = submit W Q r (identity <> ":" <> registration.name) bound s in
        (v : Verdict) × (after.0 ≡ ok v)
        × (after.1.dead ≡ s.dead)
        × (after.1.traces ≡ s.traces)
        × Outcome registration s.broker v after.1.broker
  unfolding submit
  submit_lem registration (err error) s e = (_, refl, refl, refl, unbound error e refl refl)
  submit_lem registration (ok job) s e =
      let key = identity <> ":" <> registration.name in
      let (answer, total) = enqueue_with_retries_total W Q r.options job key s in
      let (dead, traces) = enqueue_with_retries_frame W Q r.options job key s in
      (
        verdict W Q answer,
        rw total refl,
        rw total dead,
        rw total traces,
        rw total (answered registration job s answer e total),
      )

  abbrev matched : Progress → RegisteredTrigger → Progress
  matched p registration = record p {
    matched_triggers = p.matched_triggers ++ registration.name ∷ [];
  }

  settle_failed :
      (registration : RegisteredTrigger) (p : Progress) (error : String) (s : Runtime.Runtime W Q)
      (b : W.State) (answer : Result (Unit {0}) IoError)
      → Outcome registration b (err error) s.broker
      → (Q.record_dead (dead_trigger_record event registration.name error) s.dead).0 ≡ answer
      → Ran p
          (registration ∷ [])
          b
          s
          (settle W Q event registration.name (matched p registration) (err error) s)
  unfolding settle record_dead_trigger
  settle_failed registration p error s b (ok u) o h = record {
    verdicts = err error ∷ [];
    ends = rw h (refl, rw append-nil);
    dead = rw h (queue.record_ok _ s.dead h);
    traces = rw h refl;
    account = rw h (s.broker, o, refl);
  }
  settle_failed registration p error s b (err e) o h = record {
    verdicts = [];
    ends = rw h (e, refl, ground arith);
    dead = rw (h, append-nil) (queue.record_err _ s.dead e h);
    traces = rw h refl;
    account = rw h (e, refl, (error, s.dead, o, pair_eq _ h));
  }

  settle_lem :
      (registration : RegisteredTrigger) (p : Progress) (v : Verdict) (s : Runtime.Runtime W Q)
      (b : W.State)
      → Outcome registration b v s.broker
      → Ran p
          (registration ∷ [])
          b
          s
          (settle W Q event registration.name (matched p registration) v s)
  unfolding settle
  settle_lem registration p (ok job_id) s b o = record {
    verdicts = ok job_id ∷ [];
    ends = (refl, rw append-nil);
    dead = sym (append-nil (Q.all s.dead));
    traces = refl;
    account = (s.broker, o, refl);
  }
  settle_lem registration p (err error) s b o = settle_failed registration p error s b _ o refl

  shifted :
      {p : Progress} {registrations : List RegisteredTrigger} {b : W.State}
      {s t : Runtime.Runtime W Q} {out : Result Progress Halt × Runtime.Runtime W Q}
      → Q.all t.dead ≡ Q.all s.dead
      → t.traces ≡ s.traces
      → Ran p registrations b t out
      → Ran p registrations b s out
  shifted {p} {registrations} dead traces ran = record {
    verdicts = ran.verdicts;
    ends = ran.ends;
    dead = ran.dead ∙ ap (λ xs. xs ++ failures event registrations ran.verdicts) dead;
    traces = ran.traces ∙ traces;
    account = ran.account;
  }

  one_lem :
      (registration : RegisteredTrigger) (p : Progress) (s : Runtime.Runtime W Q)
      → Ran p (registration ∷ []) s.broker s (handle_one W Q r event identity registration p s)
  unfolding handle_one
  one_lem registration p s =
      let (v, total, dead, traces, o) =
        submit_lem registration (registration.binding.bind event)
          (emit (trigger_matches registration.name) s) refl in
      rw total (shifted (ap Q.all dead) traces (settle_lem registration p v _ s.broker o))

  failures_cons :
      (registration : RegisteredTrigger) (rest : List RegisteredTrigger) (v : Verdict)
      (ws : List Verdict)
      → failures event (registration ∷ rest) (v ∷ ws)
        ≡ failures event (registration ∷ []) (v ∷ []) ++ failures event rest ws
  failures_cons registration rest (ok job_id) ws = refl
  failures_cons registration rest (err error) ws = refl

  job_ids_cons :
      (v : Verdict) (ws : List Verdict) → job_ids (v ∷ ws) ≡ job_ids (v ∷ []) ++ job_ids ws
  job_ids_cons (ok job_id) ws = refl
  job_ids_cons (err error) ws = refl

  Ends-after :
      (registration : RegisteredTrigger) (rest : List RegisteredTrigger) (p q : Progress)
      (v : Verdict) (ws : List Verdict) (out : Result Progress Halt)
      → q ≡ advanced event p (registration ∷ []) (v ∷ [])
      → Ends q rest ws out
      → Ends p (registration ∷ rest) (v ∷ ws) out
  Ends-after registration rest p q v ws (ok t) eq (len, e) = (
    ap suc len,
    rw (
      e,
      eq,
      append_assoc,
      append_assoc,
      append_assoc,
      failures_cons registration rest v ws,
      job_ids_cons v ws,
    ),
  )
  Ends-after registration rest p q v ws (err halt) eq (error, e, lt) = (error, e, ground arith)

  account_cons :
      (registration : RegisteredTrigger) (rest : List RegisteredTrigger) (v : Verdict)
      (ws : List Verdict) (b mid b1 : W.State) (out : Result Progress Halt)
      (s : Runtime.Runtime W Q)
      → Outcome registration b v mid
      → b1 ≡ mid
      → Account b1 rest ws out s
      → Account b (registration ∷ rest) (v ∷ ws) out s
  account_cons registration rest v ws b mid b1 (ok q) s o e account = (b1, rw e o, account)
  account_cons registration rest v ws b mid b1 (err halt) s o e (error, same, stopped) =
      (error, same, (b1, rw e o, stopped))

  account_stopped :
      (registration : RegisteredTrigger) (rest : List RegisteredTrigger) (vs : List Verdict)
      (b : W.State) (halt : Halt) (s : Runtime.Runtime W Q)
      → Account b (registration ∷ []) vs (err halt) s
      → Account b (registration ∷ rest) vs (err halt) s
  account_stopped registration rest [] b halt s account = account
  account_stopped registration rest (v ∷ vs) b halt s (error, same, (mid, o, none_left)) =
      absurd none_left

  joined :
      (registration : RegisteredTrigger) (rest : List RegisteredTrigger) (p q : Progress)
      (s s1 : Runtime.Runtime W Q) (out : Result Progress Halt × Runtime.Runtime W Q)
      (vs : List Verdict)
      → length vs ≡ 1
      → q ≡ advanced event p (registration ∷ []) vs
      → Q.all s1.dead ≡ Q.all s.dead ++ failures event (registration ∷ []) vs
      → s1.traces ≡ s.traces
      → Served s.broker (registration ∷ []) vs s1.broker
      → Ran q rest s1.broker s1 out
      → Ran p (registration ∷ rest) s.broker s out
  joined registration rest p q s s1 out [] len eq dead traces served ran = ground arith
  joined registration rest p q s s1 out (v ∷ w ∷ vs) len eq dead traces served ran = ground arith
  joined registration rest p q s s1 out (v ∷ []) len eq dead traces (mid, o, e) ran = record {
    verdicts = v ∷ ran.verdicts;
    ends = Ends-after registration rest p q v ran.verdicts out.0 eq ran.ends;
    dead = rw (ran.dead, dead, append_assoc, failures_cons registration rest v ran.verdicts);
    traces = ran.traces ∙ traces;
    account =
        account_cons registration rest v ran.verdicts s.broker mid s1.broker out.0 out.1 o e
          ran.account;
  }

  stopped :
      (registration : RegisteredTrigger) (rest : List RegisteredTrigger) (vs : List Verdict)
      → length vs < 1
      → failures event (registration ∷ rest) vs ≡ failures event (registration ∷ []) vs
  stopped registration rest [] lt = refl
  stopped registration rest (v ∷ vs) lt = ground arith

  after_one :
      (registration : RegisteredTrigger) (rest : List RegisteredTrigger) (p : Progress)
      (s s1 : Runtime.Runtime W Q) (answer : Result Progress Halt)
      (each : Progress → Runtime.Runtime W Q → Result Progress Halt × Runtime.Runtime W Q)
      → ((q : Progress) → Ran q rest s1.broker s1 (each q s1))
      → Ran p (registration ∷ []) s.broker s (answer, s1)
      → Ran p (registration ∷ rest) s.broker s (continue answer each s1)
  after_one registration rest p s s1 (ok q) each ih one =
      joined registration rest p q s s1 _ one.verdicts one.ends.0 one.ends.1 one.dead one.traces
        one.account (ih q)
  after_one registration rest p s s1 (err halt) each ih one = record {
    verdicts = one.verdicts;
    ends = (one.ends.0, one.ends.1, ground arith);
    dead = rw (stopped registration rest one.verdicts one.ends.2) one.dead;
    traces = one.traces;
    account = account_stopped registration rest one.verdicts s.broker halt s1 one.account;
  }

  pub each_lem :
      (registrations : List RegisteredTrigger) (p : Progress) (s : Runtime.Runtime W Q)
      → Ran p registrations s.broker s (handle_each W Q r event identity registrations p s)
  unfolding handle_each
  each_lem [] p s = record {
    verdicts = [];
    ends = (refl, rw (append-nil, append-nil, append-nil));
    dead = sym (append-nil (Q.all s.dead));
    traces = refl;
    account = refl;
  }
  each_lem (registration ∷ rest) p s =
      after_one registration rest p s _ _ _ (λ q. each_lem rest q _) (one_lem registration p s)
