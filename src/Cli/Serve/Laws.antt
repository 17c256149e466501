-- ===== src/Cli/Serve/Laws.antt =====
-- The channel and the store stay in step, whatever is posted, dispatched or fails.
use triggerlane.Common.{
  String, Bool, false, not, ◌||◌, List, [], ◌∷◌, ◌++◌, ◌≡◌, inl, inr, arith, filter, contains, ◌==◌,
  nat_eq, fun_ext, sym, ◌∙◌, ap, subst,
}
use triggerlane.Event.{EventId, EventEnvelope}
use triggerlane.DeadTriggerQueue.{DeadTriggerQueue}
use triggerlane.EventStore.{EventStore}
use triggerlane.EventStore.Laws.{IsEventStore}
use triggerlane.EventStore.Memory.{ids}
use triggerlane.Runtime.{Worklane, TriggerRuntime, Halt}
use triggerlane.Http.Post.{Accepting}
use triggerlane.Cli.Serve.{receive, dispatch_next}
use triggerlane.Cli.Serve.Distinct.{
  Distinct, but_new, contains-filter, filter_or, rest_lem, keep_last, drop_last, same-Distinct,
  stored-Distinct,
}
use triggerlane.Cli.Serve.Async.{
  Step, accepted, unstored, unsent, dispatched, undispatched, Steps, done, step, InStep, gone,
  waiting, dispatch_ok, dispatch_err, accept_event_ok, accept_event_unsent, accept_event_unstored,
}

module _ (S : EventStore) (D : IsEventStore S) where
  popped :
      (lost lost' : List EventId) (store store' : S.State) (event : EventEnvelope)
      (rest : List EventEnvelope)
      → S.all store' ≡ S.all store
      → ((id : EventId) → gone S D lost' store' id ≡ (id == event.id || gone S D lost store id))
      → Distinct (ids (S.all store))
      → event ∷ rest ≡ waiting S D lost store
      → rest ≡ waiting S D lost' store'
  popped lost lost' store store' event rest all went distinct h =
      sym (rest_lem (gone S D lost store) (S.all store) event rest distinct h)
      ∙ ap (λ (g : EventId → Bool). filter (λ e. not (g e.id)) (S.all store)) (sym (fun_ext went))
      ∙ ap (filter (λ e. not (gone S D lost' store' e.id))) (sym all)

  pushed :
      (lost : List EventId) (store store' : S.State) (event : EventEnvelope)
      → S.all store' ≡ S.all store ++ event ∷ []
      → ((id : EventId) → gone S D lost store' id ≡ gone S D lost store id)
      → gone S D lost store event.id ≡ false
      → waiting S D lost store ++ event ∷ [] ≡ waiting S D lost store'
  pushed lost store store' event all went new =
      keep_last (λ e. not (gone S D lost store e.id)) (S.all store) event (ap not new)
      ∙ ap (λ (g : EventId → Bool). filter (λ e. not (g e.id)) (S.all store ++ event ∷ []))
          (sym (fun_ext went))
      ∙ ap (filter (λ e. not (gone S D lost store' e.id))) (sym all)

  passed :
      (lost : List EventId) (store store' : S.State) (event : EventEnvelope)
      → S.all store' ≡ S.all store ++ event ∷ []
      → ((id : EventId)
          → gone S D (event.id ∷ lost) store' id ≡ (id == event.id || gone S D lost store id))
      → contains (ids (S.all store)) event.id ≡ false
      → waiting S D lost store ≡ waiting S D (event.id ∷ lost) store'
  passed lost store store' event all went new =
      sym (but_new event.id (waiting S D lost store) (contains-filter _ (S.all store) event.id new))
      ∙ sym (filter_or (λ e. e.id == event.id) (λ e. gone S D lost store e.id) (S.all store))
      ∙ drop_last (λ e. not (e.id == event.id || gone S D lost store e.id)) (S.all store) event
          (ground arith)
      ∙ ap (λ (g : EventId → Bool). filter (λ e. not (g e.id)) (S.all store ++ event ∷ []))
          (sym (fun_ext went))
      ∙ ap (filter (λ e. not (gone S D (event.id ∷ lost) store' e.id))) (sym all)

  same_gone :
      (lost : List EventId) (store store' : S.State)
      → S.all store' ≡ S.all store
      → ((id : EventId) → D.is_delivered store' id ≡ D.is_delivered store id)
      → waiting S D lost store ≡ waiting S D lost store'
  same_gone lost store store' all went =
      ap (λ (g : EventId → Bool). filter (λ e. not (contains lost e.id || g e.id)) (S.all store))
        (sym (fun_ext went))
      ∙ ap (filter (λ e. not (gone S D lost store' e.id))) (sym all)

module _ (S : EventStore) (D : IsEventStore S) (W : Worklane) (Q : DeadTriggerQueue)
    (show_id : EventId → String) (show_halt : Halt → String) (r : TriggerRuntime) where
  received :
      {lost : List EventId} (s : Accepting S W Q) (event : EventEnvelope)
      (channel : List EventEnvelope)
      → s.channel ≡ event ∷ channel
      → InStep S D W Q show_id show_halt r lost (receive S W Q show_id r (event ∷ channel) s)
      → InStep S D W Q show_id show_halt r lost (dispatch_next S W Q show_id r s)
  unfolding dispatch_next
  received {lost} s event channel e inv =
      subst
        (λ (l : List EventEnvelope).
          InStep S D W Q show_id show_halt r lost (receive S W Q show_id r l s))
        (sym e) inv

  -- Any step keeps the channel in step with the store: it holds the stored events that are neither
  -- delivered nor lost, in the order in which they were stored.
  step_lem :
      {lost lost' : List EventId} {s s' : Accepting S W Q}
      → InStep S D W Q show_id show_halt r lost s
      → Step S D W Q show_id show_halt r lost s lost' s'
      → InStep S D W Q show_id show_halt r lost' s'
  unfolding receive
  step_lem {lost} {lost'} {s} {s'} inv (accepted event report new unseen h) =
      elim (accept_event_ok S D W Q show_id show_halt r event s report h) [
        | inl same ↦
            subst (λ (t : Accepting S W Q). InStep S D W Q show_id show_halt r lost t) (sym same)
              inv
        | inr (all, went, channel) ↦ record {
          distinct = stored-Distinct _ _ event all inv.distinct new;
          channel_lem =
              channel
              ∙ ap (λ l. l ++ event ∷ []) inv.channel_lem
              ∙ pushed S D lost s.ingest.store _ event all
                  (λ id. ap (λ b. contains lost id || b) (went id)) unseen;
        }
      ]
  step_lem {lost} {lost'} {s} {s'} inv (unstored event error failure h failed) =
      let (all, went, channel) =
        accept_event_unstored S D W Q show_id show_halt r event s error failure h failed in
      record {
        distinct = same-Distinct _ _ all inv.distinct;
        channel_lem = channel ∙ inv.channel_lem ∙ same_gone S D lost s.ingest.store _ all went;
      }
  step_lem {lost} {lost'} {s} {s'} inv (unsent event error new h appended) =
      let (all, went, channel) =
        accept_event_unsent S D W Q show_id show_halt r event s error h appended in
      record {
        distinct = stored-Distinct _ _ event all inv.distinct new;
        channel_lem =
            channel
            ∙ inv.channel_lem
            ∙ passed S D _ s.ingest.store _ event all (λ id. ground (arith, went id)) new;
      }
  step_lem {lost} {lost'} {s} {s'} inv (dispatched event channel report e h) =
      let (all, went) = dispatch_ok S D W Q show_id show_halt r event s.ingest report h in
      received s event channel e (record {
        distinct = same-Distinct _ _ all inv.distinct;
        channel_lem =
            popped S D lost lost s.ingest.store _ event channel all (λ id. ground (arith, went id))
              inv.distinct (sym e ∙ inv.channel_lem);
      })
  step_lem {lost} {lost'} {s} {s'} inv (undispatched event channel error e h) =
      let (all, went) = dispatch_err S D W Q show_id show_halt r event s.ingest error h in
      received s event channel e (record {
        distinct = same-Distinct _ _ all inv.distinct;
        channel_lem =
            popped S D lost (event.id ∷ lost) s.ingest.store _ event channel all
              (λ id. ground (arith, went id)) inv.distinct (sym e ∙ inv.channel_lem);
      })

  -- However dispatches and posts of events with ids not seen before follow one another, and whatever
  -- fails of them: if the channel was in step with the store, it holds afterwards, in the order of
  -- the store, the stored events that are neither delivered nor lost, and no two stored events have
  -- the same id. Lost are those that a dispatch failed on or that a closed channel did not take.
  pub Steps-InStep :
      {lost lost' : List EventId} {s s' : Accepting S W Q}
      → InStep S D W Q show_id show_halt r lost s
      → Steps S D W Q show_id show_halt r lost s lost' s'
      → InStep S D W Q show_id show_halt r lost' s'
  Steps-InStep inv done = inv
  Steps-InStep inv (step steps last) = step_lem (Steps-InStep inv steps) last

  -- If nothing is lost and the channel is empty at the end of any number of posts and dispatches that
  -- began in step, no stored event is undelivered.
  pub Steps-drained :
      {lost : List EventId} {s s' : Accepting S W Q}
      → InStep S D W Q show_id show_halt r lost s
      → Steps S D W Q show_id show_halt r lost s [] s'
      → s'.channel ≡ []
      → S.undelivered s'.ingest.store ≡ []
  Steps-drained {lost} {s} {s'} inv steps empty =
      D.undelivered_lem s'.ingest.store ∙ sym (Steps-InStep inv steps).channel_lem ∙ empty
