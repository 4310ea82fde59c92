-- ===== src/Push/Tally.antt =====
-- src/push/dispatcher.ts: what `dispatch` counts, and that a send that throws stops no other.
use critalarm_server.Prelude.{
  ℕ, ◌+◌, ◌==◌, Bool, true, false, not, ◌&&◌, none, some, List, [], ◌∷◌, ◌++◌, ◌≡◌, refl, ap, inl,
  inr, Option-cases, arith, count_where, count_where-append, if◌then◌else◌,
}
use mathlib.Core.Path.{subst}
use critalarm_server.Incident.Types.{DeliveryEvent}
use critalarm_server.Push.Types.{
  PushDevice, LiveActivityPush, Answer, answered, threw, Request, alarm, activity, Log,
  PushDispatchers, Dispatch, PushStore,
}
use critalarm_server.Push.Dispatcher.{
  live_activity_event, owning_account, is_accepted, tally_alarm, after_answer, send_alarm,
  send_each, send_to_devices, recipients,
}
use critalarm_server.Push.Activities.{
  LiveActivityTarget, tally_activity, update_each, update_live_activities, dispatch_event,
  dispatch_each, dispatch, fresh_dispatch, live_activity_push,
}

-- An alarm push that the provider took, and any push whose send threw.
abbrev pub was_delivered : Request × Answer → Bool
was_delivered (alarm device event, answered result) = is_accepted result.status && not result.stale
was_delivered _ = false

abbrev pub was_thrown : Request × Answer → Bool
was_thrown (request, threw) = true
was_thrown (request, answered result) = false

-- The tally is what the calls made so far say.
pub record IsTallied (r : Dispatch) : Type 0 where
  pub delivered : r.delivered ≡ count_where was_delivered r.log
  pub failed : r.failed ≡ count_where was_thrown r.log

-- One more call in the log.
abbrev logged : Request → Answer → Dispatch → Dispatch
logged request answer r = record r { log = r.log ++ (request, answer) ∷ [] }

IsTallied-step :
    (entry : Request × Answer) (r r' : Dispatch)
    → r'.log ≡ r.log ++ entry ∷ []
    → r'.delivered ≡ r.delivered + (if was_delivered entry then 1 else 0)
    → r'.failed ≡ r.failed + (if was_thrown entry then 1 else 0)
    → IsTallied r
    → IsTallied r'
unfolding count_where
IsTallied-step entry r r' log delivered failed t = record {
  delivered =
      rw (log, count_where-append was_delivered r.log _) (omega (arith, t.delivered, delivered));
  failed = rw (log, count_where-append was_thrown r.log _) (omega (arith, t.failed, failed));
}

tally_alarm-IsTallied :
    (device : PushDevice) (event : DeliveryEvent) (answer : Answer) (r : Dispatch)
    → IsTallied r
    → IsTallied (tally_alarm device answer (logged (alarm device event) answer r))
unfolding tally_alarm after_answer
tally_alarm-IsTallied device event threw r t =
    IsTallied-step (alarm device event, threw) r _ refl (omega arith) refl t
tally_alarm-IsTallied device event (answered result) r t =
    IsTallied-step (alarm device event, answered result) r _ refl refl (omega arith) t

tally_activity-IsTallied :
    (push : LiveActivityPush) (answer : Answer) (r : Dispatch)
    → IsTallied r
    → IsTallied (tally_activity push.token answer (logged (activity push) answer r))
unfolding tally_activity
tally_activity-IsTallied push threw r t =
    IsTallied-step (activity push, threw) r _ refl (omega arith) refl t
tally_activity-IsTallied push (answered result) r t =
    IsTallied-step (activity push, answered result) r
      (tally_activity push.token (answered result) (logged (activity push) (answered result) r))
      (ground arith) (ground arith) (ground arith) t

send_each-IsTallied :
    (senders : PushDispatchers) (event : DeliveryEvent) (devices : List PushDevice) (r : Dispatch)
    → IsTallied r
    → IsTallied (send_each senders event devices r)
unfolding send_each
send_each-IsTallied senders event [] r t = t
send_each-IsTallied senders event (device ∷ devices) r t =
    send_each-IsTallied senders event devices _
      (tally_alarm-IsTallied device event (send_alarm senders r device event) r t)

update_each-IsTallied :
    (sender : Log → LiveActivityPush → Answer) (push_for : LiveActivityTarget → LiveActivityPush)
    (targets : List LiveActivityTarget) (r : Dispatch)
    → ((target : LiveActivityTarget) → (push_for target).token ≡ target.token)
    → IsTallied r
    → IsTallied (update_each sender push_for targets r)
unfolding update_each
update_each-IsTallied sender push_for [] r token t = t
update_each-IsTallied sender push_for (target ∷ rest) r token t =
    let push = push_for target in
    update_each-IsTallied sender push_for rest _ token (
      subst
        (λ k.
          IsTallied
            (tally_activity k (sender r.log push) (logged (activity push) (sender r.log push) r)))
        (token target) (tally_activity-IsTallied push (sender r.log push) r t))

update_live_activities-IsTallied :
    (senders : PushDispatchers) (event : DeliveryEvent) (account_id : ℕ) (r : Dispatch)
    → IsTallied r
    → IsTallied (update_live_activities senders event account_id r)
unfolding update_live_activities live_activity_push
update_live_activities-IsTallied senders event account_id r t =
    elim (Option-cases (live_activity_event event.kind)) [
      | inl e ↦ rw (e, update_live_activities) t
      | inr (action, e) ↦ elim (Option-cases senders.live_activity) [
        | inl e' ↦ rw (e, e', update_live_activities) t
        | inr (sender, e') ↦ elim (Option-cases event.incident_id) [
          | inl e'' ↦ rw (e, e', e'', update_live_activities) t
          | inr (id, e'') ↦
              rw (e, e', e'', update_live_activities)
                (update_each-IsTallied sender _ _ r (λ target. refl) t)
        ]
      ]
    ]

dispatch_event-IsTallied :
    (senders : PushDispatchers) (event : DeliveryEvent) (r : Dispatch)
    → IsTallied r
    → IsTallied (dispatch_event senders event r)
unfolding dispatch_event send_to_devices
dispatch_event-IsTallied senders event r t = elim (Option-cases (owning_account event r.db)) [
  | inl e ↦ rw (e, dispatch_event) t
  | inr (account_id, e) ↦
      rw (e, dispatch_event)
        (update_live_activities-IsTallied senders event account_id _
          (send_each-IsTallied senders event (recipients event account_id r.db) r t))
]

dispatch_each-IsTallied :
    (senders : PushDispatchers) (events : List DeliveryEvent) (r : Dispatch)
    → IsTallied r
    → IsTallied (dispatch_each senders events r)
unfolding dispatch_each
dispatch_each-IsTallied senders [] r t = t
dispatch_each-IsTallied senders (event ∷ events) r t =
    dispatch_each-IsTallied senders events _ (dispatch_event-IsTallied senders event r t)

-- Whatever the senders answer, `dispatch` reports as delivered the alarm pushes of the batch that a
-- provider answered with a status from 200 to 299 and not as stale, and as failed the sends that
-- threw, left out when there is none.
pub dispatch_tally :
    (senders : PushDispatchers) (events : List DeliveryEvent) (db : PushStore)
    → let result = (dispatch senders events db).0 in
      let log = (dispatch senders events db).1.log in
      (result.delivered ≡ count_where was_delivered log)
      × (result.failed
          ≡ (if count_where was_thrown log == 0 then none else some (count_where was_thrown log)))
unfolding dispatch count_where
dispatch_tally senders events db =
    let t =
      dispatch_each-IsTallied senders events (fresh_dispatch db)
        (record { delivered = refl; failed = refl }) in
    (t.delivered, ap (λ n. if n == 0 then none else some n) t.failed)
