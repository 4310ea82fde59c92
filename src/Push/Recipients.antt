-- ===== src/Push/Recipients.antt =====
-- src/push/dispatcher.ts: whom a dispatch sends to.
use mathlib.Core.List.{append-nil, append_assoc}
use mathlib.Core.Path.{subst}
use critalarm_server.Prelude.{
  ℕ, true, false, str_eq, some, List, [], ◌∷◌, ◌++◌, ◌≡◌, refl, sym, ap, ◌∙◌, inl, inr, Bool-cases,
  Option-cases, arith, select, All, All-append, All-imp,
}
use critalarm_server.Incident.Types.{DeliveryEvent}
use critalarm_server.Push.Types.{
  PushDevice, LiveActivityPush, Answer, answered, threw, Request, alarm, activity, Log,
  PushDispatchers, DeviceRow, PushStore, Dispatch,
}
use critalarm_server.Push.Dispatcher.{
  live_activity_event, hears, owning_account, is_subscribed, subscribed, read_rows, push_device,
  subscribed_devices, recipients, after_answer, tally_alarm, send_alarm, send_each, send_to_devices,
}
use critalarm_server.Push.Activities.{
  LiveActivityTarget, update_each, update_live_activities, dispatch_event, dispatch_each, dispatch,
  fresh_dispatch,
}
use critalarm_server.Push.Unmoved.{
  Unmoved, owning_account-Unmoved, is_subscribed-Unmoved, tally_alarm-Unmoved,
  tally_activity-Unmoved, log-tally_activity,
}

log-tally_alarm :
    (device : PushDevice) (answer : Answer) (r : Dispatch)
    → (tally_alarm device answer r).log ≡ r.log
unfolding tally_alarm after_answer
log-tally_alarm device threw r = refl
log-tally_alarm device (answered result) r = refl

unfoldable pub requests_of : Log → List Request
requests_of [] = []
requests_of ((request, answer) ∷ log) = request ∷ requests_of log

requests_of-append : (l m : Log) → requests_of (l ++ m) ≡ requests_of l ++ requests_of m
unfolding requests_of
requests_of-append [] m = refl
requests_of-append ((request, answer) ∷ l) m = ap (λ t. request ∷ t) (requests_of-append l m)

abbrev pub alarms : DeliveryEvent → List PushDevice → List Request
alarms event [] = []
alarms event (device ∷ devices) = alarm device event ∷ alarms event devices

send_each-requests :
    (senders : PushDispatchers) (event : DeliveryEvent) (devices : List PushDevice) (r : Dispatch)
    → requests_of (send_each senders event devices r).log
      ≡ requests_of r.log ++ alarms event devices
unfolding send_each requests_of
send_each-requests senders event [] r = sym (append-nil (requests_of r.log))
send_each-requests senders event (device ∷ devices) r =
    let answer = send_alarm senders r device event in
    let log' : Log = r.log ++ (alarm device event, answer) ∷ [] in
    send_each-requests senders event devices _
    ∙ ap (λ l. requests_of l ++ alarms event devices)
        (log-tally_alarm device answer (record r { log = log' }))
    ∙ ap (λ l. l ++ alarms event devices)
        (requests_of-append r.log ((alarm device event, answer) ∷ []))
    ∙ append_assoc (requests_of r.log) (alarm device event ∷ []) (alarms event devices)

-- Whatever the senders answer, also when some or all of them throw, `sendToDevices` sends the event
-- once to each device of the account that is subscribed to the topic, has a token and hears events of
-- its kind, in the order of the query.
pub send_to_devices_all :
    (senders : PushDispatchers) (event : DeliveryEvent) (account_id : ℕ) (r : Dispatch)
    → requests_of (send_to_devices senders event account_id r).log
      ≡ requests_of r.log ++ alarms event (recipients event account_id r.db)
unfolding send_to_devices
send_to_devices_all senders event account_id r =
    send_each-requests senders event (recipients event account_id r.db) r

-- What is asked of an alarm push, on the database that the dispatch starts from.
abbrev pub Addressed : PushStore → Request × Answer → Type 0
Addressed db (alarm device event, answer) =
    (owning_account event db ≡ some device.account_id)
    × (is_subscribed device.id event.topic_hash db ≡ true)
    × (str_eq device.push_token "" ≡ false)
    × (hears event.kind device ≡ true)
Addressed db (activity push, answer) = Unit

record IsAddressed (db : PushStore) (r : Dispatch) : Type 0 where
  unmoved : Unmoved db r.db
  addressed : All (Addressed db) r.log

-- A device that the query returns and the filter keeps.
Chosen : DeliveryEvent → ℕ → PushStore → PushDevice → Type 0
Chosen event account_id db d =
    (d.account_id ≡ account_id)
    × (is_subscribed d.id event.topic_hash db ≡ true)
    × (str_eq d.push_token "" ≡ false)
    × (hears event.kind d ≡ true)

recipients-Chosen :
    (event : DeliveryEvent) (account_id : ℕ) (db : PushStore) (rows : List DeviceRow)
    → All (Chosen event account_id db) (
        select
          (hears event.kind)
          (read_rows (subscribed event.topic_hash account_id db) (push_device db) rows))
unfolding Chosen read_rows select subscribed
recipients-Chosen event account_id db [] = tt
recipients-Chosen event account_id db (d ∷ rows) =
    let rest = recipients-Chosen event account_id db rows in
    elim (Bool-cases (subscribed event.topic_hash account_id db d)) [
      | inr e ↦ rw e rest
      | inl e ↦ elim (Bool-cases (hears event.kind (push_device db d))) [
        | inr e' ↦ rw (e, e') rest
        | inl e' ↦ rw (e, e') ((ground (arith, e), ground (arith, e), ground (arith, e), e'), rest)
      ]
    ]

send_each-IsAddressed :
    (senders : PushDispatchers) (event : DeliveryEvent) (account_id : ℕ) (db : PushStore)
    (devices : List PushDevice) (r : Dispatch)
    → owning_account event db ≡ some account_id
    → All (Chosen event account_id db) devices
    → IsAddressed db r
    → IsAddressed db (send_each senders event devices r)
unfolding send_each Chosen
send_each-IsAddressed senders event account_id db [] r owner chosen a = a
send_each-IsAddressed senders event account_id db (device ∷ devices) r owner chosen a =
    let answer = send_alarm senders r device event in
    let log' : Log = r.log ++ (alarm device event, answer) ∷ [] in
    let r' : Dispatch = record r { log = log' } in
    send_each-IsAddressed senders event account_id db devices _ owner chosen.1 (record {
      unmoved = tally_alarm-Unmoved device answer r' db a.unmoved;
      addressed =
          subst (λ l. All (Addressed db) l) (sym (log-tally_alarm device answer r'))
            (All-append (Addressed db) r.log _ a.addressed
              ((owner ∙ ap some (sym chosen.0.0), chosen.0.1, chosen.0.2, chosen.0.3), tt));
    })

update_each-IsAddressed :
    (sender : Log → LiveActivityPush → Answer) (push_for : LiveActivityTarget → LiveActivityPush)
    (db : PushStore) (targets : List LiveActivityTarget) (r : Dispatch)
    → IsAddressed db r
    → IsAddressed db (update_each sender push_for targets r)
unfolding update_each
update_each-IsAddressed sender push_for db [] r a = a
update_each-IsAddressed sender push_for db (target ∷ rest) r a =
    let push = push_for target in
    let answer = sender r.log push in
    let log' : Log = r.log ++ (activity push, answer) ∷ [] in
    let r' : Dispatch = record r { log = log' } in
    update_each-IsAddressed sender push_for db rest _ (record {
      unmoved = tally_activity-Unmoved target.token answer r' db a.unmoved;
      addressed =
          subst (λ l. All (Addressed db) l) (sym (log-tally_activity target.token answer r'))
            (All-append (Addressed db) r.log _ a.addressed (tt, tt));
    })

update_live_activities-IsAddressed :
    (senders : PushDispatchers) (event : DeliveryEvent) (account_id : ℕ) (db : PushStore)
    (r : Dispatch)
    → IsAddressed db r
    → IsAddressed db (update_live_activities senders event account_id r)
unfolding update_live_activities
update_live_activities-IsAddressed senders event account_id db r a =
    elim (Option-cases (live_activity_event event.kind)) [
      | inl e ↦ rw (e, update_live_activities) a
      | inr (action, e) ↦ elim (Option-cases senders.live_activity) [
        | inl e' ↦ rw (e, e', update_live_activities) a
        | inr (sender, e') ↦ elim (Option-cases event.incident_id) [
          | inl e'' ↦ rw (e, e', e'', update_live_activities) a
          | inr (id, e'') ↦
              rw (e, e', e'', update_live_activities) (update_each-IsAddressed sender _ db _ r a)
        ]
      ]
    ]

-- What the event's turn finds in the database holds in the one that the dispatch started from.
Chosen-Unmoved :
    (event : DeliveryEvent) (account_id : ℕ) (db db' : PushStore) (devices : List PushDevice)
    → Unmoved db db'
    → All (Chosen event account_id db') devices
    → All (Chosen event account_id db) devices
unfolding Chosen
Chosen-Unmoved event account_id db db' devices h =
    All-imp devices
      (λ d c. (c.0, sym (is_subscribed-Unmoved d.id event.topic_hash db db' h) ∙ c.1, c.2, c.3))

dispatch_event-IsAddressed :
    (senders : PushDispatchers) (event : DeliveryEvent) (db : PushStore) (r : Dispatch)
    → IsAddressed db r
    → IsAddressed db (dispatch_event senders event r)
unfolding dispatch_event send_to_devices recipients subscribed_devices
dispatch_event-IsAddressed senders event db r a = elim (Option-cases (owning_account event r.db)) [
  | inl e ↦ rw (e, dispatch_event) a
  | inr (account_id, e) ↦
      rw (e, dispatch_event)
        (update_live_activities-IsAddressed senders event account_id db _ (
          send_each-IsAddressed senders event account_id db (recipients event account_id r.db) r
            (sym (owning_account-Unmoved event db r.db a.unmoved) ∙ e)
            (Chosen-Unmoved event account_id db r.db (recipients event account_id r.db) a.unmoved
              (recipients-Chosen event account_id r.db r.db.devices))
            a))
]

dispatch_each-IsAddressed :
    (senders : PushDispatchers) (events : List DeliveryEvent) (db : PushStore) (r : Dispatch)
    → IsAddressed db r
    → IsAddressed db (dispatch_each senders events r)
unfolding dispatch_each
dispatch_each-IsAddressed senders [] db r a = a
dispatch_each-IsAddressed senders (event ∷ events) db r a =
    dispatch_each-IsAddressed senders events db _ (dispatch_event-IsAddressed senders event db r a)

-- Every alarm push of a dispatch goes to a device of the account that owns the event, which is
-- subscribed to the event's topic, has a token and hears events of its kind: the same topic on
-- another account is never rung.
pub dispatch-Addressed :
    (senders : PushDispatchers) (events : List DeliveryEvent) (db : PushStore)
    → All (Addressed db) (dispatch senders events db).1.log
unfolding dispatch
dispatch-Addressed senders events db =
    (dispatch_each-IsAddressed senders events db (fresh_dispatch db)
      (record { unmoved = (refl, refl); addressed = tt })).addressed
