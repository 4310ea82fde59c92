-- ===== src/Push/Unmoved.antt =====
-- src/push/dispatcher.ts: what the sending of pushes leaves as it was.
use critalarm_server.Prelude.{
  ℕ, not, ◌&&◌, ◌||◌, String, ◌≡◌, refl, ap, inl, inr, Bool-cases, Option-cases,
}
use critalarm_server.Incident.Types.{DeliveryEvent}
use critalarm_server.Push.Types.{
  PushDevice, PushResult, Answer, answered, threw, PushStore, Dispatch,
}
use critalarm_server.Push.Dispatcher.{
  uses_apns, is_accepted, same_environment, owning_account, account_of_message, is_subscribed,
  remember_apns_environment, drop_token, after_answer, tally_alarm,
}
use critalarm_server.Push.Activities.{tally_activity, drop_activity_token}

-- A dispatch writes neither the engine's tables nor the subscriptions.
abbrev pub Unmoved : PushStore → PushStore → Type 0
Unmoved db db' = (db'.engine ≡ db.engine) × (db'.subscriptions ≡ db.subscriptions)

pub owning_account-Unmoved :
    (event : DeliveryEvent) (db db' : PushStore)
    → Unmoved db db'
    → owning_account event db' ≡ owning_account event db
unfolding owning_account account_of_message
owning_account-Unmoved event db db' h =
    ap (λ e. owning_account event (record db { engine = e })) h.0

pub is_subscribed-Unmoved :
    (id : ℕ) (topic_hash : String) (db db' : PushStore)
    → Unmoved db db'
    → is_subscribed id topic_hash db' ≡ is_subscribed id topic_hash db
unfolding is_subscribed
is_subscribed-Unmoved id topic_hash db db' h =
    ap (λ t. is_subscribed id topic_hash (record db { subscriptions = t })) h.1

remember_apns_environment-Unmoved :
    (device : PushDevice) (result : PushResult) (db db' : PushStore)
    → Unmoved db db'
    → Unmoved db (remember_apns_environment device result db')
unfolding remember_apns_environment
remember_apns_environment-Unmoved device result db db' h =
    elim (Option-cases result.apns_environment) [
      | inl e ↦ rw (e, remember_apns_environment) h
      | inr (environment, e) ↦
          elim (Bool-cases (
            not (uses_apns device.platform)
            || not (is_accepted result.status)
            || same_environment environment device.apns_environment)) [
              | inl skip ↦ rw (e, remember_apns_environment, skip) h
              | inr write ↦ rw (e, remember_apns_environment, write) h
            ]
    ]

pub tally_alarm-Unmoved :
    (device : PushDevice) (answer : Answer) (r : Dispatch) (db : PushStore)
    → Unmoved db r.db
    → Unmoved db (tally_alarm device answer r).db
unfolding tally_alarm after_answer drop_token
tally_alarm-Unmoved device threw r db h = h
tally_alarm-Unmoved device (answered result) r db h =
    let h' = remember_apns_environment-Unmoved device result db r.db h in
    elim (Bool-cases (uses_apns device.platform && result.stale)) [
      | inl e ↦ rw e h'
      | inr e ↦ rw e h'
    ]

pub tally_activity-Unmoved :
    (token : String) (answer : Answer) (r : Dispatch) (db : PushStore)
    → Unmoved db r.db
    → Unmoved db (tally_activity token answer r).db
unfolding tally_activity drop_activity_token
tally_activity-Unmoved token threw r db h = h
tally_activity-Unmoved token (answered result) r db h = elim (Bool-cases result.stale) [
  | inl e ↦ rw e h
  | inr e ↦ rw e h
]

pub log-tally_activity :
    (token : String) (answer : Answer) (r : Dispatch) → (tally_activity token answer r).log ≡ r.log
unfolding tally_activity
log-tally_activity token threw r = refl
log-tally_activity token (answered result) r = elim (Bool-cases result.stale) [
  | inl e ↦ rw e refl
  | inr e ↦ rw e refl
]
