-- ===== src/Push/Activities.antt =====
-- src/push/dispatcher.ts: the Live Activity updates, and `dispatch` itself.
use Prim.Native.String.{◌++◌ as concat}
use critalarm_server.Prelude.{
  ℕ, ◌==◌, if◌then◌else◌, Bool, not, ◌&&◌, ◌||◌, String, str_eq, Option, none, some, List, [], ◌∷◌,
  ◌++◌, find_row, count_where, delete_where, leb,
}
use critalarm_server.Incident.Types.{DeliveryEvent, IncidentState, IncidentRow, RelayContent, full}
use critalarm_server.Push.Types.{
  ApnsEnvironment, PushDevice, LiveActivityEvent, starting, LiveActivityPush, Answer, answered,
  threw, activity, Log, PushDispatchers, la_start, la_update, DeviceRow, DeviceTokenRow, PushStore,
  Dispatch,
}
use critalarm_server.Push.Dispatcher.{
  same_token_kind, is_macos, same_incident, subscribed_devices, incident_state, fallback_state,
  live_activity_event, note_failed, owning_account, send_to_devices,
}

pub record LiveActivityTarget : Type 0 where
  pub token : String
  pub apns_environment : Option ApnsEnvironment

-- deviceIds.includes(...)
abbrev pub among : List PushDevice → ℕ → Bool
among devices id = leb 1 (count_where (λ d. d.id == id) devices)

-- The WHERE of the two queries, on a token row and the device it joins.
abbrev pub starts_on : List PushDevice → DeviceTokenRow → DeviceRow → Bool
starts_on devices t d =
    same_token_kind t.kind la_start && not (is_macos d.platform) && among devices t.device_id

abbrev pub runs_for : ℕ → ℕ → DeviceTokenRow → DeviceRow → Bool
runs_for incident_id account_id t d =
    same_token_kind t.kind la_update
    && not (is_macos d.platform)
    && same_incident t.incident_id incident_id
    && (d.account_id == account_id)

-- FROM device_tokens t JOIN devices d ON d.id = t.device_id WHERE ...
unfoldable pub targets :
    (DeviceTokenRow → DeviceRow → Bool)
    → List DeviceRow
    → List DeviceTokenRow
    → List LiveActivityTarget
targets p devices [] = []
targets p devices (t ∷ ts) =
    let rest = targets p devices ts in
    elim (find_row (λ d. d.id == t.device_id) devices) [
      | none ↦ rest
      | some d ↦
          if p t d
          then record { token = t.token; apns_environment = d.apns_environment } ∷ rest
          else rest
    ]

unfoldable pub live_activity_tokens :
    LiveActivityEvent
    → DeliveryEvent
    → (incident_id account_id : ℕ) → PushStore
    → List LiveActivityTarget
live_activity_tokens starting event incident_id account_id db =
    let devices = subscribed_devices event.topic_hash account_id db in
    targets (starts_on devices) db.devices db.device_tokens
live_activity_tokens _ event incident_id account_id db =
    targets (runs_for incident_id account_id) db.devices db.device_tokens

abbrev state_or : IncidentState → Option IncidentRow → IncidentState
state_or fallback none = fallback
state_or fallback (some i) = i.state

abbrev opened_or : ℕ → Option IncidentRow → ℕ
opened_or now none = now
opened_or now (some i) = i.opened_at

abbrev pub activity_title : Option RelayContent → DeliveryEvent → String
activity_title (some full) event = event.title
activity_title _ event = concat "Critical alert on " event.topic

unfoldable pub live_activity_push :
    LiveActivityEvent
    → DeliveryEvent
    → ℕ
    → Option IncidentRow
    → ℕ
    → LiveActivityTarget
    → LiveActivityPush
live_activity_push action event incident_id incident now target = record {
  token = target.token;
  event = action;
  incident_id = incident_id;
  topic = event.topic;
  server = event.server;
  state = state_or (fallback_state event.kind) incident;
  title = activity_title event.relay_content event;
  opened_at = opened_or now incident;
  apns_environment = target.apns_environment;
}

-- DELETE FROM device_tokens WHERE token = ? AND kind IN ('la_start', 'la_update')
unfoldable pub drop_activity_token : String → PushStore → PushStore
drop_activity_token token db = record db {
  device_tokens =
      delete_where
        (λ t.
          str_eq t.token token
          && (same_token_kind t.kind la_start || same_token_kind t.kind la_update))
        db.device_tokens;
}

unfoldable pub tally_activity : String → Answer → Dispatch → Dispatch
tally_activity token threw r = note_failed r
tally_activity token (answered result) r =
    if result.stale then record r { db = drop_activity_token token r.db } else r

-- The loop of `updateLiveActivities`, over the pushes it makes.
unfoldable pub update_each :
    (Log → LiveActivityPush → Answer)
    → (LiveActivityTarget → LiveActivityPush)
    → List LiveActivityTarget
    → Dispatch
    → Dispatch
update_each sender push_for [] r = r
update_each sender push_for (target ∷ rest) r =
    let push = push_for target in
    let answer = sender r.log push in
    update_each sender push_for rest (
      tally_activity target.token answer (record r { log = r.log ++ (activity push, answer) ∷ [] }))

unfoldable pub update_live_activities : PushDispatchers → DeliveryEvent → ℕ → Dispatch → Dispatch
update_live_activities senders event account_id r = elim (live_activity_event event.kind) [
  | none ↦ r
  | some action ↦ elim senders.live_activity [
    | none ↦ r
    | some sender ↦ elim event.incident_id [
      | none ↦ r
      | some id ↦
          update_each sender
            (live_activity_push action event id (incident_state id r.db) (senders.now r.log))
            (live_activity_tokens action event id account_id r.db) r
    ]
  ]
]

-- One turn of the loop of `dispatch`.
unfoldable pub dispatch_event : PushDispatchers → DeliveryEvent → Dispatch → Dispatch
dispatch_event senders event r = elim (owning_account event r.db) [
  | none ↦ r
  | some account_id ↦
      update_live_activities senders event account_id (send_to_devices senders event account_id r)
]

unfoldable pub dispatch_each : PushDispatchers → List DeliveryEvent → Dispatch → Dispatch
dispatch_each senders [] r = r
dispatch_each senders (event ∷ events) r =
    dispatch_each senders events (dispatch_event senders event r)

-- DispatchResult: `failed` is there when it is above zero.
pub record DispatchResult : Type 0 where
  pub delivered : ℕ
  pub failed : Option ℕ

abbrev pub result_of : Dispatch → DispatchResult
result_of r = record {
  delivered = r.delivered;
  failed = if r.failed == 0 then none else some r.failed;
}

abbrev pub fresh_dispatch : PushStore → Dispatch
fresh_dispatch db = record { db = db; delivered = 0; failed = 0; log = [] }

unfoldable pub dispatch :
    PushDispatchers → List DeliveryEvent → PushStore → DispatchResult × Dispatch
dispatch senders events db =
    let r = dispatch_each senders events (fresh_dispatch db) in (result_of r, r)
