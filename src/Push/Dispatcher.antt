-- ===== src/Push/Dispatcher.antt =====
-- src/push/dispatcher.ts and `isStateKind` of src/domain-events.ts. A call of the database does not
-- throw here, so the `catch` around one event's turn is not modelled; those around the sends are.
use critalarm_server.Prelude.{
  ℕ, ◌+◌, ◌==◌, ltb, leb, if◌then◌else◌, Bool, true, false, not, ◌&&◌, ◌||◌, String, str_eq, Option,
  none, some, List, [], ◌∷◌, ◌++◌, find_row, select, delete_where, update_where, count_where,
}
use critalarm_server.Incident.Types.{
  DeliveryEvent, EventKind, opening, reopening, acking, closing, expiring, IncidentState, opened,
  acked, closed, expired, IncidentRow,
}
use critalarm_server.Check.Types.{Platform, android, macos, apns, fcm, alarm_token_kind}
use critalarm_server.Push.Types.{
  ApnsEnvironment, sandbox, production, PushDevice, PushResult, LiveActivityEvent, starting,
  updating, ending, Answer, answered, threw, alarm, PushDispatchers, TokenKind, ring, la_start,
  la_update, DeviceRow, PushStore, Dispatch,
}

abbrev pub is_state_kind : EventKind → Bool
is_state_kind acking = true
is_state_kind closing = true
is_state_kind expiring = true
is_state_kind _ = false

abbrev pub uses_apns : Platform → Bool
uses_apns android = false
uses_apns _ = true

-- liveActivityEvent
abbrev pub live_activity_event : EventKind → Option LiveActivityEvent
live_activity_event opening = some starting
live_activity_event reopening = some updating
live_activity_event acking = some updating
live_activity_event closing = some ending
live_activity_event expiring = some ending
live_activity_event _ = none

abbrev pub fallback_state : EventKind → IncidentState
fallback_state acking = acked
fallback_state closing = closed
fallback_state expiring = expired
fallback_state _ = opened

abbrev pub same_token_kind : TokenKind → TokenKind → Bool
same_token_kind (ring apns) (ring apns) = true
same_token_kind (ring fcm) (ring fcm) = true
same_token_kind la_start la_start = true
same_token_kind la_update la_update = true
same_token_kind _ _ = false

abbrev pub is_macos : Platform → Bool
is_macos macos = true
is_macos _ = false

abbrev pub same_incident : Option ℕ → ℕ → Bool
same_incident none n = false
same_incident (some m) n = m == n

-- SELECT t.account_id FROM messages m JOIN topics t ON t.id = m.topic_id WHERE m.id = ?
unfoldable pub account_of_message : ℕ → PushStore → Option ℕ
account_of_message id db = elim (find_row (λ m. m.id == id) db.engine.messages) [
  | none ↦ none
  | some m ↦ elim (find_row (λ t. t.id == m.topic_id) db.engine.topics) [
    | none ↦ none
    | some t ↦ some t.account_id
  ]
]

-- The message id of an event is none for the events that carry none.
unfoldable pub owning_account : DeliveryEvent → PushStore → Option ℕ
owning_account event db = elim event.account_id [
  | some account_id ↦ some account_id
  | none ↦ elim event.message_id [ none ↦ none | some id ↦ account_of_message id db ]
]

-- COALESCE(alarm.token, d.push_token)
unfoldable pub ring_token : DeviceRow → PushStore → String
ring_token d db =
    elim (find_row
      (λ t.
        (t.device_id == d.id)
        && str_eq t.activity_id ""
        && same_token_kind t.kind (ring (alarm_token_kind d.platform)))
      db.device_tokens) [ none ↦ d.push_token | some t ↦ t.token ]

-- JOIN subscriptions s ON s.device_id = d.id WHERE s.topic_hash = ?: the pair is a key.
unfoldable pub is_subscribed : ℕ → String → PushStore → Bool
is_subscribed device_id topic_hash db = leb 1 (
    count_where (λ s. (s.device_id == device_id) && str_eq s.topic_hash topic_hash)
      db.subscriptions)

abbrev pub push_device : PushStore → DeviceRow → PushDevice
push_device db d = record {
  id = d.id;
  account_id = d.account_id;
  platform = d.platform;
  push_token = ring_token d db;
  apns_environment = d.apns_environment;
}

unfoldable pub subscribed : String → ℕ → PushStore → DeviceRow → Bool
subscribed topic_hash account_id db d =
    is_subscribed d.id topic_hash db
    && not (str_eq (ring_token d db) "")
    && (d.account_id == account_id)

-- The rows of a query, each read by `f`.
unfoldable pub read_rows {ℓ κ} : {A : Type ℓ} {B : Type κ} → (A → Bool) → (A → B) → List A → List B
read_rows p f [] = []
read_rows p f (x ∷ xs) = let rest = read_rows p f xs in if p x then f x ∷ rest else rest

unfoldable pub subscribed_devices : String → ℕ → PushStore → List PushDevice
subscribed_devices topic_hash account_id db =
    read_rows (subscribed topic_hash account_id db) (push_device db) db.devices

-- The devices that `sendToDevices` keeps of them.
abbrev pub hears : EventKind → PushDevice → Bool
hears kind d = not (is_state_kind kind) || not (uses_apns d.platform) || is_macos d.platform

unfoldable pub recipients : DeliveryEvent → ℕ → PushStore → List PushDevice
recipients event account_id db =
    select (hears event.kind) (subscribed_devices event.topic_hash account_id db)

unfoldable pub incident_state : ℕ → PushStore → Option IncidentRow
incident_state id db = find_row (λ i. i.id == id) db.engine.incidents

abbrev pub is_accepted : ℕ → Bool
is_accepted status = leb 200 status && ltb status 300

abbrev pub same_environment : ApnsEnvironment → Option ApnsEnvironment → Bool
same_environment sandbox (some sandbox) = true
same_environment production (some production) = true
same_environment _ _ = false

abbrev set_environment : ℕ → ApnsEnvironment → PushStore → PushStore
set_environment id environment db = record db {
  devices =
      update_where (λ d. d.id == id) (λ d. record d { apns_environment = some environment })
        db.devices;
}

unfoldable pub remember_apns_environment : PushDevice → PushResult → PushStore → PushStore
remember_apns_environment device result db = elim result.apns_environment [
  | none ↦ db
  | some environment ↦
      if not (uses_apns device.platform)
        || not (is_accepted result.status)
        || same_environment environment device.apns_environment
      then db
      else set_environment device.id environment db
]

-- The two statements for a token that APNs has retired.
unfoldable pub drop_token : PushDevice → PushStore → PushStore
drop_token device db = record db {
  devices =
      update_where (λ d. (d.id == device.id) && str_eq d.push_token device.push_token)
        (λ d. record d { push_token = "" }) db.devices;
  device_tokens =
      delete_where
        (λ t.
          (t.device_id == device.id)
          && same_token_kind t.kind (ring apns)
          && str_eq t.token device.push_token)
        db.device_tokens;
}

unfoldable pub after_answer : PushDevice → PushResult → Dispatch → Dispatch
after_answer device result r = record r {
  db =
      let db = remember_apns_environment device result r.db in
      if uses_apns device.platform && result.stale then drop_token device db else db;
  delivered = r.delivered + (if is_accepted result.status && not result.stale then 1 else 0);
}

abbrev pub note_failed : Dispatch → Dispatch
note_failed r = record r { failed = r.failed + 1 }

unfoldable pub tally_alarm : PushDevice → Answer → Dispatch → Dispatch
tally_alarm device threw r = note_failed r
tally_alarm device (answered result) r = after_answer device result r

-- senderFor(device).send(device, event)
unfoldable pub send_alarm : PushDispatchers → Dispatch → PushDevice → DeliveryEvent → Answer
send_alarm senders r device event =
    if uses_apns device.platform
    then senders.apns r.log device event
    else senders.fcm r.log device event

-- The loop of `sendToDevices`.
unfoldable pub send_each : PushDispatchers → DeliveryEvent → List PushDevice → Dispatch → Dispatch
send_each senders event [] r = r
send_each senders event (device ∷ devices) r =
    let answer = send_alarm senders r device event in
    send_each senders event devices
      (tally_alarm device answer (record r { log = r.log ++ (alarm device event, answer) ∷ [] }))

unfoldable pub send_to_devices : PushDispatchers → DeliveryEvent → ℕ → Dispatch → Dispatch
send_to_devices senders event account_id r =
    send_each senders event (recipients event account_id r.db) r
