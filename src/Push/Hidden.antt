-- ===== src/Push/Hidden.antt =====
-- src/push/apns.ts and src/push/dispatcher.ts: a topic whose content is withheld keeps the title and
-- the text of its messages off every push.
use critalarm_server.Prelude.{
  ℕ, false, String, Option, none, some, ◌≡◌, refl, ap, inl, inr, Bool-cases,
}
use critalarm_server.Incident.Types.{DeliveryEvent, IncidentRow, RelayContent, full, withheld}
use critalarm_server.Push.Types.{PushDevice, LiveActivityEvent}
use critalarm_server.Push.Dispatcher.{is_state_kind}
use critalarm_server.Push.Apns.{
  is_full, apns_payload, background_payload, alarm_request, background_request, request_for,
  ApnsSenderOptions,
}
use critalarm_server.Push.Fcm.{fcm_payload}
use critalarm_server.Push.Activities.{LiveActivityTarget, live_activity_push, activity_title}

abbrev pub retitled : String → String → DeliveryEvent → DeliveryEvent
retitled title body event = record event { title = title; body = body }

request_for-retitled :
    (options : ApnsSenderOptions) (bearer : String) (now : ℕ) (device : PushDevice)
    (event : DeliveryEvent) (title body : String)
    → is_full event.relay_content ≡ false
    → request_for options bearer now device (retitled title body event)
      ≡ request_for options bearer now device event
unfolding request_for alarm_request background_request apns_payload background_payload
request_for-retitled options bearer now device event title body h = rw h refl

fcm_payload-retitled :
    (device : PushDevice) (event : DeliveryEvent) (title body : String)
    → is_full event.relay_content ≡ false
    → fcm_payload device (retitled title body event) ≡ fcm_payload device event
unfolding fcm_payload
fcm_payload-retitled device event title body h = elim (Bool-cases (is_state_kind event.kind)) [
  | inl e ↦ rw e refl
  | inr e ↦ rw (e, h) refl
]

activity_title-retitled :
    (content : Option RelayContent) (event : DeliveryEvent) (title body : String)
    → is_full content ≡ false
    → activity_title content (retitled title body event) ≡ activity_title content event
activity_title-retitled none event title body h = refl
activity_title-retitled (some withheld) event title body h = refl
activity_title-retitled (some full) event title body h = cc h

live_activity_push-retitled :
    (action : LiveActivityEvent) (event : DeliveryEvent) (incident_id now : ℕ)
    (incident : Option IncidentRow) (target : LiveActivityTarget) (title body : String)
    → is_full event.relay_content ≡ false
    → live_activity_push action (retitled title body event) incident_id incident now target
      ≡ live_activity_push action event incident_id incident now target
unfolding live_activity_push
live_activity_push-retitled action event incident_id now incident target title body h =
    ap (λ t. record (live_activity_push action event incident_id incident now target) { title = t })
      (activity_title-retitled event.relay_content event title body h)

-- When the content of an event is not to be relayed in full, the APNs request, the FCM message and the
-- Live Activity push are the same whatever title and text the event has.
pub pushes_hide_content :
    (event : DeliveryEvent) (title body : String) (options : ApnsSenderOptions) (bearer : String)
    (now : ℕ) (device : PushDevice) (action : LiveActivityEvent) (incident_id : ℕ)
    (incident : Option IncidentRow) (target : LiveActivityTarget)
    → is_full event.relay_content ≡ false
    → (request_for options bearer now device (retitled title body event)
        ≡ request_for options bearer now device event)
      × (fcm_payload device (retitled title body event) ≡ fcm_payload device event)
      × (live_activity_push action (retitled title body event) incident_id incident now target
          ≡ live_activity_push action event incident_id incident now target)
pushes_hide_content event title body options bearer now device action incident_id incident target
      h =
    (
      request_for-retitled options bearer now device event title body h,
      fcm_payload-retitled device event title body h,
      live_activity_push-retitled action event incident_id now incident target title body h,
    )
