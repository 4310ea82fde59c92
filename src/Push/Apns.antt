-- ===== src/Push/Apns.antt =====
-- src/push/apns.ts and src/push/apns-token.ts: what is sent to APNs, and to which of its two hosts.
-- A body is a record of the fields that its JSON has, the fields that may be left out as options.
use critalarm_server.Prelude.{
  ℕ, ◌+◌, ◌*◌, ◌==◌, ltb, if◌then◌else◌, Bool, true, false, not, ◌&&◌, String, Option, none, some,
}
use Prim.Native.String.{◌++◌ as concat}
use critalarm_server.Incident.Types.{DeliveryEvent, EventKind, IncidentState, RelayContent, full}
use critalarm_server.Check.Statements.{is_null}
use critalarm_server.Push.Types.{
  ApnsEnvironment, PushDevice, LiveActivityEvent, starting, ending, LiveActivityPush,
}
use critalarm_server.Push.Dispatcher.{is_state_kind, is_macos}

abbrev pub is_full : Option RelayContent → Bool
is_full (some full) = true
is_full _ = false

-- `incidentId ?? messageId`
abbrev pub collapse_key : DeliveryEvent → Option ℕ
collapse_key event = elim event.incident_id [ none ↦ event.message_id | some id ↦ some id ]

pub data PushType : Type 0 where
  alert background liveactivity : PushType

pub record ApnsHeaders : Type 0 where
  pub authorization : String
  pub apns_topic : String
  pub push_type : PushType
  pub priority : ℕ
  pub collapse_id : Option ℕ
  pub expiration : Option ℕ

pub record Alert : Type 0 where
  pub title : String
  pub body : String

pub record ApnsPayload : Type 0 where
  pub alert : Alert
  pub interruption_level : String
  pub mutable_content : Bool
  pub category : String
  pub sound : Option String
  pub content_available : Bool
  pub incident_id : Option ℕ
  pub topic : String
  pub server : String
  pub kind : EventKind
  pub ring_until : Option ℕ

pub record BackgroundPayload : Type 0 where
  pub incident_id : Option ℕ
  pub server : String
  pub kind : EventKind

pub record Attributes : Type 0 where
  pub incident_id : ℕ
  pub topic : String
  pub server : String

pub record LiveActivityPayload : Type 0 where
  pub timestamp : ℕ
  pub event : LiveActivityEvent
  pub attributes : Option Attributes
  pub state : IncidentState
  pub title : String
  pub opened_at : ℕ
  pub dismissal_date : Option ℕ

pub data ApnsBody : Type 0 where
  alarm_body : ApnsPayload → ApnsBody
  background_body : BackgroundPayload → ApnsBody
  activity_body : LiveActivityPayload → ApnsBody

unfoldable pub apns_payload : DeliveryEvent → ApnsPayload
apns_payload event =
    let is_critical = (event.priority == 5) && event.critical && not (is_null event.incident_id) in
    let is_shown = is_full event.relay_content in
    record {
      alert = if is_shown then record { title = event.title; body = event.body } else record {
        title = "Crit Alarm";
        body = concat "Critical alert on " (concat event.topic " — open to see details");
      };
      interruption_level = "time-sensitive";
      mutable_content = not is_shown;
      category = "INCIDENT";
      sound = if is_critical then some "alarm.caf" else none;
      content_available = is_critical;
      incident_id = event.incident_id;
      topic = event.topic;
      server = event.server;
      kind = event.kind;
      ring_until = event.ring_until;
    }

unfoldable pub background_payload : DeliveryEvent → BackgroundPayload
background_payload event = record {
  incident_id = event.incident_id;
  server = event.server;
  kind = event.kind;
}

abbrev attributes_of : LiveActivityPush → LiveActivityEvent → Option Attributes
attributes_of push starting =
    some (record { incident_id = push.incident_id; topic = push.topic; server = push.server })
attributes_of push _ = none

abbrev dismissal : ℕ → LiveActivityEvent → Option ℕ
dismissal now ending = some now
dismissal now _ = none

unfoldable pub live_activity_payload : LiveActivityPush → ℕ → LiveActivityPayload
live_activity_payload push now = record {
  timestamp = now;
  event = push.event;
  attributes = attributes_of push push.event;
  state = push.state;
  title = push.title;
  opened_at = push.opened_at;
  dismissal_date = dismissal now push.event;
}

pub record ApnsRequest : Type 0 where
  pub token : String
  pub headers : ApnsHeaders
  pub body : ApnsBody

pub record ApnsSenderOptions : Type 0 where
  pub bundle_id : String
  pub environment : ApnsEnvironment

unfoldable pub alarm_request :
    ApnsSenderOptions → String → ℕ → PushDevice → DeliveryEvent → ApnsRequest
alarm_request options bearer now device event = record {
  token = device.push_token;
  headers = record {
    authorization = bearer;
    apns_topic = options.bundle_id;
    push_type = alert;
    priority = 10;
    collapse_id = collapse_key event;
    expiration = some (now + event.max_ring_s);
  };
  body = alarm_body (apns_payload event);
}

unfoldable pub background_request :
    ApnsSenderOptions → String → ℕ → PushDevice → DeliveryEvent → ApnsRequest
background_request options bearer now device event = record {
  token = device.push_token;
  headers = record {
    authorization = bearer;
    apns_topic = options.bundle_id;
    push_type = background;
    priority = 5;
    collapse_id = collapse_key event;
    expiration = some (now + 60);
  };
  body = background_body (background_payload event);
}

-- The request of `send`.
unfoldable pub request_for :
    ApnsSenderOptions → String → ℕ → PushDevice → DeliveryEvent → ApnsRequest
request_for options bearer now device event =
    if is_macos device.platform && is_state_kind event.kind
    then background_request options bearer now device event
    else alarm_request options bearer now device event

-- The request of `sendLiveActivity`.
unfoldable pub activity_request : ApnsSenderOptions → String → ℕ → LiveActivityPush → ApnsRequest
activity_request options bearer now push = record {
  token = push.token;
  headers = record {
    authorization = bearer;
    apns_topic = concat options.bundle_id ".push-type.liveactivity";
    push_type = liveactivity;
    priority = 10;
    collapse_id = none;
    expiration = none;
  };
  body = activity_body (live_activity_payload push now);
}

-- ApnsProviderToken: the token with the second it was signed at, and how many were signed.
pub record ApnsProviderToken : Type 0 where
  pub cached : Option (String × ℕ)
  pub minted : ℕ

unfoldable pub mint : (ℕ → String) → ℕ → ApnsProviderToken → String × ApnsProviderToken
mint sign now t = (sign now, record { cached = some (sign now, now); minted = t.minted + 1 })

unfoldable pub get_token : (ℕ → String) → ℕ → ApnsProviderToken → String × ApnsProviderToken
get_token sign now t = elim t.cached [
  | none ↦ mint sign now t
  | some (value, issued_at) ↦ if ltb now (issued_at + 50 * 60) then (value, t) else mint sign now t
]
