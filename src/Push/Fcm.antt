-- ===== src/Push/Fcm.antt =====
-- src/push/fcm.ts: the message that is sent to FCM, and the access token that it is sent with.
use critalarm_server.Prelude.{
  ℕ, ◌+◌, ltb, if◌then◌else◌, false, not, ◌&&◌, String, Option, none, some,
}
use critalarm_server.Incident.Types.{DeliveryEvent, EventKind}
use critalarm_server.Push.Types.{PushDevice, Answer, answered, threw}
use critalarm_server.Push.Dispatcher.{is_state_kind}
use critalarm_server.Push.Apns.{is_full, collapse_key, Alert}

pub record FcmMessage : Type 0 where
  pub token : String
  pub collapse_key : Option ℕ
  pub ttl_s : ℕ
  pub incident_id : Option ℕ
  pub server : String
  pub kind : EventKind
  pub priority : Option ℕ
  pub ring_until : Option ℕ
  pub shown : Option Alert

unfoldable pub fcm_payload : PushDevice → DeliveryEvent → FcmMessage
fcm_payload device event =
    let is_state = is_state_kind event.kind in
    record {
      token = device.push_token;
      collapse_key = collapse_key event;
      ttl_s = if is_state then 60 else event.max_ring_s;
      incident_id = event.incident_id;
      server = event.server;
      kind = event.kind;
      priority = if is_state then none else some event.priority;
      ring_until = event.ring_until;
      shown =
          if not is_state && is_full event.relay_content
          then some (record { title = event.title; body = event.body })
          else none;
    }

pub record CachedToken : Type 0 where
  pub value : String
  pub expires_at : ℕ

-- What the token endpoint answers: a status that is not ok, with the code that the body may give; an
-- ok status with no token in the body; or a token. A fetch may throw.
pub data TokenResponse : Type 0 where
  not_ok : (status : ℕ) (code : Option ℕ) → TokenResponse
  no_access_token : (status : ℕ) → TokenResponse
  granted : (access_token : String) (expires_in : ℕ) → TokenResponse
  fetch_threw : TokenResponse

pub data TokenResult : Type 0 where
  has_token : String → TokenResult
  has_status : ℕ → TokenResult
  token_threw : TokenResult

abbrev status_or : ℕ → Option ℕ → ℕ
status_or status none = status
status_or status (some code) = code

unfoldable pub after_token_fetch :
    ℕ → TokenResponse → Option CachedToken → TokenResult × Option CachedToken
after_token_fetch now (not_ok status code) cached = (has_status (status_or status code), cached)
after_token_fetch now (no_access_token status) cached = (has_status status, cached)
after_token_fetch now (granted value expires_in) cached =
    (has_token value, some (record { value = value; expires_at = now + expires_in }))
after_token_fetch now fetch_threw cached = (token_threw, cached)

-- `now < expiresAt - 60` with the minute on the other side.
unfoldable pub access_token :
    ℕ → (ℕ → TokenResponse) → Option CachedToken → TokenResult × Option CachedToken
access_token now fetch cached = elim cached [
  | none ↦ after_token_fetch now (fetch now) none
  | some token ↦
      if ltb (now + 60) token.expires_at
      then (has_token token.value, some token)
      else after_token_fetch now (fetch now) (some token)
]

-- The send endpoint, given the token and the message: a status, or none where it throws.
unfoldable pub answer_with : (String → FcmMessage → Option ℕ) → FcmMessage → TokenResult → Answer
answer_with post message (has_status status) =
    answered (record { status = status; stale = false; apns_environment = none })
answer_with post message token_threw = threw
answer_with post message (has_token token) = elim (post token message) [
  | none ↦ threw
  | some status ↦ answered (record { status = status; stale = false; apns_environment = none })
]

unfoldable pub fcm_send :
    (ℕ → TokenResponse)
    → (String → FcmMessage → Option ℕ)
    → ℕ
    → PushDevice
    → DeliveryEvent
    → Option CachedToken
    → Answer × Option CachedToken
fcm_send fetch post now device event cached =
    let (token, cached') = access_token now fetch cached in
    (answer_with post (fcm_payload device event) token, cached')
