-- ===== src/Check/Scan/Senders.antt =====
-- src/push/check.ts and `send` of src/check/scheduler.ts: how one planned check leaves. `confirm` is
-- asked just before each request; a departure keeps the store and the time that it was asked at.
use critalarm_server.Prelude.{
  ℕ, ◌+◌, ◌==◌, ltb, leb, if◌then◌else◌, Bool, true, false, ◌&&◌, ◌||◌, String, str_eq, Option,
  none, some, List, [], ◌∷◌, ◌++◌,
}
use critalarm_server.Check.Types.{
  AttemptOutcome, accepted, push_refused, failed, cancelled, Platform, android, PlannedCheck,
  CheckStore, Outside,
}
use critalarm_server.Check.Plan.{confirm}

-- The provider's answer: `reason` is what the body gives as one, and `unregistered` whether it names
-- the token as that.
pub record ProviderResponse : Type 0 where
  pub status : ℕ
  pub reason : String
  pub unregistered : Bool

pub record CheckAnswer : Type 0 where
  pub outcome : AttemptOutcome
  pub status : ℕ

pub record Departure : Type 0 where
  pub planned : PlannedCheck
  pub host : Option String
  pub at : ℕ
  pub before : CheckStore

-- A push that `plan` has handed out, with the store and the second that it was asked at.
pub record Handing : Type 0 where
  pub device_id : ℕ
  pub at : ℕ
  pub before : CheckStore
  pub planned : PlannedCheck

pub record CachedAccess : Type 0 where
  pub value : String
  pub expires_at : ℕ

-- The scheduler, the FCM sender's cached token, and the pushes that were handed out and that have left.
pub record Scan : Type 0 where
  pub store : CheckStore
  pub notes : List (ℕ × ℕ)
  pub running : Bool
  pub cached : Option CachedAccess
  pub step : ℕ
  pub handings : List Handing
  pub departures : List Departure

pub record ScanWorld : Type 0 where
  pub outside : Outside
  pub now : ℕ → ℕ
  pub now_ms : ℕ → ℕ
  pub meanwhile : ℕ → CheckStore × List (ℕ × ℕ) → CheckStore × List (ℕ × ℕ)
  pub apns_configured : Bool
  pub fcm_configured : Bool
  pub environment : String
  pub apns_transport : ℕ → String → PlannedCheck → Option ProviderResponse
  pub fcm_post : ℕ → String → PlannedCheck → Option ProviderResponse
  pub fcm_access : ℕ → Option (String × ℕ)

abbrev pub check_cancelled : CheckAnswer
check_cancelled = record { outcome = cancelled; status = 0 }

abbrev pub check_failed : CheckAnswer
check_failed = record { outcome = failed; status = 0 }

unfoldable pub bad_device_token : ProviderResponse → Bool
bad_device_token r = (r.status == 400) && str_eq r.reason "BadDeviceToken"

-- `answer`, for APNs.
unfoldable pub apns_answer : ProviderResponse → CheckAnswer
apns_answer r = record {
  outcome =
      if leb 200 r.status && ltb r.status 300
      then accepted
      else if (r.status == 410) || bad_device_token r
      then push_refused
      else failed;
  status = r.status;
}

-- The answer of `post`, for FCM.
unfoldable pub fcm_answer : ProviderResponse → CheckAnswer
fcm_answer r = record {
  outcome =
      if leb 200 r.status && ltb r.status 300
      then accepted
      else if r.unregistered
      then push_refused
      else failed;
  status = r.status;
}

-- A wait on the network.
unfoldable pub wait : ScanWorld → Scan → Scan
wait w x =
    let (store, notes) = w.meanwhile x.step (x.store, x.notes) in
    record x { store = store; notes = notes; step = x.step + 1 }

-- stillWanted(): a no may close the round.
unfoldable pub wanted : ScanWorld → PlannedCheck → Scan → Bool × Scan
wanted w planned x =
    let (goes, store) = confirm planned (w.now x.step) x.store in (goes, record x { store = store })

-- A request leaves, and its answer is waited for.
unfoldable pub depart : ScanWorld → PlannedCheck → Option String → Scan → Scan
depart w planned host x = wait w (record x {
  departures =
      x.departures
      ++ record { planned = planned; host = host; at = w.now x.step; before = x.store } ∷ [];
})

abbrev other_environment : String → String
other_environment environment = if str_eq environment "sandbox" then "production" else "sandbox"

abbrev or_answer : Option ProviderResponse → CheckAnswer
or_answer none = check_failed
or_answer (some r) = apns_answer r

-- The second request, to the other host.
unfoldable pub ask_other : ScanWorld → PlannedCheck → String → Scan → CheckAnswer × Scan
ask_other w planned other x =
    let (goes, x') = wanted w planned x in
    if goes
    then (or_answer (w.apns_transport x.step other planned), depart w planned (some other) x')
    else (check_cancelled, x')

unfoldable pub after_first_answer :
    ScanWorld → PlannedCheck → String → Option ProviderResponse → Scan → CheckAnswer × Scan
after_first_answer w planned environment none x = (check_failed, x)
after_first_answer w planned environment (some r) x =
    if bad_device_token r
    then ask_other w planned (other_environment environment) x
    else (apns_answer r, x)

abbrev environment_of : ScanWorld → PlannedCheck → String
environment_of w planned = elim planned.apns_environment [ none ↦ w.environment | some e ↦ e ]

-- ApnsCheckSender.sendCheck
unfoldable pub apns_send_check : ScanWorld → PlannedCheck → Scan → CheckAnswer × Scan
apns_send_check w planned x =
    let environment = environment_of w planned in
    let (goes, x') = wanted w planned x in
    if goes
    then after_first_answer w planned environment (w.apns_transport x.step environment planned)
        (depart w planned (some environment) x')
    else (check_cancelled, x')

-- A token from the endpoint is kept until a minute before it ends. None is an answer without one.
unfoldable pub fetch_access : ScanWorld → Scan → Option String × Scan
fetch_access w x = elim (w.fcm_access x.step) [
  | none ↦ (none, wait w x)
  | some (value, expires_in) ↦ (
    some value,
    wait w (record x {
      cached = some (record { value = value; expires_at = w.now x.step + expires_in });
    }),
  )
]

unfoldable pub access_from : ScanWorld → Option CachedAccess → Scan → Option String × Scan
access_from w none x = fetch_access w x
access_from w (some c) x =
    if ltb (w.now x.step + 60) c.expires_at then (some c.value, wait w x) else fetch_access w x

-- FcmCheckSender.accessToken
unfoldable pub check_access_token : ScanWorld → Scan → Option String × Scan
check_access_token w x = access_from w x.cached x

abbrev or_fcm_answer : Option ProviderResponse → CheckAnswer
or_fcm_answer none = check_failed
or_fcm_answer (some r) = fcm_answer r

unfoldable pub post_with : ScanWorld → PlannedCheck → Option String × Scan → CheckAnswer × Scan
post_with w planned (none, x) = (check_failed, x)
post_with w planned (some token, x) =
    let (goes, x') = wanted w planned x in
    if goes
    then (or_fcm_answer (w.fcm_post x.step token planned), depart w planned none x')
    else (check_cancelled, x')

-- FcmCheckSender.sendCheck
unfoldable pub fcm_send_check : ScanWorld → PlannedCheck → Scan → CheckAnswer × Scan
fcm_send_check w planned x = post_with w planned (check_access_token w x)

abbrev pub is_android : Platform → Bool
is_android android = true
is_android _ = false

abbrev pub not_configured : CheckAnswer
not_configured = record { outcome = failed; status = 501 }

-- CheckScheduler.send
unfoldable pub send_check : ScanWorld → PlannedCheck → Scan → CheckAnswer × Scan
send_check w planned x =
    if is_android planned.platform
    then (if w.fcm_configured then fcm_send_check w planned x else (not_configured, x))
    else if w.apns_configured
    then apns_send_check w planned x
    else (not_configured, x)
