-- ===== src/Check/Types.antt =====
-- src/check/store.ts and src/platform.ts: the tables of the weekly check and what it answers with.
-- Row ids are numbers and times are whole seconds. A skipped round's reason `tier` is `by_tier`
-- here, a refused push is `push_refused`, and the states `received` and `no_token` of a device are
-- `was_received` and `token_missing`, since a constructor's name stands for one type only.
use critalarm_server.Prelude.{ℕ, Bool, String, List, Option}
use critalarm_server.Tier.Caps.{Tier, hosted, AccountRow}
use critalarm_server.Stats.Counters.{CountRow}

abbrev pub check_tier : Tier
check_tier = hosted

pub data RoundResult : Type 0 where
  received missed refused skipped : RoundResult

-- StoredSkipReason: `pack` is never written now.
pub data SkipReason : Type 0 where
  by_tier no_token disabled held unsent pack : SkipReason

pub data CheckState : Type 0 where
  waiting was_received missed_once missed_repeatedly token_refused token_missing off : CheckState

pub data AttemptOutcome : Type 0 where
  accepted push_refused failed cancelled : AttemptOutcome

pub data Platform : Type 0 where
  ios android macos : Platform

pub data AlarmTokenKind : Type 0 where
  apns fcm : AlarmTokenKind

abbrev pub alarm_token_kind : Platform → AlarmTokenKind
alarm_token_kind android = fcm
alarm_token_kind _ = apns

pub data OffReason : Type 0 where
  off_tier off_disabled : OffReason

pub record CheckView : Type 0 where
  pub enabled : Bool
  pub state : CheckState
  pub reason : Option OffReason
  pub misses : ℕ
  pub last_sent_at : Option ℕ
  pub last_received_at : Option ℕ
  pub next_due_at : Option ℕ
  pub notice_after : Option ℕ

pub record ReceiptAnswer : Type 0 where
  pub counted : Bool
  pub next_due_at : Option ℕ
  pub notice_after : Option ℕ

pub record PlannedCheck : Type 0 where
  pub round_id : ℕ
  pub attempt : ℕ
  pub check_id : String
  pub platform : Platform
  pub push_token : String
  pub apns_environment : Option String

-- A number in a receipt's body: a whole one, one below zero by its distance, or anything else.
pub data Note : Type 0 where
  whole negative : ℕ → Note
  other : Note

pub record Notes : Type 0 where
  pub attempt : Note
  pub received_at : Note

-- A row of `device_checks`.
pub record StateRow : Type 0 where
  pub device_id : ℕ
  pub enabled : Bool
  pub enrolled_at : ℕ
  pub next_attempt_at : Option ℕ
  pub next_due_at : ℕ
  pub round_id : Option ℕ
  pub misses : ℕ
  pub last_result : Option RoundResult
  pub second_miss_at : Option ℕ
  pub last_sent_at : Option ℕ
  pub last_received_at : Option ℕ

-- A row of `check_rounds`, the columns that `ROUND_COLUMNS` leaves out included.
pub record RoundRow : Type 0 where
  pub id : ℕ
  pub device_id : ℕ
  pub nonce_hash : String
  pub opened_at : ℕ
  pub closes_at : ℕ
  pub closed_at : Option ℕ
  pub attempts : ℕ
  pub result : Option RoundResult
  pub attempt_received : Option ℕ
  pub receipt_at : Option ℕ
  pub device_received_at : Option Note
  pub late_receipt_at : Option ℕ
  pub reason : Option SkipReason
  pub held_until : Option ℕ

pub record AttemptRow : Type 0 where
  pub round_id : ℕ
  pub attempt : ℕ
  pub recorded_at : ℕ
  pub outcome : Option AttemptOutcome
  pub status : Option ℕ

-- A row of `devices`, the columns that the check reads.
pub record Device : Type 0 where
  pub id : ℕ
  pub account_id : ℕ
  pub platform : Platform
  pub apns_environment : Option String
  pub last_alarm_push_at : Option ℕ
  pub push_token : String

pub record TokenRow : Type 0 where
  pub device_id : ℕ
  pub kind : AlarmTokenKind
  pub activity_id : String
  pub token : String

-- What `device` reads: `push_token` is the alarm token, or the device's own where it has none.
pub record DeviceRow : Type 0 where
  pub account_id : ℕ
  pub platform : Platform
  pub apns_environment : Option String
  pub last_alarm_push_at : Option ℕ
  pub push_token : String

pub record CheckStore : Type 0 where
  pub accounts : List AccountRow
  pub devices : List Device
  pub device_tokens : List TokenRow
  pub device_checks : List StateRow
  pub check_rounds : List RoundRow
  pub check_attempts : List AttemptRow
  pub counters : List CountRow
  pub drawn : ℕ

-- What the check takes from outside: `slotFor` (sha256 of the device's id), `checkIdFor` (an HMAC
-- of the round's id), sha256 of a text, and the round ids that are drawn at random.
pub record Outside : Type 0 where
  pub slot_for : ℕ → ℕ
  pub check_id_for : ℕ → String
  pub sha256 : String → String
  pub round_ids : ℕ → ℕ
