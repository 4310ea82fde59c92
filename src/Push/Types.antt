-- ===== src/Push/Types.antt =====
-- src/push/types.ts, and what src/push/dispatcher.ts reads and writes. A sender is a function of what
-- has been sent so far, so that the same push may be answered differently each time; a send that
-- throws is an answer of its own.
use critalarm_server.Prelude.{ℕ, Bool, String, Option, List}
use critalarm_server.Incident.Types.{DeliveryEvent, IncidentState, Store}
use critalarm_server.Check.Types.{Platform, AlarmTokenKind}

pub data ApnsEnvironment : Type 0 where
  sandbox production : ApnsEnvironment

pub record PushDevice : Type 0 where
  pub id : ℕ
  pub account_id : ℕ
  pub platform : Platform
  pub push_token : String
  pub apns_environment : Option ApnsEnvironment

pub record PushResult : Type 0 where
  pub status : ℕ
  pub stale : Bool
  pub apns_environment : Option ApnsEnvironment

-- 'start' | 'update' | 'end'
pub data LiveActivityEvent : Type 0 where
  starting updating ending : LiveActivityEvent

pub record LiveActivityPush : Type 0 where
  pub token : String
  pub event : LiveActivityEvent
  pub incident_id : ℕ
  pub topic : String
  pub server : String
  pub state : IncidentState
  pub title : String
  pub opened_at : ℕ
  pub apns_environment : Option ApnsEnvironment

pub data Answer : Type 0 where
  answered : PushResult → Answer
  threw : Answer

-- A call of a sender.
pub data Request : Type 0 where
  alarm : (device : PushDevice) (event : DeliveryEvent) → Request
  activity : LiveActivityPush → Request

abbrev pub Log : Type 0
Log = List (Request × Answer)

-- PushDispatchers, with the clock.
pub record PushDispatchers : Type 0 where
  pub apns : Log → PushDevice → DeliveryEvent → Answer
  pub fcm : Log → PushDevice → DeliveryEvent → Answer
  pub live_activity : Option (Log → LiveActivityPush → Answer)
  pub now : Log → ℕ

-- 'apns' | 'fcm' | 'la_start' | 'la_update'
pub data TokenKind : Type 0 where
  ring : AlarmTokenKind → TokenKind
  la_start la_update : TokenKind

-- A row of `devices`, of `device_tokens` and of `subscriptions`, the columns that are read.
pub record DeviceRow : Type 0 where
  pub id : ℕ
  pub account_id : ℕ
  pub platform : Platform
  pub push_token : String
  pub apns_environment : Option ApnsEnvironment

pub record DeviceTokenRow : Type 0 where
  pub device_id : ℕ
  pub kind : TokenKind
  pub activity_id : String
  pub incident_id : Option ℕ
  pub token : String

pub record SubscriptionRow : Type 0 where
  pub device_id : ℕ
  pub topic_hash : String

-- The database: the engine's tables and those of the devices.
pub record PushStore : Type 0 where
  pub engine : Store
  pub devices : List DeviceRow
  pub device_tokens : List DeviceTokenRow
  pub subscriptions : List SubscriptionRow

-- What a dispatch works on: the database, its tally, and the calls it has made.
pub record Dispatch : Type 0 where
  pub db : PushStore
  pub delivered : ℕ
  pub failed : ℕ
  pub log : Log
