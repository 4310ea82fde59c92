-- ===== src/Ingress/Types.antt =====
-- src/ingress/types.ts: what a publish is given and what it answers with.
use critalarm_server.Prelude.{ℕ, Bool, String, List, Option}
use critalarm_server.Incident.Types.{RelayContent, Store}
use critalarm_server.Tier.Caps.{AccountRow}
use critalarm_server.Tier.P4Usage.{UsageRow}

pub record PublishInput : Type 0 where
  pub topic : String
  pub message : String
  pub title : Option String
  pub priority : ℕ
  pub tags : List String
  pub click : Option String
  pub markdown : Bool

-- NtfyMessage with `incident_id`. The field `event` is always "message".
pub record PublishResult : Type 0 where
  pub id : ℕ
  pub time : ℕ
  pub expires : ℕ
  pub topic : String
  pub title : String
  pub message : String
  pub priority : ℕ
  pub tags : List String
  pub click : Option String
  pub markdown : Bool
  pub incident_id : Option ℕ

pub record TopicRecord : Type 0 where
  pub id : ℕ
  pub account_id : ℕ
  pub name : String
  pub base_url : String
  pub topic_hash : String
  pub critical : Bool
  pub repeat_interval_s : ℕ
  pub max_ring_s : ℕ
  pub desk_timer_s : ℕ
  pub relay_content : Option RelayContent

pub data ServerMode : Type 0 where
  selfhosted relay_server hosted_server : ServerMode

-- What `dispatch` comes to: nothing, its counts, or an error that it throws.
pub data Dispatched : Type 0 where
  silent broken : Dispatched
  counts : (delivered : ℕ) (failed : Option ℕ) → Dispatched

-- What a publish reads and writes.
pub record IngressState : Type 0 where
  pub accounts : List AccountRow
  pub usage : List UsageRow
  pub store : Store

-- The answer, the CapError, or the error of a dispatch that reached nobody.
pub data Reply : Type 0 where
  answered : PublishResult → Reply
  over_cap dispatch_failed : Reply
