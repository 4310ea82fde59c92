-- ===== src/Incident/Types.antt =====
-- src/incident/types.ts, and the four tables that src/incident/service.ts reads and writes.
-- Row ids and account ids are opaque: the code compares them for equality and order only, so they
-- are numbers here. Times are whole seconds. A JSON column holds the value it encodes.
use critalarm_server.Prelude.{ℕ, Bool, String, List, Option}

-- 'open' | 'acked' | 'closed' | 'expired'
pub data IncidentState : Type 0 where
  opened acked closed expired : IncidentState

pub data TimerKind : Type 0 where
  repeat expire desk : TimerKind

-- 'open' | 'repeat' | 'reopen' | 'p4' | 'p5' | 'ack' | 'close' | 'expire'
pub data EventKind : Type 0 where
  opening repeating reopening p4 p5 acking closing expiring : EventKind

pub data RelayContent : Type 0 where
  withheld full : RelayContent

pub record DeliveryEvent : Type 0 where
  pub kind : EventKind
  pub topic_hash : String
  pub topic : String
  pub incident_id : Option ℕ
  pub message_id : Option ℕ
  pub priority : ℕ
  pub max_ring_s : ℕ
  pub ring_until : Option ℕ
  pub server : String
  pub title : String
  pub body : String
  pub critical : Bool
  pub relay_content : Option RelayContent
  pub account_id : Option ℕ

pub record StoredMessageInput : Type 0 where
  pub title : String
  pub body : String
  pub priority : ℕ
  pub tags : List String
  pub click : Option String
  pub markdown : Bool

pub record CriticalPublication : Type 0 where
  pub topic_id : ℕ
  pub topic_hash : String
  pub topic : String
  pub base_url : String
  pub repeat_interval_s : ℕ
  pub max_ring_s : ℕ
  pub desk_timer_s : ℕ
  pub message : StoredMessageInput
  pub relay_content : Option RelayContent

pub record MessageRecord : Type 0 where
  pub id : ℕ
  pub topic_id : ℕ
  pub incident_id : Option ℕ
  pub title : String
  pub body : String
  pub priority : ℕ
  pub tags : List String
  pub click : Option String
  pub markdown : Bool
  pub created_at : ℕ

pub record IncidentRow : Type 0 where
  pub id : ℕ
  pub topic_id : ℕ
  pub state : IncidentState
  pub opened_at : ℕ
  pub acked_at : Option ℕ
  pub closed_at : Option ℕ
  pub last_message_at : ℕ
  pub updated_at : ℕ
  pub max_ring_s : ℕ

pub record IncidentRecord : Type 0 where
  pub id : ℕ
  pub topic_id : ℕ
  pub state : IncidentState
  pub opened_at : ℕ
  pub acked_at : Option ℕ
  pub closed_at : Option ℕ
  pub last_message_at : ℕ
  pub updated_at : ℕ

pub record IncidentWithMessages : Type 0 where
  pub incident : IncidentRecord
  pub topic : String
  pub messages : List MessageRecord

pub record IncidentFilter : Type 0 where
  pub state : Option IncidentState
  pub topic : Option String
  pub limit : Option ℕ
  pub since : Option ℕ
  pub opened_after : Option ℕ

-- A row of `topics`, with the columns that the engine reads.
pub record TopicRow : Type 0 where
  pub id : ℕ
  pub account_id : ℕ
  pub name : String
  pub base_url : String
  pub topic_hash : String
  pub critical : Bool
  pub repeat_interval_s : ℕ
  pub max_ring_s : ℕ
  pub desk_timer_s : ℕ
  pub relay_content : RelayContent

pub record TimerRow : Type 0 where
  pub id : ℕ
  pub incident_id : ℕ
  pub kind : TimerKind
  pub fire_at : ℕ

-- The row of `incidents i JOIN topics t ON t.id = i.topic_id`; the column `incident_max_ring_s` is
-- `incident.max_ring_s`.
pub record ScopedIncidentRow : Type 0 where
  pub incident : IncidentRow
  pub scope : TopicRow

-- The row of `timers tm JOIN incidents i JOIN topics t` that the scan works on.
pub record DueTimer : Type 0 where
  pub timer : TimerRow
  pub scoped : ScopedIncidentRow

-- The database, and how many ids have been drawn from the generator.
pub record Store : Type 0 where
  pub topics : List TopicRow
  pub incidents : List IncidentRow
  pub timers : List TimerRow
  pub messages : List MessageRecord
  pub drawn : ℕ

-- `IdGenerator` is injected into the service. The n-th id that it hands out, by method.
pub record IdGenerator : Type 0 where
  pub message : ℕ → ℕ
  pub incident : ℕ → ℕ
  pub timer : ℕ → ℕ
