-- ===== src/Incident/Statements.antt =====
-- src/incident/service.ts: the SQL statements that `IncidentService` runs, the errors that it
-- throws and the shape of an event.
use critalarm_server.Prelude.{
  ℕ, ◌+◌, ◌==◌, Bool, true, false, ◌&&◌, String, Option, none, some, [], ◌∷◌, ◌++◌, delete_where,
  update_where, find_row,
}
use critalarm_server.Incident.Types.{
  IncidentState, opened, acked, closed, expired, TimerKind, EventKind, RelayContent, withheld, full,
  DeliveryEvent, IncidentRow, IncidentRecord, TimerRow, Store, IdGenerator,
}

abbrev pub default_incident_limit : ℕ
default_incident_limit = 20

abbrev pub max_incident_limit : ℕ
max_incident_limit = 200

-- IncidentConflictError and IncidentNotFoundError.
pub data Error : Type 0 where
  conflict not_found : Error

pub data Outcome {ℓ} (A : Type ℓ) : Type ℓ where
  ok : A → Outcome A
  err : Error → Outcome A

infixl 5 ◌>>=◌
abbrev pub ◌>>=◌ {ℓ κ} : {A : Type ℓ} {B : Type κ} → Outcome A → (A → Outcome B) → Outcome B
ok a >>= f = f a
err e >>= f = err e

abbrev pub same_state : IncidentState → IncidentState → Bool
same_state opened opened = true
same_state acked acked = true
same_state closed closed = true
same_state expired expired = true
same_state _ _ = false

-- `state IN ('open', 'acked')`
abbrev pub is_active : IncidentState → Bool
is_active opened = true
is_active acked = true
is_active _ = false

unfoldable pub incident_record : IncidentRow → IncidentRecord
incident_record row = record {
  id = row.id;
  topic_id = row.topic_id;
  state = row.state;
  opened_at = row.opened_at;
  acked_at = row.acked_at;
  closed_at = row.closed_at;
  last_message_at = row.last_message_at;
  updated_at = row.updated_at;
}

abbrev pub is_full : RelayContent → Option RelayContent
is_full full = some full
is_full withheld = none

abbrev pub is_full_input : Option RelayContent → Option RelayContent
is_full_input none = none
is_full_input (some c) = is_full c

unfoldable pub delivery_event :
    EventKind
    → String
    → String
    → String
    → ℕ
    → Option ℕ
    → String
    → String
    → ℕ
    → Option ℕ
    → Bool
    → Option RelayContent
    → DeliveryEvent
delivery_event kind topic_hash topic server incident_id message_id title body max_ring_s ring_until
      critical relay_content =
    record {
      kind = kind;
      topic_hash = topic_hash;
      topic = topic;
      incident_id = some incident_id;
      message_id = message_id;
      priority = 5;
      max_ring_s = max_ring_s;
      ring_until = ring_until;
      server = server;
      title = title;
      body = body;
      critical = critical;
      relay_content = relay_content;
      account_id = none;
    }

-- One draw from the id generator, and one row of `timers`.
unfoldable pub insert_timer : IdGenerator → ℕ → TimerKind → ℕ → Store → Store
insert_timer g incident_id kind fire_at s = record s {
  timers = s.timers ++ timer ∷ [];
  drawn = s.drawn + 1;
}
  where
    timer : TimerRow
    timer = record {
      id = g.timer s.drawn;
      incident_id = incident_id;
      kind = kind;
      fire_at = fire_at;
    }

-- DELETE FROM timers WHERE incident_id = ?
unfoldable pub delete_timers_of : ℕ → Store → Store
delete_timers_of incident_id s = record s {
  timers = delete_where (λ t. t.incident_id == incident_id) s.timers;
}

-- DELETE FROM timers WHERE id = ?
unfoldable pub delete_timer : ℕ → Store → Store
delete_timer timer_id s = record s { timers = delete_where (λ t. t.id == timer_id) s.timers }

-- UPDATE incidents SET ... WHERE id = ?
unfoldable pub update_incident : ℕ → (IncidentRow → IncidentRow) → Store → Store
update_incident id f s = record s { incidents = update_where (λ i. i.id == id) f s.incidents }

unfoldable pub find_incident : ℕ → Store → Option IncidentRow
find_incident id s = find_row (λ i. i.id == id) s.incidents

-- SELECT ... FROM incidents WHERE topic_id = ? AND state IN ('open', 'acked')
unfoldable pub active_incident : ℕ → Store → Option IncidentRow
active_incident topic_id s =
    find_row (λ i. (i.topic_id == topic_id) && is_active i.state) s.incidents
