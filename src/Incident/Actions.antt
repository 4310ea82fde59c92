-- ===== src/Incident/Actions.antt =====
-- src/incident/service.ts: `acknowledge` and `close`, and the events that carry no new message. A
-- thrown error leaves the store as it was, since each operation runs in one transaction.
use critalarm_server.Prelude.{
  ℕ, ◌+◌, ◌==◌, leb, ltb, if◌then◌else◌, Bool, true, false, ◌&&◌, ◌||◌, Option, none, some, List,
  [], ◌∷◌, select, find_row, sort_by,
}
use mathlib.Core.List.{head?}
use critalarm_server.Incident.Types.{
  opened, acked, closed, desk, EventKind, repeating, reopening, acking, closing, DeliveryEvent,
  MessageRecord, IncidentRow, IncidentRecord, TopicRow, ScopedIncidentRow, Store, IdGenerator,
}
use critalarm_server.Incident.Statements.{
  conflict, not_found, Outcome, ok, err, ◌>>=◌, same_state, incident_record, is_full,
  delivery_event, insert_timer, delete_timers_of, update_incident, find_incident,
}

abbrev pub option_is : Option ℕ → ℕ → Bool
option_is none n = false
option_is (some m) n = m == n

-- ORDER BY created_at DESC, id DESC
abbrev newer : MessageRecord → MessageRecord → Bool
newer a b = ltb b.created_at a.created_at || ((a.created_at == b.created_at) && leb b.id a.id)

-- SELECT ... FROM messages WHERE incident_id = ? ORDER BY created_at DESC, id DESC LIMIT 1
unfoldable pub latest_message : ℕ → Store → Option MessageRecord
latest_message incident_id s =
    head? (sort_by newer (select (λ m. option_is m.incident_id incident_id) s.messages))

-- kind === "repeat" || kind === "reopen"
unfoldable pub rings_again : EventKind → Bool
rings_again repeating = true
rings_again reopening = true
rings_again _ = false

unfoldable pub event_of : EventKind → ScopedIncidentRow → ℕ → Option MessageRecord → DeliveryEvent
unfolding delivery_event rings_again
event_of kind row opened_at message =
    let incident = row.incident in
    let topic = row.scope in
    let ring_until : Option ℕ =
      if rings_again kind then some (opened_at + incident.max_ring_s) else none in
    elim message [
      | none ↦
          delivery_event kind topic.topic_hash topic.name topic.base_url incident.id none "" ""
            incident.max_ring_s ring_until topic.critical (is_full topic.relay_content)
      | some m ↦
          delivery_event kind topic.topic_hash topic.name topic.base_url incident.id (some m.id)
            m.title m.body incident.max_ring_s ring_until topic.critical
            (is_full topic.relay_content)
    ]

-- `timerEvent`: the last argument of the source defaults to the row's `opened_at`.
unfoldable pub timer_event : EventKind → ScopedIncidentRow → ℕ → Store → DeliveryEvent
timer_event kind row opened_at s = event_of kind row opened_at (latest_message row.incident.id s)

find_topic : ℕ → Store → Option TopicRow
find_topic id s = find_row (λ t. t.id == id) s.topics

-- FROM incidents i JOIN topics t ON t.id = i.topic_id
unfoldable pub join_topic : Store → IncidentRow → Option ScopedIncidentRow
unfolding find_topic
join_topic s i = elim (find_topic i.topic_id s) [
  | none ↦ none
  | some t ↦ some (record { incident = i; scope = t })
]

-- AND t.account_id = ?
unfoldable pub owned_by : ℕ → Option ScopedIncidentRow → Option ScopedIncidentRow
owned_by account none = none
owned_by account (some row) = if row.scope.account_id == account then some row else none

unfoldable pub scoped_incident? : ℕ → ℕ → Store → Option ScopedIncidentRow
unfolding find_incident
scoped_incident? account id s = elim (find_incident id s) [
  | none ↦ none
  | some i ↦ owned_by account (join_topic s i)
]

-- `scopedIncident` throws where `scopedIncidentOrNull` answers null.
unfoldable pub scoped_incident : ℕ → ℕ → Store → Outcome ScopedIncidentRow
unfolding scoped_incident?
scoped_incident account id s = elim (scoped_incident? account id s) [
  | none ↦ err not_found
  | some row ↦ ok row
]

pub record Changed : Type 0 where
  pub incident : IncidentRecord
  pub events : List DeliveryEvent

unfoldable pub acknowledged : ℕ → IncidentRow → IncidentRow
acknowledged now i = record i { state = acked; acked_at = some now; updated_at = now }

unfoldable pub closed_by_user : ℕ → IncidentRow → IncidentRow
closed_by_user now i = record i { state = closed; closed_at = some now; updated_at = now }

-- The writes of `acknowledge`, in their order.
unfoldable pub write_ack : IdGenerator → ℕ → ScopedIncidentRow → ℕ → Store → Store
unfolding update_incident delete_timers_of insert_timer acknowledged
write_ack g now row id s =
    let updated = update_incident id (acknowledged now) s in
    insert_timer g id desk (now + row.scope.desk_timer_s) (delete_timers_of id updated)

unfoldable pub write_close : ℕ → ℕ → Store → Store
unfolding update_incident delete_timers_of closed_by_user
write_close now id s = delete_timers_of id (update_incident id (closed_by_user now) s)

unfoldable pub acknowledge : IdGenerator → ℕ → ℕ → ℕ → Store → Outcome (Changed × Store)
unfolding scoped_incident write_ack incident_record timer_event
acknowledge g now account id s = do
  row ← scoped_incident account id s
  let s' = write_ack g now row id s
  let incident = record (incident_record row.incident) { state = acked; acked_at = some now }
  let changed : Changed = record {
    incident = incident;
    events = timer_event acking row row.incident.opened_at s' ∷ [];
  }
  if same_state row.incident.state opened then ok (changed, s') else err conflict

unfoldable pub close : ℕ → ℕ → ℕ → Store → Outcome (Changed × Store)
unfolding scoped_incident write_close incident_record timer_event
close now account id s = do
  row ← scoped_incident account id s
  let s' = write_close now id s
  let incident = record (incident_record row.incident) { state = closed; closed_at = some now }
  let changed : Changed = record {
    incident = incident;
    events = timer_event closing row row.incident.opened_at s' ∷ [];
  }
  if same_state row.incident.state acked then ok (changed, s') else err conflict

-- The store once the transaction has been committed or rolled back.
abbrev pub after : Store → Outcome (Changed × Store) → Store
after s (ok (changed, s')) = s'
after s (err e) = s
