-- ===== src/Incident/Publish.antt =====
-- src/incident/service.ts: `publishCritical`. A priority-5 message on a critical topic opens an
-- incident, or joins the topic's active one.
use critalarm_server.Prelude.{ℕ, ◌+◌, true, not, Option, none, some, List, [], ◌∷◌, ◌++◌}
use critalarm_server.Incident.Types.{
  opened, acked, repeat, expire, opening, p5, DeliveryEvent, CriticalPublication, MessageRecord,
  IncidentRow, IncidentRecord, Store, IdGenerator,
}
use critalarm_server.Incident.Statements.{
  same_state, incident_record, is_full_input, delivery_event, insert_timer, update_incident,
  active_incident,
}

pub record Published : Type 0 where
  pub message : MessageRecord
  pub incident : IncidentRecord
  pub events : List DeliveryEvent

unfoldable pub new_incident : ℕ → ℕ → CriticalPublication → IncidentRow
new_incident id now input = record {
  id = id;
  topic_id = input.topic_id;
  state = opened;
  opened_at = now;
  acked_at = none;
  closed_at = none;
  last_message_at = now;
  updated_at = now;
  max_ring_s = input.max_ring_s;
}

unfoldable pub touched : ℕ → IncidentRow → IncidentRow
touched now i = record i { last_message_at = now; updated_at = now }

-- The incident of a publication and the store after it was inserted or updated.
unfoldable pub open_or_join :
    IdGenerator → ℕ → CriticalPublication → Option IncidentRow → Store → IncidentRow × Store
unfolding insert_timer update_incident new_incident touched
open_or_join g now input none s =
    let id = g.incident s.drawn in
    let incident = new_incident id now input in
    let inserted = record s { incidents = s.incidents ++ incident ∷ []; drawn = s.drawn + 1 } in
    let ringing = insert_timer g id repeat (now + input.repeat_interval_s) inserted in
    (incident, insert_timer g id expire (now + input.max_ring_s) ringing)
open_or_join g now input (some existing) s =
    (touched now existing, update_incident existing.id (touched now) s)

unfoldable pub new_message : ℕ → ℕ → ℕ → CriticalPublication → MessageRecord
new_message id incident_id now input = record {
  id = id;
  topic_id = input.topic_id;
  incident_id = some incident_id;
  title = input.message.title;
  body = input.message.body;
  priority = input.message.priority;
  tags = input.message.tags;
  click = input.message.click;
  markdown = input.message.markdown;
  created_at = now;
}

unfoldable pub publication_event :
    ℕ → CriticalPublication → Option IncidentRow → ℕ → MessageRecord → DeliveryEvent
unfolding delivery_event
publication_event now input none incident_id m =
    delivery_event opening input.topic_hash input.topic input.base_url incident_id (some m.id)
      m.title m.body input.max_ring_s (some (now + input.max_ring_s)) true
      (is_full_input input.relay_content)
publication_event now input (some existing) incident_id m =
    delivery_event p5 input.topic_hash input.topic input.base_url incident_id (some m.id) m.title
      m.body existing.max_ring_s (some (existing.opened_at + existing.max_ring_s))
      (not (same_state existing.state acked)) (is_full_input input.relay_content)

unfoldable pub publish_critical : IdGenerator → ℕ → CriticalPublication → Store → Published × Store
unfolding open_or_join new_message publication_event active_incident incident_record
publish_critical g now input s =
    let existing = active_incident input.topic_id s in
    let (incident, s') = open_or_join g now input existing s in
    let message = new_message (g.message s'.drawn) incident.id now input in
    (
      record {
        message = message;
        incident = incident_record incident;
        events = publication_event now input existing incident.id message ∷ [];
      },
      record s' { messages = s'.messages ++ message ∷ []; drawn = s'.drawn + 1 },
    )
