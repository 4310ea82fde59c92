-- ===== src/Incident/Reads.antt =====
-- src/incident/service.ts: `get`, `list` and `withMessages`.
pub mod Isolation
use critalarm_server.Prelude.{
  ℕ, ◌==◌, leb, ltb, if◌then◌else◌, Bool, true, false, ◌&&◌, ◌||◌, str_eq, Option, none, some, List,
  [], ◌∷◌, map, take, select, sort_by,
}
use critalarm_server.Incident.Types.{
  MessageRecord, IncidentRow, IncidentWithMessages, IncidentFilter, ScopedIncidentRow, Store,
}
use critalarm_server.Incident.Statements.{same_state, incident_record, default_incident_limit}
use critalarm_server.Incident.Actions.{option_is, join_topic, scoped_incident?}

-- ORDER BY created_at ASC, id ASC
abbrev older : MessageRecord → MessageRecord → Bool
older a b = ltb a.created_at b.created_at || ((a.created_at == b.created_at) && leb a.id b.id)

unfoldable pub with_messages : Store → ScopedIncidentRow → IncidentWithMessages
unfolding incident_record
with_messages s row = record {
  incident = incident_record row.incident;
  topic = row.scope.name;
  messages = sort_by older (select (λ m. option_is m.incident_id row.incident.id) s.messages);
}

unfoldable pub get : ℕ → ℕ → Store → Option IncidentWithMessages
unfolding scoped_incident? with_messages
get account id s = elim (scoped_incident? account id s) [
  | none ↦ none
  | some row ↦ some (with_messages s row)
]

-- FROM incidents i JOIN topics t ON t.id = i.topic_id
unfoldable pub join_incidents : Store → List IncidentRow → List ScopedIncidentRow
unfolding join_topic
join_incidents s [] = []
join_incidents s (i ∷ is) = elim (join_topic s i) [
  | none ↦ join_incidents s is
  | some row ↦ row ∷ join_incidents s is
]

-- A clause of the filter that is not given holds of every row.
abbrev pub given {ℓ} : {A : Type ℓ} → (A → Bool) → Option A → Bool
given p none = true
given p (some a) = p a

-- WHERE t.account_id = ? AND ...
unfoldable pub matches : ℕ → IncidentFilter → ScopedIncidentRow → Bool
matches account filter row =
    (row.scope.account_id == account)
    && (given (same_state row.incident.state) filter.state
        && (given (str_eq row.scope.name) filter.topic
            && (given (λ since. ltb since row.incident.updated_at) filter.since
                && given (λ cutoff. ltb cutoff row.incident.opened_at) filter.opened_after)))

-- ORDER BY i.opened_at DESC
abbrev pub latest_first : ScopedIncidentRow → ScopedIncidentRow → Bool
latest_first a b = leb b.incident.opened_at a.incident.opened_at

-- filter.limit ?? DEFAULT_INCIDENT_LIMIT
abbrev pub limit_of : Option ℕ → ℕ
limit_of none = default_incident_limit
limit_of (some n) = n

unfoldable pub list_rows : ℕ → IncidentFilter → Store → List ScopedIncidentRow
unfolding join_incidents matches
list_rows account filter s =
    take (limit_of filter.limit)
      (sort_by latest_first (select (matches account filter) (join_incidents s s.incidents)))

unfoldable pub list : ℕ → IncidentFilter → Store → List IncidentWithMessages
unfolding list_rows with_messages
list account filter s = map (with_messages s) (list_rows account filter s)
