-- ===== src/Incident/Examples.antt =====
-- The theorems at one server's history: a topic that repeats after 30 seconds and rings for 1800.
use critalarm_server.Prelude.{
  ℕ, ◌<◌, ◌≤◌, ◌==◌, true, false, ◌≡◌, ◌⊎◌, refl, none, some, List, [], ◌∷◌, ◌++◌, take, map, arith,
  All, count_where, find_row, length, select, delete_where, update_where, sort_by,
}
use critalarm_server.Incident.Types.{
  opened, acked, closed, desk, p5, withheld, TopicRow, IncidentRow, CriticalPublication,
  IncidentFilter, ScopedIncidentRow, Store, IdGenerator,
}
use critalarm_server.Incident.Statements.{err, conflict, not_found, active_incident}
use critalarm_server.Incident.Publish.{publish_critical}
use critalarm_server.Incident.Actions.{owned_by, acknowledge, close, after}
use critalarm_server.Incident.Scan.{scan_due}
use critalarm_server.Incident.Reads.{get, list_rows}
use critalarm_server.Incident.Reads.Isolation.{Ordered, list_rows_lem, get_isolation}
use critalarm_server.Incident.Invariant.{kinds_of, state_of, kinds_for, active_in, IsFresh, Inv}
use critalarm_server.Incident.Runs.{
  Call, publishes, acknowledges, closes, scans, step, run, start, start-Inv, run-Inv,
  run-start_invariant,
}
use critalarm_server.Incident.Lifecycle.{Taken, run_lifecycle}
use critalarm_server.Incident.Replies.{acknowledge_effect}
use critalarm_server.Incident.Due.Scan.{scan_due_done}
use critalarm_server.Incident.Publishing.{ring_of, publish_critical_effect, publish_critical_join}

abbrev counting : IdGenerator
counting = record { message = λ k. k; incident = λ k. k; timer = λ k. k }

counting-IsFresh : IsFresh counting
counting-IsFresh = record { incident = λ a b e. e; timer = λ a b e. e }

abbrev prod : TopicRow
prod = record {
  id = 7;
  account_id = 1;
  name = "prod";
  base_url = "https://alerts.example.com";
  topic_hash = "h";
  critical = true;
  repeat_interval_s = 30;
  max_ring_s = 1800;
  desk_timer_s = 600;
  relay_content = withheld;
}

abbrev down : CriticalPublication
down = record {
  topic_id = 7;
  topic_hash = "h";
  topic = "prod";
  base_url = "https://alerts.example.com";
  repeat_interval_s = 30;
  max_ring_s = 1800;
  desk_timer_s = 600;
  message = record {
    title = "Database down";
    body = "pg_isready failed";
    priority = 5;
    tags = [];
    click = none;
    markdown = false;
  };
  relay_content = none;
}

abbrev opens : List Call
opens = publishes 1000 down ∷ []

abbrev handled : List Call
handled = publishes 1000 down ∷ scans (λ _. 1030) ∷ acknowledges 1040 1 0 ∷ closes 1050 1 0 ∷ []

abbrev ringing : Store
ringing = run counting (start (prod ∷ [])) opens

ringing_state : state_of 0 ringing.incidents ≡ some opened
unfolding run state_of find_row
ringing_state = refl

handled_state : state_of 0 (run counting (start (prod ∷ [])) handled).incidents ≡ some closed
unfolding run state_of find_row sort_by select owned_by update_where
handled_state = refl

ringing-Inv : Inv counting ringing
ringing-Inv =
    run-Inv counting counting-IsFresh (start (prod ∷ [])) opens
      (start-Inv counting counting-IsFresh (prod ∷ []))

run-start_invariant_example :
    let s = run counting (start (prod ∷ [])) handled in
    ((topic : ℕ) → count_where (active_in topic) s.incidents ≤ 1)
    × ((i : ℕ) → count_where (λ r. r.id == i) s.incidents ≤ 1)
    × ((i : ℕ) → kinds_of i s.timers ≡ kinds_for (state_of i s.incidents))
run-start_invariant_example = run-start_invariant counting counting-IsFresh (prod ∷ []) handled

run_lifecycle_example :
    Taken
      (acknowledges 1040 1 0)
      0
      (state_of 0 ringing.incidents)
      (state_of 0 (step counting ringing (acknowledges 1040 1 0)).incidents)
run_lifecycle_example =
    run_lifecycle counting counting-IsFresh (prod ∷ []) opens (acknowledges 1040 1 0) 0

abbrev answered : Store
answered = after ringing (acknowledge counting 1040 1 0 ringing)

acknowledge_effect_example :
    let s'' = after answered (close 1050 1 0 answered) in
    (state_of 0 ringing.incidents ≡ some opened)
    × (state_of 0 answered.incidents ≡ some acked)
    × (kinds_of 0 answered.timers ≡ desk ∷ [])
    × (acknowledge counting 1050 1 0 answered ≡ err conflict)
    × (state_of 0 s''.incidents ≡ some closed)
    × (kinds_of 0 s''.timers ≡ [])
    × (close 1050 1 0 s'' ≡ err conflict)
unfolding run acknowledge owned_by find_row select sort_by update_where delete_where
acknowledge_effect_example =
    acknowledge_effect counting counting-IsFresh 1040 1050 1 0 ringing ringing-Inv {s' = answered}
      refl

scan_due_done_example : All (λ t. 1030 < t.fire_at) (scan_due counting (λ _. 1030) ringing).1.timers
unfolding run find_row
scan_due_done_example =
    scan_due_done counting counting-IsFresh 1030 ringing ringing-Inv (omega arith)
      ((_, refl, omega arith), ((_, refl, omega arith), tt))

publish_critical_join_example :
    let (published, s') = publish_critical counting 1500 down ringing in
    (published.incident.id ≡ 0)
    × (length s'.incidents ≡ length ringing.incidents)
    × (s'.timers ≡ ringing.timers)
    × (map ring_of published.events ≡ (p5, some 0, some 2800, true) ∷ [])
unfolding run active_incident find_row
publish_critical_join_example = publish_critical_join counting 1500 down ringing refl

publish_critical_effect_example :
    let (published, s') = publish_critical counting 1500 down ringing in
    (row : IncidentRow) × (active_incident 7 s' ≡ some row)
    × (row.topic_id ≡ 7)
    × ((row.state ≡ opened) ⊎ (row.state ≡ acked))
    × (row.id ≡ published.incident.id)
    × (row.last_message_at ≡ 1500)
    × (published.message.incident_id ≡ some row.id)
    × (s'.messages ≡ ringing.messages ++ published.message ∷ [])
publish_critical_effect_example = publish_critical_effect counting 1500 down ringing

abbrev open_ones : IncidentFilter
open_ones = record {
  state = some opened;
  topic = none;
  limit = none;
  since = none;
  opened_after = some 400;
}

list_rows_lem_example :
    (rows : List ScopedIncidentRow) × Ordered 1 open_ones ringing rows
    × (list_rows 1 open_ones ringing ≡ take 20 rows)
list_rows_lem_example = list_rows_lem 1 open_ones ringing

get_isolation_example :
    (get 2 0 ringing ≡ none)
    × (acknowledge counting 1040 2 0 ringing ≡ err not_found)
    × (close 1040 2 0 ringing ≡ err not_found)
unfolding run get owned_by find_row select sort_by
get_isolation_example = get_isolation counting 1040 1 2 0 ringing refl (omega arith)
