-- ===== src/Incident/Scan.antt =====
-- src/incident/service.ts: `scanDue` and `processTimer`. The clock is read once for the query and
-- once for each due timer, each of which is processed in a transaction of its own.
use critalarm_server.Prelude.{
  ℕ, suc, ◌+◌, ◌==◌, leb, ltb, if◌then◌else◌, Bool, ◌&&◌, ◌||◌, Option, none, some, List, [], ◌∷◌,
  select, update_where, sort_by,
}
use critalarm_server.Incident.Types.{
  opened, acked, expired, TimerKind, repeat, expire, desk, repeating, reopening, expiring,
  DeliveryEvent, IncidentRow, TimerRow, DueTimer, Store, IdGenerator,
}
use critalarm_server.Incident.Statements.{
  same_state, insert_timer, delete_timers_of, delete_timer, update_incident, find_incident,
}
use critalarm_server.Incident.Actions.{timer_event, join_topic}

-- CASE tm.kind WHEN 'expire' THEN 0 WHEN 'desk' THEN 1 ELSE 2 END
abbrev pub rank : TimerKind → ℕ
rank expire = 0
rank desk = 1
rank repeat = 2

-- ORDER BY rank, tm.fire_at, tm.id
abbrev pub sooner : DueTimer → DueTimer → Bool
sooner a b =
    ltb (rank a.timer.kind) (rank b.timer.kind)
    || ((rank a.timer.kind == rank b.timer.kind)
        && (ltb a.timer.fire_at b.timer.fire_at
            || ((a.timer.fire_at == b.timer.fire_at) && leb a.timer.id b.timer.id)))

-- timers tm JOIN incidents i ON i.id = tm.incident_id JOIN topics t ON t.id = i.topic_id
unfoldable pub join_timer : Store → TimerRow → Option DueTimer
unfolding find_incident join_topic
join_timer s t = elim (find_incident t.incident_id s) [
  | none ↦ none
  | some i ↦ elim (join_topic s i) [
    | none ↦ none
    | some row ↦ some (record { timer = t; scoped = row })
  ]
]

unfoldable pub join_timers : Store → List TimerRow → List DueTimer
unfolding join_timer
join_timers s [] = []
join_timers s (t ∷ ts) = elim (join_timer s t) [
  | none ↦ join_timers s ts
  | some d ↦ d ∷ join_timers s ts
]

unfoldable pub due_timers : ℕ → Store → List DueTimer
unfolding join_timers
due_timers now s = sort_by sooner (join_timers s (select (λ t. leb t.fire_at now) s.timers))

unfoldable pub timed_out : ℕ → IncidentRow → IncidentRow
timed_out now i = record i { state = expired; closed_at = some now; updated_at = now }

unfoldable pub reopened : ℕ → IncidentRow → IncidentRow
reopened now i = record i { state = opened; opened_at = now; acked_at = none; updated_at = now }

unfoldable pub write_expire : ℕ → ℕ → Store → Store
unfolding update_incident delete_timers_of timed_out
write_expire now id s = delete_timers_of id (update_incident id (timed_out now) s)

unfoldable pub write_reopen : IdGenerator → ℕ → DueTimer → IncidentRow → Store → Store
unfolding update_incident delete_timers_of insert_timer reopened
write_reopen g now due current s =
    let id = due.scoped.incident.id in
    let updated = delete_timers_of id (update_incident id (reopened now) s) in
    let ringing = insert_timer g id repeat (now + due.scoped.scope.repeat_interval_s) updated in
    insert_timer g id expire (now + current.max_ring_s) ringing

-- UPDATE timers SET fire_at = ? WHERE id = ?
unfoldable pub set_fire_at : ℕ → ℕ → Store → Store
set_fire_at timer_id fire_at s = record s {
  timers = update_where (λ t. t.id == timer_id) (λ t. record t { fire_at = fire_at }) s.timers;
}

unfoldable pub process_kind :
    TimerKind → IdGenerator → ℕ → DueTimer → IncidentRow → Store → Option DeliveryEvent × Store
unfolding write_expire write_reopen set_fire_at delete_timer timer_event
process_kind expire g now due current s =
    let stale = delete_timer due.timer.id s in
    let s' = write_expire now due.scoped.incident.id s in
    if same_state current.state opened
    then (some (timer_event expiring due.scoped due.scoped.incident.opened_at s'), s')
    else (none, stale)
process_kind desk g now due current s =
    let stale = delete_timer due.timer.id s in
    let s' = write_reopen g now due current s in
    if same_state current.state acked
    then (some (timer_event reopening due.scoped now s'), s')
    else (none, stale)
process_kind repeat g now due current s =
    let stale = delete_timer due.timer.id s in
    let s' = set_fire_at due.timer.id (now + due.scoped.scope.repeat_interval_s) s in
    if same_state current.state opened
    then (some (timer_event repeating due.scoped due.scoped.incident.opened_at s'), s')
    else (none, stale)

unfoldable pub process_timer : IdGenerator → ℕ → DueTimer → Store → Option DeliveryEvent × Store
unfolding process_kind find_incident
process_timer g now due s = elim (find_incident due.scoped.incident.id s) [
  | none ↦ (none, s)
  | some current ↦ process_kind due.timer.kind g now due current s
]

abbrev pub push_event : Option DeliveryEvent → List DeliveryEvent → List DeliveryEvent
push_event none events = events
push_event (some e) events = e ∷ events

-- `clock k` is the k-th reading that is left.
unfoldable pub process_all :
    IdGenerator → (ℕ → ℕ) → List DueTimer → Store → List DeliveryEvent × Store
process_all g clock [] s = ([], s)
process_all g clock (due ∷ rest) s =
    let (event, s₁) = process_timer g (clock 0) due s in
    let (events, s₂) = process_all g (λ k. clock (suc k)) rest s₁ in (push_event event events, s₂)

unfoldable pub scan_due : IdGenerator → (ℕ → ℕ) → Store → List DeliveryEvent × Store
unfolding process_all due_timers process_timer
scan_due g clock s = process_all g (λ k. clock (suc k)) (due_timers (clock 0) s) s
