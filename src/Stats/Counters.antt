-- ===== src/Stats/Counters.antt =====
-- src/stats/counters.ts: the counters. A day is the number of whole days since the epoch, which its
-- ISO text names.
use critalarm_server.Prelude.{
  ℕ, zero, suc, ◌+◌, ◌/◌, ◌==◌, Bool, false, ◌&&◌, ◌||◌, not, if◌then◌else◌, ◌≡◌, String, str_eq,
  List, [], ◌∷◌, arith, eq_iff,
}
use critalarm_server.Incident.Types.{
  EventKind, opening, repeating, reopening, p4, p5, acking, closing, expiring, DeliveryEvent,
}

pub data Metric : Type 0 where
  pushes_delivered alarms_rung acks incidents_opened checks_sent checks_received : Metric

-- The order of `METRICS`.
abbrev pub metric_index : Metric → ℕ
metric_index pushes_delivered = 0
metric_index alarms_rung = 1
metric_index acks = 2
metric_index incidents_opened = 3
metric_index checks_sent = 4
metric_index checks_received = 5

abbrev pub same_metric : Metric → Metric → Bool
same_metric a b = metric_index a == metric_index b

pub record CountRow : Type 0 where
  pub day : ℕ
  pub relay_key : String
  pub metric : Metric
  pub count : ℕ

abbrev pub local_key : String
local_key = "local"

abbrev pub day_key : ℕ → ℕ
day_key seconds = seconds / 86400

-- The primary key of `counters`.
unfoldable pub is_row : ℕ → String → Metric → CountRow → Bool
is_row day key metric row =
    (row.day == day) && str_eq row.relay_key key && same_metric row.metric metric

-- INSERT ... ON CONFLICT (day, relay_key, metric) DO UPDATE SET count = count + excluded.count
unfoldable pub upsert : ℕ → String → Metric → ℕ → List CountRow → List CountRow
unfolding is_row
upsert day key metric amount [] =
    record { day = day; relay_key = key; metric = metric; count = amount } ∷ []
upsert day key metric amount (row ∷ rows) =
    let rest = upsert day key metric amount rows in
    if is_row day key metric row
    then record row { count = row.count + amount } ∷ rows
    else row ∷ rest

unfoldable pub add : ℕ → String → Metric → ℕ → List CountRow → List CountRow
unfolding upsert
add now key metric zero rows = rows
add now key metric (suc n) rows = upsert (day_key now) key metric (suc n) rows

-- One turn of the loop of `countEvents`.
unfoldable pub count_event : ℕ → String → EventKind → List CountRow → List CountRow
count_event now key opening rows = add now key alarms_rung 1 (add now key incidents_opened 1 rows)
count_event now key reopening rows = add now key alarms_rung 1 rows
count_event now key acking rows = add now key acks 1 rows
count_event now key _ rows = rows

unfoldable pub count_events : ℕ → String → List DeliveryEvent → List CountRow → List CountRow
unfolding count_event
count_events now key [] rows = rows
count_events now key (event ∷ events) rows =
    count_events now key events (count_event now key event.kind rows)

-- `zeroed.has`, over the rows of `counters_zeroed`.
unfoldable pub has : List String → String → Bool
has [] key = false
has (z ∷ zs) key = str_eq z key || has zs key

-- What the loop of `read` sums up in `totals`: the rows of keys that are not zeroed.
unfoldable pub total : List String → Metric → List CountRow → ℕ
unfolding has
total zeroed metric [] = 0
total zeroed metric (row ∷ rows) =
    (if not (has zeroed row.relay_key) && same_metric row.metric metric then row.count else 0)
    + total zeroed metric rows

-- How many of the events are of one kind.
abbrev pub times : (EventKind → ℕ) → List DeliveryEvent → ℕ
times weight [] = 0
times weight (event ∷ events) = weight event.kind + times weight events

abbrev pub alarms : EventKind → ℕ
alarms opening = 1
alarms reopening = 1
alarms _ = 0

abbrev pub opens : EventKind → ℕ
opens opening = 1
opens _ = 0

abbrev pub acknowledgements : EventKind → ℕ
acknowledgements acking = 1
acknowledgements _ = 0

module _ (zeroed : List String) (now : ℕ) (key : String) where
  total-upsert :
      (day : ℕ) (m metric : Metric) (amount : ℕ) (rows : List CountRow)
      → has zeroed key ≡ false
      → total zeroed metric (upsert day key m amount rows)
        ≡ total zeroed metric rows + (if same_metric m metric then amount else 0)
  unfolding total upsert is_row
  total-upsert day m metric amount [] counted = ground (arith, counted)
  total-upsert day m metric amount (row ∷ rows) counted =
      ground
        (arith, counted, eq_iff row.relay_key key, total-upsert day m metric amount rows counted)

  total-add :
      (m metric : Metric) (amount : ℕ) (rows : List CountRow)
      → has zeroed key ≡ false
      → total zeroed metric (add now key m amount rows)
        ≡ total zeroed metric rows + (if same_metric m metric then amount else 0)
  unfolding add
  total-add m metric zero rows counted = ground arith
  total-add m metric (suc n) rows counted = total-upsert (day_key now) m metric (suc n) rows counted

  total-count_event :
      (kind : EventKind) (rows : List CountRow)
      → has zeroed key ≡ false
      → let after = count_event now key kind rows in
        let grown : Metric → ℕ → Type 0 = λ m n. total zeroed m after ≡ total zeroed m rows + n in
        grown alarms_rung (alarms kind)
        × grown incidents_opened (opens kind)
        × grown acks (acknowledgements kind)
  unfolding count_event
  total-count_event opening rows counted =
      let mid = add now key incidents_opened 1 rows in
      let first = λ (m : Metric). total-add incidents_opened m 1 rows counted in
      let second = λ (m : Metric). total-add alarms_rung m 1 mid counted in
      (
        omega (arith, first alarms_rung, second alarms_rung),
        omega (arith, first incidents_opened, second incidents_opened),
        omega (arith, first acks, second acks),
      )
  total-count_event reopening rows counted =
      let one = λ (m : Metric). total-add alarms_rung m 1 rows counted in
      (one alarms_rung, one incidents_opened, one acks)
  total-count_event acking rows counted =
      let one = λ (m : Metric). total-add acks m 1 rows counted in
      (one alarms_rung, one incidents_opened, one acks)
  total-count_event repeating rows counted = (omega arith, omega arith, omega arith)
  total-count_event p4 rows counted = (omega arith, omega arith, omega arith)
  total-count_event p5 rows counted = (omega arith, omega arith, omega arith)
  total-count_event closing rows counted = (omega arith, omega arith, omega arith)
  total-count_event expiring rows counted = (omega arith, omega arith, omega arith)

-- Counting a list of events for a key that is not zeroed adds to the totals an alarm for each open
-- and each reopen, an incident for each open, an acknowledgement for each ack, and nothing for an
-- event of any other kind.
pub count_events_effect :
    (zeroed : List String) (now : ℕ) (key : String) (events : List DeliveryEvent)
    (rows : List CountRow)
    → has zeroed key ≡ false
    → let after = count_events now key events rows in
      (total zeroed alarms_rung after ≡ total zeroed alarms_rung rows + times alarms events)
      × (total zeroed incidents_opened after
          ≡ total zeroed incidents_opened rows + times opens events)
      × (total zeroed acks after ≡ total zeroed acks rows + times acknowledgements events)
unfolding count_events
count_events_effect zeroed now key [] rows counted = (omega arith, omega arith, omega arith)
count_events_effect zeroed now key (event ∷ events) rows counted =
    let one = total-count_event zeroed now key event.kind rows counted in
    let rest =
      count_events_effect zeroed now key events (count_event now key event.kind rows) counted in
    (omega (arith, one.0, rest.0), omega (arith, one.1, rest.1), omega (arith, one.2, rest.2))
