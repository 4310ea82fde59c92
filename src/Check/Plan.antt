-- ===== src/Check/Plan.antt =====
-- src/check/store.ts: `enable`, `disable`, `due`, `plan`, `confirm` and `record`.
use critalarm_server.Prelude.{
  ℕ, ◌+◌, ◌==◌, ltb, leb, if◌then◌else◌, Bool, true, false, not, ◌&&◌, ◌||◌, str_eq, Option, none,
  some, List, [], ◌∷◌, ◌++◌, map, min, take, select, sort_by, count_where, update_where,
}
use critalarm_server.Stats.Counters.{checks_sent, add, local_key}
use critalarm_server.Check.Schedule.{alarm_hold_s, attempt_offsets_s, max_attempts}
use critalarm_server.Check.Types.{
  refused, skipped, by_tier, no_token, disabled, AttemptOutcome, accepted, push_refused, failed,
  cancelled, PlannedCheck, StateRow, RoundRow, AttemptRow, DeviceRow, CheckStore, Outside,
}
use critalarm_server.Check.Statements.{
  is_null, same_id, gets_checks, state, round, open_round, device, update_state, update_round,
}
use critalarm_server.Check.Close.{close, expire, skip, open_new}

abbrev first_enrolment : ℕ → ℕ → StateRow
first_enrolment device_id now = record {
  device_id = device_id;
  enabled = true;
  enrolled_at = now;
  next_attempt_at = some now;
  next_due_at = now;
  round_id = none;
  misses = 0;
  last_result = none;
  second_miss_at = none;
  last_sent_at = none;
  last_received_at = none;
}

unfoldable pub enable : ℕ → ℕ → CheckStore → CheckStore
enable device_id now s = elim (state device_id s) [
  | none ↦ record s { device_checks = s.device_checks ++ first_enrolment device_id now ∷ [] }
  | some st ↦
      if st.enabled
      then s
      else update_state device_id
          (λ r. record r { enabled = true; next_attempt_at = some r.next_due_at }) s
]

unfoldable pub disable : ℕ → ℕ → CheckStore → CheckStore
disable device_id now s = elim (state device_id s) [
  | none ↦ s
  | some st ↦
      if not st.enabled
      then s
      else let s' =
          update_state device_id (λ r. record r { enabled = false; next_attempt_at = none }) s in
        elim (open_round st s') [
          | none ↦ s'
          | some r ↦
              if leb r.closes_at now
              then expire r s'
              else (close r skipped (some disabled) now s').1
        ]
]

-- next_attempt_at IS NOT NULL AND next_attempt_at <= ?
abbrev pub due_by : ℕ → Option ℕ → Bool
due_by now none = false
due_by now (some at) = leb at now

abbrev pub attempt_at : StateRow → ℕ
attempt_at st = elim st.next_attempt_at [ none ↦ 0 | some at ↦ at ]

-- ORDER BY next_attempt_at, device_id
unfoldable pub due_first : StateRow → StateRow → Bool
due_first a b =
    ltb (attempt_at a) (attempt_at b)
    || ((attempt_at a == attempt_at b) && leb a.device_id b.device_id)

unfoldable pub due_rows : ℕ → ℕ → CheckStore → List StateRow
due_rows limit now s =
    take limit
      (sort_by due_first (select (λ r. r.enabled && due_by now r.next_attempt_at) s.device_checks))

unfoldable pub due : ℕ → ℕ → CheckStore → List ℕ
due limit now s = map (λ r. r.device_id) (due_rows limit now s)

-- `plan` sends nothing, or one push, or throws on a second record of the same attempt.
pub data Planned : Type 0 where
  nothing thrown : Planned
  push : PlannedCheck → Planned

-- last_alarm_push_at !== null && now - last_alarm_push_at < ALARM_HOLD_S, and until when.
abbrev pub hold_until : Option ℕ → ℕ → Option ℕ
hold_until none now = none
hold_until (some at) now = if ltb now (at + alarm_hold_s) then some (at + alarm_hold_s) else none

-- ATTEMPT_OFFSETS_S.map((offset) => opened + offset).find((time) => time > now)
abbrev pub ahead : List ℕ → ℕ → ℕ → Option ℕ
ahead [] opened now = none
ahead (offset ∷ offsets) opened now =
    if ltb now (opened + offset) then some (opened + offset) else ahead offsets opened now

unfoldable pub next_time : RoundRow → ℕ → ℕ → ℕ
next_time r attempt now =
    if leb max_attempts attempt
    then r.closes_at
    else elim (ahead attempt_offsets_s r.opened_at now) [
      | none ↦ r.closes_at
      | some at ↦ min at r.closes_at
    ]

abbrev pub set_next : ℕ → ℕ → CheckStore → CheckStore
set_next device_id at s = update_state device_id (λ row. record row { next_attempt_at = some at }) s

abbrev pub recorded_count : ℕ → ℕ → CheckStore → ℕ
recorded_count round_id attempt s =
    count_where (λ a. (a.round_id == round_id) && (a.attempt == attempt)) s.check_attempts

-- INSERT INTO check_attempts, and the round's own count.
unfoldable pub insert_attempt : ℕ → ℕ → ℕ → CheckStore → CheckStore
insert_attempt round_id attempt now s =
    let row : AttemptRow = record {
      round_id = round_id;
      attempt = attempt;
      recorded_at = now;
      outcome = none;
      status = none;
    } in
    update_round round_id (λ r. record r { attempts = attempt })
      (record s { check_attempts = s.check_attempts ++ row ∷ [] })

unfoldable pub send : Outside → ℕ → DeviceRow → RoundRow → ℕ → CheckStore → Planned × CheckStore
send o device_id d r now s =
    let attempt = r.attempts + 1 in
    if ltb max_attempts attempt
    then (nothing, set_next device_id r.closes_at s)
    else if not (recorded_count r.id attempt s == 0)
    then (thrown, s)
    else (
      push (record {
        round_id = r.id;
        attempt = attempt;
        check_id = o.check_id_for r.id;
        platform = d.platform;
        push_token = d.push_token;
        apns_environment = d.apns_environment;
      }),
      set_next device_id (next_time r attempt now) (insert_attempt r.id attempt now s),
    )

-- The part of `plan` from the alarm hold on, with the round that is open.
unfoldable pub hold_or_send :
    Outside → ℕ → DeviceRow → ℕ → RoundRow → CheckStore → Planned × CheckStore
hold_or_send o device_id d now r s = elim (hold_until d.last_alarm_push_at now) [
  | some until ↦ (
    nothing,
    update_round r.id (λ q. record q { held_until = some until })
        (set_next device_id (min until r.closes_at) s),
  )
  | none ↦ send o device_id d r now s
]

abbrev pub expired_by : ℕ → Option RoundRow → Option RoundRow
expired_by now none = none
expired_by now (some r) = if leb r.closes_at now then some r else none

abbrev pub round_or_new : Outside → ℕ → ℕ → Option RoundRow → CheckStore → RoundRow × CheckStore
round_or_new o device_id now (some r) s = (r, s)
round_or_new o device_id now none s = open_new o device_id now s

-- A throw rolls the transaction back.
abbrev pub rolled_back : CheckStore → Planned × CheckStore → Planned × CheckStore
rolled_back s (nothing, s') = (nothing, s')
rolled_back s (thrown, s') = (thrown, s)
rolled_back s (push p, s') = (push p, s')

unfoldable pub plan_device :
    Outside → StateRow → DeviceRow → ℕ → Option RoundRow → CheckStore → Planned × CheckStore
plan_device o st d now r s = elim (expired_by now r) [
  | some over ↦ (nothing, expire over s)
  | none ↦
      if not (gets_checks d.account_id s)
      then (nothing, skip o st r by_tier now s)
      else if str_eq d.push_token ""
      then (nothing, skip o st r no_token now s)
      else let (current, s') = round_or_new o st.device_id now r s in
        rolled_back s (hold_or_send o st.device_id d now current s')
]

unfoldable pub plan : Outside → ℕ → ℕ → CheckStore → Planned × CheckStore
plan o device_id now s = elim (state device_id s) [
  | none ↦ (nothing, s)
  | some st ↦
      if not (st.enabled && due_by now st.next_attempt_at)
      then (nothing, s)
      else elim (device device_id s) [
        | none ↦ (nothing, s)
        | some d ↦ plan_device o st d now (open_round st s) s
      ]
]

unfoldable pub confirm_open :
    PlannedCheck → RoundRow → StateRow → DeviceRow → ℕ → CheckStore → Bool × CheckStore
confirm_open planned r st d now s =
    if not st.enabled
    then (false, (close r skipped (some disabled) now s).1)
    else if leb r.closes_at now
    then (false, expire r s)
    else if not (gets_checks d.account_id s)
    then (false, (close r skipped (some by_tier) now s).1)
    else if str_eq d.push_token ""
    then (false, (close r skipped (some no_token) now s).1)
    else (str_eq d.push_token planned.push_token, s)

unfoldable pub confirm : PlannedCheck → ℕ → CheckStore → Bool × CheckStore
confirm planned now s = elim (round planned.round_id s) [
  | none ↦ (false, s)
  | some r ↦ if not (is_null r.result) then (false, s) else elim (state r.device_id s) [
    | none ↦ (false, s)
    | some st ↦ elim (device r.device_id s) [
      | none ↦ (false, s)
      | some d ↦ if same_id st.round_id r.id then confirm_open planned r st d now s else (false, s)
    ]
  ]
]

-- WHERE round_id = ? AND attempt = ? AND outcome IS NULL
abbrev pub unanswered : ℕ → ℕ → AttemptRow → Bool
unanswered round_id attempt a =
    (a.round_id == round_id) && (a.attempt == attempt) && is_null a.outcome

unfoldable pub apply_outcome : RoundRow → AttemptOutcome → ℕ → CheckStore → CheckStore
apply_outcome r accepted now s =
    update_state r.device_id (λ st. record st { last_sent_at = some now })
      (record s { counters = add now local_key checks_sent 1 s.counters })
apply_outcome r push_refused now s = if is_null r.result then (close r refused none now s).1 else s
apply_outcome r failed now s = s
apply_outcome r cancelled now s = s

-- `record` of the source.
unfoldable pub record_outcome : ℕ → ℕ → AttemptOutcome → ℕ → ℕ → CheckStore → CheckStore
record_outcome round_id attempt outcome status now s =
    let s' = record s {
      check_attempts =
          update_where (unanswered round_id attempt)
            (λ a. record a { outcome = some outcome; status = some status }) s.check_attempts;
    } in
    if count_where (unanswered round_id attempt) s.check_attempts == 0
    then s
    else elim (round round_id s') [ none ↦ s' | some r ↦ apply_outcome r outcome now s' ]
