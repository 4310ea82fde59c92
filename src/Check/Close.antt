-- ===== src/Check/Close.antt =====
-- src/check/store.ts: how a round opens and ends: `open`, `close`, `expire`, `skip` and `settle`.
use critalarm_server.Prelude.{
  ℕ, suc, ◌+◌, ◌==◌, leb, if◌then◌else◌, Bool, true, false, not, ◌&&◌, Option, none, some, [], ◌∷◌,
  ◌++◌, max, find_row, count_where,
}
use critalarm_server.Check.Schedule.{alarm_hold_s, round_length_s, round_after}
use critalarm_server.Check.Types.{
  RoundResult, received, missed, refused, skipped, SkipReason, held, unsent, AttemptOutcome,
  accepted, StateRow, RoundRow, AttemptRow, DeviceRow, CheckStore, Outside,
}
use critalarm_server.Check.Statements.{
  is_null, same_id, state, round, open_round, device, update_state, update_unclosed,
}

-- SET result = ?, reason = ?, closed_at = ?
abbrev pub closed_with : RoundResult → Option SkipReason → ℕ → RoundRow → RoundRow
closed_with result reason closed_at r = record r {
  result = some result;
  reason = reason;
  closed_at = some closed_at;
}

-- SET round_id = NULL, next_attempt_at = CASE ..., where round_id = ?
abbrev pub released : ℕ → StateRow → StateRow
released round_id st =
    if same_id st.round_id round_id
    then record st {
      round_id = none;
      next_attempt_at = if st.enabled then some st.next_due_at else none;
    }
    else st

abbrev pub miss : RoundResult → ℕ → StateRow → StateRow
miss result closed_at st = record st {
  second_miss_at = if st.misses == 1 then some closed_at else st.second_miss_at;
  misses = st.misses + 1;
  last_result = some result;
}

-- What a result does to the device's count: a skipped round changes nothing.
unfoldable pub counted_as : RoundResult → ℕ → StateRow → StateRow
counted_as received closed_at st = record st {
  misses = 0;
  last_result = some received;
  second_miss_at = none;
  last_received_at = some closed_at;
}
counted_as missed closed_at st = miss missed closed_at st
counted_as refused closed_at st = miss refused closed_at st
counted_as skipped closed_at st = st

-- `private close`; the answer says whether the guarded UPDATE wrote a row.
unfoldable pub close :
    RoundRow → RoundResult → Option SkipReason → ℕ → CheckStore → Bool × CheckStore
close r result reason closed_at s =
    let s' = update_unclosed r.id (closed_with result reason closed_at) s in
    if count_where (λ q. (q.id == r.id) && is_null q.result) s.check_rounds == 0
    then (false, s)
    else (
      true,
      update_state r.device_id (counted_as result closed_at)
          (update_state r.device_id (released r.id) s'),
    )

abbrev is_accepted : Option AttemptOutcome → Bool
is_accepted (some accepted) = true
is_accepted _ = false

-- SELECT 1 FROM check_attempts WHERE round_id = ? AND outcome = 'accepted' LIMIT 1
unfoldable pub accepted_attempt : ℕ → CheckStore → Option AttemptRow
accepted_attempt round_id s =
    find_row (λ a. (a.round_id == round_id) && is_accepted a.outcome) s.check_attempts

abbrev or_zero : Option ℕ → ℕ
or_zero none = 0
or_zero (some n) = n

abbrev hold_end : Option ℕ → ℕ
hold_end none = 0
hold_end (some at) = at + alarm_hold_s

abbrev last_alarm : Option DeviceRow → Option ℕ
last_alarm none = none
last_alarm (some d) = d.last_alarm_push_at

abbrev held_until_of : Option RoundRow → Option ℕ
held_until_of none = none
held_until_of (some r) = r.held_until

-- heldToTheEnd
unfoldable pub held_to_the_end : RoundRow → CheckStore → Bool
held_to_the_end r s =
    let held_until = held_until_of (round r.id s) in
    (r.attempts == 0)
    && not (is_null held_until)
    && leb r.closes_at (max (or_zero held_until) (hold_end (last_alarm (device r.device_id s))))

unfoldable pub expire : RoundRow → CheckStore → CheckStore
expire r s = elim (accepted_attempt r.id s) [
  | some _ ↦ (close r missed none r.closes_at s).1
  | none ↦
      let reason = if held_to_the_end r s then held else unsent in
      (close r skipped (some reason) r.closes_at s).1
]

abbrev pub new_round : Outside → ℕ → ℕ → ℕ → RoundRow
new_round o id device_id now = record {
  id = id;
  device_id = device_id;
  nonce_hash = o.sha256 (o.check_id_for id);
  opened_at = now;
  closes_at = now + round_length_s;
  closed_at = none;
  attempts = 0;
  result = none;
  attempt_received = none;
  receipt_at = none;
  device_received_at = none;
  late_receipt_at = none;
  reason = none;
  held_until = none;
}

unfoldable pub insert_round : RoundRow → CheckStore → CheckStore
insert_round r s = record s { check_rounds = s.check_rounds ++ r ∷ []; drawn = suc s.drawn }

-- `private skip`
unfoldable pub skip :
    Outside → StateRow → Option RoundRow → SkipReason → ℕ → CheckStore → CheckStore
skip o st (some r) reason now s = (close r skipped (some reason) now s).1
skip o st none reason now s =
    let next = round_after o.slot_for st.device_id now in
    let r =
      closed_with skipped (some reason) now (new_round o (o.round_ids s.drawn) st.device_id now) in
    update_state st.device_id
      (λ row. record row { next_due_at = next; next_attempt_at = some next }) (insert_round r s)

-- `private open`: the round that it returns is the row it inserted.
unfoldable pub open_new : Outside → ℕ → ℕ → CheckStore → RoundRow × CheckStore
open_new o device_id now s =
    let r = new_round o (o.round_ids s.drawn) device_id now in
    (
      r,
      update_state device_id
          (λ row. record row {
            round_id = some r.id;
            next_due_at = round_after o.slot_for device_id now;
          })
          (insert_round r s),
    )

-- `private settle`
unfoldable pub settle : ℕ → ℕ → CheckStore → CheckStore
settle device_id now s = elim (state device_id s) [
  | none ↦ s
  | some st ↦ elim (open_round st s) [
    | none ↦ s
    | some r ↦ if leb r.closes_at now then expire r s else s
  ]
]
