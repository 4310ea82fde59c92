-- ===== src/Check/Receipts.antt =====
-- src/check/store.ts: `view`, `rounds` and `receipt`.
use critalarm_server.Prelude.{
  ℕ, ◌+◌, ◌==◌, leb, if◌then◌else◌, Bool, true, false, not, ◌&&◌, String, str_eq, Option, none,
  some, List, [], ◌∷◌, update_where, max, take, select, sort_by, find_row,
}
use critalarm_server.Stats.Counters.{checks_received, add, local_key}
use critalarm_server.Check.CheckId.{is_check_id}
use critalarm_server.Check.Schedule.{min_round_gap_s, round_length_s, slot_at_or_after}
use critalarm_server.Check.Types.{
  RoundResult, received, refused, CheckState, waiting, was_received, missed_once, missed_repeatedly,
  token_refused, token_missing, off, OffReason, off_tier, off_disabled, Note, whole, negative,
  other, Notes, CheckView, ReceiptAnswer, StateRow, RoundRow, DeviceRow, CheckStore, Outside,
}
use critalarm_server.Check.Statements.{
  is_null, gets_checks, state, round, open_round, device, update_round,
}
use critalarm_server.Check.Close.{close, expire, settle}

abbrev pub state_of_result : RoundResult → ℕ → CheckState
state_of_result received misses = was_received
state_of_result result misses =
    if leb 2 misses
    then missed_repeatedly
    else elim result [ refused ↦ token_refused | _ ↦ missed_once ]

-- `stateOf`
unfoldable pub state_of : StateRow → CheckState
state_of st = elim st.last_result [
  | none ↦ waiting
  | some result ↦ state_of_result result st.misses
]

unfoldable pub notice_after : Outside → ℕ → StateRow → CheckStore → ℕ
notice_after o now st s =
    if leb 2 st.misses
    then elim st.second_miss_at [ none ↦ now | some at ↦ at ]
    else elim (open_round st s) [
      | some r ↦ if st.misses == 1 then r.closes_at else st.next_due_at + round_length_s
      | none ↦
          let opens = max st.next_due_at now in
          if st.misses == 1
          then opens + round_length_s
          else slot_at_or_after (o.slot_for st.device_id) (opens + min_round_gap_s) + round_length_s
    ]

-- What a view carries over from the row, if there is one.
abbrev misses_of : Option StateRow → ℕ
misses_of none = 0
misses_of (some st) = st.misses

abbrev sent_of : Option StateRow → Option ℕ
sent_of none = none
sent_of (some st) = st.last_sent_at

abbrev received_of : Option StateRow → Option ℕ
received_of none = none
received_of (some st) = st.last_received_at

-- The answer with the counts and times of `base`.
unfoldable pub answer :
    Option StateRow → Bool → CheckState → Option OffReason → Option ℕ → Option ℕ → CheckView
answer st enabled shown reason next_due_at notice = record {
  enabled = enabled;
  state = shown;
  reason = reason;
  misses = misses_of st;
  last_sent_at = sent_of st;
  last_received_at = received_of st;
  next_due_at = next_due_at;
  notice_after = notice;
}

abbrev has_token : Option DeviceRow → Bool
has_token none = false
has_token (some d) = not (str_eq d.push_token "")

unfoldable pub view_enabled : Outside → ℕ → ℕ → StateRow → CheckStore → CheckView
view_enabled o account_id now st s =
    if not (gets_checks account_id s)
    then answer (some st) true off (some off_tier) none none
    else let notice = some (notice_after o now st s) in
      if not (has_token (device st.device_id s))
      then answer (some st) true token_missing none (some st.next_due_at) notice
      else answer (some st) true (state_of st) none (some st.next_due_at) notice

unfoldable pub view_of : Outside → ℕ → ℕ → ℕ → CheckStore → CheckView
view_of o device_id account_id now s = elim (state device_id s) [
  | none ↦ answer none false off (some off_disabled) none none
  | some st ↦
      if st.enabled
      then view_enabled o account_id now st s
      else answer (some st) false off (some off_disabled) none none
]

unfoldable pub view : Outside → ℕ → ℕ → ℕ → CheckStore → CheckView × CheckStore
view o device_id account_id now s =
    let s' = settle device_id now s in (view_of o device_id account_id now s', s')

-- ORDER BY opened_at DESC: rounds opened in the same second keep the latest row first.
unfoldable pub newest_first : RoundRow → RoundRow → Bool
newest_first a b = leb b.opened_at a.opened_at

abbrev reversed {ℓ} : {A : Type ℓ} → List A → List A → List A
reversed [] done = done
reversed (x ∷ xs) done = reversed xs (x ∷ done)

unfoldable pub rounds : ℕ → ℕ → ℕ → CheckStore → List RoundRow × CheckStore
rounds device_id limit now s =
    let s' = settle device_id now s in
    (
      take limit (
          sort_by newest_first
            (reversed (select (λ r. r.device_id == device_id) s'.check_rounds) [])),
      s',
    )

-- The attempt that the receipt names, if it is one of the round's.
unfoldable pub attempt_note : Note → ℕ → Option ℕ
attempt_note (whole n) attempts = if leb 1 n && leb n attempts then some n else none
attempt_note _ attempts = none

-- Number.isSafeInteger
unfoldable pub time_note : Note → Option Note
time_note (whole n) = if leb n 9007199254740991 then some (whole n) else none
time_note (negative n) = if leb n 9007199254740991 then some (negative n) else none
time_note other = none

unfoldable pub close_received : RoundRow → Notes → ℕ → CheckStore → CheckStore
close_received r notes now s =
    let s' =
      update_round r.id
        (λ q. record q {
          receipt_at = some now;
          device_received_at = time_note notes.received_at;
          attempt_received = attempt_note notes.attempt r.attempts;
        })
        (close r received none now s).1 in
    record s' { counters = add now local_key checks_received 1 s'.counters }

-- UPDATE check_rounds SET late_receipt_at = ? WHERE id = ? AND late_receipt_at IS NULL
unfoldable pub note_late : ℕ → ℕ → CheckStore → CheckStore
note_late id now s = record s {
  check_rounds =
      update_where (λ q. (q.id == id) && is_null q.late_receipt_at)
        (λ q. record q { late_receipt_at = some now }) s.check_rounds;
}

-- What the receipt of a round does, by the round's result, and whether it counts.
unfoldable pub count_receipt :
    RoundRow → Option RoundResult → Notes → ℕ → CheckStore → Bool × CheckStore
count_receipt r none notes now s = (true, close_received r notes now s)
count_receipt r (some received) notes now s = (true, s)
count_receipt r (some _) notes now s = (false, note_late r.id now s)

-- `this.round(round.id) ?? round`
abbrev or_else : Option RoundRow → RoundRow → RoundRow
or_else none r = r
or_else (some q) r = q

-- A round whose close time has come is closed before its receipt is looked at.
unfoldable pub reread : RoundRow → ℕ → CheckStore → RoundRow × CheckStore
reread r now s =
    if is_null r.result && leb r.closes_at now
    then (or_else (round r.id (expire r s)) r, expire r s)
    else (r, s)

-- WHERE device_id = ? AND nonce_hash = ?
unfoldable pub round_of_nonce : ℕ → String → CheckStore → Option RoundRow
round_of_nonce device_id hash s =
    find_row (λ r. (r.device_id == device_id) && str_eq r.nonce_hash hash) s.check_rounds

unfoldable pub receipt_of :
    Outside → ℕ → ℕ → RoundRow → Notes → ℕ → CheckStore → ReceiptAnswer × CheckStore
receipt_of o device_id account_id r notes now s =
    let (r', s') = reread r now s in
    let (counted, s'') = count_receipt r' r'.result notes now s' in
    let shown = view_of o device_id account_id now s'' in
    (
      record {
        counted = counted;
        next_due_at = shown.next_due_at;
        notice_after = shown.notice_after;
      },
      s'',
    )

unfoldable pub receipt :
    Outside → ℕ → ℕ → String → Notes → ℕ → CheckStore → Option ReceiptAnswer × CheckStore
receipt o device_id account_id check_id notes now s =
    if not (is_check_id check_id)
    then (none, s)
    else elim (round_of_nonce device_id (o.sha256 check_id) s) [
      | none ↦ (none, s)
      | some r ↦
          let (reply, s') = receipt_of o device_id account_id r notes now s in (some reply, s')
    ]
