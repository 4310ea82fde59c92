-- ===== src/Check/Closed/Operations.antt =====
-- Every operation of `CheckStore` keeps its rounds in the sense of Check/Closed.antt.
use critalarm_server.Prelude.{
  ℕ, ◌+◌, ◌==◌, leb, ltb, false, ◌&&◌, refl, String, Option, none, some, update_where, count_where,
  inl, inr, Bool-cases, Option-cases, str_eq,
}
use critalarm_server.Check.CheckId.{is_check_id}
use critalarm_server.Check.Schedule.{max_attempts}
use critalarm_server.Check.Types.{
  RoundResult, received, missed, refused, skipped, by_tier, no_token, disabled, AttemptOutcome,
  accepted, push_refused, failed, cancelled, PlannedCheck, Notes, StateRow, RoundRow, DeviceRow,
  CheckStore, Outside,
}
use critalarm_server.Check.Statements.{
  is_null, same_id, gets_checks, state, round, open_round, device, update_state, update_round,
}
use critalarm_server.Check.Close.{close}
use critalarm_server.Check.Plan.{
  enable, disable, due_by, hold_until, insert_attempt, recorded_count, send, hold_or_send, Planned,
  nothing, thrown, push, expired_by, round_or_new, rolled_back, plan_device, plan, confirm_open,
  confirm, unanswered, apply_outcome, record_outcome,
}
use critalarm_server.Check.Receipts.{
  view, rounds, close_received, note_late, count_receipt, reread, receipt_of, receipt,
  round_of_nonce,
}
use critalarm_server.Check.Closed.{
  note-Evolves, Keeps, Keeps-refl, Grows-trans, Grows-update_where, close-Keeps, expire-Keeps,
  skip-Keeps, open_new-Keeps, settle-Keeps,
}

pub enable-Keeps : (device_id now : ℕ) (s : CheckStore) → Keeps s (enable device_id now s)
unfolding enable update_state
enable-Keeps device_id now s = elim (Option-cases (state device_id s)) [
  | inl e ↦ rw (e, enable) (Keeps-refl s)
  | inr (st, e) ↦ elim (Bool-cases st.enabled) [
    | inl on ↦ rw (e, enable, on) (Keeps-refl s)
    | inr off ↦ rw (e, enable, off) (Keeps-refl s)
  ]
]

pub disable-Keeps : (device_id now : ℕ) (s : CheckStore) → Keeps s (disable device_id now s)
unfolding disable update_state open_round
disable-Keeps device_id now s = elim (Option-cases (state device_id s)) [
  | inl e ↦ rw (e, disable) (Keeps-refl s)
  | inr (st, e) ↦ elim (Bool-cases st.enabled) [
    | inr off ↦ rw (e, disable, off) (Keeps-refl s)
    | inl on ↦
        let s' =
          update_state device_id (λ r. record r { enabled = false; next_attempt_at = none }) s in
        elim (Option-cases (open_round st s')) [
          | inl e' ↦ rw (e, disable, on, e') (Keeps-refl s)
          | inr (r, e') ↦ elim (Bool-cases (leb r.closes_at now)) [
            | inl over ↦ rw (e, disable, on, e', over) (expire-Keeps r s')
            | inr early ↦
                rw (e, disable, on, e', early) (close-Keeps r skipped (some disabled) now s')
          ]
        ]
  ]
]

insert_attempt-Keeps :
    (id attempt now : ℕ) (s : CheckStore) → Keeps s (insert_attempt id attempt now s)
unfolding insert_attempt update_round
insert_attempt-Keeps id attempt now s =
    Grows-update_where (λ r. r.id == id) (λ r. record r { attempts = attempt }) s.check_rounds
      (λ x _. note-Evolves x _ refl refl refl refl refl refl refl)

send-Keeps :
    (o : Outside) (device_id : ℕ) (d : DeviceRow) (r : RoundRow) (now : ℕ) (s : CheckStore)
    → Keeps s (send o device_id d r now s).1
unfolding send update_state
send-Keeps o device_id d r now s = elim (Bool-cases (ltb max_attempts (r.attempts + 1))) [
  | inl over ↦ rw over (Keeps-refl s)
  | inr more ↦ elim (Bool-cases (recorded_count r.id (r.attempts + 1) s == 0)) [
    | inl fresh ↦ rw (more, fresh) (insert_attempt-Keeps r.id (r.attempts + 1) now s)
    | inr again ↦ rw (more, again) (Keeps-refl s)
  ]
]

hold_or_send-Keeps :
    (o : Outside) (device_id : ℕ) (d : DeviceRow) (now : ℕ) (r : RoundRow) (s : CheckStore)
    → Keeps s (hold_or_send o device_id d now r s).1
unfolding hold_or_send update_round update_state
hold_or_send-Keeps o device_id d now r s =
    elim (Option-cases (hold_until d.last_alarm_push_at now)) [
      | inl e ↦ rw (e, hold_or_send) (send-Keeps o device_id d r now s)
      | inr (until, e) ↦
          rw (e, hold_or_send)
            (Grows-update_where (λ q. q.id == r.id) (λ q. record q { held_until = some until })
              s.check_rounds (λ x _. note-Evolves x _ refl refl refl refl refl refl refl))
    ]

round_or_new-Keeps :
    (o : Outside) (device_id now : ℕ) (r : Option RoundRow) (s : CheckStore)
    → Keeps s (round_or_new o device_id now r s).1
round_or_new-Keeps o device_id now none s = open_new-Keeps o device_id now s
round_or_new-Keeps o device_id now (some r) s = Keeps-refl s

rolled_back-Keeps :
    (s : CheckStore) (x : Planned × CheckStore) → Keeps s x.1 → Keeps s (rolled_back s x).1
rolled_back-Keeps s (nothing, s') h = h
rolled_back-Keeps s (thrown, s') h = Keeps-refl s
rolled_back-Keeps s (push p, s') h = h

plan_device-Keeps :
    (o : Outside) (st : StateRow) (d : DeviceRow) (now : ℕ) (r : Option RoundRow) (s : CheckStore)
    → Keeps s (plan_device o st d now r s).1
unfolding plan_device
plan_device-Keeps o st d now r s = elim (Option-cases (expired_by now r)) [
  | inr (over, e) ↦ rw (e, plan_device) (expire-Keeps over s)
  | inl e ↦ elim (Bool-cases (gets_checks d.account_id s)) [
    | inr lower ↦ rw (e, plan_device, lower) (skip-Keeps o st r by_tier now s)
    | inl hosted ↦ elim (Bool-cases (str_eq d.push_token "")) [
      | inl empty ↦ rw (e, plan_device, hosted, empty) (skip-Keeps o st r no_token now s)
      | inr token ↦
          let (current, s') = round_or_new o st.device_id now r s in
          rw (e, plan_device, hosted, token)
            (rolled_back-Keeps s (hold_or_send o st.device_id d now current s') (
              Grows-trans (round_or_new-Keeps o st.device_id now r s)
                (hold_or_send-Keeps o st.device_id d now current s')))
    ]
  ]
]

pub plan-Keeps :
    (o : Outside) (device_id now : ℕ) (s : CheckStore) → Keeps s (plan o device_id now s).1
unfolding plan
plan-Keeps o device_id now s = elim (Option-cases (state device_id s)) [
  | inl e ↦ rw (e, plan) (Keeps-refl s)
  | inr (st, e) ↦ elim (Bool-cases (st.enabled && due_by now st.next_attempt_at)) [
    | inr idle ↦ rw (e, plan, idle) (Keeps-refl s)
    | inl due_now ↦ elim (Option-cases (device device_id s)) [
      | inl e' ↦ rw (e, plan, due_now, e') (Keeps-refl s)
      | inr (d, e') ↦ rw (e, plan, due_now, e') (plan_device-Keeps o st d now (open_round st s) s)
    ]
  ]
]

confirm_open-Keeps :
    (planned : PlannedCheck) (r : RoundRow) (st : StateRow) (d : DeviceRow) (now : ℕ)
    (s : CheckStore)
    → Keeps s (confirm_open planned r st d now s).1
unfolding confirm_open
confirm_open-Keeps planned r st d now s = elim (Bool-cases st.enabled) [
  | inr off ↦ rw off (close-Keeps r skipped (some disabled) now s)
  | inl on ↦ elim (Bool-cases (leb r.closes_at now)) [
    | inl over ↦ rw (on, over) (expire-Keeps r s)
    | inr early ↦ elim (Bool-cases (gets_checks d.account_id s)) [
      | inr lower ↦ rw (on, early, lower) (close-Keeps r skipped (some by_tier) now s)
      | inl hosted ↦ elim (Bool-cases (str_eq d.push_token "")) [
        | inl empty ↦ rw (on, early, hosted, empty) (close-Keeps r skipped (some no_token) now s)
        | inr token ↦ rw (on, early, hosted, token) (Keeps-refl s)
      ]
    ]
  ]
]

pub confirm-Keeps :
    (planned : PlannedCheck) (now : ℕ) (s : CheckStore) → Keeps s (confirm planned now s).1
unfolding confirm
confirm-Keeps planned now s = elim (Option-cases (round planned.round_id s)) [
  | inl e ↦ rw (e, confirm) (Keeps-refl s)
  | inr (r, e) ↦ elim (Bool-cases (is_null r.result)) [
    | inr ended ↦ rw (e, confirm, ended) (Keeps-refl s)
    | inl running ↦ elim (Option-cases (state r.device_id s)) [
      | inl e' ↦ rw (e, confirm, running, e') (Keeps-refl s)
      | inr (st, e') ↦ elim (Option-cases (device r.device_id s)) [
        | inl e'' ↦ rw (e, confirm, running, e', e'') (Keeps-refl s)
        | inr (d, e'') ↦ elim (Bool-cases (same_id st.round_id r.id)) [
          | inl same ↦
              rw (e, confirm, running, e', e'', same) (confirm_open-Keeps planned r st d now s)
          | inr differs ↦ rw (e, confirm, running, e', e'', differs) (Keeps-refl s)
        ]
      ]
    ]
  ]
]

apply_outcome-Keeps :
    (r : RoundRow) (outcome : AttemptOutcome) (now : ℕ) (s : CheckStore)
    → Keeps s (apply_outcome r outcome now s)
unfolding apply_outcome update_state
apply_outcome-Keeps r accepted now s = Keeps-refl s
apply_outcome-Keeps r failed now s = Keeps-refl s
apply_outcome-Keeps r cancelled now s = Keeps-refl s
apply_outcome-Keeps r push_refused now s = elim (Bool-cases (is_null r.result)) [
  | inl running ↦ rw running (close-Keeps r refused none now s)
  | inr ended ↦ rw ended (Keeps-refl s)
]

pub record_outcome-Keeps :
    (round_id attempt : ℕ) (outcome : AttemptOutcome) (status now : ℕ) (s : CheckStore)
    → Keeps s (record_outcome round_id attempt outcome status now s)
unfolding record_outcome
record_outcome-Keeps round_id attempt outcome status now s =
    let s' = record s {
      check_attempts =
          update_where (unanswered round_id attempt)
            (λ a. record a { outcome = some outcome; status = some status }) s.check_attempts;
    } in
    elim (Bool-cases (count_where (unanswered round_id attempt) s.check_attempts == 0)) [
      | inl answered ↦ rw answered (Keeps-refl s)
      | inr waiting_one ↦ elim (Option-cases (round round_id s')) [
        | inl e ↦ rw (waiting_one, e) (Keeps-refl s)
        | inr (r, e) ↦ rw (waiting_one, e) (apply_outcome-Keeps r outcome now s')
      ]
    ]

pub view-Keeps :
    (o : Outside) (device_id account_id now : ℕ) (s : CheckStore)
    → Keeps s (view o device_id account_id now s).1
unfolding view
view-Keeps o device_id account_id now s = settle-Keeps device_id now s

pub rounds-Keeps :
    (device_id limit now : ℕ) (s : CheckStore) → Keeps s (rounds device_id limit now s).1
unfolding rounds
rounds-Keeps device_id limit now s = settle-Keeps device_id now s

close_received-Keeps :
    (r : RoundRow) (notes : Notes) (now : ℕ) (s : CheckStore)
    → Keeps s (close_received r notes now s)
unfolding close_received update_round
close_received-Keeps r notes now s = Grows-trans (close-Keeps r received none now s) (
    Grows-update_where (λ q. q.id == r.id) _ (close r received none now s).1.check_rounds
      (λ x _. note-Evolves x _ refl refl refl refl refl refl refl))

note_late-Keeps : (id now : ℕ) (s : CheckStore) → Keeps s (note_late id now s)
unfolding note_late
note_late-Keeps id now s =
    Grows-update_where (λ q. (q.id == id) && is_null q.late_receipt_at) _ s.check_rounds
      (λ x _. note-Evolves x _ refl refl refl refl refl refl refl)

count_receipt-Keeps :
    (r : RoundRow) (result : Option RoundResult) (notes : Notes) (now : ℕ) (s : CheckStore)
    → Keeps s (count_receipt r result notes now s).1
unfolding count_receipt
count_receipt-Keeps r none notes now s = close_received-Keeps r notes now s
count_receipt-Keeps r (some received) notes now s = Keeps-refl s
count_receipt-Keeps r (some missed) notes now s = note_late-Keeps r.id now s
count_receipt-Keeps r (some refused) notes now s = note_late-Keeps r.id now s
count_receipt-Keeps r (some skipped) notes now s = note_late-Keeps r.id now s

reread-Keeps : (r : RoundRow) (now : ℕ) (s : CheckStore) → Keeps s (reread r now s).1
unfolding reread
reread-Keeps r now s = elim (Bool-cases (is_null r.result && leb r.closes_at now)) [
  | inl over ↦ rw over (expire-Keeps r s)
  | inr early ↦ rw early (Keeps-refl s)
]

pub receipt-Keeps :
    (o : Outside) (device_id account_id : ℕ) (check_id : String) (notes : Notes) (now : ℕ)
    (s : CheckStore)
    → Keeps s (receipt o device_id account_id check_id notes now s).1
unfolding receipt receipt_of
receipt-Keeps o device_id account_id check_id notes now s =
    elim (Bool-cases (is_check_id check_id)) [
      | inr bad ↦ rw (receipt, bad) (Keeps-refl s)
      | inl well ↦ elim (Option-cases (round_of_nonce device_id (o.sha256 check_id) s)) [
        | inl e ↦ rw (receipt, well, e) (Keeps-refl s)
        | inr (r, e) ↦
            let (r', s') = reread r now s in
            rw (receipt, well, e)
              (Grows-trans (reread-Keeps r now s) (count_receipt-Keeps r' r'.result notes now s'))
      ]
    ]
