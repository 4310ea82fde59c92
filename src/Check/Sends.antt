-- ===== src/Check/Sends.antt =====
-- src/check/store.ts: what holds when `plan` hands out a push and when `confirm` lets it go.
use critalarm_server.Prelude.{
  ℕ, ◌+◌, ◌==◌, ==_refl, ◌≤◌, ltb, true, false, ◌&&◌, ◌≡◌, refl, str_eq, Option, none, some, arith,
  count_where, count_where-append, inl, inr, Bool-cases, Option-cases,
}
use mathlib.Core.Path.{subst}
use critalarm_server.Check.Schedule.{max_attempts}
use critalarm_server.Check.Types.{PlannedCheck, StateRow, RoundRow, DeviceRow, CheckStore, Outside}
use critalarm_server.Check.Statements.{
  gets_checks, state, open_round, device, update_state, update_round,
}
use critalarm_server.Check.Close.{open_new, insert_round}
use critalarm_server.Check.Plan.{
  Planned, nothing, thrown, push, due_by, hold_until, insert_attempt, recorded_count, rolled_back,
  send, hold_or_send, expired_by, round_or_new, plan_device, plan,
}

-- The device has had no alarm push, or the last one was half an hour ago or more.
abbrev pub HoldIsOver : Option ℕ → ℕ → Type 0
HoldIsOver none now = Unit
HoldIsOver (some at) now = at + 1800 ≤ now

hold_until-HoldIsOver :
    (last : Option ℕ) (now : ℕ) → hold_until last now ≡ none → HoldIsOver last now
hold_until-HoldIsOver none now h = tt
hold_until-HoldIsOver (some at) now h = ground (arith, h)

-- A push that is handed out goes to the device's token, outside an alarm hold, as one of the
-- round's attempts that was not on record and now is, once.
pub record Sent (d : DeviceRow) (now : ℕ) (s : CheckStore) (p : PlannedCheck) (s' : CheckStore)
    : Type 0 where
  pub token : p.push_token ≡ d.push_token
  pub not_held : HoldIsOver d.last_alarm_push_at now
  pub numbered_least : 1 ≤ p.attempt
  pub numbered_most : p.attempt ≤ 3
  pub unrecorded : recorded_count p.round_id p.attempt s ≡ 0
  pub recorded : recorded_count p.round_id p.attempt s' ≡ 1

SentBy : DeviceRow → ℕ → CheckStore → Planned × CheckStore → Type 0
SentBy d now s (nothing, s') = Unit
SentBy d now s (thrown, s') = Unit
SentBy d now s (push p, s') = Sent d now s p s'

recorded_count-insert_attempt :
    (id attempt now : ℕ) (s : CheckStore)
    → recorded_count id attempt (insert_attempt id attempt now s) ≡ recorded_count id attempt s + 1
unfolding insert_attempt update_round count_where
recorded_count-insert_attempt id attempt now s =
    rw
      (
        count_where-append (λ a. (a.round_id == id) && (a.attempt == attempt)) s.check_attempts _,
        ==_refl id,
        ==_refl attempt,
      )
      refl

send-SentBy :
    (o : Outside) (device_id : ℕ) (d : DeviceRow) (r : RoundRow) (now : ℕ) (s : CheckStore)
    → hold_until d.last_alarm_push_at now ≡ none
    → SentBy d now s (send o device_id d r now s)
unfolding send SentBy update_state
send-SentBy o device_id d r now s not_held = elim (Bool-cases (ltb max_attempts (r.attempts + 1))) [
  | inl over ↦ rw over tt
  | inr more ↦ elim (Bool-cases (recorded_count r.id (r.attempts + 1) s == 0)) [
    | inr again ↦ rw (more, again) tt
    | inl fresh ↦
        rw (more, fresh)
          (record {
            token = refl;
            not_held = hold_until-HoldIsOver d.last_alarm_push_at now not_held;
            numbered_least = omega arith;
            numbered_most = ground (arith, more);
            unrecorded = ground (arith, fresh);
            recorded =
                ground (arith, fresh, recorded_count-insert_attempt r.id (r.attempts + 1) now s);
          })
  ]
]

hold_or_send-SentBy :
    (o : Outside) (device_id : ℕ) (d : DeviceRow) (now : ℕ) (r : RoundRow) (s : CheckStore)
    → SentBy d now s (hold_or_send o device_id d now r s)
unfolding hold_or_send SentBy
hold_or_send-SentBy o device_id d now r s =
    elim (Option-cases (hold_until d.last_alarm_push_at now)) [
      | inl e ↦ rw (e, hold_or_send) (send-SentBy o device_id d r now s e)
      | inr (until, e) ↦ rw (e, hold_or_send) tt
    ]

-- A new round writes no attempt.
round_or_new-SentBy :
    (o : Outside) (device_id now : ℕ) (d : DeviceRow) (r : Option RoundRow) (s : CheckStore)
    (x : Planned × CheckStore)
    → SentBy d now (round_or_new o device_id now r s).1 x
    → SentBy d now s x
unfolding SentBy open_new insert_round update_state
round_or_new-SentBy o device_id now d r s (nothing, s') h = tt
round_or_new-SentBy o device_id now d r s (thrown, s') h = tt
round_or_new-SentBy o device_id now d (some r) s (push p, s') h = h
round_or_new-SentBy o device_id now d none s (push p, s') h = record {
  token = h.token;
  not_held = h.not_held;
  numbered_least = h.numbered_least;
  numbered_most = h.numbered_most;
  unrecorded = h.unrecorded;
  recorded = h.recorded;
}

rolled_back-SentBy :
    (d : DeviceRow) (now : ℕ) (s : CheckStore) (x : Planned × CheckStore)
    → SentBy d now s x
    → SentBy d now s (rolled_back s x)
unfolding SentBy
rolled_back-SentBy d now s (nothing, s') h = tt
rolled_back-SentBy d now s (thrown, s') h = tt
rolled_back-SentBy d now s (push p, s') h = h

-- The same with what `plan` asks of the device and its account.
DueBy : Outside → ℕ → ℕ → CheckStore → Planned × CheckStore → Type 0
DueBy o device_id now s (nothing, s') = Unit
DueBy o device_id now s (thrown, s') = Unit
DueBy o device_id now s (push p, s') =
    (st : StateRow) × (d : DeviceRow) × (state device_id s ≡ some st)
    × (device device_id s ≡ some d)
    × ((st.enabled && due_by now st.next_attempt_at) ≡ true)
    × (gets_checks d.account_id s ≡ true)
    × (str_eq d.push_token "" ≡ false)
    × Sent d now s p s'

SentBy-DueBy :
    (o : Outside) (device_id now : ℕ) (s : CheckStore) (st : StateRow) (d : DeviceRow)
    (x : Planned × CheckStore)
    → state device_id s ≡ some st
    → device device_id s ≡ some d
    → (st.enabled && due_by now st.next_attempt_at) ≡ true
    → gets_checks d.account_id s ≡ true
    → str_eq d.push_token "" ≡ false
    → SentBy d now s x
    → DueBy o device_id now s x
unfolding SentBy DueBy
SentBy-DueBy o device_id now s st d (nothing, s') e1 e2 e3 e4 e5 h = tt
SentBy-DueBy o device_id now s st d (thrown, s') e1 e2 e3 e4 e5 h = tt
SentBy-DueBy o device_id now s st d (push p, s') e1 e2 e3 e4 e5 h = (st, d, e1, e2, e3, e4, e5, h)

plan_device-DueBy :
    (o : Outside) (device_id now : ℕ) (s : CheckStore) (st : StateRow) (d : DeviceRow)
    (r : Option RoundRow)
    → state device_id s ≡ some st
    → device device_id s ≡ some d
    → (st.enabled && due_by now st.next_attempt_at) ≡ true
    → DueBy o device_id now s (plan_device o st d now r s)
unfolding plan_device DueBy
plan_device-DueBy o device_id now s st d r e1 e2 e3 = elim (Option-cases (expired_by now r)) [
  | inr (over, e) ↦ rw (e, plan_device) tt
  | inl e ↦ elim (Bool-cases (gets_checks d.account_id s)) [
    | inr lower ↦ rw (e, plan_device, lower) tt
    | inl hosted_now ↦ elim (Bool-cases (str_eq d.push_token "")) [
      | inl empty ↦ rw (e, plan_device, hosted_now, empty) tt
      | inr token ↦
          let (current, s') = round_or_new o st.device_id now r s in
          rw (e, plan_device, hosted_now, token)
            (SentBy-DueBy o device_id now s st d
              (rolled_back s (hold_or_send o st.device_id d now current s')) e1 e2 e3 hosted_now
              token
              (rolled_back-SentBy d now s _ (
                round_or_new-SentBy o st.device_id now d r s
                  (hold_or_send o st.device_id d now current s')
                  (hold_or_send-SentBy o st.device_id d now current s'))))
    ]
  ]
]

plan-DueBy :
    (o : Outside) (device_id now : ℕ) (s : CheckStore)
    → DueBy o device_id now s (plan o device_id now s)
unfolding plan DueBy
plan-DueBy o device_id now s = elim (Option-cases (state device_id s)) [
  | inl e ↦ rw (e, plan) tt
  | inr (st, e) ↦ elim (Bool-cases (st.enabled && due_by now st.next_attempt_at)) [
    | inr idle ↦ rw (e, plan, idle) tt
    | inl due_now ↦ elim (Option-cases (device device_id s)) [
      | inl e' ↦ rw (e, plan, due_now, e') tt
      | inr (d, e') ↦
          rw (e, plan, due_now, e')
            (plan_device-DueBy o device_id now s st d (open_round st s) e e' due_now)
    ]
  ]
]

DueBy-push :
    (o : Outside) (device_id now : ℕ) (s : CheckStore) (p : PlannedCheck) (x : Planned × CheckStore)
    → x.0 ≡ push p
    → DueBy o device_id now s x
    → DueBy o device_id now s (push p, x.1)
DueBy-push o device_id now s p x e h = subst (λ q. DueBy o device_id now s (q, x.1)) e h

-- Whenever `plan` hands out a push: the device is enrolled and its time has come, its account's
-- tier gets checks, it has a token and the push goes to it, its last alarm push was half an hour
-- ago or more, the attempt is numbered one, two or three, and it was on record not at all before and once after.
pub plan_push :
    (o : Outside) (device_id now : ℕ) (s : CheckStore) (p : PlannedCheck)
    → (plan o device_id now s).0 ≡ push p
    → (st : StateRow) × (d : DeviceRow) × (state device_id s ≡ some st)
      × (device device_id s ≡ some d)
      × ((st.enabled && due_by now st.next_attempt_at) ≡ true)
      × (gets_checks d.account_id s ≡ true)
      × (str_eq d.push_token "" ≡ false)
      × Sent d now s p (plan o device_id now s).1
unfolding DueBy
plan_push o device_id now s p e =
    DueBy-push o device_id now s p (plan o device_id now s) e (plan-DueBy o device_id now s)
