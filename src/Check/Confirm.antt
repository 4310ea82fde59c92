-- ===== src/Check/Confirm.antt =====
-- src/check/store.ts: what holds when `confirm` lets a planned push leave.
use critalarm_server.Prelude.{
  ℕ, ◌<◌, leb, Bool, true, false, ◌≡◌, refl, str_eq, some, arith, inl, inr, Bool-cases,
  Option-cases,
}
use mathlib.Core.Path.{subst}
use critalarm_server.Check.Types.{PlannedCheck, StateRow, RoundRow, DeviceRow, CheckStore}
use critalarm_server.Check.Statements.{is_null, same_id, gets_checks, state, round, device}
use critalarm_server.Check.Plan.{confirm_open, confirm}

-- What `confirm` has found when it says yes.
pub record Confirmed (planned : PlannedCheck) (now : ℕ) (s : CheckStore) (r : RoundRow)
    (st : StateRow) (d : DeviceRow) : Type 0 where
  pub round : round planned.round_id s ≡ some r
  pub running : is_null r.result ≡ true
  pub early : now < r.closes_at
  pub state : state r.device_id s ≡ some st
  pub enabled : st.enabled ≡ true
  pub current : same_id st.round_id r.id ≡ true
  pub device : device r.device_id s ≡ some d
  pub hosted : gets_checks d.account_id s ≡ true
  pub token : str_eq d.push_token planned.push_token ≡ true

-- The answer no says nothing here.
Goes : PlannedCheck → ℕ → CheckStore → Bool × CheckStore → Type 0
Goes planned now s (false, s') = Unit
Goes planned now s (true, s') =
    (r : RoundRow) × (st : StateRow) × (d : DeviceRow) × Confirmed planned now s r st d × (s' ≡ s)

Goes-Confirmed :
    (planned : PlannedCheck) (now : ℕ) (s : CheckStore) (r : RoundRow) (st : StateRow)
    (d : DeviceRow) (b : Bool)
    → (b ≡ true → Confirmed planned now s r st d)
    → Goes planned now s (b, s)
unfolding Goes
Goes-Confirmed planned now s r st d false h = tt
Goes-Confirmed planned now s r st d true h = (r, st, d, h refl, refl)

confirm_open-Goes :
    (planned : PlannedCheck) (now : ℕ) (s : CheckStore) (r : RoundRow) (st : StateRow)
    (d : DeviceRow)
    → round planned.round_id s ≡ some r
    → is_null r.result ≡ true
    → state r.device_id s ≡ some st
    → device r.device_id s ≡ some d
    → same_id st.round_id r.id ≡ true
    → Goes planned now s (confirm_open planned r st d now s)
unfolding confirm_open Goes
confirm_open-Goes planned now s r st d e1 e2 e3 e4 e5 = elim (Bool-cases st.enabled) [
  | inr off ↦ rw off tt
  | inl on ↦ elim (Bool-cases (leb r.closes_at now)) [
    | inl over ↦ rw (on, over) tt
    | inr early ↦ elim (Bool-cases (gets_checks d.account_id s)) [
      | inr lower ↦ rw (on, early, lower) tt
      | inl hosted ↦ elim (Bool-cases (str_eq d.push_token "")) [
        | inl empty ↦ rw (on, early, hosted, empty) tt
        | inr token ↦
            rw (on, early, hosted, token)
              (Goes-Confirmed planned now s r st d (str_eq d.push_token planned.push_token) (λ same.
                record {
                  round = e1;
                  running = e2;
                  early = ground (arith, early);
                  state = e3;
                  enabled = on;
                  current = e5;
                  device = e4;
                  hosted = hosted;
                  token = same;
                }))
      ]
    ]
  ]
]

confirm-Goes :
    (planned : PlannedCheck) (now : ℕ) (s : CheckStore) → Goes planned now s (confirm planned now s)
unfolding confirm Goes
confirm-Goes planned now s = elim (Option-cases (round planned.round_id s)) [
  | inl e ↦ rw (e, confirm) tt
  | inr (r, e) ↦ elim (Bool-cases (is_null r.result)) [
    | inr ended ↦ rw (e, confirm, ended) tt
    | inl running ↦ elim (Option-cases (state r.device_id s)) [
      | inl e' ↦ rw (e, confirm, running, e') tt
      | inr (st, e') ↦ elim (Option-cases (device r.device_id s)) [
        | inl e'' ↦ rw (e, confirm, running, e', e'') tt
        | inr (d, e'') ↦ elim (Bool-cases (same_id st.round_id r.id)) [
          | inr differs ↦ rw (e, confirm, running, e', e'', differs) tt
          | inl same ↦
              rw (e, confirm, running, e', e'', same)
                (confirm_open-Goes planned now s r st d e running e' e'' same)
        ]
      ]
    ]
  ]
]

Goes-true :
    (planned : PlannedCheck) (now : ℕ) (s : CheckStore) (x : Bool × CheckStore)
    → x.0 ≡ true
    → Goes planned now s x
    → Goes planned now s (true, x.1)
Goes-true planned now s x e h = subst (λ b. Goes planned now s (b, x.1)) e h

-- When `confirm` lets a planned push go, then at that moment its round is still running and its
-- close time lies ahead, the device is enrolled with this round as its open one, its account's
-- tier gets checks, its token is the one the push was built for, and nothing has been written.
pub confirm_yes :
    (planned : PlannedCheck) (now : ℕ) (s : CheckStore)
    → (confirm planned now s).0 ≡ true
    → (r : RoundRow) × (st : StateRow) × (d : DeviceRow) × Confirmed planned now s r st d
      × ((confirm planned now s).1 ≡ s)
unfolding Goes
confirm_yes planned now s e =
    Goes-true planned now s (confirm planned now s) e (confirm-Goes planned now s)
