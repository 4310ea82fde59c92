-- ===== src/Check/Statements.antt =====
-- src/check/store.ts: the reads and the single-row writes of `CheckStore`.
use critalarm_server.Prelude.{
  ℕ, ◌==◌, Bool, true, false, ◌&&◌, String, str_eq, Option, none, some, find_row, update_where,
}
use critalarm_server.Tier.Caps.{Tier, hosted}
use critalarm_server.Check.Types.{
  AlarmTokenKind, apns, fcm, alarm_token_kind, StateRow, RoundRow, Device, TokenRow, DeviceRow,
  CheckStore,
}

abbrev pub is_null {ℓ} : {A : Type ℓ} → Option A → Bool
is_null none = true
is_null (some a) = false

abbrev pub same_id : Option ℕ → ℕ → Bool
same_id none n = false
same_id (some m) n = m == n

-- account?.tier === CHECK_TIER
abbrev pub is_check_tier : Tier → Bool
is_check_tier hosted = true
is_check_tier _ = false

unfoldable pub gets_checks : ℕ → CheckStore → Bool
gets_checks account_id s = elim (find_row (λ a. a.id == account_id) s.accounts) [
  | none ↦ false
  | some account ↦ is_check_tier account.tier
]

-- `private state`
unfoldable pub state : ℕ → CheckStore → Option StateRow
state device_id s = find_row (λ r. r.device_id == device_id) s.device_checks

-- `private round`
unfoldable pub round : ℕ → CheckStore → Option RoundRow
round id s = find_row (λ r. r.id == id) s.check_rounds

abbrev pub not_closed : Option RoundRow → Option RoundRow
not_closed none = none
not_closed (some r) = elim r.result [ none ↦ some r | some _ ↦ none ]

-- `private openRound`
unfoldable pub open_round : StateRow → CheckStore → Option RoundRow
open_round st s = elim st.round_id [ none ↦ none | some id ↦ not_closed (round id s) ]

abbrev same_kind : AlarmTokenKind → AlarmTokenKind → Bool
same_kind apns apns = true
same_kind fcm fcm = true
same_kind _ _ = false

-- The row of the LEFT JOIN on `device_tokens`.
unfoldable pub alarm_token : Device → CheckStore → Option TokenRow
alarm_token d s =
    find_row
      (λ t.
        (t.device_id == d.id)
        && str_eq t.activity_id ""
        && same_kind t.kind (alarm_token_kind d.platform))
      s.device_tokens

-- COALESCE(alarm.token, d.push_token)
unfoldable pub token_of : Device → Option TokenRow → String
token_of d none = d.push_token
token_of d (some t) = t.token

-- `private device`
unfoldable pub device : ℕ → CheckStore → Option DeviceRow
device device_id s = elim (find_row (λ d. d.id == device_id) s.devices) [
  | none ↦ none
  | some d ↦ some (record {
    account_id = d.account_id;
    platform = d.platform;
    apns_environment = d.apns_environment;
    last_alarm_push_at = d.last_alarm_push_at;
    push_token = token_of d (alarm_token d s);
  })
]

-- UPDATE device_checks SET ... WHERE device_id = ?
unfoldable pub update_state : ℕ → (StateRow → StateRow) → CheckStore → CheckStore
update_state device_id f s = record s {
  device_checks = update_where (λ r. r.device_id == device_id) f s.device_checks;
}

-- UPDATE check_rounds SET ... WHERE id = ?
unfoldable pub update_round : ℕ → (RoundRow → RoundRow) → CheckStore → CheckStore
update_round id f s = record s { check_rounds = update_where (λ r. r.id == id) f s.check_rounds }

-- The same with `AND result IS NULL`.
unfoldable pub update_unclosed : ℕ → (RoundRow → RoundRow) → CheckStore → CheckStore
update_unclosed id f s = record s {
  check_rounds = update_where (λ r. (r.id == id) && is_null r.result) f s.check_rounds;
}
