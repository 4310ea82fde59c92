-- ===== src/Accounts/Devices.antt =====
-- src/tier/devices.ts, src/tier/device-tokens.ts and `checkDueAfterNewToken` of
-- src/check/device-hooks.ts. A call that throws inside its transaction leaves the store as it was,
-- except for the ids it drew.
pub mod Registering
pub mod Capped
use critalarm_server.Prelude.{
  ℕ, ◌+◌, ◌==◌, ltb, leb, if◌then◌else◌, Bool, true, false, not, ◌&&◌, ◌||◌, String, str_eq, Option,
  none, some, List, [], ◌∷◌, ◌++◌, find_row, count_where, delete_where, update_where,
}
use critalarm_server.Tier.Caps.{Tier, free, caps_for}
use critalarm_server.Check.Types.{Platform, alarm_token_kind, StateRow}
use critalarm_server.Check.Statements.{is_null}
use critalarm_server.Push.Types.{
  DeviceTokenRow, SubscriptionRow, TokenKind, ring, la_start, la_update,
}
use critalarm_server.Push.Dispatcher.{same_token_kind, is_macos}
use critalarm_server.Accounts.Types.{AccountRow, DeviceRow, AccountStore, Issuer, Context}
use critalarm_server.Accounts.Credentials.{
  push_token_shape_for, token_shape_for_kind, authenticate_account_join, authenticate_device,
  sweep_device_into_topics, subscribe_row,
}

pub record RegistrationInput : Type 0 where
  pub device_id : ℕ
  pub platform : Platform
  pub push_token : String
  pub app_version : String

pub record DeviceUpdate : Type 0 where
  pub push_token : String
  pub app_version : String

pub record DeviceAccountRow : Type 0 where
  pub account_id : ℕ
  pub tier : Tier

-- What `registerDevice` returns, or what it throws.
pub data Registration : Type 0 where
  registered :
      (device_token account_join_token : Option String) (account_id : ℕ) (tier : Tier)
      → Registration
  unauthorized_device cap_reached invalid_token : Registration

unfoldable pub account_for_context : Context → AccountStore → Option DeviceAccountRow
account_for_context context s =
    elim (find_row (λ d. (d.id == context.device_id) && (d.account_id == context.account_id))
      s.devices) [
        | none ↦ none
        | some d ↦ elim (find_row (λ a. a.id == d.account_id) s.accounts) [
          | none ↦ none
          | some a ↦ some (record { account_id = d.account_id; tier = a.tier })
        ]
      ]

abbrev is_ring_kind : TokenKind → Bool
is_ring_kind (ring kind) = true
is_ring_kind _ = false

unfoldable pub set_alarm_token : ℕ → Platform → String → AccountStore → AccountStore
set_alarm_token device_id platform token s = record s {
  device_tokens =
      delete_where (λ t. (t.device_id == device_id) && is_ring_kind t.kind) s.device_tokens
      ++ record {
        device_id = device_id;
        kind = ring (alarm_token_kind platform);
        activity_id = "";
        incident_id = none;
        token = token;
      }
        ∷ [];
}

abbrev pub devices_of : ℕ → AccountStore → ℕ
devices_of account_id s = count_where (λ d. d.account_id == account_id) s.devices

-- The row is written, with its alarm token and its subscriptions.
unfoldable pub add_device : Issuer → RegistrationInput → ℕ → ℕ → AccountStore → AccountStore
add_device issuer input account_id now s = sweep_device_into_topics account_id input.device_id (
    set_alarm_token input.device_id input.platform input.push_token (record s {
      devices =
          s.devices
          ++ record {
            id = input.device_id;
            account_id = account_id;
            device_token_hash = issuer.credential_hash (issuer.device_token s.drawn);
            platform = input.platform;
            push_token = input.push_token;
            app_version = input.app_version;
            last_seen = now;
          }
            ∷ [];
      drawn = s.drawn + 1;
    }))

-- insertDeviceForAccount, with the join token that goes into the answer.
unfoldable pub insert_device_for_account :
    Issuer
    → RegistrationInput
    → ℕ
    → Tier
    → Option String
    → ℕ
    → AccountStore
    → Registration × AccountStore
insert_device_for_account issuer input account_id tier join_token now s =
    if leb (caps_for tier).devices (devices_of account_id s) then (cap_reached, s) else (
      registered (some (issuer.device_token s.drawn)) join_token account_id tier,
      add_device issuer input account_id now s,
    )

unfoldable pub check_due_after_new_token : ℕ → ℕ → AccountStore → AccountStore
check_due_after_new_token device_id now s = record s {
  device_checks =
      update_where
        (λ r. (r.device_id == device_id) && r.enabled && ltb 0 r.misses && is_null r.round_id)
        (λ r. record r { next_due_at = now; next_attempt_at = some now }) s.device_checks;
}

pub data Updated : Type 0 where
  updated : DeviceAccountRow → Updated
  refused_update bad_token : Updated

-- COALESCE(?, platform)
abbrev pub platform_or : Option Platform → Platform → Platform
platform_or none platform = platform
platform_or (some next) platform = next

abbrev pub or_refused : Option DeviceAccountRow → Updated
or_refused none = refused_update
or_refused (some a) = updated a

-- The writes of `updateDevice`, on the row that is there.
unfoldable pub write_update :
    ℕ → DeviceUpdate → Option Platform → ℕ → DeviceRow → AccountStore → AccountStore
write_update id input platform now before s =
    let s' = set_alarm_token id (platform_or platform before.platform) input.push_token (record s {
      devices =
          update_where (λ d. d.id == id)
            (λ d. record d {
              push_token = input.push_token;
              app_version = input.app_version;
              last_seen = now;
              platform = platform_or platform d.platform;
            })
            s.devices;
    }) in
    if str_eq before.push_token input.push_token then s' else check_due_after_new_token id now s'

-- A caller that the token of this device authenticates has a row.
unfoldable pub update_found :
    ℕ
    → DeviceUpdate
    → Option Platform
    → ℕ
    → Context
    → Option DeviceRow
    → AccountStore
    → Updated × AccountStore
update_found id input platform now context none s = (or_refused (account_for_context context s), s)
update_found id input platform now context (some before) s =
    let s' = write_update id input platform now before s in
    if push_token_shape_for (platform_or platform before.platform) input.push_token
    then (or_refused (account_for_context context s'), s')
    else (bad_token, s)

unfoldable pub update_device :
    Issuer
    → ℕ
    → DeviceUpdate
    → Option String
    → Option Platform
    → ℕ
    → AccountStore
    → Updated × AccountStore
update_device issuer id input bearer platform now s = elim (authenticate_device issuer s bearer) [
  | none ↦ (refused_update, s)
  | some context ↦
      if context.device_id == id
      then update_found id input platform now context (find_row (λ d. d.id == id) s.devices) s
      else (refused_update, s)
]

unfoldable pub delete_device : ℕ → AccountStore → AccountStore
delete_device id s = record s {
  device_tokens = delete_where (λ t. t.device_id == id) s.device_tokens;
  subscriptions = delete_where (λ r. r.device_id == id) s.subscriptions;
  device_checks = delete_where (λ r. r.device_id == id) s.device_checks;
  devices = delete_where (λ d. d.id == id) s.devices;
}

-- False where it throws.
unfoldable pub subscribe_device : Context → String → AccountStore → Bool × AccountStore
subscribe_device context topic_hash s = elim (account_for_context context s) [
  | none ↦ (false, s)
  | some _ ↦ (
    true,
    record s { subscriptions = subscribe_row context.device_id topic_hash s.subscriptions },
  )
]

abbrev on_account : ℕ → ℕ → AccountStore → Bool
on_account device_id account_id s =
    leb 1 (count_where (λ d. (d.id == device_id) && (d.account_id == account_id)) s.devices)

unfoldable pub unsubscribe_device : Context → String → AccountStore → AccountStore
unsubscribe_device context topic_hash s = record s {
  subscriptions =
      delete_where
        (λ r.
          (r.device_id == context.device_id)
          && str_eq r.topic_hash topic_hash
          && on_account r.device_id context.account_id s)
        s.subscriptions;
}
