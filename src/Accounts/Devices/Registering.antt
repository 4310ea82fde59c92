-- ===== src/Accounts/Devices/Registering.antt =====
-- src/tier/devices.ts: `registerDevice`.
use critalarm_server.Prelude.{
  ℕ, ◌+◌, ◌==◌, leb, if◌then◌else◌, String, Option, none, some, [], ◌∷◌, ◌++◌, find_row,
}
use critalarm_server.Tier.Caps.{free, caps_for}
use critalarm_server.Accounts.Types.{AccountRow, AccountStore, Issuer, Context}
use critalarm_server.Accounts.Credentials.{authenticate_account_join}
use critalarm_server.Accounts.Devices.{
  RegistrationInput, DeviceAccountRow, Registration, registered, unauthorized_device, invalid_token,
  account_for_context, devices_of, insert_device_for_account, Updated, updated, refused_update,
  bad_token, update_device,
}

abbrev pub as_registration : Updated × AccountStore → Registration × AccountStore
as_registration (updated a, s) = (registered none none a.account_id a.tier, s)
as_registration (refused_update, s) = (unauthorized_device, s)
as_registration (bad_token, s) = (invalid_token, s)

-- A device of an account that is there.
unfoldable pub register_for :
    Issuer
    → RegistrationInput
    → ℕ
    → Option DeviceAccountRow
    → AccountStore
    → Registration × AccountStore
register_for issuer input now none s = (unauthorized_device, s)
register_for issuer input now (some a) s =
    insert_device_for_account issuer input a.account_id a.tier none now s

abbrev pub joined : Option AccountRow → Option DeviceAccountRow
joined none = none
joined (some a) = some (record { account_id = a.id; tier = a.tier })

-- A device with an account of its own.
unfoldable pub register_alone :
    Issuer → RegistrationInput → ℕ → AccountStore → Registration × AccountStore
register_alone issuer input now s =
    let account_id = issuer.account s.drawn in
    let join_token = issuer.join_token (s.drawn + 1) in
    let s' = record s {
      accounts =
          s.accounts
          ++ record {
            id = account_id;
            tier = free;
            join_token_hash = some (issuer.credential_hash join_token);
            merged_into = none;
          }
            ∷ [];
      drawn = s.drawn + 2;
    } in
    let (answer, s'') =
      insert_device_for_account issuer input account_id free (some join_token) now s' in
    if leb (caps_for free).devices (devices_of account_id s')
    then (answer, record s { drawn = s.drawn + 2 })
    else (answer, s'')

unfoldable pub register_new :
    Issuer
    → RegistrationInput
    → Option Context
    → Option String
    → ℕ
    → AccountStore
    → Registration × AccountStore
register_new issuer input (some context) join now s =
    register_for issuer input now (account_for_context context s) s
register_new issuer input none (some join) now s =
    register_for issuer input now (joined (authenticate_account_join issuer s (some join))) s
register_new issuer input none none now s = register_alone issuer input now s

unfoldable pub register_device :
    Issuer
    → RegistrationInput
    → Option String
    → Option Context
    → Option String
    → ℕ
    → AccountStore
    → Registration × AccountStore
register_device issuer input bearer context join now s =
    elim (find_row (λ d. d.id == input.device_id) s.devices) [
      | none ↦ register_new issuer input context join now s
      | some _ ↦ as_registration (
          update_device issuer input.device_id
            (record { push_token = input.push_token; app_version = input.app_version }) bearer
            (some input.platform) now s)
    ]
