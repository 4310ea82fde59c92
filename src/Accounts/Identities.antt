-- ===== src/Accounts/Identities.antt =====
-- src/v1/accounts.ts: signing in on an account's device, and moving the device to another account.
-- The identity provider is the parameter `resolve`, from an identity token to a user.
pub mod Live
pub mod Moved
pub mod Effects
use critalarm_server.Prelude.{
  ℕ, zero, suc, ◌+◌, ◌==◌, leb, if◌then◌else◌, Bool, true, false, not, ◌&&◌, ◌||◌, String, Option,
  none, some, List, [], ◌∷◌, ◌++◌, map, length, find_row, select, count_where, delete_where,
  update_where,
}
use critalarm_server.Incident.Types.{TopicRow, IncidentRow}
use critalarm_server.Accounts.Types.{
  AccountRow, DeviceRow, TopicTokenRow, IdentityRow, AccountStore, Issuer,
}
use critalarm_server.Accounts.Credentials.{sweep_device_into_topics}

pub data LinkIntent : Type 0 where
  sign_in link : LinkIntent

pub data LinkOutcome : Type 0 where
  claimed attached linked already_linked : (account_id : ℕ) → LinkOutcome
  link_unauthorized other_identity other_account : LinkOutcome
  choose : (into_account topics incidents : ℕ) → LinkOutcome

pub data SwitchOutcome : Type 0 where
  switched : (account_id : ℕ) → SwitchOutcome
  switch_unauthorized switch_refused : SwitchOutcome

-- The loop of `liveAccount`, with the hops that are left.
unfoldable pub live_from : ℕ → ℕ → AccountStore → ℕ
live_from zero current s = current
live_from (suc hops) current s = elim (find_row (λ a. a.id == current) s.accounts) [
  | none ↦ current
  | some a ↦ elim a.merged_into [ none ↦ current | some into ↦ live_from hops into s ]
]

unfoldable pub live_account : ℕ → AccountStore → ℕ
live_account account_id s = live_from 8 account_id s

unfoldable pub identity_account : ℕ → AccountStore → Option ℕ
identity_account user_id s = elim (find_row (λ i. i.user_id == user_id) s.identities) [
  | none ↦ none
  | some i ↦ some (live_account i.account_id s)
]

unfoldable pub account_identities : ℕ → AccountStore → List ℕ
account_identities account_id s =
    map (λ i. i.user_id) (select (λ i. i.account_id == account_id) s.identities)

abbrev pub includes_id : ℕ → List ℕ → Bool
includes_id id ids = leb 1 (count_where (λ n. n == id) ids)

abbrev pub holds_any : List ℕ → Bool
holds_any ids = leb 1 (length ids)

unfoldable pub claimed_by_somebody_else : ℕ → ℕ → AccountStore → Bool
claimed_by_somebody_else account_id user_id s =
    let holders = account_identities account_id s in
    holds_any holders && not (includes_id user_id holders)

-- topic_id IN (SELECT id FROM topics WHERE account_id = ?)
abbrev pub topic_on : ℕ → AccountStore → ℕ → Bool
topic_on account_id s topic_id =
    leb 1 (count_where (λ t. (t.id == topic_id) && (t.account_id == account_id)) s.engine.topics)

pub record AccountContent : Type 0 where
  pub topics : ℕ
  pub incidents : ℕ

unfoldable pub account_content : ℕ → AccountStore → AccountContent
account_content account_id s = record {
  topics = count_where (λ t. t.account_id == account_id) s.engine.topics;
  incidents = count_where (λ i. topic_on account_id s i.topic_id) s.engine.incidents;
}

-- One turn of the loop of `moveDevices`.
unfoldable pub move_device : ℕ → ℕ → AccountStore → AccountStore
move_device into device_id s = sweep_device_into_topics into device_id (record s {
  subscriptions = delete_where (λ r. r.device_id == device_id) s.subscriptions;
  devices = update_where (λ d. d.id == device_id) (λ d. record d { account_id = into }) s.devices;
})

unfoldable pub move_each : ℕ → List DeviceRow → AccountStore → AccountStore
move_each into [] s = s
move_each into (d ∷ devices) s = move_each into devices (move_device into d.id s)

unfoldable pub move_devices : (from into : ℕ) → AccountStore → AccountStore
move_devices from into s = move_each into (select (λ d. d.account_id == from) s.devices) s

unfoldable pub tombstone : ℕ → ℕ → AccountStore → AccountStore
tombstone account_id into s = record s {
  accounts =
      update_where (λ a. a.id == account_id)
        (λ a. record a { merged_into = some into; join_token_hash = none }) s.accounts;
  identities =
      update_where (λ i. i.account_id == account_id) (λ i. record i { account_id = into })
        s.identities;
}

unfoldable pub revoke_topic_tokens : ℕ → AccountStore → AccountStore
revoke_topic_tokens account_id s = record s {
  topic_tokens = delete_where (λ t. topic_on account_id s t.topic_id) s.topic_tokens;
}

abbrev pub is_sign_in : LinkIntent → Bool
is_sign_in sign_in = true
is_sign_in link = false

-- Rows 1 to 3: the identity is new.
unfoldable pub link_new : ℕ → ℕ → LinkIntent → ℕ → AccountStore → LinkOutcome × AccountStore
link_new user_id source intent now s =
    let held = holds_any (account_identities source s) in
    if held && is_sign_in intent then (other_identity, s) else (
      if held then linked source else claimed source,
      record s {
        identities =
            s.identities ++ record { user_id = user_id; account_id = source; linked_at = now } ∷ [];
      },
    )

abbrev pub is_empty : AccountContent → Bool
is_empty content = (content.topics == 0) && (content.incidents == 0)

-- Rows 4 to 6: the identity has another account.
unfoldable pub link_known : ℕ → ℕ → ℕ → LinkIntent → AccountStore → LinkOutcome × AccountStore
link_known user_id source target intent s =
    let content = account_content source s in
    if is_sign_in intent && claimed_by_somebody_else source user_id s
    then (other_identity, s)
    else if is_empty content
    then (attached target, tombstone source target (move_devices source target s))
    else if is_sign_in intent
    then (choose target content.topics content.incidents, s)
    else (other_account, s)

unfoldable pub link_to :
    ℕ → ℕ → Option ℕ → LinkIntent → ℕ → AccountStore → LinkOutcome × AccountStore
link_to user_id source none intent now s = link_new user_id source intent now s
link_to user_id source (some target) intent now s =
    if target == source
    then (already_linked source, s)
    else link_known user_id source target intent s

unfoldable pub link_identity :
    (String → Option ℕ)
    → (source_account : ℕ) (identity_token : String) → LinkIntent
    → ℕ
    → AccountStore
    → LinkOutcome × AccountStore
link_identity resolve source_account identity_token intent now s = elim (resolve identity_token) [
  | none ↦ (link_unauthorized, s)
  | some user_id ↦
      link_to user_id (live_account source_account s) (identity_account user_id s) intent now s
]

-- `switchAccount` once the identity is known to own the target.
unfoldable pub switch_to : ℕ → ℕ → ℕ → AccountStore → SwitchOutcome × AccountStore
switch_to user_id source target s =
    if source == target
    then (switched target, s)
    else if claimed_by_somebody_else source user_id s
    then (switch_refused, s)
    else (
      switched target,
      tombstone source target (revoke_topic_tokens source (move_devices source target s)),
    )

abbrev pub is_account : Option ℕ → ℕ → Bool
is_account none id = false
is_account (some account_id) id = account_id == id

unfoldable pub switch_account :
    (String → Option ℕ)
    → (source_account : ℕ) (identity_token : String) (into_account : ℕ) → AccountStore
    → SwitchOutcome × AccountStore
switch_account resolve source_account identity_token into_account s =
    elim (resolve identity_token) [
      | none ↦ (switch_unauthorized, s)
      | some user_id ↦
          let target = live_account into_account s in
          if is_account (identity_account user_id s) target
          then switch_to user_id (live_account source_account s) target s
          else (switch_unauthorized, s)
    ]

-- The token comes back with the store.
unfoldable pub mint_join_token : Issuer → ℕ → AccountStore → String × AccountStore
mint_join_token issuer source_account s =
    let token = issuer.join_token s.drawn in
    (
      token,
      record s {
        accounts =
            update_where (λ a. a.id == live_account source_account s)
              (λ a. record a { join_token_hash = some (issuer.credential_hash token) }) s.accounts;
        drawn = s.drawn + 1;
      },
    )
