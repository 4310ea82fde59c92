-- ===== src/Tier/Purchases.antt =====
-- src/tier/revenuecat.ts: what a purchase event does to an account's tier. Ids are numbers; a billing
-- id may be an account's id, so both are numbers of one kind. Ids of `tier_changes` rows are left out.
pub mod Steps
mod Examples
use critalarm_server.Prelude.{
  ℕ, zero, suc, ◌+◌, ◌*◌, ◌/◌, ◌==◌, ltb, leb, if◌then◌else◌, Bool, true, false, not, ◌&&◌, ◌||◌,
  String, str_eq, Option, none, some, List, [], ◌∷◌, ◌++◌, find_row, select, update_where, map_get,
}
use critalarm_server.Tier.Caps.{Tier, free, relay, hosted}

-- The event of the webhook's body, the fields that are read.
pub record Event : Type 0 where
  pub id : Option String
  pub event_timestamp_ms : Option ℕ
  pub app_user_id : ℕ
  pub type : String
  pub entitlement_id : Option String
  pub entitlement_ids : List String
  pub expiration_at_ms : Option ℕ

pub record Account : Type 0 where
  pub id : ℕ
  pub tier : Tier
  pub merged_into : Option ℕ

pub record BillingIdRow : Type 0 where
  pub app_user_id : ℕ
  pub account_id : ℕ
  pub linked_at : ℕ
  pub last_event_at : Option ℕ
  pub entitled_tier : Tier

-- An event's own id, or the parts that one is rebuilt from.
pub data EventId : Type 0 where
  given : String → EventId
  rebuilt : (app_user_id : ℕ) (type : String) (event_at : ℕ) → EventId

pub record BillingEventRow : Type 0 where
  pub event_id : EventId
  pub app_user_id : ℕ
  pub account_id : Option ℕ
  pub type : String
  pub event_at : ℕ
  pub applied : Bool
  pub received_at : ℕ

pub record TierChangeRow : Type 0 where
  pub account_id : ℕ
  pub from_tier : Tier
  pub to_tier : Tier
  pub event_id : EventId
  pub changed_at : ℕ

pub record Billing : Type 0 where
  pub accounts : List Account
  pub billing_ids : List BillingIdRow
  pub events : List BillingEventRow
  pub changes : List TierChangeRow

-- RANK
abbrev pub rank : Tier → ℕ
rank free = 0
rank relay = 1
rank hosted = 2

abbrev pub is_higher_tier : Tier → Tier → Bool
is_higher_tier tier than = ltb (rank than) (rank tier)

-- The first entitlement that the configuration knows.
unfoldable pub configured_tier : List (String × Tier) → List String → Option Tier
configured_tier entitlements [] = none
configured_tier entitlements (e ∷ es) = elim (map_get e entitlements) [
  | none ↦ configured_tier entitlements es
  | some tier ↦ some tier
]

-- [event.entitlement_id, ...event.entitlement_ids ?? []]
abbrev pub named : Option String → List String → List String
named none es = es
named (some e) es = e ∷ es

abbrev pub has_expired : ℕ → Option ℕ → Bool
has_expired now none = false
has_expired now (some at_ms) = leb at_ms (now * 1000)

unfoldable pub entitled_tier : List (String × Tier) → ℕ → Event → Option Tier
entitled_tier entitlements now event =
    if str_eq event.type "EXPIRATION" || has_expired now event.expiration_at_ms
    then some free
    else configured_tier entitlements (named event.entitlement_id event.entitlement_ids)

-- The loop of `followMerge`, with the hops that are left.
unfoldable pub follow : ℕ → ℕ → List Account → Option ℕ
follow zero current accounts = none
follow (suc hops) current accounts = elim (find_row (λ a. a.id == current) accounts) [
  | none ↦ none
  | some a ↦ elim a.merged_into [ none ↦ some a.id | some winner ↦ follow hops winner accounts ]
]

unfoldable pub follow_merge : ℕ → List Account → Option ℕ
follow_merge account_id accounts = follow 8 account_id accounts

unfoldable pub resolve_account : ℕ → Billing → Option ℕ
resolve_account app_user_id s = elim (find_row (λ b. b.app_user_id == app_user_id) s.billing_ids) [
  | some b ↦ follow_merge b.account_id s.accounts
  | none ↦ elim (find_row (λ a. a.id == app_user_id) s.accounts) [
    | none ↦ none
    | some a ↦ follow_merge a.id s.accounts
  ]
]

-- rows.reduce(...)
unfoldable pub best_tier : Tier → List BillingIdRow → Tier
best_tier best [] = best
best_tier best (row ∷ rows) =
    best_tier (if is_higher_tier row.entitled_tier best then row.entitled_tier else best) rows

unfoldable pub highest_entitled_tier : ℕ → Billing → Tier
highest_entitled_tier account_id s =
    best_tier free (select (λ b. b.account_id == account_id) s.billing_ids)

unfoldable pub account_tier_after : (current highest row_before row_after : Tier) → Tier
account_tier_after current highest row_before row_after =
    let was_source =
      is_higher_tier row_before row_after && not (is_higher_tier current row_before) in
    if is_higher_tier highest current || was_source then highest else current

abbrev pub event_at : Option ℕ → ℕ → ℕ
event_at none received_at = received_at
event_at (some ms) received_at = ms / 1000

abbrev pub id_of : Option String → Event → ℕ → EventId
id_of (some id) event at = given id
id_of none event at = rebuilt event.app_user_id event.type at

abbrev pub event_id : Event → ℕ → EventId
event_id event received_at = id_of event.id event (event_at event.event_timestamp_ms received_at)

abbrev pub same_event : EventId → EventId → Bool
same_event (given a) (given b) = str_eq a b
same_event (rebuilt u t a) (rebuilt v w b) = (u == v) && str_eq t w && (a == b)
same_event _ _ = false

abbrev last_event : Option BillingIdRow → Option ℕ
last_event none = none
last_event (some link) = link.last_event_at

abbrev pub is_stale : ℕ → Option ℕ → Bool
is_stale at none = false
is_stale at (some last) = ltb at last

abbrev pub row_tier : Option BillingIdRow → Tier
row_tier none = free
row_tier (some link) = link.entitled_tier

abbrev same_tier : Tier → Tier → Bool
same_tier a b = rank a == rank b

-- INSERT ... ON CONFLICT(app_user_id) DO UPDATE SET account_id, last_event_at, entitled_tier
unfoldable pub upsert_link : ℕ → ℕ → ℕ → ℕ → Tier → List BillingIdRow → List BillingIdRow
upsert_link user account received_at at tier [] =
    record {
      app_user_id = user;
      account_id = account;
      linked_at = received_at;
      last_event_at = some at;
      entitled_tier = tier;
    }
    ∷ []
upsert_link user account received_at at tier (row ∷ rows) =
    let rest = upsert_link user account received_at at tier rows in
    if row.app_user_id == user
    then record row { account_id = account; last_event_at = some at; entitled_tier = tier } ∷ rows
    else row ∷ rest

abbrev pub tier_of : Option Account → Tier
tier_of none = free
tier_of (some a) = a.tier

-- UPDATE accounts SET tier = ? WHERE id = ?, and the row of `tier_changes`, when the tier moves.
unfoldable pub write_tier : ℕ → Tier → Tier → EventId → ℕ → Billing → Billing
write_tier account_id current next id received_at s =
    if same_tier next current then s else record s {
      accounts = update_where (λ a. a.id == account_id) (λ a. record a { tier = next }) s.accounts;
      changes =
          s.changes
          ++ record {
            account_id = account_id;
            from_tier = current;
            to_tier = next;
            event_id = id;
            changed_at = received_at;
          }
            ∷ [];
    }

-- An event that counts: its billing id's row, and then the account's tier.
unfoldable pub apply_to : Event → ℕ → ℕ → Tier → Option BillingIdRow → Billing → Billing
apply_to event received_at account_id tier link s =
    let at = event_at event.event_timestamp_ms received_at in
    let s' = record s {
      billing_ids = upsert_link event.app_user_id account_id received_at at tier s.billing_ids;
    } in
    let current = tier_of (find_row (λ a. a.id == account_id) s'.accounts) in
    let next =
      account_tier_after current (highest_entitled_tier account_id s') (row_tier link) tier in
    write_tier account_id current next (event_id event received_at) received_at s'

unfoldable pub insert_event : Event → ℕ → Option ℕ → Bool → Billing → Billing
insert_event event received_at account_id applied s = record s {
  events =
      s.events
      ++ record {
        event_id = event_id event received_at;
        app_user_id = event.app_user_id;
        account_id = account_id;
        type = event.type;
        event_at = event_at event.event_timestamp_ms received_at;
        applied = applied;
        received_at = received_at;
      }
        ∷ [];
}

-- applied: the account and the tier that the event is applied to, when it is.
unfoldable pub applied_to : Option ℕ → Option Tier → Bool → Option (ℕ × Tier)
applied_to (some account_id) (some tier) false = some (account_id, tier)
applied_to _ _ _ = none

-- The event is logged either way.
unfoldable pub log_and_apply :
    Event → ℕ → Option ℕ → Option (ℕ × Tier) → Option BillingIdRow → Billing → Billing
log_and_apply event received_at account none link s = insert_event event received_at account false s
log_and_apply event received_at account (some (account_id, tier)) link s =
    apply_to event received_at account_id tier link (insert_event event received_at account true s)

unfoldable pub apply_revenue_cat_event : List (String × Tier) → Event → ℕ → Billing → Billing
apply_revenue_cat_event entitlements event received_at s =
    let account = resolve_account event.app_user_id s in
    let link = find_row (λ b. b.app_user_id == event.app_user_id) s.billing_ids in
    let stale = is_stale (event_at event.event_timestamp_ms received_at) (last_event link) in
    let target = applied_to account (entitled_tier entitlements received_at event) stale in
    elim (find_row (λ e. same_event e.event_id (event_id event received_at)) s.events) [
      | some _ ↦ s
      | none ↦ log_and_apply event received_at account target link s
    ]
