-- ===== src/Accounts/Types.antt =====
-- The tables that src/tier/devices.ts and src/v1/accounts.ts write. Ids are numbers, credentials are
-- texts, and their hash is a parameter. The second that a token row was written at is left out.
use critalarm_server.Prelude.{ℕ, String, List, Option}
use critalarm_server.Incident.Types.{Store}
use critalarm_server.Tier.Caps.{Tier}
use critalarm_server.Tier.P4Usage.{UsageRow}
use critalarm_server.Tier.Packs.{PackRow}
use critalarm_server.Tier.Purchases.{BillingIdRow}
use critalarm_server.Check.Types.{Platform, StateRow}
use critalarm_server.Push.Types.{DeviceTokenRow, SubscriptionRow}

pub record AccountRow : Type 0 where
  pub id : ℕ
  pub tier : Tier
  pub join_token_hash : Option String
  pub merged_into : Option ℕ

pub record DeviceRow : Type 0 where
  pub id : ℕ
  pub account_id : ℕ
  pub device_token_hash : String
  pub platform : Platform
  pub push_token : String
  pub app_version : String
  pub last_seen : ℕ

pub record TopicTokenRow : Type 0 where
  pub topic_id : ℕ
  pub hash : String

pub record IdentityRow : Type 0 where
  pub user_id : ℕ
  pub account_id : ℕ
  pub linked_at : ℕ

pub record TierChange : Type 0 where
  pub account_id : ℕ
  pub from_tier : Tier
  pub to_tier : Tier
  pub merged_from : ℕ
  pub changed_at : ℕ

pub record MergeRow : Type 0 where
  pub from_account : ℕ
  pub into_account : ℕ
  pub merged_at : ℕ

-- `drawn` counts the ids and tokens drawn from the generator.
pub record AccountStore : Type 0 where
  pub engine : Store
  pub accounts : List AccountRow
  pub devices : List DeviceRow
  pub device_tokens : List DeviceTokenRow
  pub subscriptions : List SubscriptionRow
  pub topic_tokens : List TopicTokenRow
  pub identities : List IdentityRow
  pub device_checks : List StateRow
  pub billing_ids : List BillingIdRow
  pub pack_grants : List PackRow
  pub p4_usage : List UsageRow
  pub tier_changes : List TierChange
  pub merges : List MergeRow
  pub drawn : ℕ

-- The id generator, and sha256 of a credential.
pub record Issuer : Type 0 where
  pub device_token : ℕ → String
  pub account : ℕ → ℕ
  pub join_token : ℕ → String
  pub credential_hash : String → String

-- AccountContext
pub record Context : Type 0 where
  pub account_id : ℕ
  pub device_id : ℕ
