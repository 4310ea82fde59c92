-- ===== src/Accounts/Examples.antt =====
-- Two accounts, one without topics and with a phone, and one with a topic, a token and an identity.
use critalarm_server.Prelude.{
  ℕ, ◌≤◌, ◌↔◌, ◌+◌, true, false, String, str_eq, Option, some, none, List, [], ◌∷◌, arith,
  if◌then◌else◌, count_where, select, find_row, ◌≡◌, refl,
}
use critalarm_server.Incident.Types.{TopicRow, withheld, IncidentRow, MessageRecord, closed}
use critalarm_server.Tier.Caps.{free}
use critalarm_server.Check.Types.{ios}
use critalarm_server.Accounts.Types.{DeviceRow, AccountStore, Issuer}
use critalarm_server.Accounts.Devices.{RegistrationInput}
use critalarm_server.Accounts.Devices.Capped.{
  IsCapped, registers, deletes, run_devices, run_devices-IsCapped,
}
use critalarm_server.Accounts.Identities.{
  live_account, live_from, account_identities, switch_account,
}
use critalarm_server.Accounts.Identities.Live.{
  survivor_of, Leads, arrived, forwarded, live_account-Leads,
}
use critalarm_server.Accounts.Identities.Effects.{SwitchEffect, switch_account_effect}
use critalarm_server.Accounts.Merge.{merge_accounts, account_family, family_from, merged_into_any}
use critalarm_server.Accounts.Merge.Pending.{HasUniqueTopics}
use critalarm_server.Accounts.Merge.Kept.{MergeEffect, merge_accounts_effect}
use critalarm_server.Accounts.Erase.{
  deleted, after_revokes, delete_account_request, delete_account, revoke_each, family_identities,
  may_delete, open_incident,
}
use critalarm_server.Accounts.Erase.References.{IsReferenced}
use critalarm_server.Accounts.Erase.Effects.{DeleteEffect, delete_account_request_effect}

abbrev issuer : Issuer
issuer = record {
  device_token = λ n. "dv_1";
  account = λ n. 100 + n;
  join_token = λ n. "aj_1";
  credential_hash = λ token. token;
}

abbrev handset : ℕ → ℕ → DeviceRow
handset id account_id = record {
  id = id;
  account_id = account_id;
  device_token_hash = "dv_0";
  platform = ios;
  push_token = "a1";
  app_version = "1";
  last_seen = 1000;
}

abbrev topic : ℕ → ℕ → TopicRow
topic id account_id = record {
  id = id;
  account_id = account_id;
  name = "prod";
  base_url = "https://alarm.example";
  topic_hash = "h";
  critical = true;
  repeat_interval_s = 60;
  max_ring_s = 300;
  desk_timer_s = 600;
  relay_content = withheld;
}

-- Account 1 has phone 1 and the topics that are given; account 2 belongs to user 50.
abbrev two_accounts : List TopicRow → AccountStore
two_accounts topics = record {
  engine = record { topics = topics; incidents = []; timers = []; messages = []; drawn = 0 };
  accounts =
      record { id = 1; tier = free; join_token_hash = some "aj_0"; merged_into = none }
      ∷ record { id = 2; tier = free; join_token_hash = none; merged_into = none }
      ∷ [];
  devices = handset 1 1 ∷ handset 2 2 ∷ [];
  device_tokens = [];
  subscriptions = [];
  topic_tokens =
      record { topic_id = 10; hash = "tk_1" } ∷ record { topic_id = 20; hash = "tk_2" } ∷ [];
  identities = record { user_id = 50; account_id = 2; linked_at = 900 } ∷ [];
  device_checks = [];
  billing_ids = [];
  pack_grants = [];
  p4_usage = [];
  tier_changes = [];
  merges = [];
  drawn = 0;
}

abbrev resolve : String → Option ℕ
resolve token = if str_eq token "id_50" then some 50 else none

abbrev empty_first : AccountStore
empty_first = two_accounts (topic 20 2 ∷ [])

-- Both accounts have a topic named prod, so that one is folded into the other.
abbrev same_names : AccountStore
same_names = two_accounts (topic 10 1 ∷ topic 20 2 ∷ [])

-- Account 1 is merged into account 2.
abbrev merged_pair : AccountStore
merged_pair = record empty_first {
  accounts =
      record { id = 1; tier = free; join_token_hash = none; merged_into = some 2 }
      ∷ record { id = 2; tier = free; join_token_hash = none; merged_into = none }
      ∷ [];
}

live_account-Leads_example :
    ((n : ℕ) × (n ≤ 8) × Leads merged_pair n 1 2)
    ↔ ((live_account 1 merged_pair ≡ 2) × (survivor_of 2 merged_pair ≡ none))
live_account-Leads_example = live_account-Leads 1 2 merged_pair

chain-Leads : Leads merged_pair 1 1 2
unfolding find_row
chain-Leads = forwarded refl (arrived refl)

switch_account_effect_example :
    SwitchEffect
      (resolve "id_50")
      (live_account 1 same_names)
      (live_account 2 same_names)
      same_names
      (switch_account resolve 1 "id_50" 2 same_names)
switch_account_effect_example = switch_account_effect resolve 1 "id_50" 2 same_names

unique_topics : HasUniqueTopics same_names
unfolding count_where
unique_topics id = ground arith

merge_accounts_effect_example :
    MergeEffect
      (live_account 1 same_names)
      same_names
      (merge_accounts resolve 1 "id_50" 2 1000 same_names)
merge_accounts_effect_example =
    merge_accounts_effect resolve 1 "id_50" 2 1000 same_names unique_topics

abbrev ended : ℕ → ℕ → IncidentRow
ended id topic_id = record {
  id = id;
  topic_id = topic_id;
  state = closed;
  opened_at = 800;
  acked_at = some 810;
  closed_at = some 820;
  last_message_at = 800;
  updated_at = 820;
  max_ring_s = 300;
}

abbrev told : ℕ → ℕ → ℕ → MessageRecord
told id topic_id incident_id = record {
  id = id;
  topic_id = topic_id;
  incident_id = some incident_id;
  title = "db";
  body = "down";
  priority = 5;
  tags = [];
  click = none;
  markdown = false;
  created_at = 800;
}

-- Each account's topic has had an incident.
abbrev with_history : AccountStore
with_history = record same_names {
  engine = record same_names.engine {
    incidents = ended 7 10 ∷ ended 8 20 ∷ [];
    messages = told 70 10 7 ∷ told 80 20 8 ∷ [];
  };
}

no_dangling : IsReferenced with_history
unfolding count_where
no_dangling = record {
  merged_into = (tt, (tt, tt));
  devices = (omega arith, (omega arith, tt));
  device_tokens = tt;
  subscriptions = tt;
  device_checks = tt;
  identities = (omega arith, tt);
  billing_ids = tt;
  pack_grants = tt;
  p4_usage = tt;
  tier_changes = tt;
  topics = (omega arith, (omega arith, tt));
  topic_tokens = (omega arith, (omega arith, tt));
  incidents = (omega arith, (omega arith, tt));
  messages = (omega arith, (omega arith, tt));
  links = ((omega arith, refl), ((omega arith, refl), tt));
  timers = tt;
}

delete_account_request_effect_example :
    DeleteEffect resolve
      (some "id_50")
      (live_account 2 with_history)
      with_history
      (after_revokes (λ user_id s. s) (live_account 2 with_history) with_history)
      (delete_account_request resolve (λ user_id s. s) 2 (some "id_50") with_history)
delete_account_request_effect_example =
    delete_account_request_effect resolve (λ user_id s. s) 2 (some "id_50") with_history
      (λ user_id s h. h) no_dangling

-- The run deletes: one account, one device and one topic are left.
delete_account_request_run :
    (delete_account_request resolve (λ user_id s. s) 2 (some "id_50") with_history).0 ≡ deleted
unfolding delete_account_request delete_account after_revokes revoke_each family_identities
    may_delete open_incident account_identities account_family family_from merged_into_any
    live_account live_from find_row count_where select
delete_account_request_run = refl

abbrev input : RegistrationInput
input = record { device_id = 3; platform = ios; push_token = "b2"; app_version = "1" }

few_devices : IsCapped empty_first
unfolding count_where
few_devices account_id = ground arith

run_devices-IsCapped_example : IsCapped (
    run_devices issuer
      (registers input none none (some "aj_0") 1000
        ∷ registers input none none none 1001
        ∷ deletes 1
        ∷ [])
      empty_first)
run_devices-IsCapped_example =
    run_devices-IsCapped issuer
      (registers input none none (some "aj_0") 1000
        ∷ registers input none none none 1001
        ∷ deletes 1
        ∷ [])
      empty_first few_devices
