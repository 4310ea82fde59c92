-- ===== src/Accounts/Merge.antt =====
-- src/v1/accounts.ts: `mergeAccounts`. The rows of the merged account's topics are repointed, and a
-- topic that the other account has already is folded into it. Deleting a topic takes along what still
-- names it. The counts of the audit row are left out.
pub mod Pending
pub mod Kept
use critalarm_server.Prelude.{
  ℕ, zero, suc, ◌+◌, ◌==◌, leb, if◌then◌else◌, Bool, true, false, not, ◌&&◌, ◌||◌, String, str_eq,
  Option, none, some, List, [], ◌∷◌, ◌++◌, map, max, find_row, select, count_where, delete_where,
  update_where,
}
use critalarm_server.Incident.Types.{TopicRow, IncidentRow, MessageRecord, TimerRow, Store}
use critalarm_server.Incident.Statements.{is_active}
use critalarm_server.Tier.Caps.{Tier, free}
use critalarm_server.Tier.Packs.{PackRow}
use critalarm_server.Tier.P4Usage.{UsageRow}
use critalarm_server.Tier.Purchases.{
  Billing, BillingIdRow, rank, is_higher_tier, highest_entitled_tier,
}
use critalarm_server.Accounts.Types.{AccountRow, TopicTokenRow, AccountStore}
use critalarm_server.Accounts.Credentials.{sweep_topic_into_devices}
use critalarm_server.Accounts.Identities.{
  live_account, identity_account, claimed_by_somebody_else, includes_id, move_devices, tombstone,
  is_account,
}

pub data MergeOutcome : Type 0 where
  merged : (account_id merged_from : ℕ) → MergeOutcome
  merge_unauthorized already_merged same_account : MergeOutcome
  live_incident : (incident_id : ℕ) → MergeOutcome

-- The ids of the accounts that are merged into one of `family` and are not in it.
unfoldable pub merged_into_any : List ℕ → List AccountRow → List ℕ
merged_into_any family [] = []
merged_into_any family (a ∷ accounts) =
    let rest = merged_into_any family accounts in
    elim a.merged_into [
      | none ↦ rest
      | some into ↦
          if includes_id into family && not (includes_id a.id family) then a.id ∷ rest else rest
    ]

-- The loop of `accountFamily`, with the hops that are left.
unfoldable pub family_from : ℕ → List ℕ → AccountStore → List ℕ
family_from zero family s = family
family_from (suc hops) family s = elim (merged_into_any family s.accounts) [
  | [] ↦ family
  | found ∷ more ↦ family_from hops (family ++ found ∷ more) s
]

unfoldable pub account_family : ℕ → AccountStore → List ℕ
account_family account_id s = family_from 8 (account_id ∷ []) s

abbrev pub topic_in : List ℕ → AccountStore → ℕ → Bool
topic_in family s topic_id =
    leb 1 (count_where (λ t. (t.id == topic_id) && includes_id t.account_id family) s.engine.topics)

abbrev id_of_incident : Option IncidentRow → Option ℕ
id_of_incident none = none
id_of_incident (some i) = some i.id

unfoldable pub active_incident : List ℕ → AccountStore → Option ℕ
active_incident family s =
    id_of_incident
      (find_row (λ i. is_active i.state && topic_in family s i.topic_id) s.engine.incidents)

-- mergedInto(...) !== null
unfoldable pub is_merged : ℕ → AccountStore → Bool
is_merged account_id s = elim (find_row (λ a. a.id == account_id) s.accounts) [
  | none ↦ false
  | some a ↦ elim a.merged_into [ none ↦ false | some into ↦ true ]
]

-- The topic of `target` with the same hash or the same name.
abbrev pub survives : ℕ → TopicRow → TopicRow → Bool
survives target topic t =
    (t.account_id == target) && (str_eq t.topic_hash topic.topic_hash || str_eq t.name topic.name)

unfoldable pub repoint_topic : ℕ → TopicRow → AccountStore → AccountStore
repoint_topic target topic s = sweep_topic_into_devices target topic.topic_hash (record s {
  engine = record s.engine {
    topics =
        update_where (λ t. t.id == topic.id) (λ t. record t { account_id = target })
          s.engine.topics;
  };
})

-- What names the topic names the survivor from now on.
unfoldable pub repoint_rows : (survivor topic : ℕ) → AccountStore → AccountStore
repoint_rows survivor topic s = record s {
  topic_tokens =
      update_where (λ t. t.topic_id == topic) (λ t. record t { topic_id = survivor })
        s.topic_tokens;
  engine = record s.engine {
    incidents =
        update_where (λ i. i.topic_id == topic) (λ i. record i { topic_id = survivor })
          s.engine.incidents;
    messages =
        update_where (λ m. m.topic_id == topic) (λ m. record m { topic_id = survivor })
          s.engine.messages;
  };
}

abbrev incident_of_topic : ℕ → List IncidentRow → ℕ → Bool
incident_of_topic topic incidents id =
    leb 1 (count_where (λ i. (i.id == id) && (i.topic_id == topic)) incidents)

-- DELETE FROM topics WHERE id = ?, with ON DELETE CASCADE.
unfoldable pub delete_topic : ℕ → AccountStore → AccountStore
delete_topic topic s = record s {
  topic_tokens = delete_where (λ t. t.topic_id == topic) s.topic_tokens;
  engine = record s.engine {
    topics = delete_where (λ t. t.id == topic) s.engine.topics;
    incidents = delete_where (λ i. i.topic_id == topic) s.engine.incidents;
    messages = delete_where (λ m. m.topic_id == topic) s.engine.messages;
    timers =
        delete_where (λ t. incident_of_topic topic s.engine.incidents t.incident_id)
          s.engine.timers;
  };
}

-- One turn of the loop over the topics.
unfoldable pub merge_topic : ℕ → TopicRow → AccountStore → AccountStore
merge_topic target topic s = elim (find_row (survives target topic) s.engine.topics) [
  | none ↦ repoint_topic target topic s
  | some survivor ↦ delete_topic topic.id (repoint_rows survivor.id topic.id s)
]

unfoldable pub merge_topics : ℕ → List TopicRow → AccountStore → AccountStore
merge_topics target [] s = s
merge_topics target (topic ∷ topics) s = merge_topics target topics (merge_topic target topic s)

abbrev view_of_billing : AccountStore → Billing
view_of_billing s = record { accounts = []; billing_ids = s.billing_ids; events = []; changes = [] }

-- A merge only ever raises a tier.
unfoldable pub raise_tier : (source target now : ℕ) → AccountStore → AccountStore
raise_tier source target now s =
    let recomputed = highest_entitled_tier target (view_of_billing s) in
    elim (find_row (λ a. a.id == target) s.accounts) [
      | none ↦ s
      | some a ↦
          if is_higher_tier recomputed a.tier
          then record s {
            accounts =
                update_where (λ b. b.id == target) (λ b. record b { tier = recomputed }) s.accounts;
            tier_changes =
                s.tier_changes
                ++ record {
                  account_id = target;
                  from_tier = a.tier;
                  to_tier = recomputed;
                  merged_from = source;
                  changed_at = now;
                }
                  ∷ [];
          }
          else s
    ]

-- The longer of two ends, where none is the longest.
abbrev longer : Option ℕ → Option ℕ → Option ℕ
longer none end = none
longer (some held) none = none
longer (some held) (some end) = some (max held end)

unfoldable pub grant : ℕ → PackRow → List PackRow → List PackRow
grant target p [] = record p { owner = target } ∷ []
grant target p (q ∷ grants) =
    let rest = q ∷ grant target p grants in
    if (q.owner == target) && str_eq q.held.pack p.held.pack
    then record q {
      held = record q.held { expires_at = longer q.held.expires_at p.held.expires_at };
    }
      ∷ grants
    else rest

unfoldable pub grant_all : ℕ → List PackRow → List PackRow → List PackRow
grant_all target [] grants = grants
grant_all target (p ∷ more) grants = grant_all target more (grant target p grants)

unfoldable pub merge_grants : (source target : ℕ) → List PackRow → List PackRow
merge_grants source target grants =
    delete_where (λ p. p.owner == source)
      (grant_all target (select (λ p. p.owner == source) grants) grants)

unfoldable pub add_usage : ℕ → UsageRow → List UsageRow → List UsageRow
add_usage target u [] = record u { account_id = target } ∷ []
add_usage target u (v ∷ rows) =
    let rest = v ∷ add_usage target u rows in
    if (v.account_id == target) && (v.day_start == u.day_start)
    then record v { count = v.count + u.count } ∷ rows
    else rest

unfoldable pub add_usages : ℕ → List UsageRow → List UsageRow → List UsageRow
add_usages target [] rows = rows
add_usages target (u ∷ more) rows = add_usages target more (add_usage target u rows)

unfoldable pub merge_usage : (source target : ℕ) → List UsageRow → List UsageRow
merge_usage source target rows =
    delete_where (λ u. u.account_id == source)
      (add_usages target (select (λ u. u.account_id == source) rows) rows)

-- UPDATE account_billing_ids SET account_id = ? WHERE account_id = ?
unfoldable pub move_billing_ids : (source target : ℕ) → AccountStore → AccountStore
move_billing_ids source target s = record s {
  billing_ids =
      update_where (λ b. b.account_id == source) (λ b. record b { account_id = target })
        s.billing_ids;
}

abbrev points_at : ℕ → Option ℕ → Bool
points_at id none = false
points_at id (some into) = into == id

-- The first statement of the transaction.
unfoldable pub repoint_tombstones : (source target : ℕ) → AccountStore → AccountStore
repoint_tombstones source target s = record s {
  accounts =
      update_where (λ a. points_at source a.merged_into)
        (λ a. record a { merged_into = some target }) s.accounts;
}

-- From the packs to the audit row.
unfoldable pub close_source : (source target now : ℕ) → AccountStore → AccountStore
close_source source target now s =
    let s' = tombstone source target (record s {
      pack_grants = merge_grants source target s.pack_grants;
      p4_usage = merge_usage source target s.p4_usage;
    }) in
    record s' {
      merges =
          s'.merges
          ++ record { from_account = source; into_account = target; merged_at = now } ∷ [];
    }

-- The transaction.
unfoldable pub fold_account : (source target now : ℕ) → AccountStore → AccountStore
fold_account source target now s =
    let s1 = repoint_tombstones source target s in
    let topics = select (λ t. t.account_id == source) s1.engine.topics in
    let s2 = move_devices source target (merge_topics target topics s1) in
    close_source source target now
      (raise_tier source target now (move_billing_ids source target s2))

-- The checks after the identity's, on the accounts as the request named them and as they resolve.
unfoldable pub merge_checked :
    (source_account into_account source target now : ℕ) → AccountStore → MergeOutcome × AccountStore
merge_checked source_account into_account source target now s =
    let folded : MergeOutcome × AccountStore =
      (merged target source, fold_account source target now s) in
    let unless_active : MergeOutcome × AccountStore =
      elim (active_incident (account_family source s ++ account_family target s) s) [
        | none ↦ folded
        | some id ↦ (live_incident id, s)
      ] in
    if is_merged source_account s || is_merged into_account s
    then (already_merged, s)
    else if source == target
    then (same_account, s)
    else unless_active

unfoldable pub merge_accounts :
    (String → Option ℕ)
    → (source_account : ℕ) (identity_token : String) (into_account now : ℕ) → AccountStore
    → MergeOutcome × AccountStore
merge_accounts resolve source_account identity_token into_account now s =
    elim (resolve identity_token) [
      | none ↦ (merge_unauthorized, s)
      | some user_id ↦
          let target = live_account into_account s in
          let source = live_account source_account s in
          if not (is_account (identity_account user_id s) target)
            || claimed_by_somebody_else source user_id s
          then (merge_unauthorized, s)
          else merge_checked source_account into_account source target now s
    ]
