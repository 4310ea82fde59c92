-- ===== src/Accounts/Erase.antt =====
-- src/v1/accounts.ts: `deleteAccount`, `deleteAccountRequest` and `findAccount` by id. Each request to
-- revoke a provider's token is waited for, and the rest of the server may change the store meanwhile.
-- The sign-in library's own user rows, the queue of billing reads and the events' log are left out;
-- the counts are for the answer of the command.
pub mod Links
pub mod References
pub mod Effects
use critalarm_server.Prelude.{
  ℕ, ◌==◌, leb, if◌then◌else◌, Bool, true, false, not, ◌&&◌, ◌||◌, String, Option, none, some, List,
  [], ◌∷◌, ◌++◌, find_row, count_where, delete_where, update_where,
}
use critalarm_server.Incident.Types.{IncidentState, opened, IncidentRow, MessageRecord}
use critalarm_server.Accounts.Types.{AccountRow, AccountStore}
use critalarm_server.Accounts.Identities.{live_account, account_identities, holds_any, includes_id}
use critalarm_server.Accounts.Merge.{account_family, topic_in}

pub data DeleteOutcome : Type 0 where
  deleted delete_unauthorized delete_failed : DeleteOutcome
  still_ringing : (incident_id : ℕ) → DeleteOutcome

abbrev is_open : IncidentState → Bool
is_open opened = true
is_open _ = false

abbrev id_of_open : Option IncidentRow → Option ℕ
id_of_open none = none
id_of_open (some i) = some i.id

unfoldable pub open_incident : List ℕ → AccountStore → Option ℕ
open_incident family s =
    id_of_open (find_row (λ i. is_open i.state && topic_in family s i.topic_id) s.engine.incidents)

abbrev pub device_in : List ℕ → AccountStore → ℕ → Bool
device_in family s device_id =
    leb 1 (count_where (λ d. (d.id == device_id) && includes_id d.account_id family) s.devices)

abbrev pub incident_in : List ℕ → AccountStore → ℕ → Bool
incident_in family s id =
    leb 1 (count_where (λ i. (i.id == id) && topic_in family s i.topic_id) s.engine.incidents)

-- ON DELETE SET NULL of messages.incident_id
abbrev pub unlink_message : List ℕ → AccountStore → MessageRecord → MessageRecord
unlink_message family s m = elim m.incident_id [
  | none ↦ m
  | some id ↦ if incident_in family s id then record m { incident_id = none } else m
]

-- The rows of the family, and what goes with them by cascade.
unfoldable pub delete_family : List ℕ → AccountStore → AccountStore
delete_family family s = record s {
  accounts = delete_where (λ a. includes_id a.id family) s.accounts;
  devices = delete_where (λ d. includes_id d.account_id family) s.devices;
  device_tokens = delete_where (λ t. device_in family s t.device_id) s.device_tokens;
  subscriptions = delete_where (λ r. device_in family s r.device_id) s.subscriptions;
  device_checks = delete_where (λ r. device_in family s r.device_id) s.device_checks;
  topic_tokens = delete_where (λ t. topic_in family s t.topic_id) s.topic_tokens;
  identities = delete_where (λ i. includes_id i.account_id family) s.identities;
  billing_ids = delete_where (λ b. includes_id b.account_id family) s.billing_ids;
  pack_grants = delete_where (λ p. includes_id p.owner family) s.pack_grants;
  p4_usage = delete_where (λ u. includes_id u.account_id family) s.p4_usage;
  tier_changes = delete_where (λ c. includes_id c.account_id family) s.tier_changes;
  merges =
      delete_where (λ m. includes_id m.from_account family || includes_id m.into_account family)
        s.merges;
  engine = record s.engine {
    topics = delete_where (λ t. includes_id t.account_id family) s.engine.topics;
    incidents = delete_where (λ i. topic_in family s i.topic_id) s.engine.incidents;
    messages =
        update_where (λ m. true) (unlink_message family s)
          (delete_where (λ m. topic_in family s m.topic_id) s.engine.messages);
    timers = delete_where (λ t. incident_in family s t.incident_id) s.engine.timers;
  };
}

-- A row of another account that names one of the family: it has a foreign key without ON DELETE.
abbrev pub is_named_by : List ℕ → ℕ → Option ℕ → Bool
is_named_by family id none = false
is_named_by family id (some into) = includes_id into family && not (includes_id id family)

abbrev pub names_family : List ℕ → AccountRow → Bool
names_family family a = is_named_by family a.id a.merged_into

-- `none` is the error of the foreign key, which undoes the transaction.
unfoldable pub delete_account : ℕ → AccountStore → Option AccountStore
delete_account account_id s =
    let family = account_family (live_account account_id s) s in
    if leb 1 (count_where (names_family family) s.accounts)
    then none
    else some (delete_family family s)

unfoldable pub family_identities : List ℕ → AccountStore → List ℕ
family_identities [] s = []
family_identities (id ∷ family) s = account_identities id s ++ family_identities family s

-- The store after the requests of the revoker, one after the other.
unfoldable pub revoke_each :
    (ℕ → AccountStore → AccountStore) → List ℕ → AccountStore → AccountStore
revoke_each revoke [] s = s
revoke_each revoke (user_id ∷ users) s = revoke_each revoke users (revoke user_id s)

-- The store that the erase finds, once the revoker is done.
unfoldable pub after_revokes : (ℕ → AccountStore → AccountStore) → ℕ → AccountStore → AccountStore
after_revokes revoke account s =
    revoke_each revoke (family_identities (account_family account s) s) s

abbrev erased_or_failed : AccountStore → Option AccountStore → DeleteOutcome × AccountStore
erased_or_failed s none = (delete_failed, s)
erased_or_failed s (some s') = (deleted, s')

-- The identity's half of the check; an account with none is erased on the device's word.
unfoldable pub may_delete : (String → Option ℕ) → Option String → List ℕ → Bool
may_delete resolve none claimed_by = not (holds_any claimed_by)
may_delete resolve (some token) claimed_by = elim (resolve token) [
  | none ↦ not (holds_any claimed_by)
  | some user_id ↦ not (holds_any claimed_by) || includes_id user_id claimed_by
]

unfoldable pub delete_account_request :
    (String → Option ℕ)
    → (ℕ → AccountStore → AccountStore)
    → (source_account : ℕ) (identity_token : Option String) → AccountStore
    → DeleteOutcome × AccountStore
delete_account_request resolve revoke source_account identity_token s =
    let account = live_account source_account s in
    if may_delete resolve identity_token (account_identities account s)
    then elim (open_incident (account_family account s) s) [
      | none ↦
          let waited = after_revokes revoke account s in
          erased_or_failed waited (delete_account account waited)
      | some id ↦ (still_ringing id, s)
    ]
    else (delete_unauthorized, s)

unfoldable pub find_account : ℕ → AccountStore → Option ℕ
find_account id s = elim (find_row (λ a. a.id == id) s.accounts) [
  | none ↦ none
  | some a ↦ some (live_account a.id s)
]
