-- ===== src/Accounts/Erase/Effects.antt =====
-- src/v1/accounts.ts: what a request to erase an account leaves.
use critalarm_server.Prelude.{
  [], ◌∷◌, ℕ, ◌==◌, ◌≤◌, leb, Bool, true, false, String, Option, none, some, List, ◌≡◌, ◌⊎◌, refl,
  inl, inr, Bool-cases, Option-cases, arith, select, count_where, All,
}
use critalarm_server.Accounts.Types.{AccountStore}
use critalarm_server.Accounts.Identities.{live_account, account_identities, includes_id}
use critalarm_server.Accounts.Merge.{account_family, topic_in}
use critalarm_server.Accounts.Erase.{
  DeleteOutcome, deleted, delete_unauthorized, delete_failed, still_ringing, open_incident,
  delete_family, names_family, delete_account, revoke_each, family_identities, after_revokes,
  may_delete, delete_account_request, erased_or_failed, device_in, incident_in,
}
use critalarm_server.Accounts.Erase.Links.{update_where-unlink_message}
use critalarm_server.Accounts.Erase.References.{
  IsReferenced, select-delete_where, All-stays, delete_family-IsReferenced,
}

-- The rows of an account that is none of the family, and those of a topic of nobody in it.
pub record KeptAccount (id : ℕ) (s s' : AccountStore) : Type 0 where
  pub devices :
      select (λ d. d.account_id == id) s'.devices ≡ select (λ d. d.account_id == id) s.devices
  pub identities :
      select (λ i. i.account_id == id) s'.identities ≡ select (λ i. i.account_id == id) s.identities
  pub topics :
      select (λ t. t.account_id == id) s'.engine.topics
      ≡ select (λ t. t.account_id == id) s.engine.topics
  pub billing_ids :
      select (λ b. b.account_id == id) s'.billing_ids
      ≡ select (λ b. b.account_id == id) s.billing_ids
  pub pack_grants :
      select (λ p. p.owner == id) s'.pack_grants ≡ select (λ p. p.owner == id) s.pack_grants
  pub p4_usage :
      select (λ u. u.account_id == id) s'.p4_usage ≡ select (λ u. u.account_id == id) s.p4_usage
  pub tier_changes :
      select (λ c. c.account_id == id) s'.tier_changes
      ≡ select (λ c. c.account_id == id) s.tier_changes
  pub account : select (λ a. a.id == id) s'.accounts ≡ select (λ a. a.id == id) s.accounts

pub record KeptTopic (id : ℕ) (s s' : AccountStore) : Type 0 where
  pub tokens :
      select (λ t. t.topic_id == id) s'.topic_tokens ≡ select (λ t. t.topic_id == id) s.topic_tokens
  pub incidents :
      select (λ i. i.topic_id == id) s'.engine.incidents
      ≡ select (λ i. i.topic_id == id) s.engine.incidents
  pub messages :
      select (λ m. m.topic_id == id) s'.engine.messages
      ≡ select (λ m. m.topic_id == id) s.engine.messages

pub record KeptDevice (id : ℕ) (s s' : AccountStore) : Type 0 where
  pub tokens :
      select (λ t. t.device_id == id) s'.device_tokens
      ≡ select (λ t. t.device_id == id) s.device_tokens
  pub subscriptions :
      select (λ r. r.device_id == id) s'.subscriptions
      ≡ select (λ r. r.device_id == id) s.subscriptions
  pub checks :
      select (λ r. r.device_id == id) s'.device_checks
      ≡ select (λ r. r.device_id == id) s.device_checks

abbrev pub KeptTimers : (id : ℕ) (s s' : AccountStore) → Type 0
KeptTimers id s s' =
    select (λ t. t.incident_id == id) s'.engine.timers
    ≡ select (λ t. t.incident_id == id) s.engine.timers

delete_family-KeptAccount :
    (family : List ℕ) (s : AccountStore) (id : ℕ)
    → includes_id id family ≡ false
    → KeptAccount id s (delete_family family s)
unfolding delete_family
delete_family-KeptAccount family s id out = record {
  devices = select-delete_where (λ d. d.account_id) (λ n. includes_id n family) id s.devices out;
  identities =
      select-delete_where (λ i. i.account_id) (λ n. includes_id n family) id s.identities out;
  topics =
      select-delete_where (λ t. t.account_id) (λ n. includes_id n family) id s.engine.topics out;
  billing_ids =
      select-delete_where (λ b. b.account_id) (λ n. includes_id n family) id s.billing_ids out;
  pack_grants = select-delete_where (λ p. p.owner) (λ n. includes_id n family) id s.pack_grants out;
  p4_usage = select-delete_where (λ u. u.account_id) (λ n. includes_id n family) id s.p4_usage out;
  tier_changes =
      select-delete_where (λ c. c.account_id) (λ n. includes_id n family) id s.tier_changes out;
  account = select-delete_where (λ a. a.id) (λ n. includes_id n family) id s.accounts out;
}

delete_family-KeptTopic :
    (family : List ℕ) (s : AccountStore) (id : ℕ)
    → IsReferenced s
    → topic_in family s id ≡ false
    → KeptTopic id s (delete_family family s)
unfolding delete_family
delete_family-KeptTopic family s id h out = record {
  tokens = select-delete_where (λ t. t.topic_id) (topic_in family s) id s.topic_tokens out;
  incidents = select-delete_where (λ i. i.topic_id) (topic_in family s) id s.engine.incidents out;
  messages =
      rw (update_where-unlink_message family s s.engine.messages h.links)
        (select-delete_where (λ m. m.topic_id) (topic_in family s) id s.engine.messages out);
}

delete_family-KeptDevice :
    (family : List ℕ) (s : AccountStore) (id : ℕ)
    → device_in family s id ≡ false
    → KeptDevice id s (delete_family family s)
unfolding delete_family
delete_family-KeptDevice family s id out = record {
  tokens = select-delete_where (λ t. t.device_id) (device_in family s) id s.device_tokens out;
  subscriptions =
      select-delete_where (λ r. r.device_id) (device_in family s) id s.subscriptions out;
  checks = select-delete_where (λ r. r.device_id) (device_in family s) id s.device_checks out;
}

delete_family-KeptTimers :
    (family : List ℕ) (s : AccountStore) (id : ℕ)
    → incident_in family s id ≡ false
    → KeptTimers id s (delete_family family s)
unfolding delete_family
delete_family-KeptTimers family s id out =
    select-delete_where (λ t. t.incident_id) (incident_in family s) id s.engine.timers out

true_or : {P : Type 0} (b : Bool) → (b ≡ false → P) → (b ≡ true) ⊎ P
true_or true h = inl refl
true_or false h = inr (h refl)

-- The store after the accounts of the family are deleted: none of them is there, no row names one
-- that is not and no message an incident of another topic, and the rows of every other account,
-- topic, device and incident are as they were.
pub record Erased (family : List ℕ) (s s' : AccountStore) : Type 0 where
  pub gone : All (λ a. includes_id a.id family ≡ false) s'.accounts
  pub referenced : IsReferenced s'
  pub accounts : (id : ℕ) → (includes_id id family ≡ true) ⊎ KeptAccount id s s'
  pub topics : (id : ℕ) → (topic_in family s id ≡ true) ⊎ KeptTopic id s s'
  pub devices : (id : ℕ) → (device_in family s id ≡ true) ⊎ KeptDevice id s s'
  pub incidents : (id : ℕ) → (incident_in family s id ≡ true) ⊎ KeptTimers id s s'

delete_family-Erased :
    (family : List ℕ) (s : AccountStore)
    → count_where (names_family family) s.accounts ≡ 0
    → IsReferenced s
    → Erased family s (delete_family family s)
unfolding delete_family
delete_family-Erased family s unnamed h = record {
  gone = All-stays (λ a. includes_id a.id family) s.accounts;
  referenced = delete_family-IsReferenced family s unnamed h;
  accounts = λ id. true_or (includes_id id family) (delete_family-KeptAccount family s id);
  topics = λ id. true_or (topic_in family s id) (delete_family-KeptTopic family s id h);
  devices = λ id. true_or (device_in family s id) (delete_family-KeptDevice family s id);
  incidents = λ id. true_or (incident_in family s id) (delete_family-KeptTimers family s id);
}

-- The family of the account that the erase ends at.
abbrev pub live_family : ℕ → AccountStore → List ℕ
live_family account s = account_family (live_account account s) s

abbrev pub DeleteEffect :
    (String → Option ℕ)
    → Option String
    → ℕ
    → (s waited : AccountStore) → DeleteOutcome × AccountStore
    → Type 0
DeleteEffect resolve token account s waited (deleted, s') =
    (may_delete resolve token (account_identities account s) ≡ true)
    × (open_incident (account_family account s) s ≡ none)
    × Erased (live_family account waited) waited s'
DeleteEffect resolve token account s waited (delete_failed, s') =
    (1 ≤ count_where (names_family (live_family account waited)) waited.accounts) × (s' ≡ waited)
DeleteEffect resolve token account s waited (delete_unauthorized, s') =
    (may_delete resolve token (account_identities account s) ≡ false) × (s' ≡ s)
DeleteEffect resolve token account s waited (still_ringing id, s') =
    (open_incident (account_family account s) s ≡ some id) × (s' ≡ s)

revoke_each-IsReferenced :
    (revoke : ℕ → AccountStore → AccountStore) (users : List ℕ) (s : AccountStore)
    → ((user_id : ℕ) (x : AccountStore) → IsReferenced x → IsReferenced (revoke user_id x))
    → IsReferenced s
    → IsReferenced (revoke_each revoke users s)
unfolding revoke_each
revoke_each-IsReferenced revoke [] s keeps h = h
revoke_each-IsReferenced revoke (user_id ∷ users) s keeps h =
    revoke_each-IsReferenced revoke users (revoke user_id s) keeps (keeps user_id s h)

delete_account-Effect :
    (resolve : String → Option ℕ) (token : Option String) (account : ℕ) (s waited : AccountStore)
    → may_delete resolve token (account_identities account s) ≡ true
    → open_incident (account_family account s) s ≡ none
    → IsReferenced waited
    → DeleteEffect resolve token account s waited
        (erased_or_failed waited (delete_account account waited))
unfolding delete_account
delete_account-Effect resolve token account s waited may quiet h =
    let named = count_where (names_family (live_family account waited)) waited.accounts in
    elim (Bool-cases (leb 1 named)) [
      | inl e ↦ rw e (ground (arith, e), refl)
      | inr e ↦ rw e (
        may,
        quiet,
        delete_family-Erased (live_family account waited) waited (ground (arith, e)) h,
      )
    ]

-- Where no row names one that is not there and no message an incident of another topic, and the
-- server keeps it so while the revoker is waited for: an erase that is refused, for want of an
-- identity of the account or for an open incident, writes nothing. One that goes through leaves no
-- account of the family, no row that names one that is not there, no message that names an incident
-- of another topic, and the rows of every other account, topic, device and incident as they were. An
-- erase fails only when an account outside the family is merged into it, and then it writes nothing
-- either.
pub delete_account_request_effect :
    (resolve : String → Option ℕ) (revoke : ℕ → AccountStore → AccountStore) (source : ℕ)
    (token : Option String) (s : AccountStore)
    → ((user_id : ℕ) (x : AccountStore) → IsReferenced x → IsReferenced (revoke user_id x))
    → IsReferenced s
    → DeleteEffect resolve token
        (live_account source s)
        s
        (after_revokes revoke (live_account source s) s)
        (delete_account_request resolve revoke source token s)
unfolding delete_account_request after_revokes
delete_account_request_effect resolve revoke source token s keeps h =
    let account = live_account source s in
    let family = account_family account s in
    elim (Bool-cases (may_delete resolve token (account_identities account s))) [
      | inr refused ↦ rw refused (refused, refl)
      | inl may ↦ elim (Option-cases (open_incident family s)) [
        | inr (id, e) ↦ rw (may, e) (e, refl)
        | inl quiet ↦
            rw (may, quiet)
              (delete_account-Effect resolve token account s
                (revoke_each revoke (family_identities family s) s) may quiet
                (revoke_each-IsReferenced revoke (family_identities family s) s keeps h))
      ]
    ]
