-- ===== src/Accounts/Merge/Kept.antt =====
-- src/v1/accounts.ts: a merge of two accounts loses none of their rows.
use critalarm_server.Prelude.{
  ℕ, ◌==◌, if_both, false, not, ◌||◌, String, Option, none, some, List, [], ◌∷◌, ◌++◌, ◌≡◌, refl,
  ap, ◌∙◌, inl, inr, Bool-cases, Option-cases, arith, length, find_row, find_row-holds, select,
  count_where, count_where-update_where, All, All-find_row,
}
use critalarm_server.Incident.Types.{TopicRow, IncidentRow, MessageRecord}
use critalarm_server.Tier.Purchases.{is_higher_tier, highest_entitled_tier}
use critalarm_server.Accounts.Types.{TopicTokenRow, AccountStore}
use critalarm_server.Accounts.Credentials.{sweep_topic_into_devices}
use critalarm_server.Accounts.Identities.{
  live_account, identity_account, claimed_by_somebody_else, move_devices, tombstone, is_account,
}
use critalarm_server.Accounts.Identities.Moved.{move_each-rest, move_devices-Abandoned}
use critalarm_server.Accounts.Merge.{
  MergeOutcome, merged, merge_unauthorized, already_merged, same_account, live_incident,
  account_family, active_incident, is_merged, survives, repoint_topic, repoint_rows, delete_topic,
  merge_topic, merge_topics, view_of_billing, raise_tier, move_billing_ids, repoint_tombstones,
  close_source, fold_account, merge_checked, merge_accounts,
}
use critalarm_server.Accounts.Merge.Pending.{
  length-repointed, All-uncounted, count_where-delete_where_le, HasUniqueTopics, taken, Pending,
  Pending-imp, select-Pending, untaken,
}

record Kept (s s' : AccountStore) : Type 0 where
  pub tokens : length s'.topic_tokens ≡ length s.topic_tokens
  pub incidents : length s'.engine.incidents ≡ length s.engine.incidents
  pub messages : length s'.engine.messages ≡ length s.engine.messages
  pub devices : s'.devices ≡ s.devices

folded-Kept :
    (target : ℕ) (topic survivor : TopicRow) (s : AccountStore)
    → (survivor.id == topic.id) ≡ false
    → Kept s (delete_topic topic.id (repoint_rows survivor.id topic.id s))
unfolding delete_topic repoint_rows
folded-Kept target topic survivor s apart = record {
  tokens =
      length-repointed (λ (t : TopicTokenRow). t.topic_id)
        (λ t. record t { topic_id = survivor.id }) topic.id s.topic_tokens (λ t. apart);
  incidents =
      length-repointed (λ (i : IncidentRow). i.topic_id) (λ i. record i { topic_id = survivor.id })
        topic.id s.engine.incidents (λ i. apart);
  messages =
      length-repointed (λ (m : MessageRecord). m.topic_id)
        (λ m. record m { topic_id = survivor.id }) topic.id s.engine.messages (λ m. apart);
  devices = refl;
}

survivor-apart :
    (target : ℕ) (topic survivor : TopicRow) (rows : List TopicRow)
    → count_where (taken target topic.id) rows ≡ 0
    → find_row (survives target topic) rows ≡ some survivor
    → (survivor.id == topic.id) ≡ false
survivor-apart target topic survivor rows free found =
    let kept = find_row-holds (survives target topic) rows found in
    let untaken =
      All-find_row (λ t. taken target topic.id t ≡ false) (survives target topic) rows
        (All-uncounted (taken target topic.id) rows free) found in
    ground (arith, kept, untaken)

merge_topic-Kept :
    (target : ℕ) (topic : TopicRow) (s : AccountStore)
    → count_where (taken target topic.id) s.engine.topics ≡ 0
    → Kept s (merge_topic target topic s)
unfolding merge_topic repoint_topic sweep_topic_into_devices
merge_topic-Kept target topic s free =
    elim (Option-cases (find_row (survives target topic) s.engine.topics)) [
      | inl e ↦
          rw (e, merge_topic)
            (record { tokens = refl; incidents = refl; messages = refl; devices = refl })
      | inr (survivor, e) ↦
          rw (e, merge_topic)
            (folded-Kept target topic survivor s
              (survivor-apart target topic survivor s.engine.topics free e))
    ]

merge_topic-Pending :
    (target : ℕ) (topic : TopicRow) (topics : List TopicRow) (s : AccountStore)
    → All (λ t. (t.id == topic.id) ≡ false) topics
    → Pending target s.engine.topics topics
    → Pending target (merge_topic target topic s).engine.topics topics
unfolding merge_topic repoint_topic sweep_topic_into_devices delete_topic repoint_rows
merge_topic-Pending target topic topics s apart h =
    elim (Option-cases (find_row (survives target topic) s.engine.topics)) [
      | inl e ↦
          rw (e, merge_topic)
            (Pending-imp target s.engine.topics _ topic.id topics
              (λ t differs.
                count_where-update_where (λ (r : TopicRow). r.id == topic.id) (taken target t.id)
                  (λ r. record r { account_id = target }) s.engine.topics
                  (λ r hit miss. ground (arith, differs, hit)))
              apart h)
      | inr (survivor, e) ↦
          rw (e, merge_topic)
            (Pending-imp target s.engine.topics _ topic.id topics
              (λ t differs.
                count_where-delete_where_le (λ (r : TopicRow). r.id == topic.id) (taken target t.id)
                  s.engine.topics)
              apart h)
    ]

merge_topics-Kept :
    (target : ℕ) (topics : List TopicRow) (s : AccountStore)
    → Pending target s.engine.topics topics
    → Kept s (merge_topics target topics s)
unfolding merge_topics
merge_topics-Kept target [] s h = record {
  tokens = refl;
  incidents = refl;
  messages = refl;
  devices = refl;
}
merge_topics-Kept target (topic ∷ topics) s h =
    let one = merge_topic-Kept target topic s h.0 in
    let rest =
      merge_topics-Kept target topics (merge_topic target topic s)
        (merge_topic-Pending target topic topics s h.1 h.2) in
    record {
      tokens = rest.tokens ∙ one.tokens;
      incidents = rest.incidents ∙ one.incidents;
      messages = rest.messages ∙ one.messages;
      devices = rest.devices ∙ one.devices;
    }

raise_tier-rest :
    (source target now : ℕ) (s : AccountStore)
    → ((raise_tier source target now s).devices ≡ s.devices)
      × ((raise_tier source target now s).topic_tokens ≡ s.topic_tokens)
      × ((raise_tier source target now s).engine ≡ s.engine)
unfolding raise_tier
raise_tier-rest source target now s =
    elim (Option-cases (find_row (λ a. a.id == target) s.accounts)) [
      | inl e ↦ rw (e, raise_tier) (refl, refl, refl)
      | inr (a, e) ↦
          rw (e, raise_tier)
            (if_both
              (λ (t : AccountStore).
                (t.devices ≡ s.devices) × (t.topic_tokens ≡ s.topic_tokens) × (t.engine ≡ s.engine))
              (is_higher_tier (highest_entitled_tier target (view_of_billing s)) a.tier) _ _
              (refl, refl, refl) (refl, refl, refl))
    ]

-- No token, incident, message or device is lost, and no device stays behind.
pub record Folded (source : ℕ) (s s' : AccountStore) : Type 0 where
  pub tokens : length s'.topic_tokens ≡ length s.topic_tokens
  pub incidents : length s'.engine.incidents ≡ length s.engine.incidents
  pub messages : length s'.engine.messages ≡ length s.engine.messages
  pub devices : length s'.devices ≡ length s.devices
  pub none_left : count_where (λ d. d.account_id == source) s'.devices ≡ 0

fold_account-Folded :
    (source target now : ℕ) (s : AccountStore)
    → (target == source) ≡ false
    → HasUniqueTopics s
    → Folded source s (fold_account source target now s)
unfolding fold_account repoint_tombstones move_billing_ids close_source tombstone move_devices
fold_account-Folded source target now s apart unique =
    let topics = select (λ t. t.account_id == source) s.engine.topics in
    let s1 = repoint_tombstones source target s in
    let s2 = merge_topics target topics s1 in
    let rows = select (λ d. d.account_id == source) s2.devices in
    let s3 = move_billing_ids source target (move_devices source target s2) in
    let raised = raise_tier-rest source target now s3 in
    let moved = move_each-rest target rows s2 in
    let left = move_devices-Abandoned source target s2 apart in
    let kept = merge_topics-Kept target topics s1 (
      select-Pending source target s.engine.topics s.engine.topics unique
        (untaken source target s.engine.topics apart unique)) in
    record {
      tokens = ap length raised.1 ∙ ap length moved.2 ∙ kept.tokens;
      incidents =
          ap (λ e. length e.incidents) raised.2
          ∙ ap (λ e. length e.incidents) moved.3
          ∙ kept.incidents;
      messages =
          ap (λ e. length e.messages) raised.2
          ∙ ap (λ e. length e.messages) moved.3
          ∙ kept.messages;
      devices = ap length raised.0 ∙ left.none_lost ∙ ap length kept.devices;
      none_left = ap (count_where (λ d. d.account_id == source)) raised.0 ∙ left.none_left;
    }

-- What `mergeAccounts` does, by its answer.
abbrev pub MergeEffect : ℕ → AccountStore → MergeOutcome × AccountStore → Type 0
MergeEffect source s (merged target from, s') =
    (from ≡ source)
    × ((target == source) ≡ false)
    × (active_incident (account_family source s ++ account_family target s) s ≡ none)
    × Folded source s s'
MergeEffect source s (merge_unauthorized, s') = s' ≡ s
MergeEffect source s (already_merged, s') = s' ≡ s
MergeEffect source s (same_account, s') = s' ≡ s
MergeEffect source s (live_incident id, s') = s' ≡ s

merge_checked-MergeEffect :
    (source_account into_account source target now : ℕ) (s : AccountStore)
    → HasUniqueTopics s
    → MergeEffect source s (merge_checked source_account into_account source target now s)
unfolding merge_checked
merge_checked-MergeEffect source_account into_account source target now s unique =
    let P = MergeEffect source s in
    if_both P (is_merged source_account s || is_merged into_account s) _ _ refl
      (elim (Bool-cases (source == target)) [
        | inl e ↦ rw e refl
        | inr e ↦
            rw e
              (elim (Option-cases
                (active_incident (account_family source s ++ account_family target s) s)) [
                  | inr (id, e') ↦ rw e' refl
                  | inl e' ↦ rw e' (
                    refl,
                    ground (arith, e),
                    e',
                    fold_account-Folded source target now s (ground (arith, e)) unique,
                  )
                ])
      ])

-- Where no two topics have the same id: a merge of two accounts goes through only when no incident of
-- either is active, loses no token, incident, message or device, and leaves no device on the account
-- that is merged away. Every other answer writes nothing.
pub merge_accounts_effect :
    (resolve : String → Option ℕ) (source_account : ℕ) (identity_token : String)
    (into_account now : ℕ) (s : AccountStore)
    → HasUniqueTopics s
    → MergeEffect
        (live_account source_account s)
        s
        (merge_accounts resolve source_account identity_token into_account now s)
unfolding merge_accounts
merge_accounts_effect resolve source_account identity_token into_account now s unique =
    let source = live_account source_account s in
    let target = live_account into_account s in
    elim (Option-cases (resolve identity_token)) [
      | inl e ↦ rw (e, merge_accounts) refl
      | inr (user_id, e) ↦
          rw (e, merge_accounts)
            (if_both (MergeEffect source s)
              (not (is_account (identity_account user_id s) target)
                || claimed_by_somebody_else source user_id s)
              _ _ refl
              (merge_checked-MergeEffect source_account into_account source target now s unique))
    ]
