-- ===== src/Retention/Prune.antt =====
-- src/retention/prune.ts: `pruneHistory` and `pruneCheckRounds`. `x < now - window` is written with
-- the window on the other side, since a difference on ℕ stops at 0.
use critalarm_server.Prelude.{
  ℕ, ◌+◌, ◌*◌, ◌==◌, ltb, if◌then◌else◌, Bool, true, false, not, ◌&&◌, Option, none, some, List, [],
  ◌∷◌, find_row, count_where, delete_where, update_where,
}
use critalarm_server.Incident.Types.{MessageRecord, IncidentRow, TopicRow, Store}
use critalarm_server.Incident.Statements.{is_active}
use critalarm_server.Tier.Caps.{AccountRow, caps_for}
use critalarm_server.Check.Types.{RoundRow, CheckStore}
use critalarm_server.Check.Statements.{is_null}
use critalarm_server.Ingress.Types.{ServerMode, selfhosted}

pub record PruneResult : Type 0 where
  pub accounts : ℕ
  pub incidents : ℕ
  pub messages : ℕ

abbrev pub round_retention_s : ℕ
round_retention_s = 7776000

abbrev pub is_past : ℕ → ℕ → ℕ → Bool
is_past now window at = ltb (at + window) now

-- topic_id IN (SELECT id FROM topics WHERE account_id = ?)
unfoldable pub topic_of_account : List TopicRow → ℕ → ℕ → Bool
topic_of_account topics account_id topic_id =
    not (is_null (find_row (λ t. (t.id == topic_id) && (t.account_id == account_id)) topics))

abbrev pub window_of : AccountRow → ℕ
window_of account = (caps_for account.tier).history_days * 86400

-- The WHERE of `deleteIncidents`.
unfoldable pub old_incident : ℕ → List TopicRow → AccountRow → IncidentRow → Bool
old_incident now topics account i =
    not (is_active i.state)
    && is_past now (window_of account) i.opened_at
    && topic_of_account topics account.id i.topic_id

abbrev pub is_ended : List IncidentRow → ℕ → Bool
is_ended incidents id =
    not (is_null (find_row (λ i. (i.id == id) && not (is_active i.state)) incidents))

-- incident_id IS NULL OR incident_id IN (SELECT id FROM incidents WHERE state IN (...))
abbrev pub no_active_incident : List IncidentRow → Option ℕ → Bool
no_active_incident incidents none = true
no_active_incident incidents (some id) = is_ended incidents id

-- The WHERE of `deleteMessages`.
unfoldable pub old_message : ℕ → Store → AccountRow → MessageRecord → Bool
old_message now s account m =
    is_past now (window_of account) m.created_at
    && topic_of_account s.topics account.id m.topic_id
    && no_active_incident s.incidents m.incident_id

abbrev gone : (IncidentRow → Bool) → List IncidentRow → ℕ → Bool
gone p incidents id = not (is_null (find_row (λ i. (i.id == id) && p i) incidents))

-- ON DELETE SET NULL
abbrev unlink : (IncidentRow → Bool) → List IncidentRow → MessageRecord → MessageRecord
unlink p incidents m = elim m.incident_id [
  | none ↦ m
  | some id ↦ if gone p incidents id then record m { incident_id = none } else m
]

-- Deleting incidents takes their timers along and leaves their messages with none.
unfoldable pub delete_incidents : (IncidentRow → Bool) → Store → Store
delete_incidents p s = record s {
  incidents = delete_where p s.incidents;
  timers = delete_where (λ t. gone p s.incidents t.incident_id) s.timers;
  messages = update_where (λ m. true) (unlink p s.incidents) s.messages;
}

-- One turn of the loop over the accounts.
unfoldable pub prune_account : ℕ → AccountRow → Store → Store
prune_account now account s =
    let s' = record s { messages = delete_where (old_message now s account) s.messages } in
    delete_incidents (old_incident now s.topics account) s'

unfoldable pub prune_accounts : ℕ → List AccountRow → PruneResult → Store → PruneResult × Store
prune_accounts now [] done s = (done, s)
prune_accounts now (account ∷ accounts) done s =
    prune_accounts now accounts
      (record {
        accounts = done.accounts + 1;
        incidents = done.incidents + count_where (old_incident now s.topics account) s.incidents;
        messages = done.messages + count_where (old_message now s account) s.messages;
      })
      (prune_account now account s)

-- mode !== "hosted" && mode !== "relay"
abbrev pub prunes : ServerMode → Bool
prunes selfhosted = false
prunes _ = true

abbrev pub nothing_pruned : PruneResult
nothing_pruned = record { accounts = 0; incidents = 0; messages = 0 }

unfoldable pub prune_history : ServerMode → ℕ → List AccountRow → Store → PruneResult × Store
prune_history mode now accounts s =
    if prunes mode then prune_accounts now accounts nothing_pruned s else (nothing_pruned, s)

-- result IS NOT NULL AND opened_at < ?
unfoldable pub old_round : ℕ → RoundRow → Bool
old_round now r = not (is_null r.result) && is_past now round_retention_s r.opened_at

unfoldable pub prune_check_rounds : ServerMode → ℕ → CheckStore → ℕ × CheckStore
prune_check_rounds mode now s =
    if prunes mode
    then (
      count_where (old_round now) s.check_rounds,
      record s {
        check_rounds = delete_where (old_round now) s.check_rounds;
        check_attempts =
            delete_where
              (λ a.
                not (
                  is_null (find_row (λ r. (r.id == a.round_id) && old_round now r) s.check_rounds)))
              s.check_attempts;
      },
    )
    else (0, s)
