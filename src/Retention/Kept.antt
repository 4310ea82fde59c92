-- ===== src/Retention/Kept.antt =====
-- src/retention/prune.ts: what a prune keeps, what it leaves, and what it counts.
use critalarm_server.Prelude.{
  ℕ, ◌+◌, ◌*◌, ◌≤◌, ◌==◌, leb, ltb, not, ◌&&◌, ◌||◌, Bool, true, false, ◌≡◌, refl, sym, ap, ◌∙◌,
  List, [], ◌∷◌, arith, length, select, count_where, count_where-kept, delete_where, find_row, All,
  inl, inr, Bool-cases,
}
use critalarm_server.Incident.Types.{
  IncidentState, opened, acked, closed, expired, IncidentRow, TopicRow, Store,
}
use critalarm_server.Incident.Statements.{is_active}
use critalarm_server.Tier.Caps.{AccountRow, caps_for}
use critalarm_server.Check.Types.{RoundRow, AttemptRow, CheckStore}
use critalarm_server.Check.Statements.{is_null}
use critalarm_server.Ingress.Types.{ServerMode}
use critalarm_server.Retention.Prune.{
  PruneResult, old_incident, topic_of_account, delete_incidents, prune_account, prune_accounts,
  prunes, nothing_pruned, prune_history, old_round, prune_check_rounds,
}

-- The incident is closed or expired, and was opened longer ago than the account's tier keeps.
abbrev pub is_over : IncidentState → Bool
is_over opened = false
is_over acked = false
is_over closed = true
is_over expired = true

abbrev pub on_account : List TopicRow → ℕ → ℕ → Bool
on_account topics account_id topic_id =
    leb 1 (count_where (λ t. (t.id == topic_id) && (t.account_id == account_id)) topics)

abbrev pub outlived : ℕ → List TopicRow → AccountRow → IncidentRow → Bool
outlived now topics account i =
    is_over i.state
    && ltb (i.opened_at + (caps_for account.tier).history_days * 86400) now
    && on_account topics account.id i.topic_id

-- It has outlived the window of one of the accounts.
abbrev pub outlived_any : ℕ → List TopicRow → List AccountRow → IncidentRow → Bool
outlived_any now topics [] i = false
outlived_any now topics (a ∷ accounts) i =
    outlived now topics a i || outlived_any now topics accounts i

not_found-count {ℓ} :
    {A : Type ℓ} (p : A → Bool) (xs : List A)
    → not (is_null (find_row p xs)) ≡ leb 1 (count_where p xs)
unfolding find_row count_where
not_found-count p [] = refl
not_found-count p (x ∷ xs) = elim (Bool-cases (p x)) [
  | inl e ↦ rw e (ground arith)
  | inr e ↦ rw e (not_found-count p xs ∙ ground arith)
]

is_active-is_over : (x : IncidentState) → not (is_active x) ≡ is_over x
is_active-is_over opened = refl
is_active-is_over acked = refl
is_active-is_over closed = refl
is_active-is_over expired = refl

old_incident-outlived :
    (now : ℕ) (topics : List TopicRow) (account : AccountRow) (i : IncidentRow)
    → old_incident now topics account i ≡ outlived now topics account i
unfolding old_incident topic_of_account
old_incident-outlived now topics account i =
    rw
      (
        is_active-is_over i.state,
        not_found-count (λ t. (t.id == i.topic_id) && (t.account_id == account.id)) topics,
      )
      refl

module _ {ℓ} {A : Type ℓ} where
  -- Two deletions one after the other keep what neither of them deletes.
  delete_where-twice :
      (p q r : A → Bool) (xs : List A)
      → ((x : A) → p x ≡ q x)
      → select (λ x. not (r x)) (delete_where p xs) ≡ select (λ x. not (q x || r x)) xs
  unfolding select delete_where
  delete_where-twice p q r [] h = refl
  delete_where-twice p q r (x ∷ xs) h = ground (arith, h x, delete_where-twice p q r xs h)

  select-all : (xs : List A) → select (λ x. not false) xs ≡ xs
  unfolding select
  select-all [] = refl
  select-all (x ∷ xs) = ap (λ t. x ∷ t) (select-all xs)

  delete_where-select :
      (p q : A → Bool) (xs : List A) → ((x : A) → not (p x) ≡ q x) → delete_where p xs ≡ select q xs
  unfolding select delete_where
  delete_where-select p q [] h = refl
  delete_where-select p q (x ∷ xs) h = ground (arith, h x, delete_where-select p q xs h)

  length-delete_where :
      (p : A → Bool) (xs : List A) → count_where p xs + length (delete_where p xs) ≡ length xs
  unfolding count_where delete_where
  length-delete_where p [] = refl
  length-delete_where p (x ∷ xs) = ground (arith, length-delete_where p xs)

prune_accounts-kept :
    (now : ℕ) (accounts : List AccountRow) (done : PruneResult) (s : Store)
    → (prune_accounts now accounts done s).1.incidents
      ≡ select (λ i. not (outlived_any now s.topics accounts i)) s.incidents
unfolding prune_accounts prune_account delete_incidents
prune_accounts-kept now [] done s = sym (select-all s.incidents)
prune_accounts-kept now (account ∷ accounts) done s =
    prune_accounts-kept now accounts _ (prune_account now account s)
    ∙ delete_where-twice (old_incident now s.topics account) (outlived now s.topics account)
        (outlived_any now s.topics accounts) s.incidents
        (old_incident-outlived now s.topics account)

prune_accounts-count :
    (now : ℕ) (accounts : List AccountRow) (done : PruneResult) (s : Store)
    → let (result, s') = prune_accounts now accounts done s in
      result.incidents + length s'.incidents ≡ done.incidents + length s.incidents
unfolding prune_accounts prune_account delete_incidents
prune_accounts-count now [] done s = refl
prune_accounts-count now (account ∷ accounts) done s = omega (
  arith,
  prune_accounts-count now accounts _ (prune_account now account s),
  length-delete_where (old_incident now s.topics account) s.incidents,
)

-- A prune of a server with tiers deletes exactly the closed and expired incidents of the accounts'
-- topics that were opened longer ago than the account's tier keeps its history: every other incident
-- is kept in its place, open and acknowledged ones whatever their age. It reports as many incidents as
-- it deleted.
pub prune_history_effect :
    (mode : ServerMode) (now : ℕ) (accounts : List AccountRow) (s : Store)
    → prunes mode ≡ true
    → let (result, s') = prune_history mode now accounts s in
      (s'.incidents ≡ select (λ i. not (outlived_any now s.topics accounts i)) s.incidents)
      × (result.incidents + length s'.incidents ≡ length s.incidents)
unfolding prune_history
prune_history_effect mode now accounts s pruning = rw pruning (
  prune_accounts-kept now accounts nothing_pruned s,
  omega (arith, prune_accounts-count now accounts nothing_pruned s),
)

-- The round has no result, or opened ninety days ago or later.
abbrev pub is_recent : ℕ → RoundRow → Bool
is_recent now r = is_null r.result || leb now (r.opened_at + 90 * 86400)

old_round-is_recent : (now : ℕ) (r : RoundRow) → not (old_round now r) ≡ is_recent now r
unfolding old_round
old_round-is_recent now r = ground arith

kept_attempt :
    (now id : ℕ) (rounds : List RoundRow)
    → count_where (λ r. (r.id == id) && old_round now r) rounds ≡ 0
    → 1 ≤ count_where (λ r. r.id == id) rounds
    → 1 ≤ count_where (λ r. r.id == id) (delete_where (old_round now) rounds)
unfolding count_where delete_where
kept_attempt now id rounds gone found =
    omega (arith, count_where-kept (λ r. r.id == id) (old_round now) rounds, gone, found)

-- Each attempt is one of a round that is there.
abbrev pub HasRounds : CheckStore → Type 0
HasRounds s = All (λ a. 1 ≤ count_where (λ r. r.id == a.round_id) s.check_rounds) s.check_attempts

attempts_kept :
    (now : ℕ) (rounds : List RoundRow) (attempts : List AttemptRow)
    → All (λ a. 1 ≤ count_where (λ r. r.id == a.round_id) rounds) attempts
    → All
        (λ a. 1 ≤ count_where (λ r. r.id == a.round_id) (delete_where (old_round now) rounds))
        (delete_where
          (λ a. not (is_null (find_row (λ r. (r.id == a.round_id) && old_round now r) rounds)))
          attempts)
unfolding delete_where
attempts_kept now rounds [] h = tt
attempts_kept now rounds (a ∷ attempts) h =
    let gone = not_found-count (λ r. (r.id == a.round_id) && old_round now r) rounds in
    let rest = attempts_kept now rounds attempts h.1 in
    elim (Bool-cases
      (not (is_null (find_row (λ r. (r.id == a.round_id) && old_round now r) rounds)))) [
        | inl e ↦ rw e rest
        | inr e ↦ rw e (kept_attempt now a.round_id rounds (ground (arith, gone, e)) h.0, rest)
      ]

-- A prune of a server with tiers keeps exactly the rounds with no result, whatever their age, and those
-- that opened ninety days ago or later; it reports as many rounds as it deleted. Where each attempt is
-- one of a round that is there, this is so afterwards too.
pub prune_check_rounds_effect :
    (mode : ServerMode) (now : ℕ) (s : CheckStore)
    → prunes mode ≡ true
    → HasRounds s
    → let (deleted, s') = prune_check_rounds mode now s in
      (s'.check_rounds ≡ select (is_recent now) s.check_rounds)
      × (deleted + length s'.check_rounds ≡ length s.check_rounds)
      × HasRounds s'
unfolding prune_check_rounds
prune_check_rounds_effect mode now s pruning h = rw pruning (
  delete_where-select (old_round now) (is_recent now) s.check_rounds (old_round-is_recent now),
  length-delete_where (old_round now) s.check_rounds,
  attempts_kept now s.check_rounds s.check_attempts h,
)
