-- ===== src/Tier/Purchases/Steps.antt =====
-- src/tier/revenuecat.ts: what one event, one merge chain and one decision on a tier come to.
use critalarm_server.Prelude.{
  ℕ, zero, suc, ◌≤◌, ◌<◌, ◌==◌, ==_refl, if◌then◌else◌, Bool, true, not, ◌&&◌, ◌≡◌, refl, ap, ◌∙◌,
  String, Option, none, some, List, [], ◌∷◌, ◌++◌, arith, find_row, find_row-holds, All, select,
  inl, inr, Bool-cases, Option-cases,
}
use mathlib.Core.Path.{subst}
use text.Mathlib.TextPositions.{eq_refl}
use critalarm_server.Tier.Caps.{Tier, free}
use critalarm_server.Tier.Purchases.{
  Event, Account, BillingIdRow, EventId, given, rebuilt, BillingEventRow, Billing, rank,
  is_higher_tier, follow, follow_merge, best_tier, highest_entitled_tier, account_tier_after,
  event_id, same_event, resolve_account, entitled_tier, is_stale, event_at, last_event, applied_to,
  apply_to, write_tier, insert_event, log_and_apply, apply_revenue_cat_event,
}

-- A decision on a tier that lowers it: the billing id that was written had paid for at least the
-- account's tier, pays for less now, and the account goes to the highest tier still paid for.
pub account_tier_after_lowers :
    (current highest row_before row_after : Tier)
    → rank (account_tier_after current highest row_before row_after) < rank current
    → (rank current ≤ rank row_before)
      × (rank row_after < rank row_before)
      × (account_tier_after current highest row_before row_after ≡ highest)
unfolding account_tier_after
account_tier_after_lowers current highest row_before row_after lower =
    elim (Bool-cases (is_higher_tier highest current)) [
      | inl raise ↦ ground (arith, raise, lower)
      | inr same ↦
          elim (Bool-cases
            (is_higher_tier row_before row_after && not (is_higher_tier current row_before))) [
              | inl source ↦
                  (ground (arith, source), ground (arith, source), rw (same, source) refl)
              | inr other ↦ ground (arith, same, other, lower)
            ]
    ]

best_tier-le : (best : Tier) (rows : List BillingIdRow) → rank best ≤ rank (best_tier best rows)
unfolding best_tier
best_tier-le best [] = omega arith
best_tier-le best (row ∷ rows) = elim (Bool-cases (is_higher_tier row.entitled_tier best)) [
  | inl up ↦ rw up (ground (arith, up, best_tier-le row.entitled_tier rows))
  | inr not_up ↦ rw not_up (best_tier-le best rows)
]

better-le : (tier best : Tier) → rank tier ≤ rank (if is_higher_tier tier best then tier else best)
better-le tier best = elim (Bool-cases (is_higher_tier tier best)) [
  | inl up ↦ rw up (omega arith)
  | inr not_up ↦ rw not_up (ground (arith, not_up))
]

best_tier-All :
    (best : Tier) (rows : List BillingIdRow)
    → All (λ b. rank b.entitled_tier ≤ rank (best_tier best rows)) rows
unfolding best_tier
best_tier-All best [] = tt
best_tier-All best (row ∷ rows) =
    let better = if is_higher_tier row.entitled_tier best then row.entitled_tier else best in
    (
      omega (arith, better-le row.entitled_tier best, best_tier-le better rows),
      best_tier-All better rows,
    )

-- No billing id of the account pays for more than the tier that is worked out for it.
highest_entitled_tier_lem :
    (account_id : ℕ) (s : Billing)
    → All
        (λ b. rank b.entitled_tier ≤ rank (highest_entitled_tier account_id s))
        (select (λ b. b.account_id == account_id) s.billing_ids)
unfolding highest_entitled_tier
highest_entitled_tier_lem account_id s =
    best_tier-All free (select (λ b. b.account_id == account_id) s.billing_ids)

follow-unmerged :
    (hops current winner : ℕ) (accounts : List Account)
    → follow hops current accounts ≡ some winner
    → (a : Account) × (find_row (λ x. x.id == winner) accounts ≡ some a) × (a.merged_into ≡ none)
unfolding follow
follow-unmerged zero current winner accounts e = cc
follow-unmerged (suc hops) current winner accounts e =
    elim (Option-cases (find_row (λ a. a.id == current) accounts)) [
      | inl missing ↦ ground (arith, missing, e)
      | inr (a, found) ↦ elim (Option-cases a.merged_into) [
        | inl last ↦
            let here : current ≡ winner = ground (
              arith,
              found,
              last,
              e,
              find_row-holds (λ x. x.id == current) accounts {x = a} found,
            ) in
            (a, subst (λ i. find_row (λ x. x.id == i) accounts ≡ some a) here found, last)
        | inr (next, merged) ↦
            follow-unmerged hops next winner accounts (ground (arith, found, merged, e))
      ]
    ]

-- The account that a merge chain leads to exists and has not been merged away itself.
follow_merge_unmerged :
    (account_id winner : ℕ) (accounts : List Account)
    → follow_merge account_id accounts ≡ some winner
    → (a : Account) × (find_row (λ x. x.id == winner) accounts ≡ some a) × (a.merged_into ≡ none)
unfolding follow_merge
follow_merge_unmerged account_id winner accounts e = follow-unmerged 8 account_id winner accounts e

same_event_refl : (id : EventId) → same_event id id ≡ true
same_event_refl (given a) = eq_refl a
same_event_refl (rebuilt user type at) = rw (==_refl user, ==_refl at, eq_refl type) refl

apply_to-events :
    (event : Event) (received_at account_id : ℕ) (tier : Tier) (link : Option BillingIdRow)
    (s : Billing)
    → (apply_to event received_at account_id tier link s).events ≡ s.events
unfolding apply_to write_tier
apply_to-events event received_at account_id tier link s = ground arith

log_and_apply-logged :
    (event : Event) (received_at : ℕ) (account : Option ℕ) (target : Option (ℕ × Tier))
    (link : Option BillingIdRow) (s : Billing)
    → (row : BillingEventRow) × (row.event_id ≡ event_id event received_at)
      × ((log_and_apply event received_at account target link s).events ≡ s.events ++ row ∷ [])
unfolding log_and_apply insert_event
log_and_apply-logged event received_at account none link s = (_, refl, refl)
log_and_apply-logged event received_at account (some (account_id, tier)) link s =
    (_, refl, apply_to-events event received_at account_id tier link _)

find_row-last :
    (p : BillingEventRow → Bool) (xs : List BillingEventRow) (row : BillingEventRow)
    → find_row p xs ≡ none
    → p row ≡ true
    → find_row p (xs ++ row ∷ []) ≡ some row
unfolding find_row
find_row-last p [] row new hit = rw hit refl
find_row-last p (x ∷ xs) row new hit = ground (arith, find_row-last p xs row)

module _ (entitlements : List (String × Tier)) (event : Event) where
  -- An event that is in the log changes nothing.
  apply-logged :
      (now : ℕ) (s : Billing) {row : BillingEventRow}
      → find_row (λ e. same_event e.event_id (event_id event now)) s.events ≡ some row
      → apply_revenue_cat_event entitlements event now s ≡ s
  unfolding apply_revenue_cat_event
  apply-logged now s found = rw (found, apply_revenue_cat_event) refl

  apply-found :
      (now : ℕ) (s : Billing)
      → let s' = apply_revenue_cat_event entitlements event now s in
        (row : BillingEventRow) × (find_row
            (λ e. same_event e.event_id (event_id event now))
            s'.events
          ≡ some row)
  unfolding apply_revenue_cat_event
  apply-found now s =
      let this : BillingEventRow → Bool = λ e. same_event e.event_id (event_id event now) in
      elim (Option-cases (find_row this s.events)) [
        | inr (row, found) ↦ (row, rw (found, apply_revenue_cat_event) found)
        | inl new ↦
            let link = find_row (λ b. b.app_user_id == event.app_user_id) s.billing_ids in
            let stale = is_stale (event_at event.event_timestamp_ms now) (last_event link) in
            let account = resolve_account event.app_user_id s in
            let target = applied_to account (entitled_tier entitlements now event) stale in
            let (row, same, logged) = log_and_apply-logged event now account target link s in
            (
              row,
              rw (new, apply_revenue_cat_event)
                  (ap (λ es. find_row this es) logged
                    ∙ find_row-last this s.events row new
                        (rw same (same_event_refl (event_id event now)))),
            )
      ]

-- An event that is delivered again, with its own id or with its own timestamp, changes nothing,
-- whenever the second delivery comes: not the tier, not a billing id, not the log.
pub apply_revenue_cat_event_again :
    (entitlements : List (String × Tier)) (event : Event) (now later : ℕ) (s : Billing)
    → event_id event now ≡ event_id event later
    → let s' = apply_revenue_cat_event entitlements event now s in
      apply_revenue_cat_event entitlements event later s' ≡ s'
apply_revenue_cat_event_again entitlements event now later s same =
    let s' = apply_revenue_cat_event entitlements event now s in
    let (row, found) = apply-found entitlements event now s in
    apply-logged entitlements event later s' {row = row}
      (subst (λ i. find_row (λ e. same_event e.event_id i) s'.events ≡ some row) same found)
