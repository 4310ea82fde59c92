-- ===== src/Tier/Reads/Fence.antt =====
-- src/tier/billing-reads.ts: the numbered fence, and the list that carries an unknown entitlement.
use critalarm_server.Prelude.{
  ℕ, ◌+◌, ◌==◌, ◌≤◌, leb, true, length, count_where, String, [], ◌∷◌, if_both, Option, some, List,
  ◌≡◌, ◌⊎◌, refl, ap, ◌∙◌, inl, inr, Bool-cases, Option-cases, arith, find_row,
  find_row-update_where,
}
use mathlib.Core.Option
use critalarm_server.Tier.Caps.{Tier}
use critalarm_server.Tier.Purchases.{rank, is_higher_tier, resolve_account}
use critalarm_server.Tier.Reads.View.{
  ActiveEntitlement, StoreReadConfig, StoreView, view_entitlements,
}
use critalarm_server.Tier.Reads.Apply.{
  ReadBillingRow, ReadStore, ReadTrigger, has_app_user, billing_row, as_billing, moved_to, link_row,
  link, write_account_tier, clear_queued, is_guarded, tier_of_view, applied_row, write_view, target,
  apply_view, apply,
}

billing_ids-write_account_tier :
    (trigger : ReadTrigger) (id now account_id : ℕ) (before after : Tier) (s : ReadStore)
    → (write_account_tier trigger id now account_id before after s).billing_ids ≡ s.billing_ids
unfolding write_account_tier
billing_ids-write_account_tier trigger id now account_id before after s =
    elim (Option-cases (find_row (λ a. a.id == account_id) s.accounts)) [
      | inl e ↦ rw (e, write_account_tier) refl
      | inr (a, e) ↦
          rw (e, write_account_tier)
            (if_both (λ (t : ReadStore). t.billing_ids ≡ s.billing_ids) _ _ _ refl refl)
    ]

billing_row-link :
    (id account_id now : ℕ) (row : ReadBillingRow) (s : ReadStore)
    → billing_row id s ≡ some row
    → (moved : ReadBillingRow) × (billing_row id (link id account_id now s) ≡ some moved)
      × (moved.applied_seq ≡ row.applied_seq)
      × (moved.link.entitled_tier ≡ row.link.entitled_tier)
unfolding link link_row billing_row
billing_row-link id account_id now row s e = rw e (
    if_both
      (λ (t : ReadStore).
        (moved : ReadBillingRow) × (find_row (has_app_user id) t.billing_ids ≡ some moved)
        × (moved.applied_seq ≡ row.applied_seq)
        × (moved.link.entitled_tier ≡ row.link.entitled_tier))
      (row.link.account_id == account_id) _ _ (row, e, refl, refl)
      (
        moved_to account_id row,
        find_row-update_where (has_app_user id) (has_app_user id) (moved_to account_id)
              s.billing_ids (λ b. refl) (λ b h. h)
            ∙ ap (Option.map (moved_to account_id)) e,
        refl,
        refl,
      ))

billing_row-write_view :
    (id seq : ℕ) (trigger : ReadTrigger) (now : ℕ) (view : StoreView) (account_id : ℕ)
    (before : Tier) (row : ReadBillingRow) (s : ReadStore)
    → billing_row id s ≡ some row
    → billing_row id (write_view id seq trigger now view account_id before s)
      ≡ some (applied_row (tier_of_view before view) now seq row)
unfolding write_view clear_queued billing_row
billing_row-write_view id seq trigger now view account_id before row s e =
    let tier = tier_of_view before view in
    ap (find_row (has_app_user id))
      (billing_ids-write_account_tier trigger id now account_id before tier _)
    ∙ find_row-update_where (has_app_user id) (has_app_user id) (applied_row tier now seq)
        s.billing_ids (λ b. refl) (λ b h. h)
    ∙ ap (Option.map (applied_row tier now seq)) e

-- The tier after a read: the list's, or the one before where that is higher and the list carries an
-- entitlement that no map names.
abbrev pub NewTier : (before : Tier) → StoreView → Tier → Type 0
NewTier before view after =
    ((after ≡ view.tier) × ((length view.unknown_ids ≡ 0) ⊎ (rank before ≤ rank view.tier)))
    ⊎ ((after ≡ before) × (1 ≤ length view.unknown_ids) × (rank view.tier + 1 ≤ rank before))

count_where-length : (ids : List String) → count_where (λ id. true) ids ≡ length ids
unfolding count_where
count_where-length [] = refl
count_where-length (id ∷ ids) = omega (arith, count_where-length ids)

tier_of_view-NewTier :
    (before : Tier) (view : StoreView) → NewTier before view (tier_of_view before view)
tier_of_view-NewTier before view =
    let counted = count_where-length view.unknown_ids in
    elim (Bool-cases (is_guarded view)) [
      | inr known ↦ rw known (inl (refl, inl (ground (arith, known, counted))))
      | inl guarded ↦ elim (Bool-cases (is_higher_tier before view.tier)) [
        | inl higher ↦
            rw (guarded, higher)
              (inr (refl, ground (arith, guarded, counted), ground (arith, higher)))
        | inr lower ↦ rw (guarded, lower) (inl (refl, inr (ground (arith, lower))))
      ]
    ]

-- What a finished read leaves of its customer's row: nothing is written at all, or the row has the
-- read's number and the tier of the list.
abbrev pub Fenced : ℕ → ℕ → ℕ → StoreView → ReadBillingRow → ReadStore → ReadStore → Type 0
Fenced id seq now view row s s' =
    ((seq ≤ row.applied_seq) × (s' ≡ s))
    ⊎ ((after : ReadBillingRow) × (row.applied_seq + 1 ≤ seq)
        × (billing_row id s' ≡ some after)
        × (after.applied_seq ≡ seq)
        × (after.checked_at ≡ some now)
        × NewTier row.link.entitled_tier view after.link.entitled_tier)

apply_view-Fenced :
    (id seq : ℕ) (trigger : ReadTrigger) (now : ℕ) (view : StoreView) (row : ReadBillingRow)
    (account : Option ℕ) (s : ReadStore)
    → billing_row id s ≡ some row
    → Fenced id seq now view row s (apply_view id seq trigger now view (some row) account s)
unfolding apply_view
apply_view-Fenced id seq trigger now view row account s e =
    let account_id = target account row.link.account_id in
    elim (Bool-cases (leb seq row.applied_seq)) [
      | inl old ↦ rw old (inl (ground (arith, old), refl))
      | inr newer ↦
          let (moved, e', same, tier) = billing_row-link id account_id now row s e in
          rw newer (
            inr (
              applied_row (tier_of_view row.link.entitled_tier view) now seq moved,
              ground (arith, newer),
              billing_row-write_view id seq trigger now view account_id row.link.entitled_tier moved
                  (link id account_id now s) e',
              refl,
              refl,
              tier_of_view-NewTier row.link.entitled_tier view,
            ))
    ]

-- A read whose number is not above the one of the last result written for its customer changes nothing
-- at all. Any other writes its own number, the second, and the tier of its list, or the tier that was
-- there where that is higher and the list carries an entitlement that no map names.
pub apply_fence :
    (config : StoreReadConfig) (id seq : ℕ) (items : List ActiveEntitlement) (trigger : ReadTrigger)
    (now : ℕ) (row : ReadBillingRow) (s : ReadStore)
    → billing_row id s ≡ some row
    → Fenced id seq now
        (view_entitlements config items)
        row
        s
        (apply config id seq items trigger now s)
unfolding apply
apply_fence config id seq items trigger now row s e = rw e (
    apply_view-Fenced id seq trigger now (view_entitlements config items) row
      (resolve_account id (as_billing s)) s e)
