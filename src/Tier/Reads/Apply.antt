-- ===== src/Tier/Reads/Apply.antt =====
-- src/tier/billing-reads.ts: the tables of the read path, `link` and `apply`.
use critalarm_server.Prelude.{
  ℕ, ◌==◌, leb, if◌then◌else◌, Bool, true, false, not, ◌&&◌, ◌||◌, String, str_eq, Option, none,
  some, List, [], ◌∷◌, ◌++◌, map, max, find_row, delete_where, update_where, count_where,
}
use critalarm_server.Tier.Caps.{Tier, free}
use critalarm_server.Tier.Packs.{PackRow}
use critalarm_server.Tier.Purchases.{
  Account, BillingIdRow, Billing, rank, is_higher_tier, resolve_account, highest_entitled_tier,
  account_tier_after,
}
use critalarm_server.Tier.Reads.View.{
  ActiveEntitlement, StoreReadConfig, StoreView, view_entitlements,
}

pub data ReadTrigger : Type 0 where
  by_webhook by_retry by_refresh by_sweep : ReadTrigger

-- A row of `account_billing_ids` with the columns of the fence.
pub record ReadBillingRow : Type 0 where
  pub link : BillingIdRow
  pub read_seq : ℕ
  pub applied_seq : ℕ
  pub checked_at : Option ℕ

-- A row of `billing_reads`.
pub record ReadRow : Type 0 where
  pub app_user_id : ℕ
  pub due_at : ℕ
  pub attempts : ℕ
  pub dirty : Bool

pub record ReadChangeRow : Type 0 where
  pub account_id : ℕ
  pub from_tier : Tier
  pub to_tier : Tier
  pub trigger : ReadTrigger
  pub app_user_id : ℕ
  pub changed_at : ℕ

-- A read that is out, with the number it took; `follow` is the trigger of the read that is to follow.
pub record Flight : Type 0 where
  pub app_user_id : ℕ
  pub seq : ℕ
  pub trigger : ReadTrigger
  pub follow : Option ReadTrigger

pub record ReadStore : Type 0 where
  pub accounts : List Account
  pub billing_ids : List ReadBillingRow
  pub packs : List PackRow
  pub changes : List ReadChangeRow
  pub queue : List ReadRow
  pub unlinked : List (ℕ × ℕ)
  pub flights : List Flight

abbrev pub has_app_user : ℕ → ReadBillingRow → Bool
has_app_user id b = b.link.app_user_id == id

unfoldable pub billing_row : ℕ → ReadStore → Option ReadBillingRow
billing_row id s = find_row (has_app_user id) s.billing_ids

-- this.unlinked.get(appUserId) ?? 0
unfoldable pub unlinked_number : ℕ → ReadStore → ℕ
unlinked_number id s = elim (find_row (λ e. e.0 == id) s.unlinked) [ none ↦ 0 | some e ↦ e.1 ]

unfoldable pub forget_unlinked : ℕ → ReadStore → ReadStore
forget_unlinked id s = record s { unlinked = delete_where (λ e. e.0 == id) s.unlinked }

-- What the rules of the purchase events read of this store.
abbrev pub as_billing : ReadStore → Billing
as_billing s = record {
  accounts = s.accounts;
  billing_ids = map (λ b. b.link) s.billing_ids;
  events = [];
  changes = [];
}

abbrev new_link : ℕ → ℕ → ℕ → ReadStore → ReadBillingRow
new_link id account_id now s = record {
  link = record {
    app_user_id = id;
    account_id = account_id;
    linked_at = now;
    last_event_at = none;
    entitled_tier = free;
  };
  read_seq = unlinked_number id s;
  applied_seq = 0;
  checked_at = none;
}

abbrev pub moved_to : ℕ → ReadBillingRow → ReadBillingRow
moved_to account_id b = record b { link = record b.link { account_id = account_id } }

-- `link`, on the row that is there.
unfoldable pub link_row : ℕ → ℕ → ℕ → Option ReadBillingRow → ReadStore → ReadStore
link_row id account_id now none s =
    forget_unlinked id
      (record s { billing_ids = s.billing_ids ++ new_link id account_id now s ∷ [] })
link_row id account_id now (some row) s =
    if row.link.account_id == account_id then s else record s {
      billing_ids = update_where (has_app_user id) (moved_to account_id) s.billing_ids;
    }

unfoldable pub link : ℕ → ℕ → ℕ → ReadStore → ReadStore
link id account_id now s = link_row id account_id now (billing_row id s) s

abbrev owns_pack : ℕ → String → PackRow → Bool
owns_pack id pack p = (p.owner == id) && str_eq p.held.pack pack

-- INSERT ... ON CONFLICT(app_user_id, pack) DO UPDATE SET expires_at
unfoldable pub upsert_pack : ℕ → String → Option ℕ → List PackRow → List PackRow
upsert_pack id pack end [] =
    record { owner = id; held = record { pack = pack; expires_at = end } } ∷ []
upsert_pack id pack end (p ∷ packs) =
    let rest = p ∷ upsert_pack id pack end packs in
    if owns_pack id pack p
    then record p { held = record p.held { expires_at = end } } ∷ packs
    else rest

unfoldable pub upsert_packs : ℕ → List (String × Option ℕ) → List PackRow → List PackRow
upsert_packs id [] packs = packs
upsert_packs id ((pack, end) ∷ more) packs = upsert_packs id more (upsert_pack id pack end packs)

abbrev is_listed : List (String × Option ℕ) → String → Bool
is_listed packs pack = leb 1 (count_where (λ e. str_eq e.0 pack) packs)

unfoldable pub write_packs : ℕ → Bool → StoreView → List PackRow → List PackRow
write_packs id guarded view packs =
    let packs' = upsert_packs id view.packs packs in
    if guarded
    then packs'
    else delete_where (λ p. (p.owner == id) && not (is_listed view.packs p.held.pack)) packs'

-- The account's tier, and the row of `tier_changes` where it moves.
unfoldable pub write_account_tier :
    ReadTrigger → ℕ → ℕ → (account_id : ℕ) (before after : Tier) → ReadStore → ReadStore
write_account_tier trigger id now account_id before after s =
    elim (find_row (λ a. a.id == account_id) s.accounts) [
      | none ↦ s
      | some a ↦
          let next =
            account_tier_after a.tier (highest_entitled_tier account_id (as_billing s)) before
              after in
          if rank next == rank a.tier then s else record s {
            accounts =
                update_where (λ c. c.id == account_id) (λ c. record c { tier = next }) s.accounts;
            changes =
                s.changes
                ++ record {
                  account_id = account_id;
                  from_tier = a.tier;
                  to_tier = next;
                  trigger = trigger;
                  app_user_id = id;
                  changed_at = now;
                }
                  ∷ [];
          }
    ]

-- DELETE FROM billing_reads WHERE app_user_id = ? AND dirty = 0
unfoldable pub clear_queued : ℕ → ReadStore → ReadStore
clear_queued id s = record s {
  queue = delete_where (λ r. (r.app_user_id == id) && not r.dirty) s.queue;
}

abbrev pub is_guarded : StoreView → Bool
is_guarded view = leb 1 (count_where (λ id. true) view.unknown_ids)

abbrev pub tier_of_view : Tier → StoreView → Tier
tier_of_view before view =
    if is_guarded view && is_higher_tier before view.tier then before else view.tier

abbrev pub applied_row : Tier → ℕ → ℕ → ReadBillingRow → ReadBillingRow
applied_row tier now seq b = record b {
  link = record b.link { entitled_tier = tier };
  checked_at = some now;
  applied_seq = seq;
  read_seq = max b.read_seq seq;
}

-- The result is written on a row that is there, which paid for `before`.
unfoldable pub write_view :
    ℕ → ℕ → ReadTrigger → ℕ → StoreView → (account_id : ℕ) (before : Tier) → ReadStore → ReadStore
write_view id seq trigger now view account_id before s =
    let tier = tier_of_view before view in
    let s' = record s {
      billing_ids = update_where (has_app_user id) (applied_row tier now seq) s.billing_ids;
      packs = write_packs id (is_guarded view) view s.packs;
    } in
    clear_queued id (write_account_tier trigger id now account_id before tier s')

abbrev pub gives_nothing : StoreView → Bool
gives_nothing view = (rank view.tier == rank free) && (count_where (λ e. true) view.packs == 0)

-- The account that a row is moved to when its own was merged away, or that it has.
abbrev pub target : Option ℕ → ℕ → ℕ
target none account_id = account_id
target (some winner) account_id = winner

unfoldable pub apply_view :
    ℕ → ℕ → ReadTrigger → ℕ → StoreView → Option ReadBillingRow → Option ℕ → ReadStore → ReadStore
apply_view id seq trigger now view none none s = clear_queued id s
apply_view id seq trigger now view none (some account_id) s =
    if gives_nothing view
    then clear_queued id s
    else write_view id seq trigger now view account_id free (link id account_id now s)
apply_view id seq trigger now view (some row) account s =
    let account_id = target account row.link.account_id in
    if leb seq row.applied_seq
    then s
    else write_view id seq trigger now view account_id row.link.entitled_tier
        (link id account_id now s)

unfoldable pub apply :
    StoreReadConfig → ℕ → ℕ → List ActiveEntitlement → ReadTrigger → ℕ → ReadStore → ReadStore
apply config id seq items trigger now s =
    apply_view id seq trigger now (view_entitlements config items) (billing_row id s)
      (resolve_account id (as_billing s)) s

-- A paid tier or a pack.
unfoldable pub holds_something : ℕ → ReadStore → Bool
holds_something id s = elim (billing_row id s) [
  | none ↦ false
  | some row ↦
      not (rank row.link.entitled_tier == rank free)
      || leb 1 (count_where (λ p. p.owner == id) s.packs)
]
