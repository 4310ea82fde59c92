-- ===== src/Tier/Packs.antt =====
-- src/tier/packs.ts: `packsFor` and `holdsPack`. Pro is the one pack there is.
pub mod Best
use critalarm_server.Prelude.{
  ℕ, ◌==◌, ltb, leb, if◌then◌else◌, Bool, true, false, ◌&&◌, ◌||◌, not, ◌≡◌, refl, String, str_eq,
  Option, none, some, List, [], ◌∷◌, ◌++◌, map, max, arith, find_row, select, All, inl, inr,
  Bool-cases,
}
use critalarm_server.Tier.Caps.{Tier, AccountRow}
use critalarm_server.Tier.Purchases.{BillingIdRow}

pub record PackRules : Type 0 where
  pub includes : Tier → List String
  pub store_reads : Bool

pub record Held : Type 0 where
  pub pack : String
  pub expires_at : Option ℕ

-- A row of `billing_packs`, by billing id, or of `account_pack_grants`, by account.
pub record PackRow : Type 0 where
  pub owner : ℕ
  pub held : Held

-- expires_at IS NULL OR expires_at > ?
abbrev pub runs_at : ℕ → Option ℕ → Bool
runs_at now none = true
runs_at now (some end) = ltb now end

-- The rows of the account's billing ids: FROM billing_packs p JOIN account_billing_ids b.
unfoldable pub store_packs : ℕ → List BillingIdRow → List PackRow → List PackRow
store_packs account_id ids packs =
    select
      (λ p. elim (find_row (λ b. (b.app_user_id == p.owner) && (b.account_id == account_id)) ids) [
        | none ↦ false
        | some _ ↦ true
      ])
      packs

-- The two halves of the UNION ALL, and what the configuration attaches to the tier.
unfoldable pub held_packs :
    PackRules → ℕ → AccountRow → List BillingIdRow → List PackRow → List PackRow → List Held
held_packs rules now account ids packs grants =
    map (λ p. p.held)
      (select (λ p. rules.store_reads || runs_at now p.held.expires_at)
        (store_packs account.id ids packs))
    ++ map (λ p. p.held)
        (select (λ g. (g.owner == account.id) && runs_at now g.held.expires_at) grants)
    ++ map (λ id. record { pack = id; expires_at = none }) (rules.includes account.tier)

-- No end date wins over any end date, and otherwise the later end.
abbrev pub later : Option ℕ → Option ℕ → Option ℕ
later none e = none
later (some c) none = none
later (some c) (some e) = some (max c e)

-- The entry of the pack in the map `best` once one more row of it has been looked at.
abbrev pub widened : Option (Option ℕ) → Option ℕ → Option (Option ℕ)
widened none e = some e
widened (some c) e = some (later c e)

-- One turn of the loop: rows of no known pack are passed over.
unfoldable pub taken : Option (Option ℕ) → Held → Option (Option ℕ)
taken found h = if str_eq h.pack "pro" then widened found h.expires_at else found

-- The loop, with the entry of the pack so far: none while there is no entry.
unfoldable pub best : Option (Option ℕ) → List Held → Option (Option ℕ)
best found [] = found
best found (h ∷ hs) = best (taken found h) hs

-- The end of the pack that the account holds, if it holds it.
unfoldable pub packs_for :
    PackRules
    → ℕ
    → Option AccountRow
    → List BillingIdRow
    → List PackRow
    → List PackRow
    → Option (Option ℕ)
packs_for rules now none ids packs grants = none
packs_for rules now (some account) ids packs grants =
    best none (held_packs rules now account ids packs grants)
