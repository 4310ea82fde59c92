-- ===== src/Tier/P4Usage.antt =====
-- src/tier/p4-usage.ts: `chargeP4`.
use critalarm_server.Prelude.{
  ℕ, ◌+◌, ◌*◌, ◌/◌, ◌==◌, ltb, leb, if◌then◌else◌, Bool, true, false, ◌&&◌, ◌≡◌, Option, none, some,
  List, [], ◌∷◌, arith, find_row, inl, inr, Bool-cases,
}
use critalarm_server.Tier.Caps.{Tier, free, AccountRow, caps_for}

-- A row of `relay_p4_usage`.
pub record UsageRow : Type 0 where
  pub account_id : ℕ
  pub day_start : ℕ
  pub count : ℕ

-- account?.tier ?? "free"
abbrev pub tier_or_free : Option AccountRow → Tier
tier_or_free none = free
tier_or_free (some a) = a.tier

unfoldable pub daily_cap : ℕ → List AccountRow → ℕ
daily_cap account_id accounts =
    (caps_for (tier_or_free (find_row (λ a. a.id == account_id) accounts))).p4_daily

-- row?.count ?? 0
unfoldable pub used : ℕ → ℕ → List UsageRow → ℕ
used account_id day [] = 0
used account_id day (row ∷ rows) =
    let rest = used account_id day rows in
    if (row.account_id == account_id) && (row.day_start == day) then row.count else rest

-- INSERT ... ON CONFLICT(account_id, day_start) DO UPDATE SET count = count + 1
unfoldable pub add_one : ℕ → ℕ → List UsageRow → List UsageRow
add_one account_id day [] = record { account_id = account_id; day_start = day; count = 1 } ∷ []
add_one account_id day (row ∷ rows) =
    let rest = add_one account_id day rows in
    if (row.account_id == account_id) && (row.day_start == day)
    then record row { count = row.count + 1 } ∷ rows
    else row ∷ rest

abbrev pub day_start : ℕ → ℕ
day_start now = now / 86400 * 86400

unfoldable pub charge_p4 : List AccountRow → ℕ → ℕ → List UsageRow → Bool × List UsageRow
charge_p4 accounts now account_id rows =
    if leb (daily_cap account_id accounts) (used account_id (day_start now) rows)
    then (false, rows)
    else (true, add_one account_id (day_start now) rows)

-- Calls at the given times, for the given accounts.
unfoldable pub charge_all : List AccountRow → List (ℕ × ℕ) → List UsageRow → List UsageRow
charge_all accounts [] rows = rows
charge_all accounts ((now, account_id) ∷ calls) rows =
    charge_all accounts calls (charge_p4 accounts now account_id rows).1

used-add_one :
    (a day a' day' : ℕ) (rows : List UsageRow)
    → used a' day' (add_one a day rows)
      ≡ used a' day' rows + (if (a == a') && (day == day') then 1 else 0)
unfolding used add_one
used-add_one a day a' day' [] = ground arith
used-add_one a day a' day' (row ∷ rows) = ground (arith, used-add_one a day a' day' rows)

-- One call is let through exactly while the account is under its cap for the day, adds one to this
-- account and this day then, and touches no other account or day.
pub charge_p4_effect :
    (accounts : List AccountRow) (now account_id other day : ℕ) (rows : List UsageRow)
    → let (charged, rows') = charge_p4 accounts now account_id rows in
      (charged ≡ ltb (used account_id (day_start now) rows) (daily_cap account_id accounts))
      × (used other day rows'
          ≡ used other day rows
            + (if charged && (account_id == other) && (day_start now == day) then 1 else 0))
unfolding charge_p4
charge_p4_effect accounts now account_id other day rows =
    elim (Bool-cases (leb (daily_cap account_id accounts) (used account_id (day_start now) rows))) [
      | inl full ↦ rw full (ground (arith, full), omega arith)
      | inr room ↦
          rw room (ground (arith, room), used-add_one account_id (day_start now) other day rows)
    ]
