-- ===== src/Tier/Examples.antt =====
-- The caps of a free account.
use critalarm_server.Prelude.{
  ◌+◌, ◌==◌, ltb, if◌then◌else◌, ◌&&◌, ◌≡◌, [], ◌∷◌, List, false, some, none,
}
use critalarm_server.Tier.Purchases.{BillingIdRow}
use critalarm_server.Tier.Packs.{PackRules, PackRow, packs_for}
use critalarm_server.Tier.Packs.Best.{IsBest, packs_for-IsBest}
use critalarm_server.Tier.Caps.{free, AccountRow}
use critalarm_server.Tier.P4Usage.{daily_cap, used, day_start, charge_p4, charge_p4_effect}

abbrev accounts : List AccountRow
accounts = record { id = 1; tier = free } ∷ []

charge_p4_effect_example :
    let (charged, rows') = charge_p4 accounts 90000 1 [] in
    (charged ≡ ltb (used 1 (day_start 90000) []) (daily_cap 1 accounts))
    × (used 1 86400 rows'
        ≡ used 1 86400 [] + (if charged && (1 == 1) && (day_start 90000 == 86400) then 1 else 0))
charge_p4_effect_example = charge_p4_effect accounts 90000 1 1 86400 []

-- A grant that ends at 100000 and a store pack that ends at 95000.
packs_for-IsBest_example :
    let rules : PackRules = record { includes = λ tier. []; store_reads = false } in
    let packs : List PackRow =
      record { owner = 3; held = record { pack = "pro"; expires_at = some 95000 } } ∷ [] in
    let grants : List PackRow =
      record { owner = 1; held = record { pack = "pro"; expires_at = some 100000 } } ∷ [] in
    let ids : List BillingIdRow =
      record {
        app_user_id = 3;
        account_id = 1;
        linked_at = 0;
        last_event_at = none;
        entitled_tier = free;
      }
      ∷ [] in
    let account : AccountRow = record { id = 1; tier = free } in
    IsBest rules 90000 account ids packs grants
      (packs_for rules 90000 (some account) ids packs grants)
packs_for-IsBest_example =
    packs_for-IsBest (record { includes = λ tier. []; store_reads = false }) 90000
      (record { id = 1; tier = free })
      (record {
        app_user_id = 3;
        account_id = 1;
        linked_at = 0;
        last_event_at = none;
        entitled_tier = free;
      }
        ∷ [])
      (record { owner = 3; held = record { pack = "pro"; expires_at = some 95000 } } ∷ [])
      (record { owner = 1; held = record { pack = "pro"; expires_at = some 100000 } } ∷ [])
