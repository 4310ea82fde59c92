-- ===== src/Tier/Purchases/Examples.antt =====
-- A subscription that lapses on an account that absorbed another.
use critalarm_server.Prelude.{◌≤◌, ◌<◌, ◌≡◌, refl, none, some, [], ◌∷◌, arith}
use critalarm_server.Tier.Caps.{free, relay, hosted}
use critalarm_server.Tier.Purchases.{
  Event, Billing, rank, account_tier_after, apply_revenue_cat_event,
}
use critalarm_server.Tier.Purchases.Steps.{account_tier_after_lowers, apply_revenue_cat_event_again}

abbrev lapse : Event
lapse = record {
  id = none;
  event_timestamp_ms = some 5000000;
  app_user_id = 2;
  type = "EXPIRATION";
  entitlement_id = some "hosted";
  entitlement_ids = [];
  expiration_at_ms = none;
}

abbrev billing : Billing
billing = record {
  accounts =
      record { id = 1; tier = hosted; merged_into = none }
      ∷ record { id = 2; tier = free; merged_into = some 1 }
      ∷ [];
  billing_ids =
      record {
        app_user_id = 2;
        account_id = 2;
        linked_at = 0;
        last_event_at = none;
        entitled_tier = hosted;
      }
      ∷ [];
  events = [];
  changes = [];
}

account_tier_after_lowers_example :
    (rank hosted ≤ rank hosted)
    × (rank free < rank hosted)
    × (account_tier_after hosted relay hosted free ≡ relay)
unfolding account_tier_after
account_tier_after_lowers_example = account_tier_after_lowers hosted relay hosted free (omega arith)

apply_revenue_cat_event_again_example :
    let s' = apply_revenue_cat_event [] lapse 6000 billing in
    apply_revenue_cat_event [] lapse 7000 s' ≡ s'
apply_revenue_cat_event_again_example =
    apply_revenue_cat_event_again [] lapse 6000 7000 billing refl
