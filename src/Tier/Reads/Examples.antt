-- ===== src/Tier/Reads/Examples.antt =====
-- A customer who pays for the hosted tier, with a third read out.
use critalarm_server.Prelude.{
  false, some, none, List, [], ◌∷◌, ◌≡◌, refl, arith, find_row, count_where,
}
use critalarm_server.Tier.Caps.{relay, hosted}
use critalarm_server.Tier.Reads.View.{
  ActiveEntitlement, StoreReadConfig, listed, not_read, view_entitlements,
}
use critalarm_server.Tier.Reads.Apply.{
  ReadBillingRow, ReadStore, by_webhook, by_refresh, billing_row, apply,
}
use critalarm_server.Tier.Reads.{finish_read}
use critalarm_server.Tier.Reads.Fence.{Fenced, apply_fence}
use critalarm_server.Tier.Reads.Failed.{SameButQueue, QueuedAfter, finish_read_failed}
use critalarm_server.Tier.Reads.Flights.{
  OneInFlight, enqueues, reads, settles, run_reads, run_reads_one,
}

abbrev config : StoreReadConfig
config = record {
  entitlements = ("hosted_monthly", hosted) ∷ ("relay_monthly", relay) ∷ [];
  pack_entitlements = ("pro", "pro") ∷ [];
}

abbrev customer : ReadBillingRow
customer = record {
  link = record {
    app_user_id = 7;
    account_id = 7;
    linked_at = 500;
    last_event_at = none;
    entitled_tier = hosted;
  };
  read_seq = 3;
  applied_seq = 2;
  checked_at = some 900;
}

abbrev store : ReadStore
store = record {
  accounts = record { id = 7; tier = hosted; merged_into = none } ∷ [];
  billing_ids = customer ∷ [];
  packs = [];
  changes = [];
  queue = record { app_user_id = 7; due_at = 950; attempts = 1; dirty = false } ∷ [];
  unlinked = [];
  flights = record { app_user_id = 7; seq = 3; trigger = by_webhook; follow = none } ∷ [];
}

abbrev items : List ActiveEntitlement
items = record { entitlement_id = "relay_monthly"; expires_at = none } ∷ []

apply_fence_example :
    Fenced 7 3 1000
      (view_entitlements config items)
      customer
      store
      (apply config 7 3 items by_webhook 1000 store)
unfolding billing_row find_row
apply_fence_example = apply_fence config 7 3 items by_webhook 1000 customer store refl

-- The second failure: the next read is due five minutes later.
finish_read_failed_example :
    let (outcome, s') = finish_read config 7 3 by_webhook not_read 1000 store in
    (outcome ≡ false) × SameButQueue store s' × QueuedAfter 7 1000 store s'
finish_read_failed_example = finish_read_failed config 7 3 by_webhook not_read 1000 store tt

one_out : OneInFlight store
unfolding count_where
one_out id = ground arith

run_reads_one_example : OneInFlight (
    run_reads config
      (enqueues 7 1000 ∷ reads 7 by_refresh 1001 ∷ settles 7 (listed false items) 1002 ∷ [])
      store)
run_reads_one_example =
    run_reads_one config
      (enqueues 7 1000 ∷ reads 7 by_refresh 1001 ∷ settles 7 (listed false items) 1002 ∷ []) store
      one_out
