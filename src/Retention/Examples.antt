-- ===== src/Retention/Examples.antt =====
-- An hourly prune of a free account on a hosted server.
use critalarm_server.Prelude.{
  ℕ, ◌+◌, ◌≡◌, not, arith, refl, true, none, some, List, [], ◌∷◌, length, select, count_where,
}
use critalarm_server.Incident.Types.{opened, closed, IncidentState, IncidentRow, withheld, Store}
use critalarm_server.Tier.Caps.{free, AccountRow}
use critalarm_server.Check.Types.{missed, CheckStore}
use critalarm_server.Ingress.Types.{hosted_server}
use critalarm_server.Retention.Prune.{prune_history, prune_check_rounds}
use critalarm_server.Retention.Kept.{
  outlived_any, is_recent, HasRounds, prune_history_effect, prune_check_rounds_effect,
}

abbrev incident : ℕ → IncidentState → IncidentRow
incident id state = record {
  id = id;
  topic_id = 7;
  state = state;
  opened_at = 1000;
  acked_at = none;
  closed_at = none;
  last_message_at = 1000;
  updated_at = 1000;
  max_ring_s = 1800;
}

abbrev accounts : List AccountRow
accounts = record { id = 1; tier = free } ∷ []

-- Two incidents of the same age: one closed, one that nobody has answered.
abbrev old : Store
old = record {
  topics =
      record {
        id = 7;
        account_id = 1;
        name = "prod";
        base_url = "https://alerts.example.com";
        topic_hash = "h";
        critical = true;
        repeat_interval_s = 30;
        max_ring_s = 1800;
        desk_timer_s = 600;
        relay_content = withheld;
      }
      ∷ [];
  incidents = incident 0 closed ∷ incident 1 opened ∷ [];
  timers = [];
  messages = [];
  drawn = 2;
}

prune_history_effect_example :
    let (result, s') = prune_history hosted_server 1000000 accounts old in
    (s'.incidents ≡ select (λ i. not (outlived_any 1000000 old.topics accounts i)) old.incidents)
    × (result.incidents + length s'.incidents ≡ length old.incidents)
prune_history_effect_example = prune_history_effect hosted_server 1000000 accounts old refl

abbrev checks : CheckStore
checks = record {
  accounts = accounts;
  devices = [];
  device_tokens = [];
  device_checks = [];
  check_rounds =
      record {
        id = 0;
        device_id = 1;
        nonce_hash = "n";
        opened_at = 1000;
        closes_at = 87400;
        closed_at = some 87400;
        attempts = 1;
        result = some missed;
        attempt_received = none;
        receipt_at = none;
        device_received_at = none;
        late_receipt_at = none;
        reason = none;
        held_until = none;
      }
      ∷ [];
  check_attempts =
      record { round_id = 0; attempt = 1; recorded_at = 1000; outcome = none; status = none } ∷ [];
  counters = [];
  drawn = 1;
}

rounds_there : HasRounds checks
unfolding count_where
rounds_there = (omega arith, tt)

prune_check_rounds_effect_example :
    let (deleted, s') = prune_check_rounds hosted_server 9000000 checks in
    (s'.check_rounds ≡ select (is_recent 9000000) checks.check_rounds)
    × (deleted + length s'.check_rounds ≡ length checks.check_rounds)
    × HasRounds s'
prune_check_rounds_effect_example =
    prune_check_rounds_effect hosted_server 9000000 checks refl rounds_there
