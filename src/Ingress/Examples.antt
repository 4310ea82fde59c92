-- ===== src/Ingress/Examples.antt =====
-- A heads-up and an alarm on a hosted server.
use critalarm_server.Prelude.{
  ℕ, true, false, ◌≡◌, ◌≢◌, refl, find_row, ◌⊎◌, none, some, List, [], ◌∷◌,
}
use critalarm_server.Incident.Types.{DeliveryEvent, IdGenerator}
use critalarm_server.Tier.P4Usage.{daily_cap, used}
use critalarm_server.Tier.Caps.{free}
use critalarm_server.Ingress.Types.{
  PublishInput, TopicRecord, hosted_server, Dispatched, broken, IngressState, over_cap,
}
use critalarm_server.Ingress.Publish.{publish}
use critalarm_server.Ingress.Storing.{Keeps, is_over, publish_stores}

abbrev counting : IdGenerator
counting = record { message = λ k. k; incident = λ k. k; timer = λ k. k }

abbrev prod : TopicRecord
prod = record {
  id = 7;
  account_id = 1;
  name = "prod";
  base_url = "https://alerts.example.com";
  topic_hash = "h";
  critical = true;
  repeat_interval_s = 30;
  max_ring_s = 1800;
  desk_timer_s = 600;
  relay_content = none;
}

abbrev text : ℕ → PublishInput
text priority = record {
  topic = "prod";
  message = "disk at 91%";
  title = none;
  priority = priority;
  tags = [];
  click = none;
  markdown = false;
}

-- A free account that has used its fifty heads-ups of the day.
abbrev spent : IngressState
spent = record {
  accounts = record { id = 1; tier = free } ∷ [];
  usage = record { account_id = 1; day_start = 86400; count = 50 } ∷ [];
  store = record { topics = []; incidents = []; timers = []; messages = []; drawn = 0 };
}

-- A provider that is down.
down : List DeliveryEvent → Dispatched
down events = broken

-- An alarm with a tag, which opens an incident.
abbrev alarm : PublishInput
alarm = record (text 5) { tags = "db" ∷ [] }

publish_stores_example :
    ((is_over (some hosted_server) 90000 prod alarm spent ≡ true)
      × ((publish counting down (some hosted_server) 90000 prod alarm spent).0 ≡ over_cap)
      × ((publish counting down (some hosted_server) 90000 prod alarm spent).1 ≡ spent))
    ⊎ ((is_over (some hosted_server) 90000 prod alarm spent ≡ false)
        × ((publish counting down (some hosted_server) 90000 prod alarm spent).0 ≢ over_cap)
        × Keeps prod alarm 90000 spent.store
            (publish counting down (some hosted_server) 90000 prod alarm spent).1.store)
publish_stores_example = publish_stores counting down (some hosted_server) 90000 prod alarm spent

-- The alarm is not over the cap, and a heads-up is.
alarm_stored : is_over (some hosted_server) 90000 prod alarm spent ≡ false
alarm_stored = refl

heads_up_over : is_over (some hosted_server) 90000 prod (text 4) spent ≡ true
unfolding daily_cap used find_row
heads_up_over = refl
