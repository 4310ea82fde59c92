-- ===== src/Stats/Examples.antt =====
-- The counters after an alarm that was opened, acknowledged and reopened.
use critalarm_server.Prelude.{◌+◌, false, ◌≡◌, refl, none, List, [], ◌∷◌}
use critalarm_server.Incident.Types.{EventKind, opening, acking, reopening, DeliveryEvent}
use critalarm_server.Stats.Counters.{
  alarms_rung, incidents_opened, acks, has, count_events, total, times, alarms, opens,
  acknowledgements, count_events_effect,
}

abbrev event : EventKind → DeliveryEvent
event kind = record {
  kind = kind;
  topic_hash = "h";
  topic = "prod";
  incident_id = none;
  message_id = none;
  priority = 5;
  max_ring_s = 1800;
  ring_until = none;
  server = "https://alerts.example.com";
  title = "";
  body = "";
  critical = false;
  relay_content = none;
  account_id = none;
}

abbrev events : List DeliveryEvent
events = event opening ∷ event acking ∷ event reopening ∷ []

count_events_effect_example :
    let after = count_events 1000 "local" events [] in
    (total [] alarms_rung after ≡ total [] alarms_rung [] + times alarms events)
    × (total [] incidents_opened after ≡ total [] incidents_opened [] + times opens events)
    × (total [] acks after ≡ total [] acks [] + times acknowledgements events)
unfolding has
count_events_effect_example = count_events_effect [] 1000 "local" events [] refl
