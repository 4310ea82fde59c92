-- ===== src/Push/Examples.antt =====
-- One alarm for a topic of account 7: its phone, whose send throws, its other phone, and a phone of
-- account 8 on a topic of the same name.
use critalarm_server.Prelude.{
  ℕ, ◌==◌, if◌then◌else◌, true, false, String, none, some, List, [], ◌∷◌, ◌++◌, ◌≡◌, refl, All,
  find_row, count_where, select, length,
}
use critalarm_server.Incident.Types.{
  DeliveryEvent, opening, withheld, TopicRow, MessageRecord, IncidentRow, opened,
}
use critalarm_server.Check.Types.{ios}
use critalarm_server.Push.Types.{
  sandbox, production, PushDevice, starting, answered, threw, PushDispatchers, DeviceRow,
  SubscriptionRow, PushStore,
}
use critalarm_server.Push.Dispatcher.{
  owning_account, account_of_message, ring_token, is_subscribed, subscribed, read_rows,
  subscribed_devices, recipients, send_to_devices, send_each, send_alarm, tally_alarm, after_answer,
  remember_apns_environment, drop_token,
}
use critalarm_server.Push.Activities.{
  LiveActivityTarget, fresh_dispatch, dispatch, dispatch_each, dispatch_event,
  update_live_activities, live_activity_push,
}
use critalarm_server.Push.Apns.{ApnsSenderOptions, ApnsRequest, request_for, alarm_request}
use critalarm_server.Push.Hosts.{
  ApnsTransport, Pushed, tried, tries, send_with_retry, push_request, push_request_bounded,
  after_first,
}
use critalarm_server.Push.Fcm.{fcm_payload}
use critalarm_server.Push.Hidden.{retitled, pushes_hide_content}
use critalarm_server.Push.Tally.{was_delivered, was_thrown, dispatch_tally}
use critalarm_server.Push.Recipients.{
  requests_of, alarms, Addressed, send_to_devices_all, dispatch-Addressed,
}

abbrev alarm_event : DeliveryEvent
alarm_event = record {
  kind = opening;
  topic_hash = "h";
  topic = "prod";
  incident_id = some 9;
  message_id = some 5;
  priority = 5;
  max_ring_s = 300;
  ring_until = some 1300;
  server = "https://alarm.example";
  title = "disk full";
  body = "node 3";
  critical = true;
  relay_content = none;
  account_id = none;
}

abbrev topics : List TopicRow
topics =
    record {
      id = 1;
      account_id = 7;
      name = "prod";
      base_url = "https://alarm.example";
      topic_hash = "h";
      critical = true;
      repeat_interval_s = 60;
      max_ring_s = 300;
      desk_timer_s = 600;
      relay_content = withheld;
    }
    ∷ []

abbrev messages : List MessageRecord
messages =
    record {
      id = 5;
      topic_id = 1;
      incident_id = some 9;
      title = "disk full";
      body = "node 3";
      priority = 5;
      tags = [];
      click = none;
      markdown = false;
      created_at = 1000;
    }
    ∷ []

abbrev incidents : List IncidentRow
incidents =
    record {
      id = 9;
      topic_id = 1;
      state = opened;
      opened_at = 1000;
      acked_at = none;
      closed_at = none;
      last_message_at = 1000;
      updated_at = 1000;
      max_ring_s = 300;
    }
    ∷ []

abbrev phone : ℕ → ℕ → String → DeviceRow
phone id account_id token = record {
  id = id;
  account_id = account_id;
  platform = ios;
  push_token = token;
  apns_environment = none;
}

abbrev subscription : ℕ → SubscriptionRow
subscription device_id = record { device_id = device_id; topic_hash = "h" }

abbrev database : PushStore
database = record {
  engine = record {
    topics = topics;
    incidents = incidents;
    timers = [];
    messages = messages;
    drawn = 0;
  };
  devices = phone 1 7 "t1" ∷ phone 2 7 "t2" ∷ phone 3 8 "t3" ∷ [];
  device_tokens = [];
  subscriptions = subscription 1 ∷ subscription 2 ∷ subscription 3 ∷ [];
}

-- The first call throws, and the others are accepted.
abbrev senders : PushDispatchers
senders = record {
  apns = λ log device event.
      if length log == 0
      then threw
      else answered (record { status = 200; stale = false; apns_environment = some production });
  fcm = λ log device event. threw;
  live_activity = none;
  now = λ log. 1000;
}

-- One push was accepted and one send threw; the phone of the other account was not sent to.
one_of_two :
    (dispatch senders (alarm_event ∷ []) database).0 ≡ record { delivered = 1; failed = some 1 }
unfolding dispatch dispatch_each dispatch_event owning_account account_of_message send_to_devices
    recipients subscribed_devices read_rows subscribed is_subscribed ring_token select find_row
    count_where send_each send_alarm tally_alarm after_answer remember_apns_environment drop_token
    update_live_activities
one_of_two = refl

dispatch_tally_example :
    let result = (dispatch senders (alarm_event ∷ []) database).0 in
    let log = (dispatch senders (alarm_event ∷ []) database).1.log in
    (result.delivered ≡ count_where was_delivered log)
    × (result.failed
        ≡ (if count_where was_thrown log == 0 then none else some (count_where was_thrown log)))
dispatch_tally_example = dispatch_tally senders (alarm_event ∷ []) database

dispatch-Addressed_example :
    All (Addressed database) (dispatch senders (alarm_event ∷ []) database).1.log
dispatch-Addressed_example = dispatch-Addressed senders (alarm_event ∷ []) database

send_to_devices_all_example :
    requests_of (send_to_devices senders alarm_event 7 (fresh_dispatch database)).log
    ≡ requests_of [] ++ alarms alarm_event (recipients alarm_event 7 database)
send_to_devices_all_example = send_to_devices_all senders alarm_event 7 (fresh_dispatch database)

abbrev options : ApnsSenderOptions
options = record { bundle_id = "app.example"; environment = production }

abbrev device : PushDevice
device = record {
  id = 1;
  account_id = 7;
  platform = ios;
  push_token = "t1";
  apns_environment = none;
}

-- The first host does not know the token, and the second takes it at the second try.
abbrev transport : ApnsTransport
transport asked production request = some (record { status = 400; reason = "BadDeviceToken" })
transport asked sandbox request =
    if length asked == 1 then none else some (record { status = 200; reason = "" })

abbrev request : ApnsRequest
request = alarm_request options "token" 1000 device alarm_event

three_requests : push_request transport production request ≡ (
  answered (record { status = 200; stale = false; apns_environment = some sandbox }),
  production ∷ sandbox ∷ sandbox ∷ [],
)
unfolding push_request after_first send_with_retry
three_requests = refl

push_request_bounded_example :
    Pushed transport production request
      (tried transport [] production request)
      (tries transport production request)
      (push_request transport production request)
push_request_bounded_example = push_request_bounded transport production request

abbrev target : LiveActivityTarget
target = record { token = "la"; apns_environment = none }

pushes_hide_content_example :
    (request_for options "token" 1000 device (retitled "other" "text" alarm_event)
      ≡ request_for options "token" 1000 device alarm_event)
    × (fcm_payload device (retitled "other" "text" alarm_event) ≡ fcm_payload device alarm_event)
    × (live_activity_push starting (retitled "other" "text" alarm_event) 9 none 1000 target
        ≡ live_activity_push starting alarm_event 9 none 1000 target)
pushes_hide_content_example =
    pushes_hide_content alarm_event "other" "text" options "token" 1000 device starting 9 none
      target refl
