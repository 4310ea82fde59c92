-- ===== src/Check/Scan/Examples.antt =====
-- One pass over one phone that is due, while an alarm note waits to be written.
use critalarm_server.Prelude.{◌+◌, ◌*◌, true, false, some, none, [], ◌∷◌, refl}
use critalarm_server.Tier.Caps.{hosted}
use critalarm_server.Check.Types.{ios, apns, CheckStore, Outside}
use critalarm_server.Check.Scan.Senders.{Scan, ScanWorld}
use critalarm_server.Check.Scan.{scan}
use critalarm_server.Check.Scan.Departures.{Passed, scan_departures}

abbrev outside : Outside
outside = record {
  slot_for = λ d. d;
  check_id_for = λ id. "chk_0123456789abcdef0123456789abcdef";
  sha256 = λ text. text;
  round_ids = λ k. k;
}

-- Enrolled at 1000 and due at once.
abbrev enrolled : CheckStore
enrolled = record {
  accounts = record { id = 5; tier = hosted } ∷ [];
  devices =
      record {
        id = 1;
        account_id = 5;
        platform = ios;
        apns_environment = some "production";
        last_alarm_push_at = none;
        push_token = "";
      }
      ∷ [];
  device_tokens = record { device_id = 1; kind = apns; activity_id = ""; token = "t1" } ∷ [];
  device_checks =
      record {
        device_id = 1;
        enabled = true;
        enrolled_at = 1000;
        next_attempt_at = some 1000;
        next_due_at = 1000;
        round_id = none;
        misses = 0;
        last_result = none;
        second_miss_at = none;
        last_sent_at = none;
        last_received_at = none;
      }
      ∷ [];
  check_rounds = [];
  check_attempts = [];
  counters = [];
  drawn = 0;
}

-- The first host answers that the token is the other's, which takes it.
abbrev world : ScanWorld
world = record {
  outside = outside;
  now = λ step. 1000 + step;
  now_ms = λ step. step * 100;
  meanwhile = λ step shared. shared;
  apns_configured = true;
  fcm_configured = false;
  environment = "production";
  apns_transport = λ step environment planned.
      some (record { status = 400; reason = "BadDeviceToken"; unregistered = false });
  fcm_post = λ step token planned. none;
  fcm_access = λ step. none;
}

abbrev start : Scan
start = record {
  store = enrolled;
  notes = (2, 990) ∷ [];
  running = false;
  cached = none;
  step = 0;
  handings = [];
  departures = [];
}

scan_departures_example : Passed world (scan world start)
scan_departures_example = scan_departures world start refl refl
