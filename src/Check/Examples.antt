-- ===== src/Check/Examples.antt =====
-- The weekly check of one phone: enrolled, sent a check, and a receipt.
use critalarm_server.Prelude.{
  String, ◌+◌, ◌≤◌, ◌<◌, true, false, ◌&&◌, ◌≡◌, refl, none, some, [], ◌∷◌, arith, find_row,
  count_where, update_where, str_eq,
}
use mathlib.Core.Option
use critalarm_server.Check.CheckId.{is_check_id, all_hex}
use critalarm_server.Check.Schedule.{slot_at_or_after, slot_at_or_after_first, OnSlot, week_s}
use critalarm_server.Tier.Caps.{hosted}
use critalarm_server.Check.Types.{
  received, missed, accepted, ios, apns, whole, Notes, PlannedCheck, StateRow, RoundRow, DeviceRow,
  CheckStore, Outside,
}
use critalarm_server.Check.Statements.{
  gets_checks, state, round, device, alarm_token, token_of, open_round, update_state,
  update_unclosed,
}
use critalarm_server.Check.Close.{close, counted_as}
use critalarm_server.Check.Plan.{
  due_by, plan, plan_device, hold_or_send, send, insert_attempt, confirm, confirm_open,
}
use critalarm_server.Check.Receipts.{receipt, round_of_nonce}
use critalarm_server.Check.Runs.{plans, receives, run, run_closed}
use critalarm_server.Check.Sends.{Sent, plan_push}
use critalarm_server.Check.Confirm.{Confirmed, confirm_yes}
use critalarm_server.Check.Results.{misses_after, close_once}
use critalarm_server.Check.Repeats.{receipt_again}

abbrev outside : Outside
outside = record {
  slot_for = λ d. d;
  check_id_for = λ id. "chk_0123456789abcdef0123456789abcdef";
  sha256 = λ text. text;
  round_ids = λ k. k;
}

-- A round of device 1 that opened at 1000.
abbrev first_round : RoundRow
first_round = record {
  id = 0;
  device_id = 1;
  nonce_hash = "chk_0123456789abcdef0123456789abcdef";
  opened_at = 1000;
  closes_at = 87400;
  closed_at = none;
  attempts = 1;
  result = none;
  attempt_received = none;
  receipt_at = none;
  device_received_at = none;
  late_receipt_at = none;
  reason = none;
  held_until = none;
}

abbrev phone : StateRow
phone = record {
  device_id = 1;
  enabled = true;
  enrolled_at = 1000;
  next_attempt_at = some 22600;
  next_due_at = 345601;
  round_id = some 0;
  misses = 1;
  last_result = some missed;
  second_miss_at = none;
  last_sent_at = none;
  last_received_at = none;
}

-- After the first push of the round.
abbrev sent_once : CheckStore
sent_once = record {
  accounts = record { id = 5; tier = hosted } ∷ [];
  devices =
      record {
        id = 1;
        account_id = 5;
        platform = ios;
        apns_environment = some "production";
        last_alarm_push_at = none;
        push_token = "";
      }
      ∷ [];
  device_tokens = record { device_id = 1; kind = apns; activity_id = ""; token = "t1" } ∷ [];
  device_checks = phone ∷ [];
  check_rounds = first_round ∷ [];
  check_attempts =
      record {
        round_id = 0;
        attempt = 1;
        recorded_at = 1000;
        outcome = some accepted;
        status = some 200;
      }
      ∷ [];
  counters = [];
  drawn = 1;
}

-- The second push of the round, as `plan` hands it out at 22600.
abbrev second_push : PlannedCheck
second_push = record {
  round_id = 0;
  attempt = 2;
  check_id = "chk_0123456789abcdef0123456789abcdef";
  platform = ios;
  push_token = "t1";
  apns_environment = some "production";
}

abbrev notes : Notes
notes = record { attempt = whole 1; received_at = whole 1005 }

slot_at_or_after_first_example :
    (1000 ≤ slot_at_or_after 7 1000)
    × (slot_at_or_after 7 1000 < 1000 + week_s)
    × OnSlot 7 (slot_at_or_after 7 1000)
    × (slot_at_or_after 7 1000 ≤ 345607)
slot_at_or_after_first_example = slot_at_or_after_first 7 1000 345607 (omega arith) refl

run_closed_example :
    let s = (close first_round missed none 87400 sent_once).1 in
    (r' : RoundRow) × (round 0 (
        run outside s
          (receives 1 5 "chk_0123456789abcdef0123456789abcdef" notes 90000 ∷ plans 1 400000 ∷ []))
      ≡ some r')
    × (r'.result ≡ some missed)
    × (r'.reason ≡ none)
    × (r'.closed_at ≡ some 87400)
    × (r'.closes_at ≡ 87400)
unfolding close update_unclosed update_where update_state counted_as count_where round find_row
run_closed_example =
    run_closed outside (close first_round missed none 87400 sent_once).1
      (receives 1 5 "chk_0123456789abcdef0123456789abcdef" notes 90000 ∷ plans 1 400000 ∷ []) 0
      (record first_round { result = some missed; closed_at = some 87400 }) missed refl refl

plan_push_example :
    (st : StateRow) × (d : DeviceRow) × (state 1 sent_once ≡ some st)
    × (device 1 sent_once ≡ some d)
    × ((st.enabled && due_by 22600 st.next_attempt_at) ≡ true)
    × (gets_checks d.account_id sent_once ≡ true)
    × (str_eq d.push_token "" ≡ false)
    × Sent d 22600 sent_once second_push (plan outside 1 22600 sent_once).1
unfolding plan state device alarm_token token_of open_round round plan_device gets_checks
    hold_or_send send insert_attempt find_row count_where
plan_push_example = plan_push outside 1 22600 sent_once second_push refl

confirm_yes_example :
    (r : RoundRow) × (st : StateRow) × (d : DeviceRow) × Confirmed second_push 22601 sent_once r st
      d
    × ((confirm second_push 22601 sent_once).1 ≡ sent_once)
unfolding confirm confirm_open state device alarm_token token_of round gets_checks find_row
confirm_yes_example = confirm_yes second_push 22601 sent_once refl

close_once_example :
    let s' = (close first_round missed none 87400 sent_once).1 in
    (Option.map (λ x. x.misses) (state 1 s') ≡ some (misses_after missed 1))
    × (close first_round received none 90000 s' ≡ (false, s'))
unfolding count_where state find_row
close_once_example =
    close_once first_round phone sent_once missed none 87400 received none 90000 refl refl

receipt_again_example :
    let id : String = "chk_0123456789abcdef0123456789abcdef" in
    let first = receipt outside 1 5 id notes 1010 sent_once in
    let second = receipt outside 1 5 id notes 500000 first.1 in
    (Option.map (λ x. x.counted) first.0 ≡ some true)
    × (Option.map (λ x. x.counted) second.0 ≡ some true)
    × (second.1 ≡ first.1)
unfolding is_check_id all_hex round_of_nonce find_row
receipt_again_example =
    receipt_again outside 1 5 "chk_0123456789abcdef0123456789abcdef" notes notes 1010 500000
      sent_once first_round refl refl refl refl
