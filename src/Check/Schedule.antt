-- ===== src/Check/Schedule.antt =====
-- src/check/schedule.ts: the numbers of the weekly check and its one piece of arithmetic.
use critalarm_server.Prelude.{
  ℕ, ◌+◌, ◌-◌, ◌*◌, ◌%◌, ◌≤◌, ◌<◌, ◌==◌, leb, if◌then◌else◌, ◌≡◌, List, [], ◌∷◌, arith, length,
}

abbrev pub hour_s : ℕ
hour_s = 3600

abbrev pub day_s : ℕ
day_s = 86400

abbrev pub week_s : ℕ
week_s = 604800

abbrev pub round_length_s : ℕ
round_length_s = 86400

abbrev pub attempt_offsets_s : List ℕ
attempt_offsets_s = 0 ∷ 21600 ∷ 64800 ∷ []

abbrev pub max_attempts : ℕ
max_attempts = length attempt_offsets_s

abbrev pub alarm_hold_s : ℕ
alarm_hold_s = 1800

abbrev pub min_round_gap_s : ℕ
min_round_gap_s = 259200

abbrev pub first_monday_s : ℕ
first_monday_s = 345600

-- ((time - FIRST_MONDAY_S - slot) % WEEK_S + WEEK_S) % WEEK_S. A difference on ℕ stops at 0, so a
-- negative one is written with the two sides swapped: its JavaScript remainder is not positive.
unfoldable pub into_week : ℕ → ℕ → ℕ
into_week slot time =
    if leb (345600 + slot) time
    then ((time - (345600 + slot)) % 604800 + 604800) % 604800
    else (604800 - ((345600 + slot) - time) % 604800) % 604800

unfoldable pub slot_at_or_after : ℕ → ℕ → ℕ
unfolding into_week
slot_at_or_after slot time =
    let into = into_week slot time in if into == 0 then time else time + (604800 - into)

-- `slotFor` hashes the device's id, so it is an argument.
unfoldable pub round_after : (ℕ → ℕ) → ℕ → ℕ → ℕ
round_after slot_for device_id opened_at =
    slot_at_or_after (slot_for device_id) (opened_at + min_round_gap_s)

-- A second of the given slot: some whole weeks apart from the slot of the first week.
abbrev pub OnSlot : ℕ → ℕ → Type 0
OnSlot slot t = t % 604800 ≡ (345600 + slot) % 604800

slot_at_or_after-range :
    (slot time : ℕ)
    → (time ≤ slot_at_or_after slot time) × (slot_at_or_after slot time < time + 604800)
unfolding slot_at_or_after
slot_at_or_after-range slot time = (ground arith, ground arith)

slot_at_or_after-OnSlot : (slot time : ℕ) → OnSlot slot (slot_at_or_after slot time)
unfolding slot_at_or_after
slot_at_or_after-OnSlot slot time = ground arith

-- Whatever the slot and the time, and also before the first Monday: the answer falls on the slot,
-- it is at or after the time and within the week that starts then, and any other second of the slot
-- at or after the time is no earlier.
pub slot_at_or_after_first :
    (slot time other : ℕ)
    → time ≤ other
    → OnSlot slot other
    → let at = slot_at_or_after slot time in
      (time ≤ at) × (at < time + week_s) × OnSlot slot at × (at ≤ other)
slot_at_or_after_first slot time other le on_other =
    let range = slot_at_or_after-range slot time in
    let on = slot_at_or_after-OnSlot slot time in
    (range.0, range.1, on, omega (arith, range.0, range.1, on))

-- Wherever in the week a round opened, the next is due on the device's slot, at least three and
-- less than ten days after that one opened.
round_after_lem :
    (slot_for : ℕ → ℕ) (device_id opened_at : ℕ)
    → let due = round_after slot_for device_id opened_at in
      (opened_at + min_round_gap_s ≤ due)
      × (due < opened_at + 10 * day_s)
      × OnSlot (slot_for device_id) due
unfolding round_after
round_after_lem slot_for device_id opened_at =
    let range = slot_at_or_after-range (slot_for device_id) (opened_at + 259200) in
    (
      range.0,
      omega (arith, range.1),
      slot_at_or_after-OnSlot (slot_for device_id) (opened_at + 259200),
    )

-- A round that opened on the device's slot is followed by one exactly a week later.
round_after_week :
    (slot_for : ℕ → ℕ) (device_id opened_at : ℕ)
    → OnSlot (slot_for device_id) opened_at
    → round_after slot_for device_id opened_at ≡ opened_at + week_s
unfolding round_after
round_after_week slot_for device_id opened_at on_slot =
    let range = slot_at_or_after-range (slot_for device_id) (opened_at + 259200) in
    let on = slot_at_or_after-OnSlot (slot_for device_id) (opened_at + 259200) in
    omega (arith, range.0, range.1, on, on_slot)
