-- ===== src/Check/Scan.antt =====
-- src/check/scheduler.ts, src/push/check.ts and the alarm notes of src/check/device-hooks.ts: one
-- pass over the devices that are due. Each wait on the network is a step at which the rest of the
-- server may change the store and the notes in any way (`meanwhile`); the clocks and what the
-- providers answer depend on the step. A time limit that runs out is an answer of none. The write
-- of an alarm note does not throw here.
pub mod Senders
pub mod Departures
mod Examples
use critalarm_server.Prelude.{
  ℕ, ◌+◌, ◌==◌, ltb, leb, if◌then◌else◌, Bool, true, false, not, ◌&&◌, ◌||◌, String, str_eq, Option,
  none, some, List, [], ◌∷◌, ◌++◌, update_where,
}
use critalarm_server.Check.Types.{
  AttemptOutcome, accepted, push_refused, failed, cancelled, Platform, android, PlannedCheck,
  Device, CheckStore, Outside,
}
use critalarm_server.Check.Plan.{Planned, nothing, thrown, push, due, plan, record_outcome}
use critalarm_server.Check.Scan.Senders.{Scan, ScanWorld, CheckAnswer, send_check}

abbrev pub scan_batch : ℕ
scan_batch = 100

abbrev pub scan_budget_ms : ℕ
scan_budget_ms = 45000

unfoldable pub write_note : ℕ → ℕ → CheckStore → CheckStore
write_note device_id at s = record s {
  devices =
      update_where
        (λ d.
          (d.id == device_id)
          && elim d.last_alarm_push_at [ none ↦ true | some last ↦ ltb last at ])
        (λ d. record d { last_alarm_push_at = some at }) s.devices;
}

unfoldable pub write_notes : List (ℕ × ℕ) → CheckStore → CheckStore
write_notes [] s = s
write_notes ((device_id, at) ∷ notes) s = write_notes notes (write_note device_id at s)

-- AlarmNotes.flush: each note is written and deleted.
unfoldable pub flush : Scan → Scan
flush x = record x { store = write_notes x.notes x.store; notes = [] }

-- AlarmNotes.add
unfoldable pub add_note : ℕ → ℕ → List (ℕ × ℕ) → List (ℕ × ℕ)
add_note device_id at [] = (device_id, at) ∷ []
add_note device_id at ((id, known) ∷ notes) =
    let rest = (id, known) ∷ add_note device_id at notes in
    if id == device_id then (id, if ltb known at then at else known) ∷ notes else rest

-- What the pass does with the answer of `plan`.
unfoldable pub send_planned : ScanWorld → ℕ → Planned × CheckStore → ℕ → Scan → ℕ × Scan
send_planned w device_id (nothing, s) planned x = (planned, record x { store = s })
send_planned w device_id (thrown, s) planned x = (planned, record x { store = s })
send_planned w device_id (push next, s) planned x =
    let (answer, x') = send_check w next (record x {
      store = s;
      handings =
          x.handings
          ++ record { device_id = device_id; at = w.now x.step; before = x.store; planned = next }
            ∷ [];
    }) in
    (
      planned + 1,
      record x' {
        store =
            record_outcome next.round_id next.attempt answer.outcome answer.status (w.now x'.step)
              x'.store;
      },
    )

-- One turn of the loop, within the budget.
unfoldable pub scan_one : ScanWorld → ℕ → ℕ → Scan → ℕ × Scan
scan_one w device_id planned x =
    let x' = flush x in
    send_planned w device_id (plan w.outside device_id (w.now x'.step) x'.store) planned x'

unfoldable pub scan_each : ScanWorld → (started_at : ℕ) → List ℕ → ℕ → Scan → ℕ × Scan
scan_each w started_at [] planned x = (planned, x)
scan_each w started_at (device_id ∷ device_ids) planned x =
    let (planned', x') = scan_one w device_id planned x in
    let rest = scan_each w started_at device_ids planned' x' in
    if leb (started_at + scan_budget_ms) (w.now_ms x.step) then (planned, x) else rest

abbrev finished : ℕ × Scan → ℕ × Scan
finished (planned, x) = (planned, record x { running = false })

unfoldable pub scan : ScanWorld → Scan → ℕ × Scan
scan w x =
    if x.running
    then (0, x)
    else let x' = flush (record x { running = true }) in
      finished (scan_each w (w.now_ms x.step) (due scan_batch (w.now x'.step) x'.store) 0 x')
