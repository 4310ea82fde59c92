-- ===== src/Check/Runs.antt =====
-- Histories of the calls that the routes, the device hooks and the scan make on the check's store.
use critalarm_server.Prelude.{ℕ, String, List, [], ◌∷◌, ◌≡◌, some}
use critalarm_server.Check.Types.{
  RoundResult, AttemptOutcome, PlannedCheck, Notes, RoundRow, CheckStore, Outside,
}
use critalarm_server.Check.Statements.{round}
use critalarm_server.Check.Plan.{enable, disable, plan, confirm, record_outcome}
use critalarm_server.Check.Receipts.{view, rounds, receipt}
use critalarm_server.Check.Closed.{Keeps, Keeps-refl, Grows-trans, Grows-find_row}
use critalarm_server.Check.Closed.Operations.{
  enable-Keeps, disable-Keeps, plan-Keeps, confirm-Keeps, record_outcome-Keeps, view-Keeps,
  rounds-Keeps, receipt-Keeps,
}

-- The last number of each is what the clock reads.
pub data CheckCall : Type 0 where
  enables disables plans : ℕ → ℕ → CheckCall
  views lists : ℕ → ℕ → ℕ → CheckCall
  receives : ℕ → ℕ → String → Notes → ℕ → CheckCall
  confirms : PlannedCheck → ℕ → CheckCall
  records : ℕ → ℕ → AttemptOutcome → ℕ → ℕ → CheckCall

unfoldable pub step : Outside → CheckStore → CheckCall → CheckStore
step o s (enables device_id now) = enable device_id now s
step o s (disables device_id now) = disable device_id now s
step o s (plans device_id now) = (plan o device_id now s).1
step o s (views device_id account_id now) = (view o device_id account_id now s).1
step o s (lists device_id limit now) = (rounds device_id limit now s).1
step o s (receives device_id account_id check_id notes now) =
    (receipt o device_id account_id check_id notes now s).1
step o s (confirms planned now) = (confirm planned now s).1
step o s (records round_id attempt outcome status now) =
    record_outcome round_id attempt outcome status now s

unfoldable pub run : Outside → CheckStore → List CheckCall → CheckStore
run o s [] = s
run o s (c ∷ cs) = run o (step o s c) cs

step-Keeps : (o : Outside) (s : CheckStore) (c : CheckCall) → Keeps s (step o s c)
unfolding step
step-Keeps o s (enables device_id now) = enable-Keeps device_id now s
step-Keeps o s (disables device_id now) = disable-Keeps device_id now s
step-Keeps o s (plans device_id now) = plan-Keeps o device_id now s
step-Keeps o s (views device_id account_id now) = view-Keeps o device_id account_id now s
step-Keeps o s (lists device_id limit now) = rounds-Keeps device_id limit now s
step-Keeps o s (receives device_id account_id check_id notes now) =
    receipt-Keeps o device_id account_id check_id notes now s
step-Keeps o s (confirms planned now) = confirm-Keeps planned now s
step-Keeps o s (records round_id attempt outcome status now) =
    record_outcome-Keeps round_id attempt outcome status now s

run-Keeps : (o : Outside) (s : CheckStore) (cs : List CheckCall) → Keeps s (run o s cs)
unfolding run
run-Keeps o s [] = Keeps-refl s
run-Keeps o s (c ∷ cs) = Grows-trans (step-Keeps o s c) (run-Keeps o (step o s c) cs)

-- A round that has a result is still there after any further calls, in any order and at any times,
-- clocks that run back included, and it keeps its result, its reason, the time that it closed and
-- the time that it was to close.
pub run_closed :
    (o : Outside) (s : CheckStore) (cs : List CheckCall) (id : ℕ) (r : RoundRow)
    (result : RoundResult)
    → round id s ≡ some r
    → r.result ≡ some result
    → (r' : RoundRow) × (round id (run o s cs) ≡ some r')
      × (r'.result ≡ some result)
      × (r'.reason ≡ r.reason)
      × (r'.closed_at ≡ r.closed_at)
      × (r'.closes_at ≡ r.closes_at)
unfolding round
run_closed o s cs id r result found closed =
    let (r', found', e) = Grows-find_row id (run-Keeps o s cs) {r = r} found in
    let kept = e.closed result closed in (r', found', kept.0, kept.1, kept.2, e.closes_at)
