-- ===== src/Incident/Runs.antt =====
-- Histories of calls on the engine.
use critalarm_server.Prelude.{ℕ, ◌≡◌, ◌≤◌, List, [], ◌∷◌, refl, find_row, count_where, arith, ◌==◌}
use critalarm_server.Incident.Types.{CriticalPublication, TopicRow, Store, IdGenerator}
use critalarm_server.Incident.Publish.{publish_critical}
use critalarm_server.Incident.Actions.{acknowledge, close, after}
use critalarm_server.Incident.Scan.{scan_due}
use critalarm_server.Incident.Invariant.{kinds_of, state_of, kinds_for, active_in, IsFresh, Inv}
use critalarm_server.Incident.Invariant.Operations.{publish_critical-Inv}
use critalarm_server.Incident.Invariant.Timers.{acknowledge-Inv, close-Inv}
use critalarm_server.Incident.Invariant.Scanning.{scan_due-Inv}

-- The entry points: a publish, the two routes and a tick of the scanner. Each carries what the
-- clock reads while it runs.
pub data Call : Type 0 where
  publishes : ℕ → CriticalPublication → Call
  acknowledges : ℕ → ℕ → ℕ → Call
  closes : ℕ → ℕ → ℕ → Call
  scans : (ℕ → ℕ) → Call

unfoldable pub step : IdGenerator → Store → Call → Store
unfolding publish_critical acknowledge close scan_due
step g s (publishes now input) = (publish_critical g now input s).1
step g s (acknowledges now account id) = after s (acknowledge g now account id s)
step g s (closes now account id) = after s (close now account id s)
step g s (scans clock) = (scan_due g clock s).1

unfoldable pub run : IdGenerator → Store → List Call → Store
unfolding step
run g s [] = s
run g s (c ∷ cs) = run g (step g s c) cs

abbrev pub start : List TopicRow → Store
start topics = record { topics = topics; incidents = []; timers = []; messages = []; drawn = 0 }

module _ (g : IdGenerator) (fresh : IsFresh g) where
  pub step-Inv : (s : Store) (c : Call) → Inv g s → Inv g (step g s c)
  unfolding step
  step-Inv s (publishes now input) v = publish_critical-Inv g fresh now input s v
  step-Inv s (acknowledges now account id) v = acknowledge-Inv g fresh now account id s v
  step-Inv s (closes now account id) v = close-Inv g fresh now account id s v
  step-Inv s (scans clock) v = scan_due-Inv g fresh clock s v

  pub run-Inv : (s : Store) (cs : List Call) → Inv g s → Inv g (run g s cs)
  unfolding run
  run-Inv s [] v = v
  run-Inv s (c ∷ cs) v = run-Inv (step g s c) cs (step-Inv s c v)

  pub start-Inv : (topics : List TopicRow) → Inv g (start topics)
  unfolding kinds_of state_of kinds_for find_row count_where
  start-Inv topics = record {
    timers_match = λ i. refl;
    sound = record {
      one_active = λ topic. omega arith;
      unique_ids = λ i. omega arith;
      incidents_issued = tt;
      timers_issued = tt;
      timers_agree = tt;
    };
  }

  -- Whatever calls are made on an empty server, in whatever order and at whatever times: no topic
  -- has two active incidents, ids are unique, and each incident has exactly the timers of its
  -- state: a repeat and an expire timer while it is open, a desk timer while it is acknowledged,
  -- none once it is closed or expired, and no timer is left of an incident that does not exist.
  pub run-start_invariant :
      (topics : List TopicRow) (cs : List Call)
      → let s = run g (start topics) cs in
        ((topic : ℕ) → count_where (active_in topic) s.incidents ≤ 1)
        × ((i : ℕ) → count_where (λ r. r.id == i) s.incidents ≤ 1)
        × ((i : ℕ) → kinds_of i s.timers ≡ kinds_for (state_of i s.incidents))
  run-start_invariant topics cs =
      let v = run-Inv (start topics) cs (start-Inv topics) in
      (v.one_active, v.unique_ids, v.timers_match)
