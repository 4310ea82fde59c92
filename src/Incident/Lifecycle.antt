-- ===== src/Incident/Lifecycle.antt =====
-- The lifecycle of an incident as a relation on its state, and what every operation does to it.
use critalarm_server.Prelude.{
  ℕ, suc, ◌==◌, ◌≡◌, ◌≢◌, refl, inl, inr, Option, none, some, List, [], ◌∷◌, arith, Bool-cases,
  Option-cases, ==_iff,
}
use critalarm_server.Incident.Types.{
  IncidentState, opened, acked, closed, expired, TimerKind, repeat, expire, desk, IncidentRow,
  CriticalPublication, ScopedIncidentRow, DueTimer, TopicRow, Store, IdGenerator,
}
use critalarm_server.Incident.Statements.{
  Outcome, ok, err, same_state, delete_timer, update_incident, find_incident, active_incident,
}
use critalarm_server.Incident.Publish.{open_or_join, publish_critical}
use critalarm_server.Incident.Actions.{
  scoped_incident, acknowledge, close, acknowledged, closed_by_user, write_ack, write_close, after,
}
use critalarm_server.Incident.Scan.{
  timed_out, reopened, write_expire, write_reopen, set_fire_at, process_kind, process_timer,
  process_all, due_timers, scan_due,
}
use critalarm_server.Incident.Invariant.{state_of, IsFresh, Inv}
use critalarm_server.Incident.Invariant.Writes.{state_of-update_self, state_of-update_other}
use critalarm_server.Incident.Invariant.Operations.{
  state_of-touched, state_of-inserted, no_state, the_id,
}
use critalarm_server.Incident.Invariant.Timers.{scoped_incident-found}
use critalarm_server.Incident.Runs.{
  Call, publishes, acknowledges, closes, scans, step, run, start, run-Inv, start-Inv,
}

-- The edges of the state machine in docs/api.md, §3.2, with the call that takes each and the incident
-- that it is taken for; `none` is an incident that does not exist.
pub data Edge : Call → ℕ → Option IncidentState → Option IncidentState → Type 0 where
  open_edge :
      {now i : ℕ} {input : CriticalPublication} → Edge (publishes now input) i none (some opened)
  ack_edge : {now account i : ℕ} → Edge (acknowledges now account i) i (some opened) (some acked)
  close_edge : {now account i : ℕ} → Edge (closes now account i) i (some acked) (some closed)
  reopen_edge : {clock : ℕ → ℕ} {i : ℕ} → Edge (scans clock) i (some acked) (some opened)
  expire_edge : {clock : ℕ → ℕ} {i : ℕ} → Edge (scans clock) i (some opened) (some expired)

-- One call takes its own edges only: a scan one after the other, any other call one at most.
pub data Taken (c : Call) (i : ℕ) (a : Option IncidentState) : Option IncidentState → Type 0 where
  here : Taken c i a a
  next : {b d : Option IncidentState} → Taken c i a b → Edge c i b d → Taken c i a d

Taken-trans :
    {c : Call} {i : ℕ} {a b d : Option IncidentState}
    → Taken c i a b
    → Taken c i b d
    → Taken c i a d
Taken-trans r here = r
Taken-trans r (next q e) = next (Taken-trans r q) e

Edge-from : {c : Call} {i : ℕ} {a b : Option IncidentState} → Edge c i a b → b ≢ none
Edge-from open_edge e = cc
Edge-from ack_edge e = cc
Edge-from close_edge e = cc
Edge-from reopen_edge e = cc
Edge-from expire_edge e = cc

pub some_stays :
    {c : Call} {i : ℕ} {a b : Option IncidentState} → Taken c i a b → a ≢ none → b ≢ none
some_stays here h = h
some_stays (next r e) h = Edge-from e

-- The state of each incident of the store moves along the edges of the call.
abbrev pub Moves : Call → Store → Store → Type 0
Moves c s s' = (i : ℕ) → Taken c i (state_of i s.incidents) (state_of i s'.incidents)

module _ (g : IdGenerator) (id : ℕ) (f : IncidentRow → IncidentRow) (to : IncidentState)
    (f_id : (r : IncidentRow) → (f r).id ≡ r.id)
    (f_topic : (r : IncidentRow) → (f r).topic_id ≡ r.topic_id)
    (f_state : (r : IncidentRow) → (f r).state ≡ to) where
  moved-Moves :
      (c : Call) (s : Store) {r : IncidentRow}
      → find_incident id s ≡ some r
      → Edge c id (some r.state) (some to)
      → Moves c s (update_incident id f s)
  unfolding find_incident update_incident state_of
  moved-Moves c s {r} e edge i = elim (Bool-cases (i == id)) [
    | inl same ↦
        let from : state_of id s.incidents ≡ some r.state = rw e in
        rw
          (
            (==_iff i id).0 same,
            state_of-update_self g id f to f_id f_topic f_state s.incidents {r = r} e,
          )
          (rw from (next here edge))
    | inr ne ↦ rw (state_of-update_other g id f to f_id f_topic f_state i s.incidents ne) here
  ]

module _ (g : IdGenerator) (now : ℕ) (s : Store) where
  write_ack-Moves :
      (account id : ℕ) (row : ScopedIncidentRow) {r : IncidentRow}
      → find_incident id s ≡ some r
      → r.state ≡ opened
      → Moves (acknowledges now account id) s (write_ack g now row id s)
  unfolding write_ack acknowledged
  write_ack-Moves account id row {r} e st =
      moved-Moves g id (acknowledged now) acked (λ _. refl) (λ _. refl) (λ _. refl)
        (acknowledges now account id) s {r = r} e (rw st ack_edge)

  write_close-Moves :
      (account id : ℕ) {r : IncidentRow}
      → find_incident id s ≡ some r
      → r.state ≡ acked
      → Moves (closes now account id) s (write_close now id s)
  unfolding write_close closed_by_user
  write_close-Moves account id {r} e st =
      moved-Moves g id (closed_by_user now) closed (λ _. refl) (λ _. refl) (λ _. refl)
        (closes now account id) s {r = r} e (rw st close_edge)

  write_expire-Moves :
      (clock : ℕ → ℕ) (id : ℕ) {r : IncidentRow}
      → find_incident id s ≡ some r
      → r.state ≡ opened
      → Moves (scans clock) s (write_expire now id s)
  unfolding write_expire timed_out
  write_expire-Moves clock id {r} e st =
      moved-Moves g id (timed_out now) expired (λ _. refl) (λ _. refl) (λ _. refl) (scans clock) s
        {r = r} e (rw st expire_edge)

  write_reopen-Moves :
      (clock : ℕ → ℕ) (due : DueTimer) {r : IncidentRow}
      → find_incident due.scoped.incident.id s ≡ some r
      → r.state ≡ acked
      → Moves (scans clock) s (write_reopen g now due r s)
  unfolding write_reopen reopened
  write_reopen-Moves clock due {r} e st =
      moved-Moves g due.scoped.incident.id (reopened now) opened (λ _. refl) (λ _. refl) (λ _. refl)
        (scans clock) s {r = r} e (rw st reopen_edge)

  acknowledge-Moves :
      (account id : ℕ)
      → Moves (acknowledges now account id) s (after s (acknowledge g now account id s))
  unfolding acknowledge
  acknowledge-Moves account id = go (scoped_incident account id s) refl
    where
      go :
          (o : Outcome ScopedIncidentRow)
          → scoped_incident account id s ≡ o
          → Moves (acknowledges now account id) s (after s (acknowledge g now account id s))
      go (err x) e = rw (e, acknowledge) (λ i. here)
      go (ok row) e = elim (Bool-cases (same_state row.incident.state opened)) [
        | inl hit ↦
            rw (e, acknowledge, hit)
              (write_ack-Moves account id row (scoped_incident-found account id s {row = row} e)
                (ground (arith, hit)))
        | inr other ↦ rw (e, acknowledge, other) (λ i. here)
      ]

  close-Moves :
      (account id : ℕ) → Moves (closes now account id) s (after s (close now account id s))
  unfolding close
  close-Moves account id = go (scoped_incident account id s) refl
    where
      go :
          (o : Outcome ScopedIncidentRow)
          → scoped_incident account id s ≡ o
          → Moves (closes now account id) s (after s (close now account id s))
      go (err x) e = rw (e, close) (λ i. here)
      go (ok row) e = elim (Bool-cases (same_state row.incident.state acked)) [
        | inl hit ↦
            rw (e, close, hit)
              (write_close-Moves account id (scoped_incident-found account id s {row = row} e)
                (ground (arith, hit)))
        | inr other ↦ rw (e, close, other) (λ i. here)
      ]

  process_kind-Moves :
      (clock : ℕ → ℕ) (k : TimerKind) (due : DueTimer) (current : IncidentRow)
      → find_incident due.scoped.incident.id s ≡ some current
      → Moves (scans clock) s (process_kind k g now due current s).1
  unfolding process_kind delete_timer set_fire_at
  process_kind-Moves clock expire due current e =
      elim (Bool-cases (same_state current.state opened)) [
        | inl hit ↦ rw hit (write_expire-Moves clock _ e (ground (arith, hit)))
        | inr other ↦ rw other (λ i. here)
      ]
  process_kind-Moves clock desk due current e = elim (Bool-cases (same_state current.state acked)) [
    | inl hit ↦ rw hit (write_reopen-Moves clock due e (ground (arith, hit)))
    | inr other ↦ rw other (λ i. here)
  ]
  process_kind-Moves clock repeat due current e =
      elim (Bool-cases (same_state current.state opened)) [
        | inl hit ↦ rw hit (λ i. here)
        | inr other ↦ rw other (λ i. here)
      ]

  pub process_timer-Moves :
      (clock : ℕ → ℕ) (due : DueTimer) → Moves (scans clock) s (process_timer g now due s).1
  unfolding process_timer
  process_timer-Moves clock due = elim (Option-cases (find_incident due.scoped.incident.id s)) [
    | inl e ↦ rw (e, process_timer) (λ i. here)
    | inr (current, e) ↦
        rw (e, process_timer) (process_kind-Moves clock due.timer.kind due current e)
  ]

pub process_all-Moves :
    (g : IdGenerator) (of_scan clock : ℕ → ℕ) (due : List DueTimer) (s : Store)
    → Moves (scans of_scan) s (process_all g clock due s).1
unfolding process_all
process_all-Moves g of_scan clock [] s i = here
process_all-Moves g of_scan clock (d ∷ due) s i =
    Taken-trans (process_timer-Moves g (clock 0) s of_scan d i)
      (process_all-Moves g of_scan (λ k. clock (suc k)) due (process_timer g (clock 0) d s).1 i)

open_or_join-Moves :
    (g : IdGenerator) (fresh : IsFresh g) (now : ℕ) (input : CriticalPublication) (s : Store)
    (v : Inv g s) (existing : Option IncidentRow)
    → Moves (publishes now input) s (open_or_join g now input existing s).1
unfolding open_or_join update_incident
open_or_join-Moves g fresh now input s v none i =
    rw (state_of-inserted g fresh now input s v i)
      (elim (Bool-cases (i == the_id g fresh now input s v)) [
        | inl same ↦
            rw (same, (==_iff i (g.incident s.drawn)).0 same, no_state g fresh now input s v)
              (next here open_edge)
        | inr ne ↦ rw ne here
      ])
open_or_join-Moves g fresh now input s v (some r) i =
    rw (state_of-touched i r.id now s.incidents) here

module _ (g : IdGenerator) (fresh : IsFresh g) where
  step-Moves : (s : Store) (c : Call) → Inv g s → Moves c s (step g s c)
  unfolding step publish_critical scan_due
  step-Moves s (publishes now input) v =
      open_or_join-Moves g fresh now input s v (active_incident input.topic_id s)
  step-Moves s (acknowledges now account id) v = acknowledge-Moves g now s account id
  step-Moves s (closes now account id) v = close-Moves g now s account id
  step-Moves s (scans clock) v =
      process_all-Moves g clock (λ k. clock (suc k)) (due_timers (clock 0) s) s

  -- Whatever calls a server has had so far, the next one moves the state of each incident along its
  -- own edges of the diagram only: a publish from none to open, an acknowledgement the incident that
  -- it names from open to acknowledged, a close the one that it names from acknowledged to closed, and
  -- a scan from acknowledged back to open and from open to expired.
  pub run_lifecycle :
      (topics : List TopicRow) (earlier : List Call) (c : Call) (i : ℕ)
      → let s = run g (start topics) earlier in
        Taken c i (state_of i s.incidents) (state_of i (step g s c).incidents)
  run_lifecycle topics earlier c i =
      let s = run g (start topics) earlier in
      step-Moves s c (run-Inv g fresh (start topics) earlier (start-Inv g fresh topics)) i
