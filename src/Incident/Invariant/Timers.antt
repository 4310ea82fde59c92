-- ===== src/Incident/Invariant/Timers.antt =====
-- `acknowledge`, `close` and the timer scan keep the invariant.
use critalarm_server.Prelude.{
  ℕ, true, ◌≡◌, refl, inl, inr, some, [], ◌∷◌, arith, Bool-cases, Option-cases,
}
use critalarm_server.Incident.Types.{
  opened, acked, closed, expired, repeat, expire, desk, IncidentRow, ScopedIncidentRow, DueTimer,
  Store, IdGenerator,
}
use critalarm_server.Incident.Statements.{ok, err, Outcome, same_state, is_active, find_incident}
use critalarm_server.Incident.Actions.{
  scoped_incident, owned_by, join_topic, acknowledge, close, acknowledged, closed_by_user,
  write_ack, write_close, after,
}
use critalarm_server.Incident.Scan.{timed_out, reopened, write_expire, write_reopen}
use critalarm_server.Incident.Invariant.{kinds_for, IsFresh, Inv}
use critalarm_server.Incident.Invariant.Writes.{insert_timer-Pending, Pending-done, moved-Pending}

pub join_topic-incident :
    (s : Store) (i : IncidentRow) {row : ScopedIncidentRow}
    → join_topic s i ≡ some row
    → row.incident ≡ i
unfolding join_topic
join_topic-incident s i e = ground arith

pub scoped_incident-found :
    (account id : ℕ) (s : Store) {row : ScopedIncidentRow}
    → scoped_incident account id s ≡ ok row
    → find_incident id s ≡ some row.incident
unfolding scoped_incident owned_by
scoped_incident-found account id s {row} e = elim (Option-cases (find_incident id s)) [
  | inl e' ↦ ground arith
  | inr (i, e') ↦ elim (Option-cases (join_topic s i)) [
    | inl e'' ↦ ground arith
    | inr (row', e'') ↦ ground (arith, join_topic-incident s i {row = row'} e'')
  ]
]

module _ (g : IdGenerator) (fresh : IsFresh g) where
  write_ack-Inv :
      (now id : ℕ) (row : ScopedIncidentRow) (s : Store) {r : IncidentRow}
      → Inv g s
      → find_incident id s ≡ some r
      → is_active r.state ≡ true
      → Inv g (write_ack g now row id s)
  unfolding write_ack acknowledged kinds_for
  write_ack-Inv now id row s {r} v e active = Pending-done g id _ (
      insert_timer-Pending g fresh id desk _ [] _ (
        moved-Pending g id (acknowledged now) acked (λ _. refl) (λ _. refl) (λ _. refl) s {r = r} v
          e active))

  write_close-Inv :
      (now id : ℕ) (s : Store) {r : IncidentRow}
      → Inv g s
      → find_incident id s ≡ some r
      → is_active r.state ≡ true
      → Inv g (write_close now id s)
  unfolding write_close closed_by_user kinds_for
  write_close-Inv now id s {r} v e active = Pending-done g id _ (
      moved-Pending g id (closed_by_user now) closed (λ _. refl) (λ _. refl) (λ _. refl) s {r = r} v
        e active)

  pub write_expire-Inv :
      (now id : ℕ) (s : Store) {r : IncidentRow}
      → Inv g s
      → find_incident id s ≡ some r
      → is_active r.state ≡ true
      → Inv g (write_expire now id s)
  unfolding write_expire timed_out kinds_for
  write_expire-Inv now id s {r} v e active = Pending-done g id _ (
      moved-Pending g id (timed_out now) expired (λ _. refl) (λ _. refl) (λ _. refl) s {r = r} v e
        active)

  pub write_reopen-Inv :
      (now : ℕ) (due : DueTimer) (s : Store) {r : IncidentRow}
      → Inv g s
      → find_incident due.scoped.incident.id s ≡ some r
      → is_active r.state ≡ true
      → Inv g (write_reopen g now due r s)
  unfolding write_reopen reopened kinds_for
  write_reopen-Inv now due s {r} v e active =
      let id = due.scoped.incident.id in
      Pending-done g id _ (
        insert_timer-Pending g fresh id expire _ [] _ (
          insert_timer-Pending g fresh id repeat _ (expire ∷ []) _ (
            moved-Pending g id (reopened now) opened (λ _. refl) (λ _. refl) (λ _. refl) s {r = r} v
              e active)))

  pub acknowledge-Inv :
      (now account id : ℕ) (s : Store) → Inv g s → Inv g (after s (acknowledge g now account id s))
  unfolding acknowledge
  acknowledge-Inv now account id s v = go (scoped_incident account id s) refl
    where
      go :
          (o : Outcome ScopedIncidentRow)
          → scoped_incident account id s ≡ o
          → Inv g (after s (acknowledge g now account id s))
      go (err x) e = rw (e, acknowledge) v
      go (ok row) e = elim (Bool-cases (same_state row.incident.state opened)) [
        | inl open_now ↦
            rw (e, acknowledge, open_now)
              (write_ack-Inv now id row s v (scoped_incident-found account id s e)
                (ground (arith, open_now)))
        | inr other ↦ rw (e, acknowledge, other) v
      ]

  pub close-Inv :
      (now account id : ℕ) (s : Store) → Inv g s → Inv g (after s (close now account id s))
  unfolding close
  close-Inv now account id s v = go (scoped_incident account id s) refl
    where
      go :
          (o : Outcome ScopedIncidentRow)
          → scoped_incident account id s ≡ o
          → Inv g (after s (close now account id s))
      go (err x) e = rw (e, close) v
      go (ok row) e = elim (Bool-cases (same_state row.incident.state acked)) [
        | inl acked_now ↦
            rw (e, close, acked_now)
              (write_close-Inv now id s v (scoped_incident-found account id s e)
                (ground (arith, acked_now)))
        | inr other ↦ rw (e, close, other) v
      ]
