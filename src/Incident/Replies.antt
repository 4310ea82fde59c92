-- ===== src/Incident/Replies.antt =====
-- What the two routes of the lifecycle answer, and what they leave in the database.
use critalarm_server.Prelude.{
  ℕ, ◌==◌, true, ◌≡◌, refl, sym, inl, inr, some, [], ◌∷◌, arith, find_row-update_where, Bool-cases,
  Option-cases,
}
use mathlib.Core.Path.{subst}
use critalarm_server.Incident.Types.{
  opened, acked, closed, desk, IncidentRow, ScopedIncidentRow, Store, IdGenerator,
}
use critalarm_server.Incident.Statements.{
  Outcome, ok, err, conflict, same_state, update_incident, find_incident,
}
use critalarm_server.Incident.Actions.{
  scoped_incident, owned_by, join_topic, acknowledge, close, acknowledged, closed_by_user,
  write_ack, write_close, after, Changed,
}
use critalarm_server.Incident.Invariant.{kinds_of, state_of, kinds_for, IsFresh, Inv}
use critalarm_server.Incident.Invariant.Timers.{
  join_topic-incident, scoped_incident-found, acknowledge-Inv, close-Inv,
}

scoped_incident-joined :
    (account id : ℕ) (s : Store) {row : ScopedIncidentRow}
    → scoped_incident account id s ≡ ok row
    → (join_topic s row.incident ≡ some row) × ((row.scope.account_id == account) ≡ true)
unfolding scoped_incident owned_by
scoped_incident-joined account id s {row} e = elim (Option-cases (find_incident id s)) [
  | inl e' ↦ absurd (ground (arith, e, e'))
  | inr (i, e') ↦ elim (Option-cases (join_topic s i)) [
    | inl e'' ↦ absurd (ground (arith, e, e', e''))
    | inr (row', e'') ↦ elim (Bool-cases (row'.scope.account_id == account)) [
      | inl own ↦
          let same : row' ≡ row = ground (arith, e, e', e'', own) in
          let inc = join_topic-incident s i {row = row'} e'' in
          (
            subst (λ r. join_topic s r.incident ≡ some r) same
                (subst (λ x. join_topic s x ≡ some row') (sym inc) e''),
            subst (λ r. (r.scope.account_id == account) ≡ true) same own,
          )
      | inr other ↦ absurd (ground (arith, e, e', e'', other))
    ]
  ]
]

-- A write to the incident that keeps its id and its topic is what the next read of it sees.
module _ (id : ℕ) (f : IncidentRow → IncidentRow) (f_id : (r : IncidentRow) → (f r).id ≡ r.id)
    (f_topic : (r : IncidentRow) → (f r).topic_id ≡ r.topic_id) where
  find_incident-update :
      (s : Store) {r : IncidentRow}
      → find_incident id s ≡ some r
      → find_incident id (update_incident id f s) ≡ some (f r)
  unfolding find_incident update_incident
  find_incident-update s e = rw (
    find_row-update_where (λ x. x.id == id) (λ x. x.id == id) f s.incidents (λ x. rw (f_id x))
        (λ x h. h),
    e,
  )

  join_topic-update :
      (s : Store) {row : ScopedIncidentRow}
      → join_topic s row.incident ≡ some row
      → join_topic (update_incident id f s) (f row.incident)
        ≡ some (record row { incident = f row.incident })
  unfolding join_topic update_incident
  join_topic-update s {row} e = ground (arith, f_topic row.incident)

  scoped_incident-update :
      (account : ℕ) (s : Store) {row : ScopedIncidentRow}
      → scoped_incident account id s ≡ ok row
      → scoped_incident account id (update_incident id f s)
        ≡ ok (record row { incident = f row.incident })
  unfolding scoped_incident owned_by
  scoped_incident-update account s {row} e =
      let found = scoped_incident-found account id s {row = row} e in
      let joined = scoped_incident-joined account id s {row = row} e in
      rw (
        find_incident-update s {r = row.incident} found,
        join_topic-update s {row = row} joined.0,
        joined.1,
        scoped_incident,
        owned_by,
      )

module _ (g : IdGenerator) (now account id : ℕ) (s : Store) where
  acknowledge-inv :
      {c : Changed} {s' : Store}
      → acknowledge g now account id s ≡ ok (c, s')
      → (row : ScopedIncidentRow) × (scoped_incident account id s ≡ ok row)
        × (row.incident.state ≡ opened)
        × (s' ≡ write_ack g now row id s)
  unfolding acknowledge
  acknowledge-inv {c} {s'} e = go (scoped_incident account id s) refl
    where
      go :
          (o : Outcome ScopedIncidentRow)
          → scoped_incident account id s ≡ o
          → (row : ScopedIncidentRow) × (scoped_incident account id s ≡ ok row)
            × (row.incident.state ≡ opened)
            × (s' ≡ write_ack g now row id s)
      go (err x) e' = absurd (ground (arith, e, e'))
      go (ok row) e' = elim (Bool-cases (same_state row.incident.state opened)) [
        | inl hit ↦ (row, e', ground (arith, hit), ground (arith, e, e', hit))
        | inr other ↦ absurd (ground (arith, e, e', other))
      ]

  scoped_incident-write_ack :
      {row : ScopedIncidentRow}
      → scoped_incident account id s ≡ ok row
      → scoped_incident account id (write_ack g now row id s)
        ≡ ok (record row { incident = acknowledged now row.incident })
  unfolding write_ack scoped_incident join_topic
  scoped_incident-write_ack {row} e =
      scoped_incident-update id (acknowledged now) (λ _. refl) (λ _. refl) account s {row = row} e

  scoped_incident-write_close :
      {row : ScopedIncidentRow}
      → scoped_incident account id s ≡ ok row
      → scoped_incident account id (write_close now id s)
        ≡ ok (record row { incident = closed_by_user now row.incident })
  unfolding write_close scoped_incident join_topic
  scoped_incident-write_close {row} e =
      scoped_incident-update id (closed_by_user now) (λ _. refl) (λ _. refl) account s {row = row} e

  scoped-state_of :
      {row : ScopedIncidentRow}
      → scoped_incident account id s ≡ ok row
      → state_of id s.incidents ≡ some row.incident.state
  unfolding state_of find_incident
  scoped-state_of {row} e = rw (scoped_incident-found account id s {row = row} e)

  close-acked :
      {row : ScopedIncidentRow}
      → scoped_incident account id s ≡ ok row
      → row.incident.state ≡ acked
      → after s (close now account id s) ≡ write_close now id s
  unfolding close
  close-acked e st = rw (e, close, st)

  close-closed :
      {row : ScopedIncidentRow}
      → scoped_incident account id s ≡ ok row
      → row.incident.state ≡ closed
      → close now account id s ≡ err conflict
  unfolding close
  close-closed e st = rw (e, close, st)

module _ (g : IdGenerator) (fresh : IsFresh g) (now later account id : ℕ) (s : Store)
    (v : Inv g s) where
  close_effect :
      {row : ScopedIncidentRow}
      → scoped_incident account id s ≡ ok row
      → row.incident.state ≡ acked
      → let s' = after s (close now account id s) in
        (state_of id s'.incidents ≡ some closed)
        × (kinds_of id s'.timers ≡ [])
        × (close later account id s' ≡ err conflict)
  unfolding kinds_for closed_by_user
  close_effect {row} e st =
      let written = close-acked g now account id s {row = row} e st in
      let v' : Inv g (write_close now id s) =
        rw written at (close-Inv g fresh now account id s v) in
      let e' = scoped_incident-write_close g now account id s {row = row} e in
      let closed' = scoped-state_of g now account id (write_close now id s) e' in
      rw written
        (closed', rw (v'.timers_match id, closed'), close-closed g later account id _ e' refl)

module _ (g : IdGenerator) (fresh : IsFresh g) (now later account id : ℕ) (s : Store)
    (v : Inv g s) where
  -- In a sound store, an acknowledgement that succeeds finds the incident open, and leaves it
  -- acknowledged with a desk timer alone. A second one is a conflict. A close by the same account
  -- then leaves the incident closed and without a timer, and a second close is a conflict.
  pub acknowledge_effect :
      {c : Changed} {s' : Store}
      → acknowledge g now account id s ≡ ok (c, s')
      → let s'' = after s' (close later account id s') in
        (state_of id s.incidents ≡ some opened)
        × (state_of id s'.incidents ≡ some acked)
        × (kinds_of id s'.timers ≡ desk ∷ [])
        × (acknowledge g later account id s' ≡ err conflict)
        × (state_of id s''.incidents ≡ some closed)
        × (kinds_of id s''.timers ≡ [])
        × (close later account id s'' ≡ err conflict)
  unfolding kinds_for acknowledge
  acknowledge_effect {c} {s'} e =
      let (row, found, st, same) = acknowledge-inv g now account id s {c = c} {s' = s'} e in
      let v' : Inv g s' = rw e at (acknowledge-Inv g fresh now account id s v) in
      let found' : scoped_incident account id s'
          ≡ ok (record row { incident = acknowledged now row.incident }) =
        rw same (scoped_incident-write_ack g now account id s {row = row} found) in
      let acked' : state_of id s'.incidents ≡ some acked =
        scoped-state_of g later account id s' found' in
      let ended = close_effect g fresh later later account id s' v' found' refl in
      (
        rw (scoped-state_of g now account id s {row = row} found, st),
        acked',
        rw (v'.timers_match id, acked'),
        rw (found', acknowledge),
        ended.0,
        ended.1,
        ended.2,
      )
