-- ===== src/Incident/Invariant/Scanning.antt =====
-- The timer scan keeps the invariant, also where it meets timers that an earlier step of the same
-- scan has deleted.
use critalarm_server.Prelude.{
  ℕ, suc, ◌==◌, Bool, true, false, ◌||◌, ◌≡◌, refl, sym, ap, inl, inr, some, List, [], ◌∷◌, arith,
  All, All-append, All-select, All-sort_by, All-delete_where, All-update_where, All-imp, All-zip,
  update_where, delete_where-absent, find_row-holds, Bool-cases, Option-cases,
}
use critalarm_server.Incident.Types.{
  opened, acked, TimerKind, repeat, expire, desk, IncidentRow, TimerRow, DueTimer, Store,
  IdGenerator,
}
use critalarm_server.Incident.Statements.{
  same_state, insert_timer, delete_timers_of, delete_timer, update_incident, find_incident,
}
use critalarm_server.Incident.Actions.{join_topic}
use critalarm_server.Incident.Scan.{
  join_timer, join_timers, due_timers, write_expire, write_reopen, set_fire_at, process_kind,
  process_timer, process_all, scan_due, sooner,
}
use critalarm_server.Incident.Invariant.{
  kinds_of, state_of, kinds_for, IsFresh, Unissued, Agrees, Inv,
}
use critalarm_server.Incident.Invariant.Timers.{
  join_topic-incident, write_expire-Inv, write_reopen-Inv,
}

abbrev same_kind : TimerKind → TimerKind → Bool
same_kind repeat repeat = true
same_kind expire expire = true
same_kind desk desk = true
same_kind _ _ = false

abbrev has_kind : TimerKind → List TimerKind → Bool
has_kind k [] = false
has_kind k (x ∷ xs) = same_kind x k || has_kind k xs

-- No timer of the table is this incident's timer of this kind.
abbrev HasNone : ℕ → TimerKind → List TimerRow → Type 0
HasNone i k = All (λ t. (t.incident_id ≡ i) × (t.kind ≡ k) → ⊥)

kinds_of-HasNone :
    (i : ℕ) (k : TimerKind) (ts : List TimerRow)
    → has_kind k (kinds_of i ts) ≡ false
    → HasNone i k ts
unfolding kinds_of
kinds_of-HasNone i k [] h = tt
kinds_of-HasNone i k (t ∷ ts) h =
    (λ same. ground (arith, same.0, same.1), kinds_of-HasNone i k ts (ground (arith, h)))

-- What the scan knows of a timer that it has read.
pub record IsRead (g : IdGenerator) (s : Store) (d : DueTimer) : Type 0 where
  pub agrees : Agrees d.timer s.timers
  pub issued : Unissued g.timer s.drawn d.timer.id
  pub owner : d.timer.incident_id ≡ d.scoped.incident.id

-- A timer whose incident has no timer of its kind is no longer in the table.
delete_timer-gone :
    (d : TimerRow) (s : Store)
    → Agrees d s.timers
    → HasNone d.incident_id d.kind s.timers
    → delete_timer d.id s ≡ s
unfolding delete_timer
delete_timer-gone d s a none_left =
    ap (λ ts. record s { timers = ts })
      (delete_where-absent (λ t. t.id == d.id) s.timers
        (All-imp s.timers (λ t h. ground (arith, h.0, h.1)) (All-zip _ _ s.timers a none_left)))

kinds_of-set_fire_at :
    (i timer_id at : ℕ) (ts : List TimerRow)
    → kinds_of i (update_where (λ t. t.id == timer_id) (λ t. record t { fire_at = at }) ts)
      ≡ kinds_of i ts
unfolding kinds_of update_where
kinds_of-set_fire_at i timer_id at [] = refl
kinds_of-set_fire_at i timer_id at (t ∷ ts) = ground (arith, kinds_of-set_fire_at i timer_id at ts)

module _ (g : IdGenerator) where
  set_fire_at-Inv : (timer_id at : ℕ) (s : Store) → Inv g s → Inv g (set_fire_at timer_id at s)
  unfolding set_fire_at
  set_fire_at-Inv timer_id at s v = record {
    timers_match = λ i. rw (kinds_of-set_fire_at i timer_id at s.timers) (v.timers_match i);
    sound = record {
      one_active = v.one_active;
      unique_ids = v.unique_ids;
      incidents_issued = v.incidents_issued;
      timers_issued = All-update_where _ _ _ s.timers (λ t h. h) v.timers_issued;
      timers_agree =
          All-update_where _ _ _ s.timers (λ t h. h)
            (All-imp s.timers (λ t h. All-update_where _ _ _ s.timers (λ x k. k) h) v.timers_agree);
    };
  }

  set_fire_at-IsRead :
      (d : DueTimer) (timer_id at : ℕ) (s : Store)
      → IsRead g s d
      → IsRead g (set_fire_at timer_id at s) d
  unfolding set_fire_at
  set_fire_at-IsRead d timer_id at s r = record {
    agrees = All-update_where _ _ _ s.timers (λ x k. k) r.agrees;
    issued = r.issued;
    owner = r.owner;
  }

  moved-IsRead :
      (d : DueTimer) (id : ℕ) (f : IncidentRow → IncidentRow) (s : Store)
      → IsRead g s d
      → IsRead g (delete_timers_of id (update_incident id f s)) d
  unfolding delete_timers_of update_incident
  moved-IsRead d id f s r = record {
    agrees = All-delete_where _ _ s.timers r.agrees;
    issued = r.issued;
    owner = r.owner;
  }

  insert_timer-IsRead :
      (d : DueTimer) (id : ℕ) (k : TimerKind) (at : ℕ) (s : Store)
      → IsRead g s d
      → IsRead g (insert_timer g id k at s) d
  unfolding insert_timer
  insert_timer-IsRead d id k at s r = record {
    agrees =
        All-append _ s.timers _ r.agrees
          (λ same. absurd (r.issued s.drawn (omega arith) (sym same)), tt);
    issued = λ n le. r.issued n (omega arith);
    owner = r.owner;
  }

  write_expire-IsRead :
      (now id : ℕ) (d : DueTimer) (s : Store) → IsRead g s d → IsRead g (write_expire now id s) d
  unfolding write_expire
  write_expire-IsRead now id d s r = moved-IsRead d id _ s r

  write_reopen-IsRead :
      (now : ℕ) (due d : DueTimer) (current : IncidentRow) (s : Store)
      → IsRead g s d
      → IsRead g (write_reopen g now due current s) d
  unfolding write_reopen
  write_reopen-IsRead now due d current s r =
      let id = due.scoped.incident.id in
      insert_timer-IsRead d id expire _ _
        (insert_timer-IsRead d id repeat _ _ (moved-IsRead d id _ s r))

module _ (g : IdGenerator) (fresh : IsFresh g) (now : ℕ) where
  -- In a state that has no timer of this kind, the timer is gone and its deletion does nothing.
  stale :
      (due : DueTimer) (current : IncidentRow) (s : Store)
      → Inv g s
      → IsRead g s due
      → find_incident due.scoped.incident.id s ≡ some current
      → has_kind due.timer.kind (kinds_for (some current.state)) ≡ false
      → delete_timer due.timer.id s ≡ s
  unfolding find_incident state_of kinds_for
  stale due current s v r e h = delete_timer-gone due.timer s r.agrees (
      kinds_of-HasNone due.timer.incident_id due.timer.kind s.timers
        (rw (r.owner, v.timers_match due.scoped.incident.id, e, state_of) h))

  -- Either nothing changes, or an active incident is written to.
  process_kind-Inv :
      (k : TimerKind) (due : DueTimer) (current : IncidentRow) (s : Store)
      → due.timer.kind ≡ k
      → Inv g s
      → IsRead g s due
      → find_incident due.scoped.incident.id s ≡ some current
      → Inv g (process_kind k g now due current s).1
  unfolding process_kind kinds_for
  process_kind-Inv expire due current s ek v r e =
      elim (Bool-cases (same_state current.state opened)) [
        | inl active ↦ rw active (write_expire-Inv g fresh now _ s v e (ground (arith, active)))
        | inr other ↦ rw (other, stale due current s v r e (ground (arith, other, ek))) v
      ]
  process_kind-Inv desk due current s ek v r e =
      elim (Bool-cases (same_state current.state acked)) [
        | inl active ↦ rw active (write_reopen-Inv g fresh now due s v e (ground (arith, active)))
        | inr other ↦ rw (other, stale due current s v r e (ground (arith, other, ek))) v
      ]
  process_kind-Inv repeat due current s ek v r e =
      elim (Bool-cases (same_state current.state opened)) [
        | inl active ↦ rw active (set_fire_at-Inv g _ _ s v)
        | inr other ↦ rw (other, stale due current s v r e (ground (arith, other, ek))) v
      ]

  process_kind-IsRead :
      (k : TimerKind) (due d : DueTimer) (current : IncidentRow) (s : Store)
      → due.timer.kind ≡ k
      → Inv g s
      → IsRead g s due
      → find_incident due.scoped.incident.id s ≡ some current
      → IsRead g s d
      → IsRead g (process_kind k g now due current s).1 d
  unfolding process_kind kinds_for
  process_kind-IsRead expire due d current s ek v r e rd =
      elim (Bool-cases (same_state current.state opened)) [
        | inl active ↦ rw active (write_expire-IsRead g now _ d s rd)
        | inr other ↦ rw (other, stale due current s v r e (ground (arith, other, ek))) rd
      ]
  process_kind-IsRead desk due d current s ek v r e rd =
      elim (Bool-cases (same_state current.state acked)) [
        | inl active ↦ rw active (write_reopen-IsRead g now due d current s rd)
        | inr other ↦ rw (other, stale due current s v r e (ground (arith, other, ek))) rd
      ]
  process_kind-IsRead repeat due d current s ek v r e rd =
      elim (Bool-cases (same_state current.state opened)) [
        | inl active ↦ rw active (set_fire_at-IsRead g d _ _ s rd)
        | inr other ↦ rw (other, stale due current s v r e (ground (arith, other, ek))) rd
      ]

  pub process_timer-Inv :
      (due : DueTimer) (s : Store) → Inv g s → IsRead g s due → Inv g (process_timer g now due s).1
  unfolding process_timer
  process_timer-Inv due s v r = elim (Option-cases (find_incident due.scoped.incident.id s)) [
    | inl e ↦ rw (e, process_timer) v
    | inr (current, e) ↦
        rw (e, process_timer) (process_kind-Inv due.timer.kind due current s refl v r e)
  ]

  pub process_timer-IsRead :
      (due d : DueTimer) (s : Store)
      → Inv g s
      → IsRead g s due
      → IsRead g s d
      → IsRead g (process_timer g now due s).1 d
  unfolding process_timer
  process_timer-IsRead due d s v r rd =
      elim (Option-cases (find_incident due.scoped.incident.id s)) [
        | inl e ↦ rw (e, process_timer) rd
        | inr (current, e) ↦
            rw (e, process_timer) (process_kind-IsRead due.timer.kind due d current s refl v r e rd)
      ]

pub join_timer_fields :
    (s : Store) (t : TimerRow) {d : DueTimer}
    → join_timer s t ≡ some d
    → (d.timer ≡ t)
      × (t.incident_id ≡ d.scoped.incident.id)
      × (find_incident t.incident_id s ≡ some d.scoped.incident)
unfolding join_timer find_incident
join_timer_fields s t {d} e = elim (Option-cases (find_incident t.incident_id s)) [
  | inl e' ↦ ground (arith, e, e')
  | inr (i, e') ↦ elim (Option-cases (join_topic s i)) [
    | inl e'' ↦ ground (arith, e, e', e'')
    | inr (row, e'') ↦ ground (
      arith,
      e,
      e',
      e'',
      join_topic-incident s i {row = row} e'',
      find_row-holds (λ r. r.id == t.incident_id) s.incidents {x = i} e',
    )
  ]
]

module _ (g : IdGenerator) (fresh : IsFresh g) where
  process_all-Inv :
      (clock : ℕ → ℕ) (due : List DueTimer) (s : Store)
      → Inv g s
      → All (IsRead g s) due
      → Inv g (process_all g clock due s).1
  unfolding process_all
  process_all-Inv clock [] s v r = v
  process_all-Inv clock (d ∷ due) s v r =
      process_all-Inv (λ k. clock (suc k)) due _ (process_timer-Inv g fresh (clock 0) d s v r.0)
        (All-imp due (λ x rx. process_timer-IsRead g fresh (clock 0) d x s v r.0 rx) r.1)

  join_timer-IsRead :
      (s : Store) (t : TimerRow) {d : DueTimer}
      → Agrees t s.timers
      → Unissued g.timer s.drawn t.id
      → join_timer s t ≡ some d
      → IsRead g s d
  join_timer-IsRead s t {d} a u e =
      let same = join_timer_fields s t {d = d} e in
      record { agrees = rw (same.0) a; issued = rw (same.0) u; owner = rw (same.0) same.1 }

  join_timers-IsRead :
      (s : Store) (ts : List TimerRow)
      → All (λ t. Agrees t s.timers × Unissued g.timer s.drawn t.id) ts
      → All (IsRead g s) (join_timers s ts)
  unfolding join_timers
  join_timers-IsRead s [] h = tt
  join_timers-IsRead s (t ∷ ts) h = elim (Option-cases (join_timer s t)) [
    | inl e ↦ rw (e, join_timers) (join_timers-IsRead s ts h.1)
    | inr (d, e) ↦
        rw (e, join_timers)
          (join_timer-IsRead s t {d = d} h.0.0 h.0.1 e, join_timers-IsRead s ts h.1)
  ]

  pub due_timers-IsRead : (now : ℕ) (s : Store) → Inv g s → All (IsRead g s) (due_timers now s)
  unfolding due_timers
  due_timers-IsRead now s v = All-sort_by _ sooner _ (
      join_timers-IsRead s _
        (All-select _ _ s.timers (All-zip _ _ s.timers v.timers_agree v.timers_issued)))

  pub scan_due-Inv : (clock : ℕ → ℕ) (s : Store) → Inv g s → Inv g (scan_due g clock s).1
  unfolding scan_due
  scan_due-Inv clock s v =
      process_all-Inv (λ k. clock (suc k)) (due_timers (clock 0) s) s v
        (due_timers-IsRead (clock 0) s v)
