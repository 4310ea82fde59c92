-- ===== src/Incident/Due/Scan.antt =====
-- The whole of `scanDue`: the query, its order and the loop.
use critalarm_server.Prelude.{
  ℕ, ◌<◌, leb, ◌≡◌, ◌≢◌, sym, inl, inr, none, some, List, [], ◌∷◌, arith, All, All-imp, All-zip,
  All-select, All-sort_by, select, Bool-cases, ==_refl,
}
use mathlib.Core.Path.{subst}
use critalarm_server.Incident.Types.{TimerRow, DueTimer, Store, IdGenerator}
use critalarm_server.Incident.Statements.{find_incident}
use critalarm_server.Incident.Scan.{sooner, join_timer, join_timers, due_timers, scan_due}
use critalarm_server.Incident.Invariant.{state_of, IsFresh, Inv}
use critalarm_server.Incident.Invariant.Scanning.{join_timer_fields, due_timers-IsRead}
use critalarm_server.Incident.Due.{has_id-sort_by, Waits, Rings, IsReady, process_all_done}

-- The references of the schema, `timers.incident_id` and `incidents.topic_id`, name rows, and the
-- topic repeats after a second at least.
abbrev pub Joins : Store → TimerRow → Type 0
Joins s t = (d : DueTimer) × (join_timer s t ≡ some d) × (0 < d.scoped.scope.repeat_interval_s)

Waits-cons :
    (now : ℕ) (d : DueTimer) (due : List DueTimer) (t : TimerRow)
    → Waits now due t
    → Waits now (d ∷ due) t
Waits-cons now d due t w = ground (arith, w)

module _ (now : ℕ) (s : Store) where
  join_timers-Waits :
      (ts : List TimerRow)
      → All (Joins s) ts
      → All (Waits now (join_timers s (select (λ t. leb t.fire_at now) ts))) ts
  unfolding join_timers select
  join_timers-Waits [] h = tt
  join_timers-Waits (t ∷ ts) h = elim (Bool-cases (leb t.fire_at now)) [
    | inl due ↦
        let (d, joined, _) = h.0 in
        let fields = join_timer_fields s t {d = d} joined in
        let rest = join_timers s (select (λ x. leb x.fire_at now) ts) in
        let read : join_timers s (select (λ x. leb x.fire_at now) (t ∷ ts)) ≡ d ∷ rest =
          rw (due, joined, join_timers) in
        subst (λ q. All (Waits now q) (t ∷ ts)) (sym read)
          (
            inr (ground (arith, fields.0, ==_refl t.id)),
            All-imp ts (λ x w. Waits-cons now d rest x w) (join_timers-Waits ts h.1),
          )
    | inr later ↦
        let rest = join_timers s (select (λ x. leb x.fire_at now) ts) in
        let skipped : join_timers s (select (λ x. leb x.fire_at now) (t ∷ ts)) ≡ rest = rw later in
        subst (λ q. All (Waits now q) (t ∷ ts)) (sym skipped)
          (inl (ground (arith, later)), join_timers-Waits ts h.1)
  ]

  due_timers-Waits : All (Joins s) s.timers → All (Waits now (due_timers now s)) s.timers
  unfolding due_timers
  due_timers-Waits h =
      let found = join_timers s (select (λ t. leb t.fire_at now) s.timers) in
      All-imp s.timers (λ t w. ground (arith, w, has_id-sort_by t.id found))
        (join_timers-Waits s.timers h)

  abbrev Named : DueTimer → Type 0
  Named d =
      (state_of d.scoped.incident.id s.incidents ≢ none) × (0 < d.scoped.scope.repeat_interval_s)

  join_timer-Named : (t : TimerRow) (j : Joins s t) → Named j.0
  unfolding state_of find_incident
  join_timer-Named t (d, joined, often) =
      let fields = join_timer_fields s t {d = d} joined in
      let named : state_of d.scoped.incident.id s.incidents ≡ some d.scoped.incident.state =
        rw (← fields.1, fields.2) in
      (λ gone. ground (arith, gone, named), often)

  join_timers-Named : (ts : List TimerRow) → All (Joins s) ts → All Named (join_timers s ts)
  unfolding join_timers
  join_timers-Named [] h = tt
  join_timers-Named (t ∷ ts) h =
      rw (h.0.1, join_timers) (join_timer-Named t h.0, join_timers-Named ts h.1)

module _ (g : IdGenerator) (fresh : IsFresh g) (now : ℕ) (s : Store) (v : Inv g s) where
  due_timers-IsReady : All (Joins s) s.timers → All (IsReady g s) (due_timers now s)
  unfolding due_timers
  due_timers-IsReady h =
      All-imp _ (λ d k. record { read = k.0; exists = k.1.0; often = k.1.1 })
        (All-zip _ _ (due_timers now s) (due_timers-IsRead g fresh now s v)
          (All-sort_by _ sooner _ (join_timers-Named now s _ (All-select _ _ s.timers h))))

  -- In a sound store whose timers name incidents and topics, with intervals of a second at least, a
  -- scan leaves no timer that is due at its time: each was deleted with the incident's other timers,
  -- or set to a later time.
  pub scan_due_done :
      Rings s
      → All (Joins s) s.timers
      → All (λ t. now < t.fire_at) (scan_due g (λ _. now) s).1.timers
  unfolding scan_due
  scan_due_done rings joins =
      process_all_done g fresh now (due_timers now s) s v rings (due_timers-IsReady joins)
        (due_timers-Waits now s joins)
