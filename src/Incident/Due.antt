-- ===== src/Incident/Due.antt =====
-- A scan leaves no timer due: what each processed timer does to those that wait.
pub mod Scan
use critalarm_server.Prelude.{
  ℕ, zero, suc, ◌+◌, ◌≤◌, ◌<◌, ◌==◌, leb, if◌then◌else◌, Bool, true, false, ◌||◌, ◌≡◌, ◌≢◌, refl,
  sym, ap, ◌∙◌, ◌⊎◌, inl, inr, Option, none, some, List, [], ◌∷◌, ◌++◌, arith, All, All-append,
  All-find_row, All-imp, All-zip, All-update_where, All-delete_where, delete_where, update_where,
  select, insert_by, sort_by, Bool-cases, Option-cases,
}
use critalarm_server.Incident.Types.{
  IncidentState, opened, acked, TimerKind, repeat, expire, desk, IncidentRow, TimerRow, DueTimer,
  Store, IdGenerator,
}
use critalarm_server.Incident.Statements.{
  same_state, insert_timer, delete_timers_of, delete_timer, update_incident, find_incident,
}
use critalarm_server.Incident.Scan.{
  sooner, join_timer, join_timers, due_timers, timed_out, reopened, write_expire, write_reopen,
  set_fire_at, process_kind, process_timer, process_all, scan_due,
}
use critalarm_server.Incident.Invariant.{state_of, IsFresh, Unissued, Agrees, Inv}
use critalarm_server.Incident.Invariant.Scanning.{
  IsRead, process_timer-Inv, process_timer-IsRead, due_timers-IsRead,
}
use critalarm_server.Incident.Lifecycle.{Moves, process_timer-Moves, some_stays}

-- One of these rows was read for the timer with this id.
abbrev pub has_id : ℕ → List DueTimer → Bool
has_id id [] = false
has_id id (d ∷ ds) = (d.timer.id == id) || has_id id ds

-- The timer is not due, or it is still to be processed.
abbrev pub Waits : ℕ → List DueTimer → TimerRow → Type 0
Waits now due t = (now < t.fire_at) ⊎ (has_id t.id due ≡ true)

Waits-tail :
    (now : ℕ) (d : DueTimer) (due : List DueTimer) (t : TimerRow)
    → Waits now (d ∷ due) t
    → (t.id == d.timer.id) ≡ false
    → Waits now due t
Waits-tail now d due t w ne = ground (arith, w, ne)

All-delete_where_not {ℓ κ} :
    {A : Type ℓ} (P : A → Type κ) (p : A → Bool) (xs : List A)
    → All P xs
    → All (λ x. P x × (p x ≡ false)) (delete_where p xs)
unfolding delete_where
All-delete_where_not P p [] h = tt
All-delete_where_not P p (x ∷ xs) h = elim (Bool-cases (p x)) [
  | inl e ↦ rw e (All-delete_where_not P p xs h.1)
  | inr e ↦ rw e ((h.0, e), All-delete_where_not P p xs h.1)
]

All-update_where_not {ℓ κ μ} :
    {A : Type ℓ} (P : A → Type κ) (Q : A → Type μ) (p : A → Bool) (f : A → A) (xs : List A)
    → ((x : A) → P x → p x ≡ false → Q x)
    → ((x : A) → P x → p x ≡ true → Q (f x))
    → All P xs
    → All Q (update_where p f xs)
unfolding update_where
All-update_where_not P Q p f [] out hit h = tt
All-update_where_not P Q p f (x ∷ xs) out hit h = elim (Bool-cases (p x)) [
  | inl e ↦ rw e (hit x h.0 e, All-update_where_not P Q p f xs out hit h.1)
  | inr e ↦ rw e (out x h.0 e, All-update_where_not P Q p f xs out hit h.1)
]

module _ (g : IdGenerator) (now : ℕ) (d : DueTimer) (due : List DueTimer) (s : Store)
    (waits : All (Waits now (d ∷ due)) s.timers) (read : IsRead g s d) where
  stale-Waits : All (Waits now due) (delete_timer d.timer.id s).timers
  unfolding delete_timer
  stale-Waits =
      All-imp _ (λ t h. Waits-tail now d due t h.0 h.1)
        (All-delete_where_not _ (λ t. t.id == d.timer.id) s.timers waits)

  moved-Waits :
      (f : IncidentRow → IncidentRow)
      → All
          (Waits now due)
          (delete_timers_of d.scoped.incident.id (update_incident d.scoped.incident.id f s)).timers
  unfolding delete_timers_of update_incident
  moved-Waits f =
      All-imp _ (λ t h. Waits-tail now d due t h.0.0 (ground (arith, h.1, h.0.1, read.owner)))
        (All-delete_where_not _ (λ t. t.incident_id == d.scoped.incident.id) s.timers
          (All-zip _ _ s.timers waits read.agrees))

  repeat-Waits : (at : ℕ) → now < at → All (Waits now due) (set_fire_at d.timer.id at s).timers
  unfolding set_fire_at
  repeat-Waits at later =
      All-update_where_not _ _ (λ t. t.id == d.timer.id) _ s.timers
        (λ t w ne. Waits-tail now d due t w ne) (λ t w _. inl later) waits

insert_timer-Waits :
    (g : IdGenerator) (now id : ℕ) (k : TimerKind) (at : ℕ) (due : List DueTimer) (s : Store)
    → now < at
    → All (Waits now due) s.timers
    → All (Waits now due) (insert_timer g id k at s).timers
unfolding insert_timer
insert_timer-Waits g now id k at due s later w = All-append _ s.timers _ w (inl later, tt)

module _ (g : IdGenerator) (now : ℕ) (d : DueTimer) (due : List DueTimer) (s : Store)
    (waits : All (Waits now (d ∷ due)) s.timers) (read : IsRead g s d)
    (often : 0 < d.scoped.scope.repeat_interval_s) where
  process_kind-Waits :
      (k : TimerKind) (current : IncidentRow)
      → 0 < current.max_ring_s
      → All (Waits now due) (process_kind k g now d current s).1.timers
  unfolding process_kind write_expire write_reopen
  process_kind-Waits expire current long = elim (Bool-cases (same_state current.state opened)) [
    | inl hit ↦ rw hit (moved-Waits g now d due s waits read (timed_out now))
    | inr other ↦ rw other (stale-Waits g now d due s waits read)
  ]
  process_kind-Waits desk current long = elim (Bool-cases (same_state current.state acked)) [
    | inl hit ↦
        let id = d.scoped.incident.id in
        let moved = delete_timers_of id (update_incident id (reopened now) s) in
        let at = now + d.scoped.scope.repeat_interval_s in
        rw hit (
          insert_timer-Waits g now id expire _ due (insert_timer g id repeat at moved) (omega arith)
            (insert_timer-Waits g now id repeat at due moved (omega arith)
              (moved-Waits g now d due s waits read (reopened now))))
    | inr other ↦ rw other (stale-Waits g now d due s waits read)
  ]
  process_kind-Waits repeat current long = elim (Bool-cases (same_state current.state opened)) [
    | inl hit ↦ rw hit (repeat-Waits g now d due s waits read _ (omega arith))
    | inr other ↦ rw other (stale-Waits g now d due s waits read)
  ]

-- Every incident has time to ring.
abbrev pub Rings : Store → Type 0
Rings s = All (λ (r : IncidentRow). 0 < r.max_ring_s) s.incidents

process_kind-Rings :
    (k : TimerKind) (g : IdGenerator) (now : ℕ) (d : DueTimer) (current : IncidentRow) (s : Store)
    → Rings s
    → Rings (process_kind k g now d current s).1
unfolding process_kind write_expire write_reopen timed_out reopened update_incident delete_timers_of
    insert_timer delete_timer set_fire_at
process_kind-Rings expire g now d current s h =
    elim (Bool-cases (same_state current.state opened)) [
      | inl hit ↦ rw hit (All-update_where _ _ (timed_out now) s.incidents (λ r k. k) h)
      | inr other ↦ rw other h
    ]
process_kind-Rings desk g now d current s h = elim (Bool-cases (same_state current.state acked)) [
  | inl hit ↦ rw hit (All-update_where _ _ (reopened now) s.incidents (λ r k. k) h)
  | inr other ↦ rw other h
]
process_kind-Rings repeat g now d current s h =
    elim (Bool-cases (same_state current.state opened)) [
      | inl hit ↦ rw hit h
      | inr other ↦ rw other h
    ]

no_incident : (id : ℕ) (s : Store) → find_incident id s ≡ none → state_of id s.incidents ≡ none
unfolding find_incident state_of
no_incident id s e = rw e

-- What the scan knows of each timer that it has read, of the incident it names and its topic.
pub record IsReady (g : IdGenerator) (s : Store) (d : DueTimer) : Type 0 where
  pub read : IsRead g s d
  pub exists : state_of d.scoped.incident.id s.incidents ≢ none
  pub often : 0 < d.scoped.scope.repeat_interval_s

module _ (g : IdGenerator) (fresh : IsFresh g) (now : ℕ) where
  process_timer_found :
      (d : DueTimer) (due : List DueTimer) (s : Store)
      → Rings s
      → IsReady g s d
      → All (Waits now (d ∷ due)) s.timers
      → Rings (process_timer g now d s).1 × All (Waits now due) (process_timer g now d s).1.timers
  unfolding process_timer
  process_timer_found d due s rings r waits =
      elim (Option-cases (find_incident d.scoped.incident.id s)) [
        | inl e ↦ absurd (r.exists (no_incident d.scoped.incident.id s e))
        | inr (current, e) ↦
            rw (e, process_timer)
              (
                process_kind-Rings d.timer.kind g now d current s rings,
                process_kind-Waits g now d due s waits r.read r.often d.timer.kind current (
                    All-find_row _ (λ i. i.id == d.scoped.incident.id) s.incidents {x = current}
                      rings (unfold find_incident in e)),
              )
      ]

  process_timer-IsReady :
      (d x : DueTimer) (s : Store)
      → Inv g s
      → IsReady g s d
      → IsReady g s x
      → IsReady g (process_timer g now d s).1 x
  process_timer-IsReady d x s v r rx = record {
    read = process_timer-IsRead g fresh now d x s v r.read rx.read;
    exists = some_stays (process_timer-Moves g now s (λ _. now) d x.scoped.incident.id) rx.exists;
    often = rx.often;
  }

  pub process_all_done :
      (due : List DueTimer) (s : Store)
      → Inv g s
      → Rings s
      → All (IsReady g s) due
      → All (Waits now due) s.timers
      → All (λ t. now < t.fire_at) (process_all g (λ _. now) due s).1.timers
  unfolding process_all
  process_all_done [] s v rings ready waits = All-imp s.timers (λ t w. ground (arith, w)) waits
  process_all_done (d ∷ due) s v rings ready waits =
      let found = process_timer_found d due s rings ready.0 waits in
      process_all_done due _ (process_timer-Inv g fresh now d s v ready.0.read) found.0
        (All-imp due (λ x rx. process_timer-IsReady d x s v ready.0 rx) ready.1) found.1

has_id-insert_by :
    (id : ℕ) (d : DueTimer) (ds : List DueTimer)
    → has_id id (insert_by sooner d ds) ≡ has_id id (d ∷ ds)
unfolding insert_by
has_id-insert_by id d [] = refl
has_id-insert_by id d (x ∷ xs) = elim (Bool-cases (sooner d x)) [
  | inl e ↦ rw e
  | inr e ↦ rw e (ground (arith, has_id-insert_by id d xs))
]

pub has_id-sort_by : (id : ℕ) (ds : List DueTimer) → has_id id (sort_by sooner ds) ≡ has_id id ds
unfolding sort_by
has_id-sort_by id [] = refl
has_id-sort_by id (d ∷ ds) =
    has_id-insert_by id d (sort_by sooner ds)
    ∙ ap (λ b. (d.timer.id == id) || b) (has_id-sort_by id ds)
