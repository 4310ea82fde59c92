-- ===== src/Incident/Invariant/Writes.antt =====
-- The writes of the engine keep the invariant.
use mathlib.Core.List.{append-nil, append_assoc}
use critalarm_server.Prelude.{
  ℕ, ◌+◌, ◌==◌, if◌then◌else◌, true, false, ◌≡◌, refl, sym, ap, ◌∙◌, inl, inr, some, List, [], ◌∷◌,
  ◌++◌, arith, All, All-append, All-delete_where, All-update_where, All-imp, All-zip, delete_where,
  update_where, find_row, count_where-update_where, find_row-update_where,
  find_row-update_where_other, count_where-update_where_found, Bool-cases, ==_iff,
}
use critalarm_server.Incident.Types.{
  IncidentState, TimerKind, IncidentRow, TimerRow, Store, IdGenerator,
}
use critalarm_server.Incident.Statements.{
  is_active, insert_timer, delete_timers_of, update_incident, find_incident,
}
use critalarm_server.Incident.Invariant.{
  kinds_of, state_of, kinds_for, active_in, IsInjective, IsFresh, Unissued, Agrees, IsSound, Inv,
  Pending,
}

kinds_of-append :
    (i : ℕ) (xs ys : List TimerRow) → kinds_of i (xs ++ ys) ≡ kinds_of i xs ++ kinds_of i ys
unfolding kinds_of
kinds_of-append i [] ys = refl
kinds_of-append i (t ∷ ts) ys = ground (arith, kinds_of-append i ts ys)

kinds_of-delete :
    (i j : ℕ) (ts : List TimerRow)
    → kinds_of i (delete_where (λ t. t.incident_id == j) ts)
      ≡ (if i == j then [] else kinds_of i ts)
unfolding kinds_of delete_where
kinds_of-delete i j [] = ground arith
kinds_of-delete i j (t ∷ ts) = ground (arith, kinds_of-delete i j ts)

pub Unissued-suc : (gen : ℕ → ℕ) (n id : ℕ) → Unissued gen n id → Unissued gen (n + 1) id
Unissued-suc gen n id h k le = h k (omega arith)

pub Unissued-drawn : (gen : ℕ → ℕ) (n : ℕ) → IsInjective gen → Unissued gen (n + 1) (gen n)
Unissued-drawn gen n inj k le e = absurd (omega (arith, inj n k e))

kinds_of-one :
    (i : ℕ) (t : TimerRow) (ks : List TimerKind)
    → kinds_of i (t ∷ []) ++ (if i == t.incident_id then ks else [])
      ≡ (if i == t.incident_id then t.kind ∷ ks else [])
unfolding kinds_of
kinds_of-one i t ks = ground arith

Agrees-append :
    (gen : ℕ → ℕ) (n : ℕ) (t new : TimerRow) (ts : List TimerRow)
    → new.id ≡ gen n
    → Agrees t ts
    → Unissued gen n t.id
    → Agrees t (ts ++ new ∷ [])
Agrees-append gen n t new ts e a u =
    All-append _ ts _ a (λ same. absurd (u n (omega arith) (sym same ∙ e)), tt)

Agrees-new :
    (gen : ℕ → ℕ) (n : ℕ) (new : TimerRow) (ts : List TimerRow)
    → new.id ≡ gen n
    → All (λ t. Unissued gen n t.id) ts
    → Agrees new (ts ++ new ∷ [])
Agrees-new gen n new ts e u =
    All-append _ ts _ (All-imp ts (λ t h same. absurd (h n (omega arith) (same ∙ e))) u)
      (λ _. (refl, refl), tt)

module _ (g : IdGenerator) (fresh : IsFresh g) (id : ℕ) (k : TimerKind) (fire_at : ℕ) where
  insert_timer-IsSound : (s : Store) → IsSound g s → IsSound g (insert_timer g id k fire_at s)
  unfolding insert_timer
  insert_timer-IsSound s v = record {
    one_active = v.one_active;
    unique_ids = v.unique_ids;
    incidents_issued =
        All-imp s.incidents (λ r. Unissued-suc g.incident s.drawn r.id) v.incidents_issued;
    timers_issued =
        All-append _ s.timers _
          (All-imp s.timers (λ t. Unissued-suc g.timer s.drawn t.id) v.timers_issued)
          (Unissued-drawn g.timer s.drawn fresh.timer, tt);
    timers_agree =
        All-append _ s.timers _
          (All-imp s.timers (λ t h. Agrees-append g.timer s.drawn t _ s.timers refl h.0 h.1)
            (All-zip _ _ s.timers v.timers_agree v.timers_issued))
          (Agrees-new g.timer s.drawn _ s.timers refl v.timers_issued, tt);
  }

  pub insert_timer-Pending :
      (ks : List TimerKind) (s : Store)
      → Pending g id (k ∷ ks) s
      → Pending g id ks (insert_timer g id k fire_at s)
  unfolding insert_timer
  insert_timer-Pending ks s v = record {
    pending_match = λ i.
        rw (kinds_of-append i s.timers _, append_assoc, kinds_of-one i _ ks) (v.pending_match i);
    sound = insert_timer-IsSound s v.sound;
  }

pub Pending-done : (g : IdGenerator) (id : ℕ) (s : Store) → Pending g id [] s → Inv g s
Pending-done g id s v = record {
  timers_match = λ i. ground (arith, v.pending_match i, append-nil (kinds_of i s.timers));
  sound = v.sound;
}

-- Moving an active incident to a new state and dropping its timers leaves the timers of the new
-- state to be inserted.
module _ (g : IdGenerator) (id : ℕ) (f : IncidentRow → IncidentRow) (to : IncidentState)
    (f_id : (r : IncidentRow) → (f r).id ≡ r.id)
    (f_topic : (r : IncidentRow) → (f r).topic_id ≡ r.topic_id)
    (f_state : (r : IncidentRow) → (f r).state ≡ to) where
  pub state_of-update_self :
      (rows : List IncidentRow) {r : IncidentRow}
      → find_row (λ x. x.id == id) rows ≡ some r
      → state_of id (update_where (λ x. x.id == id) f rows) ≡ some to
  unfolding state_of
  state_of-update_self rows {r} e =
      rw
        (
          find_row-update_where (λ x. x.id == id) (λ x. x.id == id) f rows (λ x. rw (f_id x))
              (λ x h. h),
          e,
        )
        (ap some (f_state r))

  pub state_of-update_other :
      (i : ℕ) (rows : List IncidentRow)
      → (i == id) ≡ false
      → state_of i (update_where (λ x. x.id == id) f rows) ≡ state_of i rows
  unfolding state_of
  state_of-update_other i rows ne = rw (
      find_row-update_where_other (λ x. x.id == id) (λ x. x.id == i) f rows (λ x. rw (f_id x))
        (λ x h. ground arith))

  moved-IsSound :
      (s : Store) {r : IncidentRow}
      → IsSound g s
      → find_incident id s ≡ some r
      → is_active r.state ≡ true
      → IsSound g (delete_timers_of id (update_incident id f s))
  unfolding delete_timers_of update_incident find_incident active_in
  moved-IsSound s {r} v e active = record {
    one_active = λ topic. omega (
      arith,
      count_where-update_where_found (λ x. x.id == id) (active_in topic) f s.incidents {r = r}
          (v.unique_ids id) e (ground (arith, f_topic r)),
      v.one_active topic,
    );
    unique_ids = λ i. omega (
      arith,
      count_where-update_where (λ x. x.id == id) (λ x. x.id == i) f s.incidents
          (λ x h k. ground (arith, f_id x)),
      v.unique_ids i,
    );
    incidents_issued = All-update_where _ _ f s.incidents (λ x h. rw (f_id x) h) v.incidents_issued;
    timers_issued = All-delete_where _ _ s.timers v.timers_issued;
    timers_agree =
        All-imp _ (λ t h. All-delete_where _ _ s.timers h)
          (All-delete_where _ _ s.timers v.timers_agree);
  }

  moved-match :
      (s : Store) {r : IncidentRow} (i : ℕ)
      → Inv g s
      → find_row (λ x. x.id == id) s.incidents ≡ some r
      → kinds_of i (delete_where (λ t. t.incident_id == id) s.timers)
          ++ (if i == id then kinds_for (some to) else [])
        ≡ kinds_for (state_of i (update_where (λ x. x.id == id) f s.incidents))
  moved-match s {r} i v e = elim (Bool-cases (i == id)) [
    | inl same ↦ rw (
      kinds_of-delete i id s.timers,
      same,
      (==_iff i id).0 same,
      state_of-update_self s.incidents e,
    )
    | inr ne ↦
        rw
          (
            kinds_of-delete i id s.timers,
            ne,
            state_of-update_other i s.incidents ne,
            append-nil (kinds_of i s.timers),
          )
          (v.timers_match i)
  ]

  pub moved-Pending :
      (s : Store) {r : IncidentRow}
      → Inv g s
      → find_incident id s ≡ some r
      → is_active r.state ≡ true
      → Pending g id (kinds_for (some to)) (delete_timers_of id (update_incident id f s))
  unfolding delete_timers_of update_incident find_incident
  moved-Pending s {r} v e active = record {
    pending_match = λ i. moved-match s {r = r} i v e;
    sound = moved-IsSound s {r = r} v.sound e active;
  }
