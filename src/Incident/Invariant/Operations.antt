-- ===== src/Incident/Invariant/Operations.antt =====
-- Every operation of the engine keeps the invariant.
use mathlib.Core.List.{append-nil}
use critalarm_server.Prelude.{
  ℕ, ◌+◌, ◌≤◌, ◌==◌, if◌then◌else◌, ◌≡◌, refl, sym, ap, ◌∙◌, inl, inr, Option, none, some, List, [],
  ◌∷◌, ◌++◌, arith, All-append, All-update_where, All-imp, update_where, find_row, find_row-append,
  find_row-absent, count_where, count_where-append, count_where-All, count_where-find_row,
  count_where-update_where, Bool-cases, ==_iff,
}
use critalarm_server.Incident.Types.{
  opened, repeat, expire, IncidentRow, MessageRecord, CriticalPublication, Store, IdGenerator,
}
use critalarm_server.Incident.Statements.{update_incident, active_incident}
use critalarm_server.Incident.Publish.{new_incident, touched, open_or_join, publish_critical}
use critalarm_server.Incident.Invariant.{
  kinds_of, state_of, kinds_for, active_in, IsFresh, Inv, Pending,
}
use critalarm_server.Incident.Invariant.Writes.{
  insert_timer-Pending, Pending-done, Unissued-suc, Unissued-drawn,
}

-- Drawing an id, with any write to the messages, keeps the invariant.
pub draw-Inv :
    (g : IdGenerator) (s : Store) (ms : List MessageRecord)
    → Inv g s
    → Inv g (record s { messages = ms; drawn = s.drawn + 1 })
draw-Inv g s ms v = record {
  timers_match = v.timers_match;
  sound = record {
    one_active = v.one_active;
    unique_ids = v.unique_ids;
    incidents_issued =
        All-imp s.incidents (λ r. Unissued-suc g.incident s.drawn r.id) v.incidents_issued;
    timers_issued = All-imp s.timers (λ t. Unissued-suc g.timer s.drawn t.id) v.timers_issued;
    timers_agree = v.timers_agree;
  };
}

pub state_of-touched :
    (i id now : ℕ) (rows : List IncidentRow)
    → state_of i (update_where (λ x. x.id == id) (touched now) rows) ≡ state_of i rows
unfolding state_of update_where find_row touched
state_of-touched i id now [] = refl
state_of-touched i id now (x ∷ xs) = ground (arith, state_of-touched i id now xs)

touch-Inv :
    (g : IdGenerator) (now id : ℕ) (s : Store)
    → Inv g s
    → Inv g (update_incident id (touched now) s)
unfolding update_incident touched
touch-Inv g now id s v = record {
  timers_match = λ i. v.timers_match i ∙ ap kinds_for (sym (state_of-touched i id now s.incidents));
  sound = record {
    one_active = λ topic. omega (
      arith,
      count_where-update_where (λ x. x.id == id) (active_in topic) (touched now) s.incidents
          (λ x _ h. unfold active_in in h),
      v.one_active topic,
    );
    unique_ids = λ i. omega (
      arith,
      count_where-update_where (λ x. x.id == id) (λ x. x.id == i) (touched now) s.incidents
          (λ x _ h. h),
      v.unique_ids i,
    );
    incidents_issued = All-update_where _ _ (touched now) s.incidents (λ x h. h) v.incidents_issued;
    timers_issued = v.timers_issued;
    timers_agree = v.timers_agree;
  };
}

module _ (g : IdGenerator) (fresh : IsFresh g) (now : ℕ) (input : CriticalPublication) (s : Store)
    (v : Inv g s) where
  abbrev pub the_id : ℕ
  the_id = g.incident s.drawn

  abbrev pub inserted : Store
  inserted = record s {
    incidents = s.incidents ++ new_incident the_id now input ∷ [];
    drawn = s.drawn + 1;
  }

  the_id-absent : count_where (λ (r : IncidentRow). r.id == the_id) s.incidents ≡ 0
  the_id-absent =
      count_where-All _ s.incidents
        (All-imp s.incidents (λ r h. ground (arith, h s.drawn)) v.incidents_issued)

  pub no_state : state_of the_id s.incidents ≡ none
  unfolding state_of
  no_state = rw (find_row-absent _ s.incidents the_id-absent)

  pub state_of-inserted :
      (i : ℕ)
      → state_of i (s.incidents ++ new_incident the_id now input ∷ [])
        ≡ (if i == the_id then some opened else state_of i s.incidents)
  unfolding state_of new_incident find_row
  state_of-inserted i = elim (Bool-cases (i == the_id)) [
    | inl same ↦
        rw
          (
            same,
            (==_iff i the_id).0 same,
            find_row-append (λ r. r.id == the_id) s.incidents _,
            find_row-absent _ s.incidents the_id-absent,
          )
          (ground arith)
    | inr ne ↦ rw (ne, find_row-append (λ r. r.id == i) s.incidents _) (ground (arith, ne))
  ]

  inserted_match :
      (i : ℕ)
      → kinds_of i s.timers ++ (if i == the_id then repeat ∷ expire ∷ [] else [])
        ≡ kinds_for (state_of i (s.incidents ++ new_incident the_id now input ∷ []))
  unfolding kinds_for
  inserted_match i = elim (Bool-cases (i == the_id)) [
    | inl same ↦
        rw (state_of-inserted i, same, (==_iff i the_id).0 same, v.timers_match the_id, no_state)
    | inr ne ↦ rw (state_of-inserted i, ne, append-nil (kinds_of i s.timers)) (v.timers_match i)
  ]

  one_active-inserted :
      (topic : ℕ)
      → active_incident input.topic_id s ≡ none
      → count_where (active_in topic) (s.incidents ++ new_incident the_id now input ∷ []) ≤ 1
  unfolding active_incident new_incident active_in count_where
  one_active-inserted topic e =
      rw (count_where-append (active_in topic) s.incidents _)
        (elim (Bool-cases (input.topic_id == topic)) [
          | inl same ↦
              rw (← (==_iff input.topic_id topic).0 same)
                (ground (arith, count_where-find_row (active_in input.topic_id) s.incidents e))
          | inr ne ↦ ground (arith, ne, v.one_active topic)
        ])

  inserted-Pending :
      active_incident input.topic_id s ≡ none → Pending g the_id (repeat ∷ expire ∷ []) inserted
  unfolding new_incident count_where
  inserted-Pending e = record {
    pending_match = inserted_match;
    sound = record {
      one_active = λ topic. one_active-inserted topic e;
      unique_ids = λ i.
          rw (count_where-append (λ r. r.id == i) s.incidents _) (elim (Bool-cases (the_id == i)) [
            | inl same ↦ rw (← (==_iff the_id i).0 same) (ground (arith, the_id-absent))
            | inr ne ↦ ground (arith, ne, v.unique_ids i)
          ]);
      incidents_issued =
          All-append _ s.incidents _
            (All-imp s.incidents (λ r. Unissued-suc g.incident s.drawn r.id) v.incidents_issued)
            (Unissued-drawn g.incident s.drawn fresh.incident, tt);
      timers_issued = All-imp s.timers (λ t. Unissued-suc g.timer s.drawn t.id) v.timers_issued;
      timers_agree = v.timers_agree;
    };
  }

  open_or_join-Inv :
      (existing : Option IncidentRow)
      → active_incident input.topic_id s ≡ existing
      → Inv g (open_or_join g now input existing s).1
  unfolding open_or_join
  open_or_join-Inv none e = Pending-done g the_id _ (
      insert_timer-Pending g fresh the_id expire _ [] _
        (insert_timer-Pending g fresh the_id repeat _ (expire ∷ []) _ (inserted-Pending e)))
  open_or_join-Inv (some existing) e = touch-Inv g now existing.id s v

  pub publish_critical-Inv : Inv g (publish_critical g now input s).1
  unfolding publish_critical
  publish_critical-Inv = draw-Inv g _ _ (open_or_join-Inv (active_incident input.topic_id s) refl)
