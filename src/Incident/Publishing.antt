-- ===== src/Incident/Publishing.antt =====
-- What a critical publication leaves in the database and tells the phones.
use critalarm_server.Prelude.{
  ℕ, ◌+◌, ◌==◌, if◌then◌else◌, Bool, true, ◌&&◌, not, ◌≡◌, ◌⊎◌, inl, inr, refl, ap, Option, none,
  some, List, [], ◌∷◌, ◌++◌, map, arith, length, find_row, find_row-append, find_row-holds,
  update_where, ==_refl,
}
use mathlib.Core.Option
use critalarm_server.Incident.Types.{
  IncidentState, opened, acked, closed, expired, EventKind, p5, DeliveryEvent, IncidentRow,
  CriticalPublication, Store, IdGenerator,
}
use critalarm_server.Incident.Statements.{same_state, is_active, update_incident, active_incident}
use critalarm_server.Incident.Publish.{new_incident, touched, open_or_join, publish_critical}

-- What an event tells a phone about ringing: its kind, incident, end of the window and loudness.
abbrev pub Ring : Type 0
Ring = EventKind × Option ℕ × Option ℕ × Bool

abbrev pub ring_of : DeliveryEvent → Ring
ring_of e = (e.kind, e.incident_id, e.ring_until, e.critical)

-- An update by id that keeps what a search looks at is seen in the row that the search finds.
find_row-touched :
    (q : IncidentRow → Bool) (id now : ℕ) (rows : List IncidentRow)
    → ((r : IncidentRow) → q (touched now r) ≡ q r)
    → find_row q (update_where (λ r. r.id == id) (touched now) rows)
      ≡ Option.map (λ r. if r.id == id then touched now r else r) (find_row q rows)
unfolding find_row update_where
find_row-touched q id now [] keep = refl
find_row-touched q id now (r ∷ rows) keep =
    ground (arith, keep r, find_row-touched q id now rows keep)

length-update_where :
    (p : IncidentRow → Bool) (f : IncidentRow → IncidentRow) (rows : List IncidentRow)
    → length (update_where p f rows) ≡ length rows
unfolding update_where
length-update_where p f [] = refl
length-update_where p f (r ∷ rows) = ground (arith, length-update_where p f rows)

is_active-cases : (x : IncidentState) → is_active x ≡ true → (x ≡ opened) ⊎ (x ≡ acked)
is_active-cases opened h = inl refl
is_active-cases acked h = inr refl
is_active-cases closed h = cc
is_active-cases expired h = cc

module _ (g : IdGenerator) (now : ℕ) (input : CriticalPublication) where
  touched-active :
      (r : IncidentRow) (s : Store)
      → active_incident input.topic_id s ≡ some r
      → active_incident input.topic_id (update_incident r.id (touched now) s) ≡ some (touched now r)
  unfolding active_incident update_incident
  touched-active r s e = rw (
    find_row-touched (λ i. (i.topic_id == input.topic_id) && is_active i.state) r.id now s.incidents
        (λ x. unfold touched in refl),
    e,
    ==_refl r.id,
  )

  open_or_join-active :
      (existing : Option IncidentRow) (s : Store)
      → active_incident input.topic_id s ≡ existing
      → let (row, s') = open_or_join g now input existing s in
        active_incident input.topic_id s' ≡ some row
  unfolding open_or_join active_incident new_incident find_row
  open_or_join-active none s e =
      rw
        (
          find_row-append (λ i. (i.topic_id == input.topic_id) && is_active i.state) s.incidents _,
          e,
        )
        (ground (arith, ==_refl input.topic_id))
  open_or_join-active (some r) s e = touched-active r s e

  open_or_join-rest :
      (existing : Option IncidentRow) (s : Store)
      → let (row, s') = open_or_join g now input existing s in
        (row.last_message_at ≡ now) × (s'.messages ≡ s.messages)
  unfolding open_or_join new_incident touched
  open_or_join-rest none s = (refl, refl)
  open_or_join-rest (some r) s = (refl, refl)

  active_state :
      (s : Store) {r : IncidentRow}
      → active_incident input.topic_id s ≡ some r
      → is_active r.state ≡ true
  unfolding active_incident
  active_state s {r} e = ground (
    arith,
    find_row-holds (λ i. (i.topic_id == input.topic_id) && is_active i.state) s.incidents {x = r} e,
  )

  active_topic :
      (s : Store) {r : IncidentRow}
      → active_incident input.topic_id s ≡ some r
      → r.topic_id ≡ input.topic_id
  unfolding active_incident
  active_topic s {r} e = ground (
    arith,
    find_row-holds (λ i. (i.topic_id == input.topic_id) && is_active i.state) s.incidents {x = r} e,
  )

  -- After a critical publication the topic has an open or acknowledged incident, which is the one that the
  -- publication answers with; its last message is of now, and the new message stands at the end of
  -- the table under this incident.
  pub publish_critical_effect :
      (s : Store)
      → let (published, s') = publish_critical g now input s in
        (row : IncidentRow) × (active_incident input.topic_id s' ≡ some row)
        × (row.topic_id ≡ input.topic_id)
        × ((row.state ≡ opened) ⊎ (row.state ≡ acked))
        × (row.id ≡ published.incident.id)
        × (row.last_message_at ≡ now)
        × (published.message.incident_id ≡ some row.id)
        × (s'.messages ≡ s.messages ++ published.message ∷ [])
  unfolding publish_critical
  publish_critical_effect s =
      let existing = active_incident input.topic_id s in
      let rest = open_or_join-rest existing s in
      let found = open_or_join-active existing s refl in
      (
        (open_or_join g now input existing s).0,
        found,
        active_topic (publish_critical g now input s).1 found,
        is_active-cases _ (active_state (publish_critical g now input s).1 found),
        refl,
        rest.0,
        refl,
        ap (λ ms. ms ++ (publish_critical g now input s).0.message ∷ []) rest.1,
      )

  -- A critical publication that finds an active incident joins it: it adds no incident and no
  -- timer, and it sends one event of kind p5, for this incident, which rings only if the incident
  -- is open, and only until the end of the time that the incident already had.
  pub publish_critical_join :
      (s : Store) {r : IncidentRow}
      → active_incident input.topic_id s ≡ some r
      → let (published, s') = publish_critical g now input s in
        (published.incident.id ≡ r.id)
        × (length s'.incidents ≡ length s.incidents)
        × (s'.timers ≡ s.timers)
        × (map ring_of published.events
            ≡ (p5, some r.id, some (r.opened_at + r.max_ring_s), same_state r.state opened) ∷ [])
  unfolding publish_critical
  publish_critical_join s {r} e =
      let critical : not (same_state r.state acked) ≡ same_state r.state opened =
        ground (arith, active_state s {r = r} e) in
      rw (e, publish_critical)
        (
          refl,
          length-update_where (λ i. i.id == r.id) (touched now) s.incidents,
          refl,
          ap (λ b. (p5, some r.id, some (r.opened_at + r.max_ring_s), b) ∷ []) critical,
        )
