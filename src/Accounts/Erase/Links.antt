-- ===== src/Accounts/Erase/Links.antt =====
-- src/v1/accounts.ts: the messages that the erase of an account leaves, and the incidents they name.
use critalarm_server.Prelude.{
  ℕ, ◌==◌, ◌≤◌, Bool, true, false, not, ◌&&◌, Option, none, some, List, [], ◌∷◌, ◌≡◌, refl, inl,
  inr, Bool-cases, Option-cases, arith, count_where, count_where-kept, delete_where, update_where,
  All,
}
use mathlib.Core.Path.{subst}
use critalarm_server.Incident.Types.{IncidentRow, MessageRecord}
use critalarm_server.Accounts.Types.{AccountStore}
use critalarm_server.Accounts.Merge.{topic_in}
use critalarm_server.Accounts.Erase.{unlink_message}

-- The incident that a message of the topic names is there, and is one of the same topic.
abbrev pub LinksTo : List IncidentRow → ℕ → Option ℕ → Type 0
LinksTo incidents topic none = Unit
LinksTo incidents topic (some id) =
    (1 ≤ count_where (λ i. i.id == id) incidents)
    × (count_where (λ i. (i.id == id) && not (i.topic_id == topic)) incidents ≡ 0)

module _ (gone : ℕ → Bool) (topic id : ℕ) (stays : gone topic ≡ false) where
  none_gone :
      (incidents : List IncidentRow)
      → count_where (λ i. (i.id == id) && not (i.topic_id == topic)) incidents ≡ 0
      → count_where (λ i. (i.id == id) && gone i.topic_id) incidents ≡ 0
  unfolding count_where
  none_gone [] own = refl
  none_gone (i ∷ incidents) own = grind (arith, stays, own, none_gone incidents)

pub LinksTo-delete_where :
    (gone : ℕ → Bool) (incidents : List IncidentRow) (topic : ℕ) (link : Option ℕ)
    → gone topic ≡ false
    → LinksTo incidents topic link
    → LinksTo (delete_where (λ i. gone i.topic_id) incidents) topic link
LinksTo-delete_where gone incidents topic none stays h = tt
LinksTo-delete_where gone incidents topic (some id) stays h = (
  omega (
    arith,
    none_gone gone topic id stays incidents h.1,
    count_where-kept (λ i. i.id == id) (λ i. gone i.topic_id) incidents,
    h.0,
  ),
  omega (
    arith,
    count_where-kept (λ i. (i.id == id) && not (i.topic_id == topic)) (λ i. gone i.topic_id)
        incidents,
    h.1,
  ),
)

pub All-LinksTo :
    (gone : ℕ → Bool) (incidents : List IncidentRow) (messages : List MessageRecord)
    → All (λ m. LinksTo incidents m.topic_id m.incident_id) messages
    → All
        (λ m. LinksTo (delete_where (λ i. gone i.topic_id) incidents) m.topic_id m.incident_id)
        (delete_where (λ m. gone m.topic_id) messages)
unfolding delete_where
All-LinksTo gone incidents [] h = tt
All-LinksTo gone incidents (m ∷ messages) h =
    let rest = All-LinksTo gone incidents messages h.1 in
    elim (Bool-cases (gone m.topic_id)) [
      | inl e ↦ rw e rest
      | inr e ↦ rw e (LinksTo-delete_where gone incidents m.topic_id m.incident_id e h.0, rest)
    ]

unlink_message-kept :
    (family : List ℕ) (s : AccountStore) (m : MessageRecord)
    → topic_in family s m.topic_id ≡ false
    → LinksTo s.engine.incidents m.topic_id m.incident_id
    → unlink_message family s m ≡ m
unlink_message-kept family s m stays h = elim (Option-cases m.incident_id) [
  | inl e ↦ rw e refl
  | inr (id, e) ↦
      let linked = subst (LinksTo s.engine.incidents m.topic_id) e h in
      let apart = none_gone (topic_in family s) m.topic_id id stays s.engine.incidents linked.1 in
      rw (e, apart) refl
]

-- No message that stays names an incident that goes.
pub update_where-unlink_message :
    (family : List ℕ) (s : AccountStore) (messages : List MessageRecord)
    → All (λ m. LinksTo s.engine.incidents m.topic_id m.incident_id) messages
    → update_where
        (λ m. true)
        (unlink_message family s)
        (delete_where (λ m. topic_in family s m.topic_id) messages)
      ≡ delete_where (λ m. topic_in family s m.topic_id) messages
unfolding delete_where update_where
update_where-unlink_message family s [] h = refl
update_where-unlink_message family s (m ∷ messages) h =
    let rest = update_where-unlink_message family s messages h.1 in
    elim (Bool-cases (topic_in family s m.topic_id)) [
      | inl e ↦ rw e rest
      | inr e ↦ rw (e, unlink_message-kept family s m e h.0, rest) refl
    ]
