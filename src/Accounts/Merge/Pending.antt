-- ===== src/Accounts/Merge/Pending.antt =====
-- src/v1/accounts.ts: the topics that a merge has still to go through.
use critalarm_server.Prelude.{
  ℕ, ◌+◌, ◌==◌, ◌≤◌, ==_refl, if◌then◌else◌, if_both, Bool, true, false, ◌&&◌, List, [], ◌∷◌, ◌≡◌,
  refl, inl, inr, Bool-cases, arith, length, select, count_where, delete_where, update_where, All,
  All-imp,
}
use critalarm_server.Incident.Types.{TopicRow}
use critalarm_server.Accounts.Types.{AccountStore}

-- Rows that are repointed before their topic is deleted stay.
pub length-repointed {ℓ} :
    {A : Type ℓ} (key : A → ℕ) (f : A → A) (id : ℕ) (xs : List A)
    → ((x : A) → (key (f x) == id) ≡ false)
    → length (delete_where (λ x. key x == id) (update_where (λ x. key x == id) f xs)) ≡ length xs
unfolding delete_where update_where
length-repointed key f id [] h = refl
length-repointed key f id (x ∷ xs) h = elim (Bool-cases (key x == id)) [
  | inl e ↦ rw (e, h x) (omega (arith, length-repointed key f id xs h))
  | inr e ↦ rw (e, e) (omega (arith, length-repointed key f id xs h))
]

pub All-uncounted {ℓ} :
    {A : Type ℓ} (p : A → Bool) (xs : List A) → count_where p xs ≡ 0 → All (λ x. p x ≡ false) xs
unfolding count_where
All-uncounted p [] h = tt
All-uncounted p (x ∷ xs) h = (ground (arith, h), All-uncounted p xs (ground (arith, h)))

pub count_where-delete_where_le {ℓ} :
    {A : Type ℓ} (p q : A → Bool) (xs : List A)
    → count_where q (delete_where p xs) ≤ count_where q xs
unfolding count_where delete_where
count_where-delete_where_le p q [] = omega arith
count_where-delete_where_le p q (x ∷ xs) = ground (arith, count_where-delete_where_le p q xs)

-- The id of a topic names one row.
abbrev pub HasUniqueTopics : AccountStore → Type 0
HasUniqueTopics s = (id : ℕ) → count_where (λ t. t.id == id) s.engine.topics ≤ 1

-- The rows of the id that are the target's already.
abbrev pub taken : ℕ → ℕ → TopicRow → Bool
taken target id t = (t.id == id) && (t.account_id == target)

-- What is still to be merged: none of it is the target's, and no id comes twice.
abbrev pub Pending : ℕ → List TopicRow → List TopicRow → Type 0
Pending target rows [] = Unit
Pending target rows (topic ∷ topics) =
    (count_where (taken target topic.id) rows ≡ 0)
    × All (λ t. (t.id == topic.id) ≡ false) topics
    × Pending target rows topics

pub Pending-imp :
    (target : ℕ) (rows rows' : List TopicRow) (id : ℕ) (topics : List TopicRow)
    → ((t : TopicRow)
        → (t.id == id) ≡ false
        → count_where (taken target t.id) rows' ≤ count_where (taken target t.id) rows)
    → All (λ t. (t.id == id) ≡ false) topics
    → Pending target rows topics
    → Pending target rows' topics
Pending-imp target rows rows' id [] fewer apart h = tt
Pending-imp target rows rows' id (topic ∷ topics) fewer apart h = (
  omega (arith, fewer topic apart.0, h.0),
  h.1,
  Pending-imp target rows rows' id topics fewer apart.1 h.2,
)

-- The topics of the source, before any of them is merged.
uncounted_id :
    (p : TopicRow → Bool) (id : ℕ) (xs : List TopicRow)
    → count_where (λ t. t.id == id) xs ≡ 0
    → All (λ t. (t.id == id) ≡ false) (select p xs)
unfolding count_where select
uncounted_id p id [] h = tt
uncounted_id p id (x ∷ xs) h =
    let here : (x.id == id) ≡ false = ground (arith, h) in
    let rest = uncounted_id p id xs (ground (arith, h)) in
    if_both (λ (ts : List TopicRow). All (λ t. (t.id == id) ≡ false) ts) (p x) _ _ (here, rest) rest

Pending-step :
    (target : ℕ) (rows : List TopicRow) (b : Bool) (x : TopicRow) (topics : List TopicRow)
    → (b ≡ true → count_where (taken target x.id) rows ≡ 0)
    → All (λ t. (t.id == x.id) ≡ false) topics
    → Pending target rows topics
    → Pending target rows (if b then x ∷ topics else topics)
Pending-step target rows true x topics free apart h = (free refl, apart, h)
Pending-step target rows false x topics free apart h = h

pub select-Pending :
    (source target : ℕ) (rows xs : List TopicRow)
    → ((id : ℕ) → count_where (λ t. t.id == id) xs ≤ 1)
    → All (λ t. (t.account_id == source) ≡ true → count_where (taken target t.id) rows ≡ 0) xs
    → Pending target rows (select (λ t. t.account_id == source) xs)
unfolding select count_where
select-Pending source target rows [] unique free = tt
select-Pending source target rows (x ∷ xs) unique free =
    Pending-step target rows (x.account_id == source) x (select (λ t. t.account_id == source) xs)
      free.0
      (uncounted_id (λ t. t.account_id == source) x.id xs
        (ground (arith, unique x.id, ==_refl x.id)))
      (select-Pending source target rows xs (λ id. ground (arith, unique id)) free.1)

taken-one :
    (source target id : ℕ) (xs : List TopicRow)
    → (target == source) ≡ false
    → count_where (taken target id) xs + count_where (taken source id) xs
      ≤ count_where (λ t. t.id == id) xs
unfolding count_where
taken-one source target id [] apart = omega arith
taken-one source target id (x ∷ xs) apart =
    ground (arith, apart, taken-one source target id xs apart)

own_counted :
    (source : ℕ) (xs : List TopicRow)
    → All (λ t. (t.account_id == source) ≡ true → 1 ≤ count_where (taken source t.id) xs) xs
unfolding count_where
own_counted source [] = tt
own_counted source (x ∷ xs) = (
  λ own. ground (arith, own, ==_refl x.id),
  All-imp xs (λ t h own. omega (arith, h own)) (own_counted source xs),
)

-- A row of the source is the only one of its id, so the target has none.
pub untaken :
    (source target : ℕ) (xs : List TopicRow)
    → (target == source) ≡ false
    → ((id : ℕ) → count_where (λ t. t.id == id) xs ≤ 1)
    → All (λ t. (t.account_id == source) ≡ true → count_where (taken target t.id) xs ≡ 0) xs
untaken source target xs apart unique =
    All-imp xs (λ t h own. omega (arith, h own, taken-one source target t.id xs apart, unique t.id))
      (own_counted source xs)
