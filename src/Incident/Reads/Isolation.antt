-- ===== src/Incident/Reads/Isolation.antt =====
-- What a list or a read of incidents shows, and to whom.
use critalarm_server.Prelude.{
  ℕ, ◌≤◌, ◌==◌, ◌&&◌, ltb, str_eq, String, count_where, count_where-select, count_where-same, sym,
  Bool, true, ◌≡◌, ◌≢◌, refl, ap, ◌∙◌, inl, inr, Option, none, some, List, [], ◌∷◌, arith, All,
  All-sort_by, All-imp, take, select, sort_by, insert_by, Bool-cases, Option-cases,
}
use critalarm_server.Incident.Types.{
  IncidentState, IncidentFilter, IncidentWithMessages, ScopedIncidentRow, Store, IdGenerator,
}
use critalarm_server.Incident.Statements.{same_state, find_incident, err, not_found}
use critalarm_server.Incident.Actions.{
  join_topic, scoped_incident, scoped_incident?, owned_by, acknowledge, close,
}
use critalarm_server.Incident.Reads.{
  get, given, join_incidents, matches, latest_first, limit_of, list_rows,
}

-- Each row was opened no later than the one above it.
abbrev pub LatestFirst : List ScopedIncidentRow → Type 0
LatestFirst [] = Unit
LatestFirst (x ∷ xs) = All (λ y. y.incident.opened_at ≤ x.incident.opened_at) xs × LatestFirst xs

All-selected {ℓ} : {A : Type ℓ} (p : A → Bool) (xs : List A) → All (λ x. p x ≡ true) (select p xs)
unfolding select
All-selected p [] = tt
All-selected p (x ∷ xs) = elim (Bool-cases (p x)) [
  | inl e ↦ rw e (e, All-selected p xs)
  | inr e ↦ rw e (All-selected p xs)
]

module _ where
  insert_by-All :
      (n : ℕ) (x : ScopedIncidentRow) (ys : List ScopedIncidentRow)
      → x.incident.opened_at ≤ n
      → All (λ y. y.incident.opened_at ≤ n) ys
      → All (λ y. y.incident.opened_at ≤ n) (insert_by latest_first x ys)
  unfolding insert_by
  insert_by-All n x [] h k = (h, tt)
  insert_by-All n x (y ∷ ys) h k = elim (Bool-cases (latest_first x y)) [
    | inl e ↦ rw e (h, k)
    | inr e ↦ rw e (k.0, insert_by-All n x ys h k.1)
  ]

  insert_by-LatestFirst :
      (x : ScopedIncidentRow) (ys : List ScopedIncidentRow)
      → LatestFirst ys
      → LatestFirst (insert_by latest_first x ys)
  unfolding insert_by
  insert_by-LatestFirst x [] h = (tt, tt)
  insert_by-LatestFirst x (y ∷ ys) h = elim (Bool-cases (latest_first x y)) [
    | inl e ↦ rw e ((ground (arith, e), All-imp ys (λ z k. ground (arith, e, k)) h.0), h)
    | inr e ↦ rw e (
      insert_by-All y.incident.opened_at x ys (ground (arith, e)) h.0,
      insert_by-LatestFirst x ys h.1,
    )
  ]

  sort_by-LatestFirst : (xs : List ScopedIncidentRow) → LatestFirst (sort_by latest_first xs)
  unfolding sort_by
  sort_by-LatestFirst [] = tt
  sort_by-LatestFirst (x ∷ xs) = insert_by-LatestFirst x _ (sort_by-LatestFirst xs)

-- What a row must meet, clause by clause; a clause that is not given asks nothing.
abbrev pub in_state : Option IncidentState → IncidentState → Bool
in_state none state = true
in_state (some wanted) state = same_state state wanted

abbrev pub named : Option String → String → Bool
named none name = true
named (some wanted) name = str_eq name wanted

abbrev pub after_second : Option ℕ → ℕ → Bool
after_second none at = true
after_second (some second) at = ltb second at

abbrev pub is_shown : ℕ → IncidentFilter → ScopedIncidentRow → Bool
is_shown account filter row =
    (row.scope.account_id == account)
    && (in_state filter.state row.incident.state
        && (named filter.topic row.scope.name
            && (after_second filter.since row.incident.updated_at
                && after_second filter.opened_after row.incident.opened_at)))

given-in_state :
    (wanted : Option IncidentState) (state : IncidentState)
    → given (same_state state) wanted ≡ in_state wanted state
given-in_state none state = refl
given-in_state (some x) state = refl

given-named :
    (wanted : Option String) (name : String) → given (str_eq name) wanted ≡ named wanted name
given-named none name = refl
given-named (some x) name = refl

given-after_second :
    (second : Option ℕ) (at : ℕ) → given (λ cutoff. ltb cutoff at) second ≡ after_second second at
given-after_second none at = refl
given-after_second (some x) at = refl

matches-is_shown :
    (account : ℕ) (filter : IncidentFilter) (row : ScopedIncidentRow)
    → matches account filter row ≡ is_shown account filter row
unfolding matches
matches-is_shown account filter row =
    rw
      (
        given-in_state filter.state row.incident.state,
        given-named filter.topic row.scope.name,
        given-after_second filter.since row.incident.updated_at,
        given-after_second filter.opened_after row.incident.opened_at,
      )
      refl

module _ {ℓ} {A : Type ℓ} where
  count_where-insert_by :
      (le : A → A → Bool) (p : A → Bool) (x : A) (ys : List A)
      → count_where p (insert_by le x ys) ≡ count_where p (x ∷ ys)
  unfolding insert_by count_where
  count_where-insert_by le p x [] = refl
  count_where-insert_by le p x (y ∷ ys) = ground (arith, count_where-insert_by le p x ys)

  count_where-sort_by :
      (le : A → A → Bool) (p : A → Bool) (xs : List A)
      → count_where p (sort_by le xs) ≡ count_where p xs
  unfolding sort_by count_where
  count_where-sort_by le p [] = refl
  count_where-sort_by le p (x ∷ xs) =
      count_where-insert_by le p x (sort_by le xs) ∙ omega (arith, count_where-sort_by le p xs)

-- All the rows to show: the latest opened first, and each row as often as the join has it.
pub record Ordered (account : ℕ) (filter : IncidentFilter) (s : Store)
    (rows : List ScopedIncidentRow) : Type 0 where
  pub latest : LatestFirst rows
  pub shown : All (λ row. is_shown account filter row ≡ true) rows
  pub complete :
      (p : ScopedIncidentRow → Bool)
      → count_where p rows
        ≡ count_where (λ row. is_shown account filter row && p row) (join_incidents s s.incidents)

-- A list of incidents is the beginning, as long as the limit says, or twenty where none is given, of
-- the list of all rows that meet every clause of the filter, which are on the account's own topics:
-- each of them as often as the table has it, and the latest opened first.
pub list_rows_lem :
    (account : ℕ) (filter : IncidentFilter) (s : Store)
    → (rows : List ScopedIncidentRow) × Ordered account filter s rows
      × (list_rows account filter s ≡ take (limit_of filter.limit) rows)
unfolding list_rows
list_rows_lem account filter s =
    let joined = join_incidents s s.incidents in
    let found = select (matches account filter) joined in
    (
      sort_by latest_first found,
      record {
        latest = sort_by-LatestFirst found;
        shown =
            All-imp _ (λ row h. sym (matches-is_shown account filter row) ∙ h)
              (All-sort_by _ latest_first found (All-selected (matches account filter) joined));
        complete = λ p.
            count_where-sort_by latest_first p found
            ∙ count_where-select p (matches account filter) joined
            ∙ count_where-same (λ row. matches account filter row && p row)
                (λ row. is_shown account filter row && p row) joined
                (λ row. ap (λ b. b && p row) (matches-is_shown account filter row));
      },
      refl,
    )

owned_by_other :
    (account other : ℕ) (o : Option ScopedIncidentRow) {row : ScopedIncidentRow}
    → owned_by account o ≡ some row
    → account ≢ other
    → owned_by other o ≡ none
unfolding owned_by
owned_by_other account other none e ne = refl
owned_by_other account other (some r) e ne = ground (arith, e, ne)

scoped_other :
    (account other id : ℕ) (s : Store) {row : ScopedIncidentRow}
    → scoped_incident? account id s ≡ some row
    → account ≢ other
    → scoped_incident? other id s ≡ none
unfolding scoped_incident?
scoped_other account other id s {row} e ne = elim (Option-cases (find_incident id s)) [
  | inl e' ↦ rw (e', scoped_incident?)
  | inr (i, e') ↦
      rw (e', scoped_incident?)
        (owned_by_other account other (join_topic s i) {row = row} (rw (e', scoped_incident?) at e)
          ne)
]

scoped-not_found :
    (account id : ℕ) (s : Store)
    → scoped_incident? account id s ≡ none
    → scoped_incident account id s ≡ err not_found
unfolding scoped_incident
scoped-not_found account id s e = rw (e, scoped_incident)

-- An incident that one account can read is not found by any other account: not by a read, an
-- acknowledgement or a close.
pub get_isolation :
    (g : IdGenerator) (now account other id : ℕ) (s : Store) {view : IncidentWithMessages}
    → get account id s ≡ some view
    → account ≢ other
    → (get other id s ≡ none)
      × (acknowledge g now other id s ≡ err not_found)
      × (close now other id s ≡ err not_found)
unfolding get acknowledge close
get_isolation g now account other id s e ne = elim (Option-cases (scoped_incident? account id s)) [
  | inl e' ↦ absurd (ground (arith, e, e'))
  | inr (row, e') ↦
      let hidden = scoped_other account other id s {row = row} e' ne in
      let refused = scoped-not_found other id s hidden in
      (rw (hidden, get), rw (refused, acknowledge), rw (refused, close))
]
