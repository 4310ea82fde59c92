-- ===== src/Check/Closed.antt =====
-- What every operation of `CheckStore` leaves as it was on a round.
pub mod Operations
use critalarm_server.Prelude.{
  ℕ, ◌+◌, ◌==◌, leb, ltb, if◌then◌else◌, Bool, true, false, not, ◌&&◌, ◌≡◌, refl, sym, ◌∙◌, Option,
  none, some, List, [], ◌∷◌, ◌++◌, arith, find_row, update_where, count_where, inl, inr, Bool-cases,
  Option-cases, str_eq,
}
use mathlib.Core.Path.{subst}
use critalarm_server.Check.Types.{
  RoundResult, received, missed, refused, skipped, SkipReason, by_tier, no_token, disabled, held,
  unsent, AttemptOutcome, accepted, push_refused, failed, cancelled, PlannedCheck, Notes, StateRow,
  RoundRow, DeviceRow, CheckStore, Outside,
}
use critalarm_server.Check.Statements.{
  is_null, same_id, gets_checks, state, round, open_round, device, update_state, update_round,
  update_unclosed,
}
use critalarm_server.Check.Close.{
  closed_with, close, accepted_attempt, held_to_the_end, expire, new_round, insert_round, skip,
  open_new, settle,
}

-- A round keeps its id, its device and both times that it was opened with, and once it has a
-- result it keeps the result, the reason and the time that it closed.
pub record Evolves (r r' : RoundRow) : Type 0 where
  pub id : r'.id ≡ r.id
  pub device_id : r'.device_id ≡ r.device_id
  pub opened_at : r'.opened_at ≡ r.opened_at
  pub closes_at : r'.closes_at ≡ r.closes_at
  pub closed :
      (x : RoundResult)
      → r.result ≡ some x
      → (r'.result ≡ some x) × (r'.reason ≡ r.reason) × (r'.closed_at ≡ r.closed_at)

-- Each row of the first table is in the second at the same place, evolved; rows may follow.
pub data Grows : List RoundRow → List RoundRow → Type 0 where
  appended : {ys : List RoundRow} → Grows [] ys
  kept :
      {x y : RoundRow} {xs ys : List RoundRow} → Evolves x y → Grows xs ys → Grows (x ∷ xs) (y ∷ ys)

Evolves-refl : (r : RoundRow) → Evolves r r
Evolves-refl r = record {
  id = refl;
  device_id = refl;
  opened_at = refl;
  closes_at = refl;
  closed = λ x e. (e, refl, refl);
}

-- A write to none of the columns that `Evolves` reads.
pub note-Evolves :
    (x y : RoundRow)
    → y.id ≡ x.id
    → y.device_id ≡ x.device_id
    → y.opened_at ≡ x.opened_at
    → y.closes_at ≡ x.closes_at
    → y.result ≡ x.result
    → y.reason ≡ x.reason
    → y.closed_at ≡ x.closed_at
    → Evolves x y
note-Evolves x y id device_id opened_at closes_at result reason closed_at = record {
  id = id;
  device_id = device_id;
  opened_at = opened_at;
  closes_at = closes_at;
  closed = λ v e. (result ∙ e, reason, closed_at);
}

Evolves-trans : {a b c : RoundRow} → Evolves a b → Evolves b c → Evolves a c
Evolves-trans f g = record {
  id = g.id ∙ f.id;
  device_id = g.device_id ∙ f.device_id;
  opened_at = g.opened_at ∙ f.opened_at;
  closes_at = g.closes_at ∙ f.closes_at;
  closed =
      λ x e. let ab = f.closed x e in let bc = g.closed x ab.0 in (bc.0, bc.1 ∙ ab.1, bc.2 ∙ ab.2);
}

pub Grows-refl : (xs : List RoundRow) → Grows xs xs
Grows-refl [] = appended
Grows-refl (x ∷ xs) = kept (Evolves-refl x) (Grows-refl xs)

pub Grows-trans : {xs ys zs : List RoundRow} → Grows xs ys → Grows ys zs → Grows xs zs
Grows-trans appended h = appended
Grows-trans (kept e g) (kept f h) = kept (Evolves-trans e f) (Grows-trans g h)

Grows-append : (xs ys : List RoundRow) → Grows xs (xs ++ ys)
Grows-append [] ys = appended
Grows-append (x ∷ xs) ys = kept (Evolves-refl x) (Grows-append xs ys)

pub Grows-update_where :
    (p : RoundRow → Bool) (f : RoundRow → RoundRow) (xs : List RoundRow)
    → ((x : RoundRow) → p x ≡ true → Evolves x (f x))
    → Grows xs (update_where p f xs)
unfolding update_where
Grows-update_where p f [] h = appended
Grows-update_where p f (x ∷ xs) h = elim (Bool-cases (p x)) [
  | inl e ↦ rw e (kept (h x e) (Grows-update_where p f xs h))
  | inr e ↦ rw e (kept (Evolves-refl x) (Grows-update_where p f xs h))
]

pub Grows-find_row :
    {xs ys : List RoundRow} (i : ℕ)
    → Grows xs ys
    → {r : RoundRow} → find_row (λ q. q.id == i) xs ≡ some r
    → (r' : RoundRow) × (find_row (λ q. q.id == i) ys ≡ some r') × Evolves r r'
unfolding find_row
Grows-find_row i appended e = cc
Grows-find_row i (kept {x = x} {y = y} f g) {r} e = elim (Bool-cases (x.id == i)) [
  | inl hit ↦ (y, ground (arith, f.id, hit), subst (λ q. Evolves q y) (ground (arith, hit)) f)
  | inr miss ↦
      let (r', e', v) = Grows-find_row i g {r = r} (ground (arith, miss)) in
      (r', ground (arith, f.id, miss), v)
]

-- The rounds of one store evolve into those of another.
abbrev pub Keeps : CheckStore → CheckStore → Type 0
Keeps s s' = Grows s.check_rounds s'.check_rounds

pub Keeps-refl : (s : CheckStore) → Keeps s s
Keeps-refl s = Grows-refl s.check_rounds

pub update_round-Keeps :
    (id : ℕ) (f : RoundRow → RoundRow) (s : CheckStore)
    → ((x : RoundRow) → Evolves x (f x))
    → Keeps s (update_round id f s)
unfolding update_round
update_round-Keeps id f s h = Grows-update_where (λ r. r.id == id) f s.check_rounds (λ x _. h x)

closed_with-Evolves :
    (result : RoundResult) (reason : Option SkipReason) (at : ℕ) (x : RoundRow)
    → is_null x.result ≡ true
    → Evolves x (closed_with result reason at x)
closed_with-Evolves result reason at x h = record {
  id = refl;
  device_id = refl;
  opened_at = refl;
  closes_at = refl;
  closed = λ y e. ground (arith, h, e);
}

pub close-Keeps :
    (r : RoundRow) (result : RoundResult) (reason : Option SkipReason) (at : ℕ) (s : CheckStore)
    → Keeps s (close r result reason at s).1
unfolding close update_unclosed update_state
close-Keeps r result reason at s =
    elim (Bool-cases (count_where (λ q. (q.id == r.id) && is_null q.result) s.check_rounds == 0)) [
      | inl e ↦ rw e (Keeps-refl s)
      | inr e ↦ rw e (
          Grows-update_where (λ q. (q.id == r.id) && is_null q.result) _ s.check_rounds
            (λ x h. closed_with-Evolves result reason at x (ground (arith, h))))
    ]

pub expire-Keeps : (r : RoundRow) (s : CheckStore) → Keeps s (expire r s)
unfolding expire
expire-Keeps r s = elim (Option-cases (accepted_attempt r.id s)) [
  | inl e ↦ rw (e, expire) (close-Keeps r skipped _ r.closes_at s)
  | inr (a, e) ↦ rw (e, expire) (close-Keeps r missed none r.closes_at s)
]

pub insert_round-Keeps : (r : RoundRow) (s : CheckStore) → Keeps s (insert_round r s)
unfolding insert_round
insert_round-Keeps r s = Grows-append s.check_rounds (r ∷ [])

pub skip-Keeps :
    (o : Outside) (st : StateRow) (r : Option RoundRow) (reason : SkipReason) (now : ℕ)
    (s : CheckStore)
    → Keeps s (skip o st r reason now s)
unfolding skip update_state
skip-Keeps o st none reason now s = insert_round-Keeps _ s
skip-Keeps o st (some r) reason now s = close-Keeps r skipped (some reason) now s

pub open_new-Keeps :
    (o : Outside) (device_id now : ℕ) (s : CheckStore) → Keeps s (open_new o device_id now s).1
unfolding open_new update_state
open_new-Keeps o device_id now s = insert_round-Keeps _ s

pub settle-Keeps : (device_id now : ℕ) (s : CheckStore) → Keeps s (settle device_id now s)
unfolding settle
settle-Keeps device_id now s = elim (Option-cases (state device_id s)) [
  | inl e ↦ rw (e, settle) (Keeps-refl s)
  | inr (st, e) ↦
      rw (e, settle)
        (elim (Option-cases (open_round st s)) [
          | inl e' ↦ rw (e', settle) (Keeps-refl s)
          | inr (r, e') ↦ rw e' (elim (Bool-cases (leb r.closes_at now)) [
            | inl over ↦ rw over (expire-Keeps r s)
            | inr open_still ↦ rw open_still (Keeps-refl s)
          ])
        ])
]
