-- ===== src/Check/Results.antt =====
-- src/check/store.ts: receipts that count, and the count of missed rounds.
use critalarm_server.Prelude.{
  ℕ, ◌+◌, ◌==◌, Bool, true, false, ◌&&◌, ◌≡◌, refl, ap, find_row-holds, Option, some, List, [], ◌∷◌,
  arith, find_row, update_where, count_where,
}
use mathlib.Core.Option
use critalarm_server.Check.Types.{
  RoundResult, received, missed, refused, skipped, SkipReason, StateRow, RoundRow, CheckStore,
}
use critalarm_server.Check.Statements.{is_null, state, update_state, update_unclosed}
use critalarm_server.Check.Close.{closed_with, counted_as, released, close}

module _ {ℓ} {A : Type ℓ} where
  -- A row that is found and written is found again as it was written.
  pub find_row-update_where_hit :
      (p q : A → Bool) (f : A → A) (xs : List A) {x : A}
      → ((y : A) → q (f y) ≡ q y)
      → find_row q xs ≡ some x
      → p x ≡ true
      → find_row q (update_where p f xs) ≡ some (f x)
  unfolding find_row update_where
  find_row-update_where_hit p q f [] {x} keep found hit = cc
  find_row-update_where_hit p q f (y ∷ ys) {x} keep found hit =
      ground (arith, keep y, find_row-update_where_hit p q f ys {x = x} keep)

  pub count_where-found :
      (p q : A → Bool) (xs : List A) {x : A}
      → find_row q xs ≡ some x
      → p x ≡ true
      → (count_where p xs == 0) ≡ false
  unfolding find_row count_where
  count_where-found p q [] {x} found hit = cc
  count_where-found p q (y ∷ ys) {x} found hit = ground (arith, count_where-found p q ys {x = x})

-- Every row that the guarded UPDATE may write has a result afterwards.
unclosed-closed_with :
    (id : ℕ) (result : RoundResult) (reason : Option SkipReason) (at : ℕ) (xs : List RoundRow)
    → count_where
        (λ q. (q.id == id) && is_null q.result)
        (update_where (λ q. (q.id == id) && is_null q.result) (closed_with result reason at) xs)
      ≡ 0
unfolding count_where update_where
unclosed-closed_with id result reason at [] = refl
unclosed-closed_with id result reason at (x ∷ xs) =
    ground (arith, unclosed-closed_with id result reason at xs)

-- How many misses in a row a device has once a round ends with a result.
abbrev pub misses_after : RoundResult → ℕ → ℕ
misses_after received misses = 0
misses_after skipped misses = misses
misses_after _ misses = misses + 1

counted_as-misses :
    (result : RoundResult) (at id : ℕ) (st : StateRow)
    → (counted_as result at (released id st)).misses ≡ misses_after result st.misses
unfolding counted_as
counted_as-misses received at id st = refl
counted_as-misses missed at id st = ground arith
counted_as-misses refused at id st = ground arith
counted_as-misses skipped at id st = ground arith

counted_as-device :
    (result : RoundResult) (at : ℕ) (st : StateRow)
    → (counted_as result at st).device_id ≡ st.device_id
unfolding counted_as
counted_as-device received at st = refl
counted_as-device missed at st = refl
counted_as-device refused at st = refl
counted_as-device skipped at st = refl

state-update_state :
    (id : ℕ) (f : StateRow → StateRow) (s : CheckStore) {st : StateRow}
    → ((x : StateRow) → (f x).device_id ≡ x.device_id)
    → state id s ≡ some st
    → state id (update_state id f s) ≡ some (f st)
unfolding state update_state
state-update_state id f s {st} keep found =
    find_row-update_where_hit (λ r. r.device_id == id) (λ r. r.device_id == id) f s.device_checks
      (λ y. ap (λ n. n == id) (keep y)) found
      (find_row-holds (λ r. r.device_id == id) s.device_checks found)

released-device : (id : ℕ) (x : StateRow) → (released id x).device_id ≡ x.device_id
released-device id x = ground arith

-- A round that still has no result ends once: the first `close` of it brings the device's misses to
-- 0 for a receipt, up by one for a miss or a refusal, and leaves them for a skip; whatever result
-- and time a second `close` of it comes with, it writes nothing.
pub close_once :
    (r : RoundRow) (st : StateRow) (s : CheckStore) (result : RoundResult)
    (reason : Option SkipReason) (at : ℕ) (again : RoundResult) (why : Option SkipReason)
    (later : ℕ)
    → (count_where (λ q. (q.id == r.id) && is_null q.result) s.check_rounds == 0) ≡ false
    → state r.device_id s ≡ some st
    → let s' = (close r result reason at s).1 in
      (Option.map (λ x. x.misses) (state r.device_id s') ≡ some (misses_after result st.misses))
      × (close r again why later s' ≡ (false, s'))
unfolding close update_unclosed update_state state
close_once r st s result reason at again why later running found =
    let mid = update_unclosed r.id (closed_with result reason at) s in
    let first = state-update_state r.device_id (released r.id) mid (released-device r.id) found in
    let second =
      state-update_state r.device_id (counted_as result at)
        (update_state r.device_id (released r.id) mid) (counted_as-device result at) first in
    (
      rw (running, second) (ap some (counted_as-misses result at r.id st)),
      rw (running, unclosed-closed_with r.id result reason at s.check_rounds) refl,
    )
