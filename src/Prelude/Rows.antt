-- ===== src/Prelude/Rows.antt =====
-- Lemmas on the tables of `Tables.antt`, for any type of row.
use Prim.Native.Nat.{ℕ, zero, suc, ◌+◌, ◌≤◌}
use mathlib.Core.Path.{◌≡◌, refl, ap, subst}
use mathlib.Core.Logic.{inl, inr}
use mathlib.Core.Bool.{Bool, true, false, ◌&&◌}
use mathlib.Core.Option
use mathlib.Core.Option.{Option, none, some}
use mathlib.Core.List.{List, [], ◌∷◌, ◌++◌}
use native.Mathlib.Omega.{arith}
use critalarm_server.Prelude.Tests.{Bool-cases}
use critalarm_server.Prelude.Tables.{
  length, take, select, delete_where, update_where, find_row, count_where, insert_by, sort_by, All,
}

module _ {ℓ κ} {A : Type ℓ} (P : A → Type κ) where
  pub All-append : (xs ys : List A) → All P xs → All P ys → All P (xs ++ ys)
  All-append [] ys hx hy = hy
  All-append (x ∷ xs) ys hx hy = (hx.0, All-append xs ys hx.1 hy)

  pub All-select : (p : A → Bool) (xs : List A) → All P xs → All P (select p xs)
  unfolding select
  All-select p [] h = tt
  All-select p (x ∷ xs) h = elim (Bool-cases (p x)) [
    | inl e ↦ rw e (h.0, All-select p xs h.1)
    | inr e ↦ rw e (All-select p xs h.1)
  ]

  pub All-delete_where : (p : A → Bool) (xs : List A) → All P xs → All P (delete_where p xs)
  unfolding delete_where
  All-delete_where p [] h = tt
  All-delete_where p (x ∷ xs) h = elim (Bool-cases (p x)) [
    | inl e ↦ rw e (All-delete_where p xs h.1)
    | inr e ↦ rw e (h.0, All-delete_where p xs h.1)
  ]

  pub All-update_where :
      (p : A → Bool) (f : A → A) (xs : List A)
      → ((x : A) → P x → P (f x))
      → All P xs
      → All P (update_where p f xs)
  unfolding update_where
  All-update_where p f [] keep h = tt
  All-update_where p f (x ∷ xs) keep h = elim (Bool-cases (p x)) [
    | inl e ↦ rw e (keep x h.0, All-update_where p f xs keep h.1)
    | inr e ↦ rw e (h.0, All-update_where p f xs keep h.1)
  ]

  pub All-insert_by :
      (le : A → A → Bool) (x : A) (ys : List A) → P x → All P ys → All P (insert_by le x ys)
  unfolding insert_by
  All-insert_by le x [] hx hy = (hx, tt)
  All-insert_by le x (y ∷ ys) hx hy = elim (Bool-cases (le x y)) [
    | inl e ↦ rw e (hx, hy)
    | inr e ↦ rw e (hy.0, All-insert_by le x ys hx hy.1)
  ]

  pub All-sort_by : (le : A → A → Bool) (xs : List A) → All P xs → All P (sort_by le xs)
  unfolding sort_by
  All-sort_by le [] h = tt
  All-sort_by le (x ∷ xs) h = All-insert_by le x (sort_by le xs) h.0 (All-sort_by le xs h.1)

  pub All-take : (n : ℕ) (xs : List A) → All P xs → All P (take n xs)
  All-take zero xs h = tt
  All-take (suc n) [] h = tt
  All-take (suc n) (x ∷ xs) h = (h.0, All-take n xs h.1)

pub All-imp {ℓ κ μ} :
    {A : Type ℓ} {P : A → Type κ} {Q : A → Type μ} (xs : List A)
    → ((x : A) → P x → Q x)
    → All P xs
    → All Q xs
All-imp [] imp h = tt
All-imp (x ∷ xs) imp h = (imp x h.0, All-imp xs imp h.1)

module _ {ℓ} {A : Type ℓ} where
  pub length-take : (n : ℕ) (xs : List A) → length (take n xs) ≤ n
  length-take zero xs = omega arith
  length-take (suc n) [] = omega arith
  length-take (suc n) (x ∷ xs) = omega (arith, length-take n xs)

  pub count_where-append :
      (p : A → Bool) (xs ys : List A)
      → count_where p (xs ++ ys) ≡ count_where p xs + count_where p ys
  unfolding count_where
  count_where-append p [] ys = omega arith
  count_where-append p (x ∷ xs) ys = omega (arith, count_where-append p xs ys)

  pub count_where-All :
      (p : A → Bool) (xs : List A) → All (λ x. p x ≡ false) xs → count_where p xs ≡ 0
  unfolding count_where
  count_where-All p [] h = refl
  count_where-All p (x ∷ xs) h = rw h.0 (omega (arith, count_where-All p xs h.1))

  pub count_where-find_row :
      (p : A → Bool) (xs : List A) → find_row p xs ≡ none → count_where p xs ≡ 0
  unfolding count_where find_row
  count_where-find_row p [] h = refl
  count_where-find_row p (x ∷ xs) h = ground (arith, count_where-find_row p xs)

  -- The rows that meet a test are those that are deleted and those that stay.
  pub count_where-kept :
      (p gone : A → Bool) (xs : List A)
      → count_where p xs
        ≡ count_where (λ x. p x && gone x) xs + count_where p (delete_where gone xs)
  unfolding count_where delete_where
  count_where-kept p gone [] = refl
  count_where-kept p gone (x ∷ xs) = ground (arith, count_where-kept p gone xs)

  pub count_where-select :
      (p q : A → Bool) (xs : List A)
      → count_where p (select q xs) ≡ count_where (λ x. q x && p x) xs
  unfolding select count_where
  count_where-select p q [] = refl
  count_where-select p q (x ∷ xs) = ground (arith, count_where-select p q xs)

  pub count_where-same :
      (p q : A → Bool) (xs : List A) → ((x : A) → p x ≡ q x) → count_where p xs ≡ count_where q xs
  unfolding count_where
  count_where-same p q [] h = refl
  count_where-same p q (x ∷ xs) h = ground (arith, h x, count_where-same p q xs h)

  pub find_row-absent : (p : A → Bool) (xs : List A) → count_where p xs ≡ 0 → find_row p xs ≡ none
  unfolding count_where find_row
  find_row-absent p [] h = refl
  find_row-absent p (x ∷ xs) h = ground (arith, find_row-absent p xs)

  pub find_row-holds : (p : A → Bool) (xs : List A) {x : A} → find_row p xs ≡ some x → p x ≡ true
  unfolding find_row
  find_row-holds p [] h = cc
  find_row-holds p (y ∷ ys) {x} h = ground (arith, find_row-holds p ys {x = x})

  -- An update of rows that are counted before leaves no more of them.
  pub count_where-update_where :
      (p q : A → Bool) (f : A → A) (xs : List A)
      → ((x : A) → p x ≡ true → q x ≡ false → q (f x) ≡ false)
      → count_where q (update_where p f xs) ≤ count_where q xs
  unfolding count_where update_where
  count_where-update_where p q f [] h = omega arith
  count_where-update_where p q f (x ∷ xs) h =
      ground (arith, h x, count_where-update_where p q f xs h)

  pub update_where-absent :
      (p : A → Bool) (f : A → A) (xs : List A) → count_where p xs ≡ 0 → update_where p f xs ≡ xs
  unfolding count_where update_where
  update_where-absent p f [] h = refl
  update_where-absent p f (x ∷ xs) h = ground (arith, update_where-absent p f xs)

  pub delete_where-absent :
      (p : A → Bool) (xs : List A) → All (λ x. p x ≡ false) xs → delete_where p xs ≡ xs
  unfolding delete_where
  delete_where-absent p [] h = refl
  delete_where-absent p (x ∷ xs) h = rw h.0 (ap (λ t. x ∷ t) (delete_where-absent p xs h.1))

  -- The row that a key names is the only one that an update by this key changes.
  pub count_where-update_where_found :
      (p q : A → Bool) (f : A → A) (xs : List A) {r : A}
      → count_where p xs ≤ 1
      → find_row p xs ≡ some r
      → (q r ≡ false → q (f r) ≡ false)
      → count_where q (update_where p f xs) ≤ count_where q xs
  unfolding count_where update_where find_row
  count_where-update_where_found p q f [] u e h = omega arith
  count_where-update_where_found p q f (x ∷ xs) {r} u e h = elim (Bool-cases (p x)) [
    | inl hit ↦ ground (arith, update_where-absent p f xs)
    | inr miss ↦ ground (arith, count_where-update_where_found p q f xs {r = r})
  ]

  pub find_row-update_where :
      (p q : A → Bool) (f : A → A) (xs : List A)
      → ((x : A) → q (f x) ≡ q x)
      → ((x : A) → q x ≡ true → p x ≡ true)
      → find_row q (update_where p f xs) ≡ Option.map f (find_row q xs)
  unfolding update_where find_row
  find_row-update_where p q f [] k h = refl
  find_row-update_where p q f (x ∷ xs) k h =
      ground (arith, k x, h x, find_row-update_where p q f xs k h)

  pub find_row-update_where_other :
      (p q : A → Bool) (f : A → A) (xs : List A)
      → ((x : A) → q (f x) ≡ q x)
      → ((x : A) → q x ≡ true → p x ≡ false)
      → find_row q (update_where p f xs) ≡ find_row q xs
  unfolding update_where find_row
  find_row-update_where_other p q f [] k h = refl
  find_row-update_where_other p q f (x ∷ xs) k h =
      ground (arith, k x, h x, find_row-update_where_other p q f xs k h)

  pub find_row-append :
      (p : A → Bool) (xs ys : List A)
      → find_row p (xs ++ ys) ≡ elim (find_row p xs) [ none ↦ find_row p ys | some x ↦ some x ]
  unfolding find_row
  find_row-append p [] ys = refl
  find_row-append p (x ∷ xs) ys = ground (arith, find_row-append p xs ys)

pub All-find_row {ℓ κ} :
    {A : Type ℓ} (P : A → Type κ) (p : A → Bool) (xs : List A) {x : A}
    → All P xs
    → find_row p xs ≡ some x
    → P x
unfolding find_row
All-find_row P p [] h e = cc
All-find_row P p (y ∷ ys) {x} h e = elim (Bool-cases (p y)) [
  | inl hit ↦ subst P (ground (arith, hit)) h.0
  | inr miss ↦ All-find_row P p ys h.1 (ground (arith, miss))
]

pub All-zip {ℓ κ μ} :
    {A : Type ℓ} (P : A → Type κ) (Q : A → Type μ) (xs : List A)
    → All P xs
    → All Q xs
    → All (λ x. P x × Q x) xs
All-zip P Q [] hp hq = tt
All-zip P Q (x ∷ xs) hp hq = ((hp.0, hq.0), All-zip P Q xs hp.1 hq.1)
