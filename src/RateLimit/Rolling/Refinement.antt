-- ===== src/RateLimit/Rolling/Refinement.antt =====
-- `RollingLimit` against the limit that it stands for: the log of every call that was let through,
-- never swept.
use critalarm_server.Prelude.{
  ℕ, ◌≤◌, ltb, if◌then◌else◌, Bool, true, false, not, ◌&&◌, ◌≡◌, refl, sym, ap, ◌∙◌, String, str_eq,
  eq_iff, inl, inr, none, List, [], ◌∷◌, ◌++◌, arith, length, select, delete_where, count_where,
  count_where-append, map_get, map_get-set, HasUniqueKeys, map_set-HasUniqueKeys,
  map_get-delete_where, delete_where-HasUniqueKeys, Bool-cases,
}
use mathlib.Core.Path.{subst}
use text.Mathlib.TextPositions.{eq_refl}
use critalarm_server.RateLimit.Rolling.{
  times_of, RollingLimit, is_live, live, some_live, sweep_due, sweep, allowed, record_hit, allow,
  answers, fresh_limit,
}

-- The calls that were let through, oldest first.
abbrev pub Log : Type 0
Log = List (ℕ × String)

-- How many calls of this key a window that ends at `now` holds.
unfoldable pub in_window : ℕ → ℕ → String → Log → ℕ
in_window window_s now key log = count_where (λ e. str_eq e.1 key && is_live window_s now e.0) log

unfoldable pub spec_answers : ℕ → ℕ → Log → List (ℕ × String) → List Bool
unfolding in_window
spec_answers limit window_s log [] = []
spec_answers limit window_s log ((now, key) ∷ calls) =
    let fits = ltb (in_window window_s now key log) limit in
    fits ∷ spec_answers limit window_s (if fits then log ++ (now, key) ∷ [] else log) calls

length-select : (p : ℕ → Bool) (xs : List ℕ) → length (select p xs) ≡ count_where p xs
unfolding select count_where
length-select p [] = refl
length-select p (x ∷ xs) = ground (arith, length-select p xs)

-- From `now` on the table holds, per key, what the log holds.
abbrev Follows : RollingLimit → ℕ → Log → Type 0
Follows r now log =
    (key : String) (t : ℕ)
    → now ≤ t
    → count_where (is_live r.window_s t) (times_of (map_get key r.hits))
      ≡ in_window r.window_s t key log

-- Counting live times among the live times of an earlier second loses none.
count_live-select :
    (w now t : ℕ) (ts : List ℕ)
    → now ≤ t
    → count_where (is_live w t) (select (is_live w now) ts) ≡ count_where (is_live w t) ts
unfolding select count_where
count_live-select w now t [] le = refl
count_live-select w now t (x ∷ ts) le = ground (arith, count_live-select w now t ts le)

count_live-dead :
    (w now t : ℕ) (ts : List ℕ)
    → now ≤ t
    → some_live w now ts ≡ false
    → count_where (is_live w t) ts ≡ 0
unfolding some_live count_where
count_live-dead w now t [] le h = refl
count_live-dead w now t (x ∷ ts) le h = ground (arith, count_live-dead w now t ts le)

-- A sweep drops keys with no live time only.
count_live-sweep :
    (w now t : ℕ) (key : String) (m : List (String × List ℕ))
    → now ≤ t
    → HasUniqueKeys m
    → count_where
        (is_live w t)
        (times_of (map_get key (delete_where (λ e. not (some_live w now e.1)) m)))
      ≡ count_where (is_live w t) (times_of (map_get key m))
unfolding map_get delete_where count_where
count_live-sweep w now t key [] le u = refl
count_live-sweep w now t key ((j, ts) ∷ m) le u = elim (Bool-cases (some_live w now ts)) [
  | inl alive ↦ rw alive (ground (arith, count_live-sweep w now t key m le u.1))
  | inr dead ↦ rw dead (elim (Bool-cases (str_eq j key)) [
    | inl same ↦
        let gone =
          map_get-delete_where (λ e. not (some_live w now e.1)) key m
            (subst (λ i. map_get i m ≡ none) ((eq_iff j key).0 same) u.0) in
        rw (same, gone) (sym (count_live-dead w now t ts le dead))
    | inr other ↦ rw other (count_live-sweep w now t key m le u.1)
  ])
]

sweep-Follows :
    (r : RollingLimit) (now : ℕ) (log : Log)
    → HasUniqueKeys r.hits
    → Follows r now log
    → Follows (sweep r now) now log × HasUniqueKeys (sweep r now).hits
unfolding sweep
sweep-Follows r now log u f = elim (Bool-cases (sweep_due r now)) [
  | inl due ↦ rw due (
    (λ key t le. count_live-sweep r.window_s now t key r.hits le u ∙ f key t le),
    delete_where-HasUniqueKeys _ r.hits u,
  )
  | inr not_due ↦ rw not_due (f, u)
]

sweep-keeps :
    (r : RollingLimit) (now : ℕ)
    → ((sweep r now).limit ≡ r.limit) × ((sweep r now).window_s ≡ r.window_s)
unfolding sweep
sweep-keeps r now = ground arith

module _ (r : RollingLimit) (now : ℕ) (log : Log) (f : Follows r now log) where
  count_live-live :
      (key : String) (t : ℕ)
      → now ≤ t
      → count_where (is_live r.window_s t) (live r key now) ≡ in_window r.window_s t key log
  unfolding live
  count_live-live key t le =
      count_live-select r.window_s now t (times_of (map_get key r.hits)) le ∙ f key t le

  length-live : (key : String) → length (live r key now) ≡ in_window r.window_s now key log
  unfolding live
  length-live key =
      length-select (is_live r.window_s now) (times_of (map_get key r.hits))
      ∙ f key now (omega arith)

  record_hit-Follows : (key : String) → Follows (record_hit r now key) now (log ++ (now, key) ∷ [])
  unfolding record_hit in_window count_where
  record_hit-Follows key k t le = elim (Bool-cases (str_eq key k)) [
    | inl same ↦
        let e = (eq_iff key k).0 same in
        rw
          (
            map_get-set k key (live r key now ++ now ∷ []) r.hits,
            same,
            count_where-append (is_live r.window_s t) (live r key now) (now ∷ []),
            count_where-append (λ x. str_eq x.1 k && is_live r.window_s t x.0) log _,
            ← e,
            count_live-live key t le,
          )
          (ground (arith, same, eq_refl key))
    | inr other ↦
        rw
          (
            map_get-set k key (live r key now ++ now ∷ []) r.hits,
            other,
            count_where-append (λ x. str_eq x.1 k && is_live r.window_s t x.0) log _,
            f k t le,
          )
          (ground (arith, other))
  ]

  record_hit-HasUniqueKeys :
      (key : String) → HasUniqueKeys r.hits → HasUniqueKeys (record_hit r now key).hits
  unfolding record_hit
  record_hit-HasUniqueKeys key u = map_set-HasUniqueKeys key _ r.hits u

module _ (r : RollingLimit) (now : ℕ) (log : Log) (u : HasUniqueKeys r.hits)
    (f : Follows r now log) where
  allow_lem :
      (key : String)
      → allow r now key ≡ (
          if ltb (in_window r.window_s now key log) r.limit
          then (true, record_hit (sweep r now) now key)
          else (false, sweep r now))
  unfolding allow allowed
  allow_lem key =
      let swept = sweep-Follows r now log u f in
      let kept = sweep-keeps r now in
      rw (length-live (sweep r now) now log swept.0 key, kept.0, kept.1) (ground arith)

-- The clock does not run back: each call comes no earlier than the one before it.
abbrev pub IsAscending : ℕ → List (ℕ × String) → Type 0
IsAscending now [] = Unit
IsAscending now ((at, key) ∷ calls) = (now ≤ at) × IsAscending at calls

spec_answers-same :
    (q r : RollingLimit) (calls : List (ℕ × String))
    → q.limit ≡ r.limit
    → q.window_s ≡ r.window_s
    → (log : Log)
    → spec_answers q.limit q.window_s log calls ≡ spec_answers r.limit r.window_s log calls
spec_answers-same q r calls e e' log =
    ap (λ l. spec_answers l q.window_s log calls) e ∙ ap (λ w. spec_answers r.limit w log calls) e'

answers-follow :
    (r : RollingLimit) (now : ℕ) (log : Log) (calls : List (ℕ × String))
    → HasUniqueKeys r.hits
    → Follows r now log
    → IsAscending now calls
    → answers r calls ≡ spec_answers r.limit r.window_s log calls
unfolding answers spec_answers record_hit
answers-follow r now log [] u f a = refl
answers-follow r now log ((at, key) ∷ calls) u f a =
    let f' : Follows r at log = λ k t le. f k t (omega arith) in
    let swept = sweep-Follows r at log u f' in
    let kept = sweep-keeps r at in
    let same = spec_answers-same (sweep r at) r calls kept.0 kept.1 in
    elim (Bool-cases (ltb (in_window r.window_s at key log) r.limit)) [
      | inl fits ↦
          let log' = log ++ (at, key) ∷ [] in
          rw (allow_lem r at log u f' key, fits)
            (ap (λ l. true ∷ l)
              (answers-follow (record_hit (sweep r at) at key) at log' calls
                  (record_hit-HasUniqueKeys (sweep r at) at log swept.0 key swept.1)
                  (record_hit-Follows (sweep r at) at log swept.0 key) a.1
                ∙ same log'))
      | inr full ↦
          rw (allow_lem r at log u f' key, full)
            (ap (λ l. false ∷ l)
              (answers-follow (sweep r at) at log calls swept.1 swept.0 a.1 ∙ same log))
    ]

-- However often the table is swept, a new limit whose clock does not run back gives the answers of
-- the log: a call is let through exactly when the calls of its key that were let through and lie in
-- the window that ends now are fewer than the limit.
pub answers-spec :
    (limit window_s sweep_above : ℕ) (calls : List (ℕ × String))
    → IsAscending 0 calls
    → answers (fresh_limit limit window_s sweep_above) calls ≡ spec_answers limit window_s [] calls
unfolding map_get in_window count_where
answers-spec limit window_s sweep_above calls a =
    answers-follow (fresh_limit limit window_s sweep_above) 0 [] calls tt (λ k t le. refl) a
