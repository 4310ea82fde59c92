-- ===== src/Tier/Packs/Best.antt =====
-- src/tier/packs.ts: the one entry of a pack, and the rows that it stands for.
use critalarm_server.Prelude.{
  ℕ, ◌+◌, ◌≤◌, ◌==◌, ltb, leb, Bool, true, false, ◌&&◌, ◌||◌, not, ◌≡◌, ◌⊎◌, refl, ap, ◌∙◌, str_eq,
  Option, none, some, List, [], ◌∷◌, ◌++◌, map, arith, find_row, select, count_where,
  count_where-append, count_where-select, count_where-same, All, All-imp, inl, inr, Bool-cases,
  Option-cases,
}
use mathlib.Core.Path.{subst}
use mathlib.Core.List.{append_assoc}
use critalarm_server.Tier.Caps.{AccountRow}
use critalarm_server.Tier.Purchases.{BillingIdRow}
use critalarm_server.Tier.Packs.{
  PackRules, Held, PackRow, runs_at, store_packs, held_packs, widened, taken, best, packs_for,
}

-- Whether an entry ends no earlier than the given end.
abbrev pub reaches : Option (Option ℕ) → Option ℕ → Bool
reaches none e = false
reaches (some none) e = true
reaches (some (some c)) none = false
reaches (some (some c)) (some e) = leb e c

widened-old :
    (found : Option (Option ℕ)) (x e : Option ℕ)
    → reaches found e ≡ true
    → reaches (widened found x) e ≡ true
widened-old none x e h = cc
widened-old (some none) x e h = refl
widened-old (some (some c)) none e h = refl
widened-old (some (some c)) (some x) none h = cc
widened-old (some (some c)) (some x) (some e) h = ground arith

widened-new : (found : Option (Option ℕ)) (x : Option ℕ) → reaches (widened found x) x ≡ true
widened-new none none = refl
widened-new none (some x) = ground arith
widened-new (some none) x = refl
widened-new (some (some c)) none = refl
widened-new (some (some c)) (some x) = ground arith

taken-old :
    (found : Option (Option ℕ)) (h : Held) (e : Option ℕ)
    → reaches found e ≡ true
    → reaches (taken found h) e ≡ true
unfolding taken
taken-old found h e r = elim (Bool-cases (str_eq h.pack "pro")) [
  | inl pro ↦ rw pro (widened-old found h.expires_at e r)
  | inr unknown ↦ rw unknown r
]

best-old :
    (found : Option (Option ℕ)) (hs : List Held) (e : Option ℕ)
    → reaches found e ≡ true
    → reaches (best found hs) e ≡ true
unfolding best
best-old found [] e r = r
best-old found (h ∷ hs) e r = best-old (taken found h) hs e (taken-old found h e r)

-- Whether an entry stands for a row: it ends no earlier, unless the row is of no known pack.
abbrev pub covers : Option (Option ℕ) → Held → Bool
covers found h = not (str_eq h.pack "pro") || reaches found h.expires_at

best-taken :
    (found : Option (Option ℕ)) (h : Held) (hs : List Held)
    → covers (best (taken found h) hs) h ≡ true
unfolding taken
best-taken found h hs = elim (Bool-cases (str_eq h.pack "pro")) [
  | inl pro ↦
      rw pro
        (best-old (widened found h.expires_at) hs h.expires_at (widened-new found h.expires_at))
  | inr unknown ↦ rw unknown refl
]

best-covers :
    (found : Option (Option ℕ)) (hs : List Held) → All (λ h. covers (best found hs) h ≡ true) hs
unfolding best
best-covers found [] = tt
best-covers found (h ∷ hs) = (best-taken found h hs, best-covers (taken found h) hs)

-- A row of a billing id that is linked to the account.
abbrev pub is_linked : ℕ → List BillingIdRow → PackRow → Bool
is_linked account_id ids p =
    leb 1 (count_where (λ b. (b.app_user_id == p.owner) && (b.account_id == account_id)) ids)

-- The row has no end date or one that lies ahead.
abbrev pub still_runs : ℕ → PackRow → Bool
still_runs now p = elim p.held.expires_at [ none ↦ true | some end ↦ ltb now end ]

-- The rows that count: store packs of linked billing ids, whatever their date where the store is read
-- and while they run where it is not, and grants to the account while they run.
abbrev pub counts_store : PackRules → ℕ → ℕ → List BillingIdRow → PackRow → Bool
counts_store rules now account_id ids p =
    is_linked account_id ids p && (rules.store_reads || still_runs now p)

abbrev pub counts_grant : ℕ → ℕ → PackRow → Bool
counts_grant now account_id g = (g.owner == account_id) && still_runs now g

abbrev pub same_end : Option ℕ → Option ℕ → Bool
same_end none none = true
same_end (some a) (some b) = a == b
same_end _ _ = false

abbrev pub is_pro : Option ℕ → Held → Bool
is_pro end h = str_eq h.pack "pro" && same_end h.expires_at end

-- The entry stands for every row that counts, and it is one of them.
pub record IsBest (rules : PackRules) (now : ℕ) (account : AccountRow) (ids : List BillingIdRow)
    (packs grants : List PackRow) (entry : Option (Option ℕ)) : Type 0 where
  pub store :
      All (λ p. (not (counts_store rules now account.id ids p) || covers entry p.held) ≡ true) packs
  pub granted :
      All (λ g. (not (counts_grant now account.id g) || covers entry g.held) ≡ true) grants
  pub by_tier :
      All
        (λ id. covers entry (record { pack = id; expires_at = none }) ≡ true)
        (rules.includes account.tier)
  pub attained :
      (entry ≡ none)
      ⊎ ((end : Option ℕ) × (entry ≡ some end)
          × (1
              ≤ count_where
                  (λ p. counts_store rules now account.id ids p && is_pro end p.held)
                  packs
                + count_where (λ g. counts_grant now account.id g && is_pro end g.held) grants
                + count_where
                    (λ id. is_pro end (record { pack = id; expires_at = none }))
                    (rules.includes account.tier)))

module _ {ℓ} {A : Type ℓ} (P : A → Type 0) where
  All-first : (xs ys : List A) → All P (xs ++ ys) → All P xs
  All-first [] ys h = tt
  All-first (x ∷ xs) ys h = (h.0, All-first xs ys h.1)

  All-second : (xs ys : List A) → All P (xs ++ ys) → All P ys
  All-second [] ys h = h
  All-second (x ∷ xs) ys h = All-second xs ys h.1

module _ {ℓ κ} {A : Type ℓ} {B : Type κ} (f : A → B) where
  All-mapped : (P : B → Type 0) (xs : List A) → All P (map f xs) → All (λ x. P (f x)) xs
  All-mapped P [] h = tt
  All-mapped P (x ∷ xs) h = (h.0, All-mapped P xs h.1)

  count_where-map :
      (p : B → Bool) (xs : List A) → count_where p (map f xs) ≡ count_where (λ x. p (f x)) xs
  unfolding count_where
  count_where-map p [] = refl
  count_where-map p (x ∷ xs) = omega (arith, count_where-map p xs)

module _ {ℓ} {A : Type ℓ} where
  All-selected :
      (p q : A → Bool) (xs : List A)
      → All (λ x. q x ≡ true) (select p xs)
      → All (λ x. (not (p x) || q x) ≡ true) xs
  unfolding select
  All-selected p q [] h = tt
  All-selected p q (x ∷ xs) h = elim (Bool-cases (p x)) [
    | inl e ↦ let k = (rw e at h) in rw e (k.0, All-selected p q xs k.1)
    | inr e ↦ let k = (rw e at h) in rw e (refl, All-selected p q xs k)
  ]

-- The selection of `store_packs`.
abbrev joined : ℕ → List BillingIdRow → PackRow → Bool
joined account_id ids p =
    elim (find_row (λ b. (b.app_user_id == p.owner) && (b.account_id == account_id)) ids) [
      | none ↦ false
      | some _ ↦ true
    ]

joined-is_linked :
    (account_id : ℕ) (ids : List BillingIdRow) (p : PackRow)
    → joined account_id ids p ≡ is_linked account_id ids p
unfolding find_row count_where
joined-is_linked account_id [] p = refl
joined-is_linked account_id (b ∷ ids) p =
    elim (Bool-cases ((b.app_user_id == p.owner) && (b.account_id == account_id))) [
      | inl e ↦ rw (e, joined) (ground arith)
      | inr e ↦ rw (e, joined) (joined-is_linked account_id ids p ∙ ground arith)
    ]

runs_at-still_runs : (now : ℕ) (p : PackRow) → runs_at now p.held.expires_at ≡ still_runs now p
runs_at-still_runs now p = elim (Option-cases p.held.expires_at) [
  | inl e ↦ rw e refl
  | inr (end, e) ↦ rw e refl
]

-- What the loop ends with is what it began with, or the end of a row of the pack.
abbrev Attains : Option (Option ℕ) → List Held → Option (Option ℕ) → Type 0
Attains found hs entry =
    (entry ≡ found) ⊎ ((end : Option ℕ) × (entry ≡ some end) × (1 ≤ count_where (is_pro end) hs))

same_end_self : (e : Option ℕ) → same_end e e ≡ true
same_end_self none = refl
same_end_self (some a) = ground arith

widened-either :
    (found : Option (Option ℕ)) (e : Option ℕ)
    → (widened found e ≡ found) ⊎ (widened found e ≡ some e)
widened-either none e = inr refl
widened-either (some none) e = inl refl
widened-either (some (some c)) none = inr refl
widened-either (some (some c)) (some e) = elim (Bool-cases (leb c e)) [
  | inl le ↦ inr (ap (λ n. some (some n)) (ground (arith, le)))
  | inr gt ↦ inl (ap (λ n. some (some n)) (ground (arith, gt)))
]

best-Attains : (found : Option (Option ℕ)) (hs : List Held) → Attains found hs (best found hs)
unfolding best taken count_where
best-Attains found [] = inl refl
best-Attains found (h ∷ hs) = elim (best-Attains (taken found h) hs) [
  | inr (end, e, n) ↦ inr (end, e, omega (arith, n))
  | inl same ↦ elim (Bool-cases (str_eq h.pack "pro")) [
    | inr unknown ↦ inl (same ∙ rw unknown refl)
    | inl pro ↦ elim (widened-either found h.expires_at) [
      | inl old ↦ inl (same ∙ rw pro old)
      | inr new ↦
          inr (h.expires_at, same ∙ rw pro new, rw (pro, same_end_self h.expires_at) (omega arith))
    ]
  ]
]

module _ (rules : PackRules) (now : ℕ) (account : AccountRow) (ids : List BillingIdRow)
    (packs grants : List PackRow) where
  counts_store-same :
      (p : PackRow)
      → (joined account.id ids p && (rules.store_reads || runs_at now p.held.expires_at))
        ≡ counts_store rules now account.id ids p
  counts_store-same p = rw (joined-is_linked account.id ids p, runs_at-still_runs now p) refl

  -- The three parts of what is held.
  store_part : List Held
  store_part =
      map (λ p. p.held)
        (select (λ p. rules.store_reads || runs_at now p.held.expires_at)
          (select (joined account.id ids) packs))

  grant_part : List Held
  grant_part =
      map (λ p. p.held)
        (select (λ g. (g.owner == account.id) && runs_at now g.held.expires_at) grants)

  tier_part : List Held
  tier_part = map (λ id. record { pack = id; expires_at = none }) (rules.includes account.tier)

  held_packs-parts :
      held_packs rules now account ids packs grants ≡ store_part ++ (grant_part ++ tier_part)
  unfolding held_packs store_packs store_part grant_part tier_part
  held_packs-parts = append_assoc store_part grant_part tier_part

  count_where-store_part :
      (q : Held → Bool)
      → count_where q store_part
        ≡ count_where (λ p. counts_store rules now account.id ids p && q p.held) packs
  unfolding store_part
  count_where-store_part q =
      count_where-map (λ p. p.held) q _
      ∙ count_where-select (λ p. q p.held) (λ p. rules.store_reads || runs_at now p.held.expires_at)
          (select (joined account.id ids) packs)
      ∙ count_where-select (λ p. (rules.store_reads || runs_at now p.held.expires_at) && q p.held)
          (joined account.id ids) packs
      ∙ count_where-same _ (λ p. counts_store rules now account.id ids p && q p.held) packs
          (λ p. ground (arith, counts_store-same p))

  count_where-grant_part :
      (q : Held → Bool)
      → count_where q grant_part
        ≡ count_where (λ g. counts_grant now account.id g && q g.held) grants
  unfolding grant_part
  count_where-grant_part q =
      count_where-map (λ p. p.held) q _
      ∙ count_where-select (λ g. q g.held)
          (λ g. (g.owner == account.id) && runs_at now g.held.expires_at) grants
      ∙ count_where-same _ (λ g. counts_grant now account.id g && q g.held) grants
          (λ g. ground (arith, runs_at-still_runs now g))

  count_where-held_packs :
      (q : Held → Bool)
      → count_where q (held_packs rules now account ids packs grants)
        ≡ count_where (λ p. counts_store rules now account.id ids p && q p.held) packs
          + count_where (λ g. counts_grant now account.id g && q g.held) grants
          + count_where
              (λ id. q (record { pack = id; expires_at = none }))
              (rules.includes account.tier)
  unfolding tier_part
  count_where-held_packs q =
      ap (count_where q) held_packs-parts
      ∙ omega (
        arith,
        count_where-append q store_part (grant_part ++ tier_part),
        count_where-append q grant_part tier_part,
        count_where-store_part q,
        count_where-grant_part q,
        count_where-map (λ id. record { pack = id; expires_at = none }) q
            (rules.includes account.tier),
      )

  module _ (entry : Option (Option ℕ))
      (h : All (λ h. covers entry h ≡ true) (held_packs rules now account ids packs grants)) where
    parts : All (λ h. covers entry h ≡ true) (store_part ++ (grant_part ++ tier_part))
    parts = subst (All (λ h. covers entry h ≡ true)) held_packs-parts h

    covered_store :
        All
          (λ p. (not (counts_store rules now account.id ids p) || covers entry p.held) ≡ true)
          packs
    unfolding store_part
    covered_store =
        All-imp packs (λ p k. ground (arith, k, counts_store-same p))
          (All-selected (joined account.id ids)
            (λ p. not (rules.store_reads || runs_at now p.held.expires_at) || covers entry p.held)
            packs
            (All-selected (λ p. rules.store_reads || runs_at now p.held.expires_at)
              (λ p. covers entry p.held) (select (joined account.id ids) packs)
              (All-mapped (λ p. p.held) (λ x. covers entry x ≡ true) _
                (All-first (λ x. covers entry x ≡ true) store_part (grant_part ++ tier_part)
                  parts))))

    covered_granted :
        All (λ g. (not (counts_grant now account.id g) || covers entry g.held) ≡ true) grants
    unfolding grant_part
    covered_granted =
        All-imp grants (λ g k. ground (arith, k, runs_at-still_runs now g))
          (All-selected (λ g. (g.owner == account.id) && runs_at now g.held.expires_at)
            (λ g. covers entry g.held) grants
            (All-mapped (λ p. p.held) (λ x. covers entry x ≡ true) _
              (All-first (λ x. covers entry x ≡ true) grant_part tier_part
                (All-second (λ x. covers entry x ≡ true) store_part (grant_part ++ tier_part)
                  parts))))

    covered_by_tier :
        All
          (λ id. covers entry (record { pack = id; expires_at = none }) ≡ true)
          (rules.includes account.tier)
    unfolding tier_part
    covered_by_tier =
        All-mapped (λ id. record { pack = id; expires_at = none }) (λ x. covers entry x ≡ true)
          (rules.includes account.tier)
          (All-second (λ x. covers entry x ≡ true) grant_part tier_part
            (All-second (λ x. covers entry x ≡ true) store_part (grant_part ++ tier_part) parts))

  -- The entry of the pack that is reported ends no earlier than any row that the account holds: a store
  -- pack, a grant that still runs, or what its tier includes, which has no end. Where one is reported it
  -- ends when one of these rows does.
  pub packs_for-IsBest :
      IsBest rules now account ids packs grants
        (packs_for rules now (some account) ids packs grants)
  unfolding packs_for
  packs_for-IsBest =
      let hs = held_packs rules now account ids packs grants in
      let covered = best-covers none hs in
      record {
        store = covered_store (best none hs) covered;
        granted = covered_granted (best none hs) covered;
        by_tier = covered_by_tier (best none hs) covered;
        attained = elim (best-Attains none hs) [
          | inl absent ↦ inl absent
          | inr (end, e, n) ↦ inr (end, e, omega (arith, n, count_where-held_packs (is_pro end)))
        ];
      }
