-- ===== src/Accounts/Identities/Live.antt =====
-- src/v1/accounts.ts: where `liveAccount` ends.
use mathlib.Core.Path.{subst}
use critalarm_server.Prelude.{
  ℕ, zero, suc, ◌≤◌, ◌==◌, Option, none, some, ◌≡◌, ◌∙◌, refl, sym, ◌↔◌, inl, inr, Option-cases,
  arith, find_row,
}
use critalarm_server.Accounts.Types.{AccountStore}
use critalarm_server.Accounts.Identities.{live_from, live_account}

-- The account that a tombstone points at.
abbrev pub survivor_of : ℕ → AccountStore → Option ℕ
survivor_of id s = elim (find_row (λ a. a.id == id) s.accounts) [
  | none ↦ none
  | some a ↦ a.merged_into
]

-- `Leads s hops id last`: so many tombstones lead from an account to one that is none.
pub data Leads (s : AccountStore) : ℕ → ℕ → ℕ → Type 0 where
  arrived : {id : ℕ} → survivor_of id s ≡ none → Leads s 0 id id
  forwarded :
      {hops id next last : ℕ}
      → survivor_of id s ≡ some next
      → Leads s hops next last
      → Leads s (suc hops) id last

abbrev resumed : ℕ → ℕ → AccountStore → Option ℕ → ℕ
resumed hops id s none = id
resumed hops id s (some next) = live_from hops next s

live_from-suc :
    (hops id : ℕ) (s : AccountStore)
    → live_from (suc hops) id s ≡ resumed hops id s (survivor_of id s)
unfolding live_from
live_from-suc hops id s = elim (Option-cases (find_row (λ a. a.id == id) s.accounts)) [
  | inl absent ↦ rw (absent, live_from, survivor_of) refl
  | inr (a, found) ↦
      rw (found, live_from, survivor_of)
        (elim (Option-cases a.merged_into) [ inl e ↦ rw e refl | inr (next, e) ↦ rw e refl ])
]

live_from-Leads :
    (s : AccountStore) (hops n id last : ℕ)
    → Leads s n id last
    → n ≤ hops
    → live_from hops id s ≡ last
unfolding live_from
live_from-Leads s zero _ id last (arrived e) le = refl
live_from-Leads s (suc hops) _ id last (arrived e) le = live_from-suc hops id s ∙ rw e refl
live_from-Leads s zero _ id last (forwarded e rest) le = absurd (omega (arith, le))
live_from-Leads s (suc hops) _ id last (forwarded {hops = n} {next = next} e rest) le =
    live_from-suc hops id s ∙ rw e (live_from-Leads s hops n next last rest (omega (arith, le)))

Leads-ends : (s : AccountStore) (n id last : ℕ) → Leads s n id last → survivor_of last s ≡ none
Leads-ends s _ id last (arrived e) = e
Leads-ends s _ id last (forwarded {hops = n} {next = next} e rest) = Leads-ends s n next last rest

Leads-live_from :
    (hops id last : ℕ) (s : AccountStore)
    → live_from hops id s ≡ last
    → survivor_of last s ≡ none
    → (n : ℕ) × (n ≤ hops) × Leads s n id last
unfolding live_from
Leads-live_from zero id last s e ends =
    subst (λ x. (n : ℕ) × (n ≤ 0) × Leads s n x last) (sym e) (0, omega arith, arrived ends)
Leads-live_from (suc hops) id last s e ends = elim (Option-cases (survivor_of id s)) [
  | inl stops ↦
      subst (λ x. (n : ℕ) × (n ≤ suc hops) × Leads s n id x)
        (sym (live_from-suc hops id s ∙ rw stops refl) ∙ e) (0, omega arith, arrived stops)
  | inr (next, known) ↦
      let (n, le, rest) =
        Leads-live_from hops next last s (sym (live_from-suc hops id s ∙ rw known refl) ∙ e) ends in
      (suc n, omega (arith, le), forwarded known rest)
]

-- `liveAccount` answers with an account that is no tombstone exactly when at most eight tombstones lead
-- to this account from the one that it was given.
pub live_account-Leads :
    (id last : ℕ) (s : AccountStore)
    → ((n : ℕ) × (n ≤ 8) × Leads s n id last)
      ↔ ((live_account id s ≡ last) × (survivor_of last s ≡ none))
unfolding live_account
live_account-Leads id last s = (
  λ (n, le, leads). (live_from-Leads s 8 n id last leads le, Leads-ends s n id last leads),
  λ (e, ends). Leads-live_from 8 id last s e ends,
)
