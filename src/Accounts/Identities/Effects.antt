-- ===== src/Accounts/Identities/Effects.antt =====
-- src/v1/accounts.ts: the effect of `linkIdentity` and `switchAccount`, by their answers.
use critalarm_server.Prelude.{
  ℕ, ◌==◌, ==_iff, Bool, true, false, String, Option, none, some, List, [], ◌∷◌, ◌++◌, ◌≡◌, ◌≢◌,
  ◌≤◌, ap, ◌⊎◌, refl, inl, inr, Bool-cases, Option-cases, arith, select, count_where, delete_where,
}
use mathlib.Core.Path.{subst}
use critalarm_server.Accounts.Types.{TopicTokenRow, AccountStore}
use critalarm_server.Accounts.Identities.{
  LinkIntent, sign_in, link, includes_id, LinkOutcome, claimed, attached, linked, already_linked,
  link_unauthorized, other_identity, other_account, choose, SwitchOutcome, switched,
  switch_unauthorized, switch_refused, live_account, identity_account, account_identities,
  holds_any, claimed_by_somebody_else, topic_on, account_content, move_each, move_devices,
  tombstone, revoke_topic_tokens, switch_to, switch_account, is_account,
}
use critalarm_server.Accounts.Identities.Moved.{Abandoned, move_each-rest, move_devices-Abandoned}

revoked :
    (p : TopicTokenRow → Bool) (xs : List TopicTokenRow) → count_where p (delete_where p xs) ≡ 0
unfolding count_where delete_where
revoked p [] = refl
revoked p (x ∷ xs) = ground (arith, revoked p xs)

==_sym : (a b : ℕ) → (a == b) ≡ false → (b == a) ≡ false
==_sym a b h = ground (arith, h)

-- The user that the token names, with the account that the identity has already.
abbrev pub Names : Option ℕ → Option ℕ → AccountStore → Type 0
Names user account s =
    (user_id : ℕ) × (user ≡ some user_id) × (identity_account user_id s ≡ account)

-- The account has no identity, or the user's is one of them.
abbrev pub MayAbandon : Option ℕ → ℕ → AccountStore → Type 0
MayAbandon none source s = Unit
MayAbandon (some user_id) source s =
    (holds_any (account_identities source s) ≡ false)
    ⊎ (includes_id user_id (account_identities source s) ≡ true)

-- The token names nobody, or somebody who has another account or none.
abbrev pub NotOwned : Option ℕ → ℕ → AccountStore → Type 0
NotOwned user into s =
    (user ≡ none)
    ⊎ ((user_id : ℕ) × (user ≡ some user_id) × (identity_account user_id s ≢ some into))

-- What `switchAccount` does, by its answer.
abbrev pub SwitchEffect :
    Option ℕ → (source into : ℕ) → AccountStore → SwitchOutcome × AccountStore → Type 0
SwitchEffect user source into s (switched target, s') =
    (target ≡ into)
    × Names user (some into) s
    × (((source ≡ into) × (s' ≡ s))
        ⊎ (((source == into) ≡ false)
            × MayAbandon user source s
            × Abandoned source into s s'
            × (count_where (λ t. topic_on source s t.topic_id) s'.topic_tokens ≡ 0)))
SwitchEffect user source into s (switch_unauthorized, s') = NotOwned user into s × (s' ≡ s)
SwitchEffect user source into s (switch_refused, s') =
    ((source == into) ≡ false) × (holds_any (account_identities source s) ≡ true) × (s' ≡ s)

Abandoned-revoked :
    (source target : ℕ) (s : AccountStore)
    → (target == source) ≡ false
    → Abandoned source target s
        (tombstone source target (revoke_topic_tokens source (move_devices source target s)))
unfolding revoke_topic_tokens tombstone
Abandoned-revoked source target s apart =
    let a = move_devices-Abandoned source target s apart in
    record {
      devices = a.devices;
      none_left = a.none_left;
      none_lost = a.none_lost;
      identities = a.identities;
      no_identity = a.no_identity;
      closed = a.closed;
    }

topic_tokens-revoked :
    (source target : ℕ) (s : AccountStore)
    → count_where
        (λ t. topic_on source s t.topic_id)
        (tombstone source target
          (revoke_topic_tokens source (move_devices source target s))).topic_tokens
      ≡ 0
unfolding tombstone revoke_topic_tokens move_devices
topic_tokens-revoked source target s =
    let rows = select (λ d. d.account_id == source) s.devices in
    let s' = move_each target rows s in
    subst
      (λ engine.
        count_where (λ t. topic_on source (record s { engine = engine }) t.topic_id)
          (delete_where (λ t. topic_on source s' t.topic_id) s'.topic_tokens)
        ≡ 0)
      (move_each-rest target rows s).3
      (revoked (λ t. topic_on source s' t.topic_id) s'.topic_tokens)

unclaimed-MayAbandon :
    (source user_id : ℕ) (s : AccountStore)
    → claimed_by_somebody_else source user_id s ≡ false
    → MayAbandon (some user_id) source s
unfolding claimed_by_somebody_else
unclaimed-MayAbandon source user_id s h =
    elim (Bool-cases (holds_any (account_identities source s))) [
      | inr e ↦ inl e
      | inl e ↦ inr (ground (arith, h, e))
    ]

-- Somebody else's account has an identity.
claimed-holds :
    (account_id user_id : ℕ) (s : AccountStore)
    → claimed_by_somebody_else account_id user_id s ≡ true
    → holds_any (account_identities account_id s) ≡ true
unfolding claimed_by_somebody_else
claimed-holds account_id user_id s h = ground (arith, h)

switch_to-SwitchEffect :
    (user_id source target : ℕ) (s : AccountStore)
    → identity_account user_id s ≡ some target
    → SwitchEffect (some user_id) source target s (switch_to user_id source target s)
unfolding switch_to
switch_to-SwitchEffect user_id source target s owned = elim (Bool-cases (source == target)) [
  | inl e ↦ rw e (refl, (user_id, refl, owned), inl ((==_iff source target).0 e, refl))
  | inr e ↦ elim (Bool-cases (claimed_by_somebody_else source user_id s)) [
    | inl e' ↦ rw (e, e') (e, claimed-holds source user_id s e', refl)
    | inr e' ↦
        rw (e, e')
          (
            refl,
            (user_id, refl, owned),
            inr (
              e,
              unclaimed-MayAbandon source user_id s e',
              Abandoned-revoked source target s (==_sym source target e),
              topic_tokens-revoked source target s,
            ),
          )
  ]
]

is_account-owned : (o : Option ℕ) (id : ℕ) → is_account o id ≡ true → o ≡ some id
is_account-owned none id h = cc
is_account-owned (some account_id) id h = ap some ((==_iff account_id id).0 h)

is_account-other : (o : Option ℕ) (id : ℕ) → is_account o id ≡ false → o ≢ some id
is_account-other o id h e = ground (arith, h, e)

-- An account switch writes nothing where it is refused: the identity's account is not the one that
-- was asked for, or the account that would be left has identities and the user's is none of them. Nor
-- does a switch to the account that the device is on already. After any other the account that is
-- left has no device, no identity and no token of its topics that could still publish; its devices
-- and identities are all on the account that was asked for, which is the identity's own, no other
-- device or identity has moved, and it points there and can no longer be joined.
pub switch_account_effect :
    (resolve : String → Option ℕ) (source_account : ℕ) (identity_token : String) (into_account : ℕ)
    (s : AccountStore)
    → SwitchEffect
        (resolve identity_token)
        (live_account source_account s)
        (live_account into_account s)
        s
        (switch_account resolve source_account identity_token into_account s)
unfolding switch_account
switch_account_effect resolve source_account identity_token into_account s =
    let source = live_account source_account s in
    let into = live_account into_account s in
    elim (Option-cases (resolve identity_token)) [
      | inl e ↦ rw (e, switch_account) (inl refl, refl)
      | inr (user_id, e) ↦ elim (Bool-cases (is_account (identity_account user_id s) into)) [
        | inl owned ↦
            rw (e, switch_account, owned)
              (switch_to-SwitchEffect user_id source into s
                (is_account-owned (identity_account user_id s) into owned))
        | inr other ↦
            rw (e, switch_account, other)
              (inr (user_id, refl, is_account-other (identity_account user_id s) into other), refl)
      ]
    ]

-- The user had no account, and there is one identity row more.
abbrev pub Joined : Option ℕ → ℕ → (now : ℕ) → AccountStore → AccountStore → Type 0
Joined user source now s s' =
    (user_id : ℕ) × (user ≡ some user_id)
    × (identity_account user_id s ≡ none)
    × (s' ≡ record s {
      identities =
          s.identities ++ record { user_id = user_id; account_id = source; linked_at = now } ∷ [];
    })

abbrev pub AccountHolds : ℕ → AccountStore → Type 0
AccountHolds source s =
    (1 ≤ (account_content source s).topics) ⊎ (1 ≤ (account_content source s).incidents)

-- What `linkIdentity` does, by its answer.
abbrev pub LinkEffect :
    Option ℕ → ℕ → LinkIntent → (now : ℕ) → AccountStore → LinkOutcome × AccountStore → Type 0
LinkEffect user source intent now s (claimed id, s') =
    (id ≡ source) × (holds_any (account_identities source s) ≡ false) × Joined user source now s s'
LinkEffect user source intent now s (linked id, s') =
    (id ≡ source)
    × (intent ≡ link)
    × (holds_any (account_identities source s) ≡ true)
    × Joined user source now s s'
LinkEffect user source intent now s (attached id, s') =
    ((id == source) ≡ false)
    × ((intent ≡ link) ⊎ MayAbandon user source s)
    × Names user (some id) s
    × (account_content source s ≡ record { topics = 0; incidents = 0 })
    × Abandoned source id s s'
LinkEffect user source intent now s (already_linked id, s') =
    (id ≡ source) × Names user (some id) s × (s' ≡ s)
LinkEffect user source intent now s (link_unauthorized, s') = (user ≡ none) × (s' ≡ s)
LinkEffect user source intent now s (other_identity, s') =
    (intent ≡ sign_in) × (holds_any (account_identities source s) ≡ true) × (s' ≡ s)
LinkEffect user source intent now s (other_account, s') =
    (intent ≡ link) × AccountHolds source s × ((id : ℕ) × Names user (some id) s) × (s' ≡ s)
LinkEffect user source intent now s (choose id topics incidents, s') =
    (intent ≡ sign_in)
    × AccountHolds source s
    × Names user (some id) s
    × (account_content source s ≡ record { topics = topics; incidents = incidents })
    × (s' ≡ s)
