-- ===== src/Accounts/Erase/References.antt =====
-- src/v1/accounts.ts: the foreign keys that the erase of an account keeps.
use critalarm_server.Prelude.{
  ℕ, ◌==◌, ◌≤◌, leb, Bool, false, ◌&&◌, Option, none, some, List, [], ◌∷◌, ◌≡◌, refl, inl, inr,
  Bool-cases, arith, select, count_where, count_where-kept, delete_where, All,
}
use critalarm_server.Accounts.Types.{AccountRow, AccountStore}
use critalarm_server.Accounts.Identities.{includes_id}
use critalarm_server.Accounts.Merge.{topic_in}
use critalarm_server.Accounts.Erase.{delete_family, is_named_by, names_family}
use critalarm_server.Accounts.Erase.Links.{LinksTo, All-LinksTo, update_where-unlink_message}

-- Each row of the second table names a row of the first.
abbrev Refers {ℓ κ} : {A : Type ℓ} {B : Type κ} → (A → ℕ) → (B → ℕ) → List A → List B → Type 0
Refers key ref rows = All (λ b. 1 ≤ count_where (λ a. key a == ref b) rows)

abbrev MergesInto : List AccountRow → Option ℕ → Type 0
MergesInto accounts none = Unit
MergesInto accounts (some into) = 1 ≤ count_where (λ a. a.id == into) accounts

-- The foreign keys of the tables: no row names one that is not there. A message's incident is one of
-- its topic.
pub record IsReferenced (s : AccountStore) : Type 0 where
  pub merged_into : All (λ a. MergesInto s.accounts a.merged_into) s.accounts
  pub devices : Refers (λ a. a.id) (λ d. d.account_id) s.accounts s.devices
  pub device_tokens : Refers (λ d. d.id) (λ t. t.device_id) s.devices s.device_tokens
  pub subscriptions : Refers (λ d. d.id) (λ r. r.device_id) s.devices s.subscriptions
  pub device_checks : Refers (λ d. d.id) (λ r. r.device_id) s.devices s.device_checks
  pub identities : Refers (λ a. a.id) (λ i. i.account_id) s.accounts s.identities
  pub billing_ids : Refers (λ a. a.id) (λ b. b.account_id) s.accounts s.billing_ids
  pub pack_grants : Refers (λ a. a.id) (λ p. p.owner) s.accounts s.pack_grants
  pub p4_usage : Refers (λ a. a.id) (λ u. u.account_id) s.accounts s.p4_usage
  pub tier_changes : Refers (λ a. a.id) (λ c. c.account_id) s.accounts s.tier_changes
  pub topics : Refers (λ a. a.id) (λ t. t.account_id) s.accounts s.engine.topics
  pub topic_tokens : Refers (λ t. t.id) (λ t. t.topic_id) s.engine.topics s.topic_tokens
  pub incidents : Refers (λ t. t.id) (λ i. i.topic_id) s.engine.topics s.engine.incidents
  pub messages : Refers (λ t. t.id) (λ m. m.topic_id) s.engine.topics s.engine.messages
  pub links : All (λ m. LinksTo s.engine.incidents m.topic_id m.incident_id) s.engine.messages
  pub timers : Refers (λ i. i.id) (λ t. t.incident_id) s.engine.incidents s.engine.timers

module _ {ℓ} {A : Type ℓ} where
  -- A row that is not deleted is still found.
  found_after :
      (p gone : A → Bool) (xs : List A)
      → count_where (λ x. p x && gone x) xs ≡ 0
      → 1 ≤ count_where p xs
      → 1 ≤ count_where p (delete_where gone xs)
  found_after p gone xs apart found = omega (arith, count_where-kept p gone xs, apart, found)

  none_of_family :
      (key : A → ℕ) (family : List ℕ) (id : ℕ) (xs : List A)
      → includes_id id family ≡ false
      → count_where (λ x. (key x == id) && includes_id (key x) family) xs ≡ 0
  unfolding count_where
  none_of_family key family id [] out = refl
  none_of_family key family id (x ∷ xs) out = ground (arith, none_of_family key family id xs out)

  pub select-delete_where :
      (key : A → ℕ) (gone : ℕ → Bool) (id : ℕ) (xs : List A)
      → gone id ≡ false
      → select (λ x. key x == id) (delete_where (λ x. gone (key x)) xs)
        ≡ select (λ x. key x == id) xs
  unfolding select delete_where
  select-delete_where key gone id [] out = refl
  select-delete_where key gone id (x ∷ xs) out =
      ground (arith, select-delete_where key gone id xs out)

  pub All-stays : (gone : A → Bool) (xs : List A) → All (λ x. gone x ≡ false) (delete_where gone xs)
  unfolding delete_where
  All-stays gone [] = tt
  All-stays gone (x ∷ xs) = elim (Bool-cases (gone x)) [
    | inl e ↦ rw e (All-stays gone xs)
    | inr e ↦ rw e (e, All-stays gone xs)
  ]

module _ {ℓ κ} {A : Type ℓ} {B : Type κ} (key : A → ℕ) (ref : B → ℕ) where
  Refers-delete_where :
      (goneA : A → Bool) (goneB : B → Bool) (rows : List A) (bs : List B)
      → ((b : B) → goneB b ≡ false → count_where (λ a. (key a == ref b) && goneA a) rows ≡ 0)
      → Refers key ref rows bs
      → Refers key ref (delete_where goneA rows) (delete_where goneB bs)
  unfolding delete_where
  Refers-delete_where goneA goneB rows [] apart h = tt
  Refers-delete_where goneA goneB rows (b ∷ bs) apart h =
      let rest = Refers-delete_where goneA goneB rows bs apart h.1 in
      elim (Bool-cases (goneB b)) [
        | inl gone ↦ rw gone rest
        | inr stays ↦
            rw stays (found_after (λ a. key a == ref b) goneA rows (apart b stays) h.0, rest)
      ]

  -- The rows that go are those whose row goes.
  Refers-cascade :
      (goneA : A → Bool) (rows : List A) (bs : List B)
      → Refers key ref rows bs
      → Refers key ref
          (delete_where goneA rows)
          (delete_where (λ b. leb 1 (count_where (λ a. (key a == ref b) && goneA a) rows)) bs)
  Refers-cascade goneA rows bs h =
      Refers-delete_where goneA (λ b. leb 1 (count_where (λ a. (key a == ref b) && goneA a) rows))
        rows bs (λ b stays. ground (arith, stays)) h

  Refers-family :
      (family : List ℕ) (rows : List A) (bs : List B)
      → Refers key ref rows bs
      → Refers key ref
          (delete_where (λ a. includes_id (key a) family) rows)
          (delete_where (λ b. includes_id (ref b) family) bs)
  Refers-family family rows bs h =
      Refers-delete_where (λ a. includes_id (key a) family) (λ b. includes_id (ref b) family) rows
        bs (λ b stays. none_of_family key family (ref b) rows stays) h

MergesInto-stays :
    (family : List ℕ) (accounts : List AccountRow) (id : ℕ) (merged_into : Option ℕ)
    → includes_id id family ≡ false
    → is_named_by family id merged_into ≡ false
    → MergesInto accounts merged_into
    → MergesInto (delete_where (λ a. includes_id a.id family) accounts) merged_into
MergesInto-stays family accounts id none out unnamed h = tt
MergesInto-stays family accounts id (some into) out unnamed h =
    found_after (λ a. a.id == into) (λ a. includes_id a.id family) accounts
      (none_of_family (λ a. a.id) family into accounts (ground (arith, out, unnamed))) h

MergesInto-family :
    (family : List ℕ) (accounts rows : List AccountRow)
    → count_where (names_family family) rows ≡ 0
    → All (λ a. MergesInto accounts a.merged_into) rows
    → All
        (λ a. MergesInto (delete_where (λ b. includes_id b.id family) accounts) a.merged_into)
        (delete_where (λ a. includes_id a.id family) rows)
unfolding count_where delete_where
MergesInto-family family accounts [] unnamed h = tt
MergesInto-family family accounts (a ∷ rows) unnamed h =
    let rest = MergesInto-family family accounts rows (ground (arith, unnamed)) h.1 in
    elim (Bool-cases (includes_id a.id family)) [
      | inl e ↦ rw e rest
      | inr e ↦ rw e (
        MergesInto-stays family accounts a.id a.merged_into e (ground (arith, unnamed)) h.0,
        rest,
      )
    ]

pub delete_family-IsReferenced :
    (family : List ℕ) (s : AccountStore)
    → count_where (names_family family) s.accounts ≡ 0
    → IsReferenced s
    → IsReferenced (delete_family family s)
unfolding delete_family
delete_family-IsReferenced family s unnamed h = record {
  merged_into = MergesInto-family family s.accounts s.accounts unnamed h.merged_into;
  devices = Refers-family (λ a. a.id) (λ d. d.account_id) family s.accounts s.devices h.devices;
  device_tokens =
      Refers-cascade (λ d. d.id) (λ t. t.device_id) (λ d. includes_id d.account_id family) s.devices
        s.device_tokens h.device_tokens;
  subscriptions =
      Refers-cascade (λ d. d.id) (λ r. r.device_id) (λ d. includes_id d.account_id family) s.devices
        s.subscriptions h.subscriptions;
  device_checks =
      Refers-cascade (λ d. d.id) (λ r. r.device_id) (λ d. includes_id d.account_id family) s.devices
        s.device_checks h.device_checks;
  identities =
      Refers-family (λ a. a.id) (λ i. i.account_id) family s.accounts s.identities h.identities;
  billing_ids =
      Refers-family (λ a. a.id) (λ b. b.account_id) family s.accounts s.billing_ids h.billing_ids;
  pack_grants =
      Refers-family (λ a. a.id) (λ p. p.owner) family s.accounts s.pack_grants h.pack_grants;
  p4_usage = Refers-family (λ a. a.id) (λ u. u.account_id) family s.accounts s.p4_usage h.p4_usage;
  tier_changes =
      Refers-family (λ a. a.id) (λ c. c.account_id) family s.accounts s.tier_changes h.tier_changes;
  topics = Refers-family (λ a. a.id) (λ t. t.account_id) family s.accounts s.engine.topics h.topics;
  topic_tokens =
      Refers-cascade (λ t. t.id) (λ t. t.topic_id) (λ t. includes_id t.account_id family)
        s.engine.topics s.topic_tokens h.topic_tokens;
  incidents =
      Refers-cascade (λ t. t.id) (λ i. i.topic_id) (λ t. includes_id t.account_id family)
        s.engine.topics s.engine.incidents h.incidents;
  messages = rw (update_where-unlink_message family s s.engine.messages h.links) (
      Refers-cascade (λ t. t.id) (λ m. m.topic_id) (λ t. includes_id t.account_id family)
        s.engine.topics s.engine.messages h.messages);
  links =
      rw (update_where-unlink_message family s s.engine.messages h.links)
        (All-LinksTo (topic_in family s) s.engine.incidents s.engine.messages h.links);
  timers =
      Refers-cascade (λ i. i.id) (λ t. t.incident_id) (λ i. topic_in family s i.topic_id)
        s.engine.incidents s.engine.timers h.timers;
}
